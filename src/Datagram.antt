-- ===== src/Datagram.antt =====
-- proto/include/loom/proto/datagram.hpp, proto/src/datagram.cpp: the 12-byte header of a media
-- datagram. `bytes[k]` stands behind the test of the size, so it is in range.
pub mod RoundTrip
pub mod Accepts
use Prim.Native.String.{String}
use loom_client.Common.{
  ℕ, ◌+◌, ◌*◌, ◌/◌, ◌%◌, ◌^◌, bit_and, bit_or, be_u32, ◌-◌, Bool, true, false, not, ◌&&◌, ◌||◌,
  List, [], ◌∷◌, ◌++◌, length, get_or, ltb, leb, ◌==◌, if◌then◌else◌,
}
use loom_client.Result.{Result, ok, err}

abbrev pub magic : ℕ
magic = 0x4c

abbrev pub flag_keyframe : ℕ
flag_keyframe = 0x01

abbrev pub flag_last_fragment : ℕ
flag_last_fragment = 0x02

abbrev pub header_len : ℕ
header_len = 12

abbrev pub max_datagram_len : ℕ
max_datagram_len = 1350

pub record DatagramHeader : Type 0 where
  pub keyframe : Bool
  pub last_fragment : Bool
  pub stream_id : ℕ
  pub frame_seq : ℕ
  pub frag_index : ℕ
  pub frag_count : ℕ

-- `static_cast<std::uint16_t>(frag_count - 1)`
abbrev pub last_index : ℕ → ℕ
last_index frag_count = (frag_count + 2 ^ 16 - 1) % 2 ^ 16

unfoldable pub make_header : Bool → ℕ → ℕ → ℕ → ℕ → DatagramHeader
make_header keyframe stream_id frame_seq frag_index frag_count =
    let last = ltb 0 frag_count && frag_index == last_index frag_count in
    record {
      keyframe = keyframe;
      last_fragment = last;
      stream_id = stream_id;
      frame_seq = frame_seq;
      frag_index = frag_index;
      frag_count = frag_count;
    }

unfoldable pub flags_byte : DatagramHeader → ℕ
flags_byte h =
    let f = if h.keyframe then bit_or 0 flag_keyframe else 0 in
    if h.last_fragment then bit_or f flag_last_fragment else f

abbrev u8 : ℕ → ℕ
u8 x = x % 256

unfoldable pub encode_header : DatagramHeader → List ℕ
unfolding flags_byte
encode_header h =
    magic
    ∷ flags_byte h
    ∷ u8 (h.stream_id / 2 ^ 8)
    ∷ u8 h.stream_id
    ∷ u8 (h.frame_seq / 2 ^ 24)
    ∷ u8 (h.frame_seq / 2 ^ 16)
    ∷ u8 (h.frame_seq / 2 ^ 8)
    ∷ u8 h.frame_seq
    ∷ u8 (h.frag_index / 2 ^ 8)
    ∷ u8 h.frag_index
    ∷ u8 (h.frag_count / 2 ^ 8)
    ∷ u8 h.frag_count
    ∷ []

unfoldable pub encode_datagram : DatagramHeader → List ℕ → List ℕ
unfolding encode_header
encode_datagram h payload = encode_header h ++ payload

pub data DropReason : Type 0 where
  too_short oversize bad_magic frag_count_zero : DropReason
  frag_index_range last_fragment_mismatch unknown_stream : DropReason

unfoldable pub to_string : DropReason → String
to_string too_short = "too_short"
to_string oversize = "oversize"
to_string bad_magic = "bad_magic"
to_string frag_count_zero = "frag_count_zero"
to_string frag_index_range = "frag_index_range"
to_string last_fragment_mismatch = "last_fragment_mismatch"
to_string unknown_stream = "unknown_stream"

pub record DecodedDatagram : Type 0 where
  pub header : DatagramHeader
  pub payload_len : ℕ

abbrev pub byte_at : List ℕ → ℕ → ℕ
byte_at b k = get_or b k 0

unfoldable pub be16 : List ℕ → ℕ → ℕ
be16 b o = bit_or (byte_at b o * 2 ^ 8) (byte_at b (o + 1)) % 2 ^ 16

unfoldable pub be32 : List ℕ → ℕ → ℕ
be32 b o = be_u32 (byte_at b o) (byte_at b (o + 1)) (byte_at b (o + 2)) (byte_at b (o + 3))

-- The loop over the negotiated streams.
unfoldable pub negotiated : List ℕ → ℕ → Bool
negotiated [] stream_id = false
negotiated (s ∷ ss) stream_id = if s == stream_id then true else negotiated ss stream_id

abbrev beq : Bool → Bool → Bool
beq true b = b
beq false b = not b

unfoldable pub decode_with_streams : List ℕ → List ℕ → Result DecodedDatagram DropReason
decode_with_streams bytes extra_video_streams =
    let flags = byte_at bytes 1 in
    let stream_id = be16 bytes 2 in
    let frame_seq = be32 bytes 4 in
    let frag_index = be16 bytes 8 in
    let frag_count = be16 bytes 10 in
    let last = not (bit_and flags flag_last_fragment == 0) in
    let stream_ok = stream_id == 0 || stream_id == 1 || negotiated extra_video_streams stream_id in
    if ltb (length bytes) header_len
    then err too_short
    else if ltb max_datagram_len (length bytes)
    then err oversize
    else if not (byte_at bytes 0 == magic)
    then err bad_magic
    else if ltb frag_count 1
    then err frag_count_zero
    else if leb frag_count frag_index
    then err frag_index_range
    else if not (beq last (frag_index == last_index frag_count))
    then err last_fragment_mismatch
    else if not stream_ok
    then err unknown_stream
    else ok (record {
      header = record {
        keyframe = not (bit_and flags flag_keyframe == 0);
        last_fragment = last;
        stream_id = stream_id;
        frame_seq = frame_seq;
        frag_index = frag_index;
        frag_count = frag_count;
      };
      payload_len = length bytes - header_len;
    })

-- proto's `decode`: no stream is negotiated.
unfoldable pub decode : List ℕ → Result DecodedDatagram DropReason
unfolding decode_with_streams
decode bytes = decode_with_streams bytes []

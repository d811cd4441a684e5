-- ===== src/Datagram/RoundTrip.antt =====
-- proto/src/datagram.cpp: the decoder accepts what the encoder writes, and returns its header.
use loom_client.Common.{
  ℕ, ◌*◌, ◌/◌, ◌%◌, ◌^◌, ◌≤◌, ◌<◌, bit_and, bit_or, be_u32, be_u32_bytes, byte_or, ◌≡◌, refl, arith,
  Bool, true, false, not, List, length, leb, ◌==◌, if◌then◌else◌,
}
use loom_client.Result.{ok}
use loom_client.Datagram.{
  DatagramHeader, encode_datagram, be16, be32, negotiated, decode_with_streams, last_index,
}

-- What the C++ types say of a header, and what section 4 of the protocol does.
pub record IsValid (extra : List ℕ) (h : DatagramHeader) : Type 0 where
  pub stream_fits : h.stream_id < 2 ^ 16
  pub seq_fits : h.frame_seq < 2 ^ 32
  pub count_fits : h.frag_count < 2 ^ 16
  pub index_in_range : h.frag_index < h.frag_count
  pub last_iff : h.last_fragment ≡ (h.frag_index == last_index h.frag_count)
  pub known_stream : (if leb h.stream_id 1 then true else negotiated extra h.stream_id) ≡ true

u16_bytes : (x : ℕ) → x < 2 ^ 16 → bit_or (x / 2 ^ 8 % 256 * 2 ^ 8) (x % 256) % 2 ^ 16 ≡ x
u16_bytes x h = omega (arith, byte_or (x / 2 ^ 8 % 256) (x % 256) (omega arith))

u32_bytes :
    (x : ℕ)
    → x < 2 ^ 32
    → be_u32 (x / 2 ^ 24 % 256) (x / 2 ^ 16 % 256) (x / 2 ^ 8 % 256) (x % 256) ≡ x
u32_bytes x h = omega (
  arith,
  be_u32_bytes (x / 2 ^ 24 % 256) (x / 2 ^ 16 % 256) (x / 2 ^ 8 % 256) (x % 256) (omega arith)
      (omega arith) (omega arith) (omega arith),
)

flags_read :
    (k l : Bool)
    → let f = (if k then bit_or 0 1 else 0) in
      let b = (if l then bit_or f 2 else f) in
      (not (bit_and b 1 == 0) ≡ k) × (not (bit_and b 2 == 0) ≡ l)
flags_read true true = (refl, refl)
flags_read true false = (refl, refl)
flags_read false true = (refl, refl)
flags_read false false = (refl, refl)

-- A valid header with a payload that fits one datagram is read back as it was, with the payload's
-- length.
pub decode_with_streams-encode_datagram :
    (extra : List ℕ) (h : DatagramHeader) (payload : List ℕ)
    → IsValid extra h
    → length payload ≤ 1338
    → decode_with_streams (encode_datagram h payload) extra
      ≡ ok (record { header = h; payload_len = length payload })
unfolding decode_with_streams encode_datagram be16 be32
decode_with_streams-encode_datagram extra h payload v fits =
    rw
      (
        u16_bytes h.stream_id v.stream_fits,
        u32_bytes h.frame_seq v.seq_fits,
        u16_bytes h.frag_index (omega arith),
        u16_bytes h.frag_count v.count_fits,
        (flags_read h.keyframe h.last_fragment).0,
        (flags_read h.keyframe h.last_fragment).1,
      )
      (ground arith)

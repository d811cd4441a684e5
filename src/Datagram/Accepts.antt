-- ===== src/Datagram/Accepts.antt =====
-- proto/src/datagram.cpp: what an accepted datagram is, and which datagrams a negotiated stream
-- adds.
use loom_client.Common.{
  ℕ, zero, suc, ◌+◌, ◌*◌, ◌/◌, ◌%◌, ◌^◌, ◌≤◌, ◌<◌, bit_and, bit_or, be_u32_bytes, byte_or, ◌≡◌,
  refl, sym, ◌∙◌, ap, ◌||◌, arith, Bool, not, List, [], ◌∷◌, ◌++◌, length, drop, All, ◌≢◌, ◌==◌,
  if◌then◌else◌,
}
use loom_client.Result.{ok, err}
use loom_client.Datagram.{
  DecodedDatagram, unknown_stream, encode_datagram, byte_at, be16, be32, negotiated,
  decode_with_streams, magic,
}
use loom_client.Datagram.RoundTrip.{IsValid}

abbrev IsBytes : List ℕ → Type 0
IsBytes = All (λ x. x < 256)

byte_at-lt : (b : List ℕ) (k : ℕ) → IsBytes b → byte_at b k < 256
byte_at-lt [] k h = omega arith
byte_at-lt (x ∷ b) zero h = h.0
byte_at-lt (x ∷ b) (suc k) h = byte_at-lt b k h.1

be16-lt : (b : List ℕ) (k : ℕ) → be16 b k < 2 ^ 16
unfolding be16
be16-lt b k = omega arith

be32_value :
    (b : List ℕ) (k : ℕ)
    → IsBytes b
    → be32 b k
      ≡ byte_at b k * 2 ^ 24
        + byte_at b (k + 1) * 2 ^ 16
        + byte_at b (k + 2) * 2 ^ 8
        + byte_at b (k + 3)
unfolding be32
be32_value b k h =
    be_u32_bytes (byte_at b k) (byte_at b (k + 1)) (byte_at b (k + 2)) (byte_at b (k + 3))
      (byte_at-lt b k h) (byte_at-lt b (k + 1) h) (byte_at-lt b (k + 2) h) (byte_at-lt b (k + 3) h)

be32-lt : (b : List ℕ) (k : ℕ) → IsBytes b → be32 b k < 2 ^ 32
be32-lt b k h = omega (
  arith,
  be32_value b k h,
  byte_at-lt b k h,
  byte_at-lt b (k + 1) h,
  byte_at-lt b (k + 2) h,
  byte_at-lt b (k + 3) h,
)

-- An accepted datagram has 12 to 1350 bytes, begins with the magic byte, and its header has an
-- index below its count, the last-fragment flag exactly on the last index, and a stream that is 0,
-- 1 or negotiated; the payload is what follows the header.
pub decode_with_streams-IsValid :
    (b extra : List ℕ) (d : DecodedDatagram)
    → IsBytes b
    → decode_with_streams b extra ≡ ok d
    → IsValid extra d.header
      × (d.payload_len + 12 ≡ length b)
      × (length b ≤ 1350)
      × (byte_at b 0 ≡ magic)
unfolding decode_with_streams
decode_with_streams-IsValid b extra d hb e =
    ground (arith, be16-lt b 2, be16-lt b 8, be16-lt b 10, be32-lt b 4 hb)

be16_value : (b : List ℕ) (k : ℕ) → IsBytes b → be16 b k ≡ byte_at b k * 256 + byte_at b (k + 1)
unfolding be16
be16_value b k h = omega (
  arith,
  byte_or (byte_at b k) (byte_at b (k + 1)) (byte_at-lt b (k + 1) h),
  byte_at-lt b k h,
  byte_at-lt b (k + 1) h,
)

drop_step : (b : List ℕ) (k : ℕ) → k < length b → drop k b ≡ byte_at b k ∷ drop (suc k) b
drop_step [] k h = absurd (omega arith)
drop_step (x ∷ b) zero h = refl
drop_step (x ∷ b) (suc k) h = drop_step b k (omega arith)

-- A list of at least 12 bytes is its first 12 and the rest.
first_twelve :
    (b : List ℕ)
    → 12 ≤ length b
    → b
      ≡ byte_at b 0
        ∷ byte_at b 1
        ∷ byte_at b 2
        ∷ byte_at b 3
        ∷ byte_at b 4
        ∷ byte_at b 5
        ∷ byte_at b 6
        ∷ byte_at b 7
        ∷ byte_at b 8
        ∷ byte_at b 9
        ∷ byte_at b 10
        ∷ byte_at b 11
        ∷ drop 12 b
first_twelve b h = next 0 (omega arith) (
    next 1 (omega arith) (
      next 2 (omega arith) (
        next 3 (omega arith) (
          next 4 (omega arith) (
            next 5 (omega arith) (
              next 6 (omega arith) (
                next 7 (omega arith) (
                  next 8 (omega arith) (
                    next 9 (omega arith)
                      (next 10 (omega arith) (next 11 (omega arith) (refl))))))))))))
  where
    next : (k : ℕ) → k < length b → {t : List ℕ} → drop (suc k) b ≡ t → drop k b ≡ byte_at b k ∷ t
    next k hk e = drop_step b k hk ∙ ap (λ t. byte_at b k ∷ t) e

abbrev flag : ℕ → ℕ → Bool
flag x m = not (bit_and x m == 0)

-- Both flags of a byte without reserved bits.
flags_write :
    (x : ℕ)
    → x < 4
    → (if flag x 2
        then bit_or (if flag x 1 then bit_or 0 1 else 0) 2
        else if flag x 1
        then bit_or 0 1
        else 0)
      ≡ x
flags_write zero h = refl
flags_write (suc zero) h = refl
flags_write (suc (suc zero)) h = refl
flags_write (suc (suc (suc zero))) h = refl
flags_write (suc (suc (suc (suc x)))) h = absurd (omega arith)

accepted_fields :
    (b extra : List ℕ) (d : DecodedDatagram)
    → decode_with_streams b extra ≡ ok d
    → (12 ≤ length b)
      × (byte_at b 0 ≡ magic)
      × (d.header ≡ record {
        keyframe = flag (byte_at b 1) 1;
        last_fragment = flag (byte_at b 1) 2;
        stream_id = be16 b 2;
        frame_seq = be32 b 4;
        frag_index = be16 b 8;
        frag_count = be16 b 10;
      })
unfolding decode_with_streams
accepted_fields b extra d e = ground arith

be16_split :
    (b : List ℕ) (k : ℕ)
    → IsBytes b
    → (be16 b k / 2 ^ 8 % 256 ≡ byte_at b k) × (be16 b k % 256 ≡ byte_at b (k + 1))
be16_split b k h = omega (arith, be16_value b k h, byte_at-lt b k h, byte_at-lt b (k + 1) h)

be32_split :
    (b : List ℕ) (k : ℕ)
    → IsBytes b
    → (be32 b k / 2 ^ 24 % 256 ≡ byte_at b k)
      × (be32 b k / 2 ^ 16 % 256 ≡ byte_at b (k + 1))
      × (be32 b k / 2 ^ 8 % 256 ≡ byte_at b (k + 2))
      × (be32 b k % 256 ≡ byte_at b (k + 3))
be32_split b k h = omega (
  arith,
  be32_value b k h,
  byte_at-lt b k h,
  byte_at-lt b (k + 1) h,
  byte_at-lt b (k + 2) h,
  byte_at-lt b (k + 3) h,
)

-- The decoded header holds the bytes: with no reserved flag bit set, encoding it and appending the
-- bytes behind the header gives the datagram back.
pub encode_datagram-decode_with_streams :
    (b extra : List ℕ) (d : DecodedDatagram)
    → IsBytes b
    → byte_at b 1 < 4
    → decode_with_streams b extra ≡ ok d
    → encode_datagram d.header (drop 12 b) ≡ b
unfolding encode_datagram
encode_datagram-decode_with_streams b extra d hb flags e =
    let (size, first, header) = accepted_fields b extra d e in
    let (s0, s1) = be16_split b 2 hb in
    let (w0, w1, w2, w3) = be32_split b 4 hb in
    let (i0, i1) = be16_split b 8 hb in
    let (c0, c1) = be16_split b 10 hb in
    rw (header, flags_write (byte_at b 1) flags, s0, s1, w0, w1, w2, w3, i0, i1, c0, c1)
      (rw first at (sym (first_twelve b size)))

negotiated-append :
    (extra more : List ℕ) (s : ℕ)
    → negotiated (extra ++ more) s ≡ (negotiated extra s || negotiated more s)
unfolding negotiated
negotiated-append [] more s = refl
negotiated-append (x ∷ extra) more s = ground (arith, negotiated-append extra more s)

-- A stream that is negotiated in addition changes the answer only where it was `unknown_stream`.
pub decode_with_streams-negotiated :
    (b extra more : List ℕ)
    → decode_with_streams b extra ≢ err unknown_stream
    → decode_with_streams b (extra ++ more) ≡ decode_with_streams b extra
unfolding decode_with_streams
decode_with_streams-negotiated b extra more h =
    ground (arith, negotiated-append extra more (be16 b 2))

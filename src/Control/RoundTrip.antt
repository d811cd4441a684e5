-- ===== src/Control/RoundTrip.antt =====
-- proto/src/control.cpp: a frame that `encode_frame` wrote, whole and cut short.
use loom_client.Common.{
  ℕ, zero, suc, ◌/◌, ◌%◌, ◌^◌, ◌≤◌, ◌<◌, be_u32_bytes, ◌≡◌, refl, arith, some, List, [], ◌∷◌, ◌++◌,
  append-nil, length, length-append, length-take, take, take-append, lt→ltb,
}
use loom_client.Result.{ok, err}
use loom_client.Cbor.{Fields, map, IsRepresentable}
use loom_client.Cbor.Encode.{encode_canonical}
use loom_client.Cbor.Decode.{decode}
use loom_client.Cbor.Canon.{canon, members, sort_members, to_fields}
use loom_client.Cbor.RoundTrip.{decode-encode_canonical}
use loom_client.Control.{
  protocol_violation, known_keys, envelope, registered, encode_frame, decode_frame, open_envelope,
  frame_len,
}

-- The body of a map in the order of its encoded keys, its values as they are read back.
abbrev pub canon_body : Fields → Fields
canon_body body = to_fields (sort_members (members body))

pub frame_len-encode :
    (n : ℕ) (payload : List ℕ)
    → n < 2 ^ 32
    → frame_len (n / 2 ^ 24 % 256 ∷ n / 2 ^ 16 % 256 ∷ n / 2 ^ 8 % 256 ∷ n % 256 ∷ payload) ≡ n
frame_len-encode n payload h = omega (
  arith,
  be_u32_bytes (n / 2 ^ 24 % 256) (n / 2 ^ 16 % 256) (n / 2 ^ 8 % 256) (n % 256) (omega arith)
      (omega arith) (omega arith) (omega arith),
)

-- Behind the length tests the decoder opens the body that the length field cuts out.
pub decode_frame-framed :
    (n : ℕ) (payload rest : List ℕ)
    → n ≡ length payload
    → n ≤ 65536
    → decode_frame
        (n / 2 ^ 24 % 256 ∷ n / 2 ^ 16 % 256 ∷ n / 2 ^ 8 % 256 ∷ n % 256 ∷ (payload ++ rest))
      ≡ open_envelope (decode payload)
unfolding decode_frame
decode_frame-framed n payload rest size fits =
    let cut : take n (payload ++ rest) ≡ payload = rw size (take-append payload rest) in
    rw (frame_len-encode n (payload ++ rest) (omega arith))
      (ground (arith, cut, length-append payload rest))

-- A frame decodes to its message, whatever bytes follow it: the type, and of the body the keys that
-- the registry knows for it; a type that is not registered is ignored. The encoded message must
-- fit the frame limit.
pub decode_frame-encode_frame :
    (t : ℕ) (body : Fields) (rest : List ℕ)
    → t < 2 ^ 63
    → IsRepresentable (map body)
    → length (encode_canonical (envelope t body)) ≤ 65536
    → decode_frame (encode_frame t body ++ rest)
      ≡ ok (registered t (canon_body body) (known_keys t))
unfolding encode_frame open_envelope canon
decode_frame-encode_frame t body rest ht hb fits =
    let payload = encode_canonical (envelope t body) in
    let small : length payload % 2 ^ 32 ≡ length payload = omega arith in
    let read : decode payload ≡ some (canon (envelope t body)) =
      rw append-nil at (decode-encode_canonical (envelope t body) [] representable) in
    rw (
      small,
      decode_frame-framed (length payload) payload rest refl fits,
      read,
      lt→ltb t (2 ^ 63) ht,
    )
  where
    representable : IsRepresentable (envelope t body)
    representable = (omega arith, (rw (lt→ltb t (2 ^ 63) ht) ht, (hb, tt)))

take_short : (n : ℕ) (b : List ℕ) → n ≤ length b → length (take n b) ≡ n
take_short n b h = omega (arith, length-take n b)

-- The bytes of a frame that was cut short behind its length field.
cut_behind_field :
    (n : ℕ) (payload : List ℕ) (k : ℕ)
    → n ≡ length payload
    → n < 2 ^ 32
    → k < n
    → decode_frame
        (n / 2 ^ 24 % 256 ∷ n / 2 ^ 16 % 256 ∷ n / 2 ^ 8 % 256 ∷ n % 256 ∷ take k payload)
      ≡ err protocol_violation
unfolding decode_frame
cut_behind_field n payload k size small short =
    rw (frame_len-encode n (take k payload) small)
      (ground (arith, take_short k payload (omega arith)))

short_of_field : (b : List ℕ) → length b < 4 → decode_frame b ≡ err protocol_violation
unfolding decode_frame
short_of_field b h = ground arith

-- An encoded message that is cut short anywhere, in its length field or in its body, is refused: no
-- proper prefix of a frame decodes. The encoded envelope must be shorter than 2^32 bytes.
pub decode_frame-take :
    (t : ℕ) (body : Fields) (k : ℕ)
    → length (encode_canonical (envelope t body)) < 2 ^ 32
    → k < length (encode_frame t body)
    → decode_frame (take k (encode_frame t body)) ≡ err protocol_violation
unfolding encode_frame
decode_frame-take t body zero small short = short_of_field [] (omega arith)
decode_frame-take t body (suc zero) small short = short_of_field _ (omega arith)
decode_frame-take t body (suc (suc zero)) small short = short_of_field _ (omega arith)
decode_frame-take t body (suc (suc (suc zero))) small short = short_of_field _ (omega arith)
decode_frame-take t body (suc (suc (suc (suc k)))) small short =
    let payload = encode_canonical (envelope t body) in
    let n = length payload in
    let whole : n % 2 ^ 32 ≡ n = omega arith in
    rw whole (cut_behind_field n payload k refl small (omega arith))

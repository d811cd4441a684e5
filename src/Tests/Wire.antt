-- ===== src/Tests/Wire.antt =====
-- The theorems on proto/src/cbor.cpp, datagram.cpp and control.cpp at concrete inputs.
use loom_client.Common.{
  ℕ, ◌+◌, ◌≤◌, pos, negsuc, be_u32, ◌≡◌, refl, arith, true, some, List, [], ◌∷◌, ◌++◌, length, take,
  get_or, ap,
}
use loom_client.Result.{ok, err}
use loom_client.Cbor.{
  Value, Fields, null, boolean, integer, text, array, map, floating, no_items, item, no_fields,
  field, IsRepresentable,
}
use loom_client.Cbor.Encode.{
  encode_canonical, put_head, push_be, sort_entries, insert_entry, lex_lt, concat_entries,
}
use loom_client.Cbor.Decode.{ok, decode, decode_item, decode_major, read_arg}
use loom_client.Cbor.Canon.{canon}
use loom_client.Cbor.Ends.{Ends}
use loom_client.Cbor.RoundTrip.{decode-encode_canonical}
use loom_client.Cbor.Reorder.{Reordered, swapped, encode_canonical-Reordered}
use loom_client.Cbor.Total.{ReadsItem, decode_item_total}
use loom_client.Datagram.{
  DatagramHeader, encode_datagram, decode_with_streams, be16, be32, negotiated, byte_at, magic,
}
use loom_client.Datagram.RoundTrip.{IsValid, decode_with_streams-encode_datagram}
use loom_client.Datagram.Accepts.{decode_with_streams-IsValid, encode_datagram-decode_with_streams}
use loom_client.Control.{
  Decoded, message, protocol_violation, registered, known_keys, keys_upto, open_envelope,
  filter_known, contains, encode_frame, decode_frame, envelope, clock_pong,
}
use loom_client.Control.RoundTrip.{canon_body, decode_frame-encode_frame, decode_frame-take}
use loom_client.Control.Accepts.{IsClean, decode_frame-IsClean}

-- A map whose keys are not yet in order, with a list, a text and a float.
abbrev nested : Value
nested = map (
    field (integer (pos 10)) (array (item (integer (negsuc 999)) (item null no_items))) (
      field (integer (negsuc 0)) (text (0x61 ∷ []))
        (field (integer (pos 1)) (floating 0x3ff8000000000000) no_fields)))

nested-IsRepresentable : IsRepresentable nested
nested-IsRepresentable = ground arith

decode-encode_canonical_example :
    decode (encode_canonical nested ++ 0xff ∷ []) ≡ some (canon nested)
decode-encode_canonical_example = decode-encode_canonical nested (0xff ∷ []) nested-IsRepresentable

-- The array [5, "a"] with a longer head than it needs, and a byte behind it.
abbrev padded_array : List ℕ
padded_array = 0x98 ∷ 0x02 ∷ 0x05 ∷ 0x61 ∷ 0x61 ∷ 0xff ∷ []

decode_item_total_example : Ends (ReadsItem 6) (decode_item 13 padded_array)
decode_item_total_example = decode_item_total 13 padded_array (omega arith) (ground arith)

abbrev pair : Value
pair = array (item (integer (pos 5)) (item (text (0x61 ∷ [])) no_items))

padded_array_read : decode padded_array ≡ some pair
unfolding decode decode_item decode_major read_arg
padded_array_read = refl

-- The last of three fragments of a keyframe on stream 2.
abbrev third : DatagramHeader
third = record {
  keyframe = true;
  last_fragment = true;
  stream_id = 2;
  frame_seq = 70000;
  frag_index = 2;
  frag_count = 3;
}

third-IsValid : IsValid (2 ∷ []) third
unfolding negotiated
third-IsValid = record {
  stream_fits = omega arith;
  seq_fits = omega arith;
  count_fits = omega arith;
  index_in_range = omega arith;
  last_iff = refl;
  known_stream = refl;
}

decode_with_streams-encode_datagram_example :
    decode_with_streams (encode_datagram third (7 ∷ 8 ∷ [])) (2 ∷ [])
    ≡ ok (record { header = third; payload_len = 2 })
decode_with_streams-encode_datagram_example =
    decode_with_streams-encode_datagram (2 ∷ []) third (7 ∷ 8 ∷ []) third-IsValid (omega arith)

abbrev third_bytes : List ℕ
third_bytes = 0x4c ∷ 3 ∷ 0 ∷ 2 ∷ 0 ∷ 1 ∷ 0x11 ∷ 0x70 ∷ 0 ∷ 2 ∷ 0 ∷ 3 ∷ 7 ∷ 8 ∷ []

third_read :
    decode_with_streams third_bytes (2 ∷ []) ≡ ok (record { header = third; payload_len = 2 })
unfolding decode_with_streams be16 be32 be_u32 negotiated
third_read = refl

decode_with_streams-IsValid_example :
    IsValid (2 ∷ []) third
    × (2 + 12 ≡ length third_bytes)
    × (length third_bytes ≤ 1350)
    × (byte_at third_bytes 0 ≡ magic)
decode_with_streams-IsValid_example =
    decode_with_streams-IsValid third_bytes (2 ∷ []) (record { header = third; payload_len = 2 })
      (ground arith) third_read

encode_datagram-decode_with_streams_example : encode_datagram third (7 ∷ 8 ∷ []) ≡ third_bytes
encode_datagram-decode_with_streams_example =
    encode_datagram-decode_with_streams third_bytes (2 ∷ [])
      (record { header = third; payload_len = 2 }) (ground arith) (omega arith) third_read

-- A CLOCK_PONG with a key that the registry does not know.
abbrev pong_body : Fields
pong_body = field (integer (pos 9)) (boolean true) (
    field (integer (pos 0)) (integer (pos 100))
      (field (integer (pos 1)) (integer (pos 250)) no_fields))

pong_body-IsRepresentable : IsRepresentable (map pong_body)
pong_body-IsRepresentable = ground arith

pong_fits : length (encode_canonical (envelope clock_pong pong_body)) ≤ 65536
unfolding encode_canonical put_head push_be sort_entries insert_entry lex_lt concat_entries
pong_fits = omega arith

decode_frame-encode_frame_example :
    decode_frame (encode_frame clock_pong pong_body ++ 1 ∷ 2 ∷ [])
    ≡ ok (registered clock_pong (canon_body pong_body) (known_keys clock_pong))
decode_frame-encode_frame_example =
    decode_frame-encode_frame clock_pong pong_body (1 ∷ 2 ∷ []) (omega arith)
      pong_body-IsRepresentable pong_fits

-- [0x41, {0: 0, 9: true}]: a BYE with a key that is not known.
abbrev bye_bytes : List ℕ
bye_bytes = 0 ∷ 0 ∷ 0 ∷ 8 ∷ 0x82 ∷ 0x18 ∷ 0x41 ∷ 0xa2 ∷ 0x00 ∷ 0x00 ∷ 0x09 ∷ 0xf5 ∷ []

abbrev bye_read : Decoded
bye_read = record {
  kind = message;
  msg_type = 0x41;
  body = field (integer (pos 0)) (integer (pos 0)) no_fields;
}

bye_decoded : decode_frame bye_bytes ≡ ok bye_read
unfolding decode_frame open_envelope known_keys keys_upto filter_known contains decode decode_item
    decode_major read_arg be_u32
bye_decoded = refl

decode_frame-IsClean_example : IsClean bye_read
decode_frame-IsClean_example = decode_frame-IsClean bye_bytes bye_read bye_decoded

pong_length : length (encode_canonical (envelope clock_pong pong_body)) ≡ 12
unfolding encode_canonical put_head push_be sort_entries insert_entry lex_lt concat_entries
pong_length = refl

-- CLOCK_PONG without its last byte.
decode_frame-take_example :
    decode_frame (take 15 (encode_frame clock_pong pong_body)) ≡ err protocol_violation
unfolding encode_frame
decode_frame-take_example =
    decode_frame-take clock_pong pong_body 15 (omega (arith, pong_length))
      (omega (arith, pong_length))

nine_before_zero :
    Reordered
      (field (integer (pos 9)) null (field (integer (pos 0)) (boolean true) no_fields))
      (field (integer (pos 0)) (boolean true) (field (integer (pos 9)) null no_fields))
unfolding encode_canonical put_head
nine_before_zero =
    swapped (integer (pos 9)) null (integer (pos 0)) (boolean true) no_fields
      (λ e. let h : 9 ≡ 0 = ap (λ l. get_or l 0 0) e in omega (arith, h))

encode_canonical-Reordered_example :
    encode_canonical
      (map (field (integer (pos 9)) null (field (integer (pos 0)) (boolean true) no_fields)))
    ≡ encode_canonical
        (map (field (integer (pos 0)) (boolean true) (field (integer (pos 9)) null no_fields)))
encode_canonical-Reordered_example =
    encode_canonical-Reordered
      (field (integer (pos 9)) null (field (integer (pos 0)) (boolean true) no_fields))
      (field (integer (pos 0)) (boolean true) (field (integer (pos 9)) null no_fields))
      nine_before_zero

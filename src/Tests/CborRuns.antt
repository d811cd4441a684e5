-- ===== src/Tests/CborRuns.antt =====
-- The encoder and the decoder of proto/src/cbor.cpp on concrete values.
use loom_client.Common.{◌≡◌, refl, pos, negsuc, true, some, none, [], ◌∷◌}
use loom_client.Cbor.{
  Value, null, boolean, integer, text, array, map, floating, no_items, item, no_fields, field,
}
use loom_client.Cbor.Float.{f16_to_f32, f32_to_f16, widen, narrow}
use loom_client.Cbor.Encode.{
  encode_canonical, put_head, push_be, encode_float, sort_entries, insert_entry, lex_lt,
  concat_entries,
}
use loom_client.Cbor.Decode.{decode, decode_item, decode_major, read_arg}

abbrev sample : Value
sample = map (
    field (integer (pos 10)) (array (item (integer (negsuc 999)) (item null no_items))) (
      field (integer (negsuc 0)) (text (0x61 ∷ []))
        (field (integer (pos 1)) (boolean true) no_fields)))

sample_encoded :
    encode_canonical sample
    ≡ 0xa3 ∷ 0x01 ∷ 0xf5 ∷ 0x0a ∷ 0x82 ∷ 0x39 ∷ 0x03 ∷ 0xe7 ∷ 0xf6 ∷ 0x20 ∷ 0x61 ∷ 0x61 ∷ []
unfolding encode_canonical put_head push_be sort_entries insert_entry lex_lt concat_entries
sample_encoded = refl

-- 1.5, 100000.0, 1.1, 2 ^ -24 and -0.0
halves : encode_float 0x3ff8000000000000 ≡ 0xf9 ∷ 0x3e ∷ 0x00 ∷ []
unfolding encode_float narrow widen f32_to_f16 f16_to_f32 push_be
halves = refl

singles : encode_float 0x40f86a0000000000 ≡ 0xfa ∷ 0x47 ∷ 0xc3 ∷ 0x50 ∷ 0x00 ∷ []
unfolding encode_float narrow widen f32_to_f16 f16_to_f32 push_be
singles = refl

doubles :
    encode_float 0x3ff199999999999a
    ≡ 0xfb ∷ 0x3f ∷ 0xf1 ∷ 0x99 ∷ 0x99 ∷ 0x99 ∷ 0x99 ∷ 0x99 ∷ 0x9a ∷ []
unfolding encode_float narrow widen f32_to_f16 f16_to_f32 push_be
doubles = refl

least_half : encode_float 0x3e70000000000000 ≡ 0xf9 ∷ 0x00 ∷ 0x01 ∷ []
unfolding encode_float narrow widen f32_to_f16 f16_to_f32 push_be
least_half = refl

minus_zero : encode_float 0x8000000000000000 ≡ 0xf9 ∷ 0x80 ∷ 0x00 ∷ []
unfolding encode_float narrow widen f32_to_f16 f16_to_f32 push_be
minus_zero = refl

-- The longer form of 5 is accepted, an indefinite length and a cut text are not.
padded : decode (0x19 ∷ 0x00 ∷ 0x05 ∷ []) ≡ some (integer (pos 5))
unfolding decode decode_item decode_major read_arg
padded = refl

indefinite : decode (0x9f ∷ 0x01 ∷ 0xff ∷ []) ≡ none
unfolding decode decode_item decode_major read_arg
indefinite = refl

cut : decode (0x63 ∷ 0x61 ∷ 0x62 ∷ []) ≡ none
unfolding decode decode_item decode_major read_arg
cut = refl

-- The half 0x3e00 is 1.5.
half_read : decode (0xf9 ∷ 0x3e ∷ 0x00 ∷ []) ≡ some (floating 0x3ff8000000000000)
unfolding decode decode_item decode_major read_arg f16_to_f32 widen
half_read = refl

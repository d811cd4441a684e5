-- ===== src/Cbor/Encode.antt =====
-- proto/src/cbor.cpp: the canonical encoder. A function that appends to `out` returns what it
-- appends.
use loom_client.Common.{
  ℕ, zero, suc, ◌*◌, ◌/◌, ◌%◌, ◌^◌, bit_or, pos, negsuc, Bool, true, false, List, [], ◌∷◌, ◌++◌,
  length, ltb, leb, if◌then◌else◌,
}
use loom_client.Cbor.{
  Value, Items, Fields, null, boolean, integer, bytes, text, array, map, floating, no_items, item,
  no_fields, field, items_size,
}
use loom_client.Cbor.Float.{f16_to_f32, f32_to_f16, is_nan64, feq32, feq64, widen, narrow}

abbrev pub u8 : ℕ → ℕ
u8 x = x % 256

-- `for (shift = (nbytes - 1) * 8; shift >= 0; shift -= 8) out.push_back((uint8_t)(arg >> shift))`
unfoldable pub push_be : ℕ → ℕ → List ℕ
push_be zero arg = []
push_be (suc n) arg = u8 (arg / 2 ^ (n * 8)) ∷ push_be n arg

unfoldable pub put_head : ℕ → ℕ → List ℕ
put_head major arg =
    let mt = u8 (major * 2 ^ 5) in
    if ltb arg 24
    then u8 (bit_or mt arg) ∷ []
    else if leb arg 0xff
    then u8 (bit_or mt 24) ∷ push_be 1 arg
    else if leb arg 0xffff
    then u8 (bit_or mt 25) ∷ push_be 2 arg
    else if leb arg 0xffffffff
    then u8 (bit_or mt 26) ∷ push_be 4 arg
    else u8 (bit_or mt 27) ∷ push_be 8 arg

unfoldable pub encode_float : ℕ → List ℕ
encode_float d =
    let f = narrow d in
    let h = f32_to_f16 f in
    if is_nan64 d
    then 0xf9 ∷ push_be 2 0x7e00
    else if feq64 (widen f) d
    then (if feq32 (f16_to_f32 h) f then 0xf9 ∷ push_be 2 h else 0xfa ∷ push_be 4 f)
    else 0xfb ∷ push_be 8 d

-- `a.first < b.first` on byte vectors: the lexicographic order.
unfoldable pub lex_lt : List ℕ → List ℕ → Bool
lex_lt [] [] = false
lex_lt [] (b ∷ bs) = true
lex_lt (a ∷ as') [] = false
lex_lt (a ∷ as') (b ∷ bs) = if ltb a b then true else if ltb b a then false else lex_lt as' bs

-- An encoded entry of a map: its key and its value.
abbrev pub Entry : Type 0
Entry = List ℕ × List ℕ

-- `std::sort` by the keys. It orders entries with equal keys in no stated way; here the one that was
-- behind comes first.
unfoldable pub insert_entry : Entry → List Entry → List Entry
insert_entry e [] = e ∷ []
insert_entry e (x ∷ xs) = if lex_lt e.0 x.0 then e ∷ x ∷ xs else x ∷ insert_entry e xs

unfoldable pub sort_entries : List Entry → List Entry
sort_entries [] = []
sort_entries (e ∷ es) = insert_entry e (sort_entries es)

unfoldable pub concat_entries : List Entry → List ℕ
concat_entries [] = []
concat_entries ((kb, vb) ∷ es) = kb ++ (vb ++ concat_entries es)

unfoldable mutual
  pub encode_canonical : Value → List ℕ
  encode_canonical null = 0xf6 ∷ []
  encode_canonical (boolean b) = (if b then 0xf5 else 0xf4) ∷ []
  encode_canonical (integer (pos i)) = put_head 0 i
  encode_canonical (integer (negsuc i)) = put_head 1 i
  encode_canonical (floating d) = encode_float d
  encode_canonical (bytes b) = put_head 2 (length b) ++ b
  encode_canonical (text s) = put_head 3 (length s) ++ s
  encode_canonical (array a) = put_head 4 (items_size a) ++ encode_items a
  encode_canonical (map m) =
      put_head 5 (length (encode_entries m)) ++ concat_entries (sort_entries (encode_entries m))

  pub encode_items : Items → List ℕ
  encode_items no_items = []
  encode_items (item v vs) = encode_canonical v ++ encode_items vs

  pub encode_entries : Fields → List Entry
  encode_entries no_fields = []
  encode_entries (field k v fs) = (encode_canonical k, encode_canonical v) ∷ encode_entries fs

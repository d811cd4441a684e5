-- ===== src/Cbor/RoundTrip.antt =====
-- proto/src/cbor.cpp: the decoder reads back what the canonical encoder writes.
use loom_client.Common.{
  ℕ, zero, suc, ◌+◌, ◌*◌, ◌^◌, ◌<◌, ◌≡◌, refl, ◌∙◌, sym, arith, pos, negsuc, true, false, some,
  List, [], ◌∷◌, ◌++◌, length, length-append, All, append_assoc,
}
use loom_client.Cbor.{
  Value, Items, Fields, null, boolean, integer, bytes, text, array, map, floating, no_items, item,
  no_fields, field, items_size, fields_size, IsRepresentable, AreItems, AreFields,
}
use loom_client.Cbor.Encode.{
  put_head, concat_entries, encode_canonical, encode_items, encode_entries, sort_entries,
}
use loom_client.Cbor.Decode.{
  ok, read_arg, decode_major, decode_item, decode_items, decode_fields, decode,
}
use loom_client.Cbor.Head.{decode_item-put_head}
use loom_client.Cbor.Canon.{
  canon, canon_items, members, sort_members, to_fields, entries, entries-members,
  entries-sort_members, length-entries, length-sort_members, length-members, All-sort_members,
}
use loom_client.Cbor.Reads.{
  Reads, ReadsMember, encode_float-Reads, bytes_Reads, text_Reads, head_costs, concat_entries-Reads,
  item_step, length-encode_canonical_pos,
}

-- A head with major type 0 or 1 is an integer.
natural_Reads : (n : ℕ) → n < 2 ^ 63 → Reads (put_head 0 n) (integer (pos n))
unfolding decode_major
natural_Reads n h zero rest e = absurd (omega arith)
natural_Reads n h (suc f) rest e =
    decode_item-put_head f 0 n rest (omega arith) (omega arith) ∙ ground arith

negative_Reads : (n : ℕ) → n < 2 ^ 63 → Reads (put_head 1 n) (integer (negsuc n))
unfolding decode_major
negative_Reads n h zero rest e = absurd (omega arith)
negative_Reads n h (suc f) rest e =
    decode_item-put_head f 1 n rest (omega arith) (omega arith) ∙ ground arith

-- An item of one byte.
byte_Reads :
    (b : ℕ) (v : Value)
    → ((f : ℕ) (rest : List ℕ) → decode_item (suc f) (b ∷ rest) ≡ ok (v, rest))
    → Reads (b ∷ []) v
byte_Reads b v step zero rest e = absurd (omega arith)
byte_Reads b v step (suc f) rest e = step f rest

array_Reads :
    (n : ℕ) (printed : List ℕ) (vs : Items)
    → n < 2 ^ 64
    → ((f : ℕ) (rest : List ℕ)
        → suc (2 * length printed) < f
        → decode_items f n (printed ++ rest) ≡ ok (vs, rest))
    → Reads (put_head 4 n ++ printed) (array vs)
unfolding decode_major
array_Reads n printed vs h hvs zero rest e = absurd (omega arith)
array_Reads n printed vs h hvs (suc f) rest e = rw append_assoc (
    decode_item-put_head f 4 n (printed ++ rest) (omega arith) h
    ∙ rw (hvs f rest (head_costs 4 n f printed e)))

map_Reads :
    (n : ℕ) (printed : List ℕ) (m : Fields)
    → n < 2 ^ 64
    → ((f : ℕ) (rest : List ℕ)
        → suc (2 * length printed) < f
        → decode_fields f n (printed ++ rest) ≡ ok (m, rest))
    → Reads (put_head 5 n ++ printed) (map m)
unfolding decode_major
map_Reads n printed m h hm zero rest e = absurd (omega arith)
map_Reads n printed m h hm (suc f) rest e = rw append_assoc (
    decode_item-put_head f 5 n (printed ++ rest) (omega arith) h
    ∙ rw (hm f rest (head_costs 5 n f printed e)))

length-encode_entries : (m : Fields) → length (encode_entries m) ≡ fields_size m
length-encode_entries m = rw (← entries-members m) (length-entries (members m) ∙ length-members m)

fields_Reads :
    (m : Fields)
    → fields_size m < 2 ^ 64
    → All ReadsMember (members m)
    → Reads
        (put_head 5 (length (encode_entries m)) ++ concat_entries (sort_entries (encode_entries m)))
        (map (to_fields (sort_members (members m))))
fields_Reads m h hm =
    let ms = sort_members (members m) in
    let sorted : sort_entries (encode_entries m) ≡ entries ms =
      rw (← entries-members m) (sym (entries-sort_members (members m))) in
    let size : length (encode_entries m) ≡ length ms =
      length-encode_entries m ∙ sym (length-sort_members (members m) ∙ length-members m) in
    rw (sorted, size)
      (map_Reads (length ms) (concat_entries (entries ms)) (to_fields ms)
        (omega (arith, size, length-encode_entries m))
        (concat_entries-Reads ms (All-sort_members ReadsMember (members m) hm)))

mutual
  unfolding canon encode_canonical decode_item decode_major read_arg

  value_Reads : (v : Value) → IsRepresentable v → Reads (encode_canonical v) (canon v)
  value_Reads null h = byte_Reads 0xf6 null (λ f rest. refl)
  value_Reads (boolean true) h = byte_Reads 0xf5 (boolean true) (λ f rest. refl)
  value_Reads (boolean false) h = byte_Reads 0xf4 (boolean false) (λ f rest. refl)
  value_Reads (integer (pos i)) h = natural_Reads i h
  value_Reads (integer (negsuc i)) h = negative_Reads i h
  value_Reads (floating d) h = encode_float-Reads d h
  value_Reads (bytes b) h = bytes_Reads b h
  value_Reads (text s) h = text_Reads s h
  value_Reads (array a) h =
      array_Reads (items_size a) (encode_items a) (canon_items a) h.0 (items_Read a h.1)
  value_Reads (map m) h = fields_Reads m h.0 (members_Read m h.1)

  items_Read :
      (vs : Items)
      → AreItems vs
      → (f : ℕ) (rest : List ℕ) → suc (2 * length (encode_items vs)) < f
      → decode_items f (items_size vs) (encode_items vs ++ rest) ≡ ok (canon_items vs, rest)
  items_Read no_items h zero rest e = absurd (omega arith)
  items_Read no_items h (suc f) rest e = refl
  items_Read (item v vs) h f rest e =
      item_step (canon v) (items_size vs) (canon_items vs) (encode_canonical v) (encode_items vs)
        (length-encode_canonical_pos v) (value_Reads v h.0) (items_Read vs h.1) f rest e

  members_Read : (m : Fields) → AreFields m → All ReadsMember (members m)
  members_Read no_fields h = tt
  members_Read (field k v fs) h =
      ((value_Reads k h.0, value_Reads v h.1, length-encode_canonical_pos k), members_Read fs h.2)

-- With fuel above twice the encoding's length, the decoder reads the encoding of `v` off the front
-- of any input as `canon v`, and leaves what follows.
pub decode_item-encode_canonical :
    (v : Value) (f : ℕ) (rest : List ℕ)
    → IsRepresentable v
    → 2 * length (encode_canonical v) < f
    → decode_item f (encode_canonical v ++ rest) ≡ ok (canon v, rest)
decode_item-encode_canonical v f rest h e = value_Reads v h f rest e

-- Decoding what `encode_canonical` wrote, whatever bytes follow, gives the value with its maps
-- sorted by encoded keys and its floats as their shortest exact form reads, for every value that
-- the C++ types can hold.
pub decode-encode_canonical :
    (v : Value) (rest : List ℕ)
    → IsRepresentable v
    → decode (encode_canonical v ++ rest) ≡ some (canon v)
unfolding decode
decode-encode_canonical v rest h = rw (
    decode_item-encode_canonical v (2 * length (encode_canonical v ++ rest) + 1) rest h
      (omega (arith, length-append (encode_canonical v) rest)))

-- ===== src/Cbor/Canon.antt =====
-- What the decoder makes of an encoded value: a description of proto/src/cbor.cpp's round trip that
-- does not mention bytes but to sort a map. The entries of a map are sorted by their encoded keys,
-- and a float is replaced by what its shortest exact form reads as.
use loom_client.Common.{
  ℕ, suc, ◌≡◌, refl, ap, ◌∙◌, arith, inl, inr, Bool-cases, List, [], ◌∷◌, length, All,
  if◌then◌else◌,
}
use loom_client.Cbor.{
  Value, Items, Fields, null, boolean, integer, bytes, text, array, map, floating, no_items, item,
  no_fields, field, fields_size,
}
use loom_client.Cbor.Float.{f16_to_f32, f32_to_f16, is_nan64, feq32, feq64, widen, narrow}
use loom_client.Cbor.Encode.{
  Entry, lex_lt, insert_entry, sort_entries, encode_canonical, encode_entries,
}

-- The double that the encoding of `d` reads as.
unfoldable pub reread : ℕ → ℕ
reread d =
    let f = narrow d in
    let h = f32_to_f16 f in
    if is_nan64 d
    then widen (f16_to_f32 0x7e00)
    else if feq64 (widen f) d
    then (if feq32 (f16_to_f32 h) f then widen (f16_to_f32 h) else widen f)
    else d

-- A map entry with its encoded form.
pub record Member : Type 0 where
  pub entry : Entry
  pub key : Value
  pub val : Value

abbrev pub insert_member : Member → List Member → List Member
insert_member m [] = m ∷ []
insert_member m (x ∷ xs) = if lex_lt m.entry.0 x.entry.0 then m ∷ x ∷ xs else x ∷ insert_member m xs

abbrev pub sort_members : List Member → List Member
sort_members [] = []
sort_members (m ∷ ms) = insert_member m (sort_members ms)

abbrev pub to_fields : List Member → Fields
to_fields [] = no_fields
to_fields (m ∷ ms) = field m.key m.val (to_fields ms)

abbrev pub entries : List Member → List Entry
entries [] = []
entries (m ∷ ms) = m.entry ∷ entries ms

unfoldable mutual
  pub canon : Value → Value
  canon null = null
  canon (boolean b) = boolean b
  canon (integer i) = integer i
  canon (floating d) = floating (reread d)
  canon (bytes b) = bytes b
  canon (text s) = text s
  canon (array a) = array (canon_items a)
  canon (map m) = map (to_fields (sort_members (members m)))

  pub canon_items : Items → Items
  canon_items no_items = no_items
  canon_items (item v vs) = item (canon v) (canon_items vs)

  pub members : Fields → List Member
  members no_fields = []
  members (field k v fs) =
      record { entry = (encode_canonical k, encode_canonical v); key = canon k; val = canon v }
      ∷ members fs

pub entries-members : (m : Fields) → entries (members m) ≡ encode_entries m
unfolding canon encode_canonical
entries-members no_fields = refl
entries-members (field k v fs) =
    ap (λ t. (encode_canonical k, encode_canonical v) ∷ t) (entries-members fs)

entries-insert_member :
    (m : Member) (ms : List Member)
    → entries (insert_member m ms) ≡ insert_entry m.entry (entries ms)
unfolding insert_entry
entries-insert_member m [] = refl
entries-insert_member m (x ∷ xs) = ground (arith, entries-insert_member m xs)

pub entries-sort_members :
    (ms : List Member) → entries (sort_members ms) ≡ sort_entries (entries ms)
unfolding sort_entries
entries-sort_members [] = refl
entries-sort_members (m ∷ ms) =
    rw (entries-insert_member m (sort_members ms), entries-sort_members ms)

pub length-entries : (ms : List Member) → length (entries ms) ≡ length ms
length-entries [] = refl
length-entries (m ∷ ms) = ap suc (length-entries ms)

length-insert_member :
    (m : Member) (ms : List Member) → length (insert_member m ms) ≡ suc (length ms)
length-insert_member m [] = refl
length-insert_member m (x ∷ xs) = ground (arith, length-insert_member m xs)

pub length-sort_members : (ms : List Member) → length (sort_members ms) ≡ length ms
length-sort_members [] = refl
length-sort_members (m ∷ ms) =
    length-insert_member m (sort_members ms) ∙ ap suc (length-sort_members ms)

pub length-members : (m : Fields) → length (members m) ≡ fields_size m
unfolding canon
length-members no_fields = refl
length-members (field k v fs) = ap suc (length-members fs)

-- Sorting keeps what holds of every member.
module _ (P : Member → Type 0) where
  All-insert_member : (m : Member) (ms : List Member) → P m → All P ms → All P (insert_member m ms)
  All-insert_member m [] hm h = (hm, tt)
  All-insert_member m (x ∷ xs) hm h = elim (Bool-cases (lex_lt m.entry.0 x.entry.0)) [
    | inl t ↦ rw t (hm, h)
    | inr t ↦ rw t (h.0, All-insert_member m xs hm h.1)
  ]

  pub All-sort_members : (ms : List Member) → All P ms → All P (sort_members ms)
  All-sort_members [] h = tt
  All-sort_members (m ∷ ms) h = All-insert_member m (sort_members ms) h.0 (All-sort_members ms h.1)

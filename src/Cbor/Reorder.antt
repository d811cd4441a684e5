-- ===== src/Cbor/Reorder.antt =====
-- proto/src/cbor.cpp: the order of a map's entries does not show in its encoding.
use loom_client.Common.{
  ℕ, suc, ltb, Bool-cases, ◌++◌, true, false, List, [], ◌∷◌, length, ◌≡◌, ◌≢◌, ◌⊎◌, inl, inr, refl,
  sym, ◌∙◌, ap, arith, if◌then◌else◌,
}
use loom_client.Cbor.{Value, Fields, map, field}
use loom_client.Cbor.Encode.{
  Entry, lex_lt, insert_entry, sort_entries, concat_entries, put_head, encode_canonical,
  encode_entries,
}

lex_lt_asym : (a b : List ℕ) → lex_lt a b ≡ true → lex_lt b a ≡ false
unfolding lex_lt
lex_lt_asym [] [] h = ground (arith, h)
lex_lt_asym [] (y ∷ b) h = ground (arith, h)
lex_lt_asym (x ∷ a) [] h = ground (arith, h)
lex_lt_asym (x ∷ a) (y ∷ b) h = ground (arith, h, lex_lt_asym a b)

lex_lt_trans : (a b c : List ℕ) → lex_lt a b ≡ true → lex_lt b c ≡ true → lex_lt a c ≡ true
unfolding lex_lt
lex_lt_trans [] [] c h k = ground (arith, h)
lex_lt_trans (x ∷ a) [] c h k = ground (arith, h)
lex_lt_trans a (y ∷ b) [] h k = ground (arith, k)
lex_lt_trans [] (y ∷ b) (z ∷ c) h k = refl
lex_lt_trans (x ∷ a) (y ∷ b) (z ∷ c) h k = ground (arith, h, k, lex_lt_trans a b c)

same_head :
    (x y : ℕ) (a b : List ℕ)
    → (if ltb x y then true else if ltb y x then false else lex_lt a b) ≡ false
    → (if ltb y x then true else if ltb x y then false else lex_lt b a) ≡ false
    → (x ≡ y) × (lex_lt a b ≡ false) × (lex_lt b a ≡ false)
same_head x y a b h k = ground (arith, h, k)

lex_lt_same : (a b : List ℕ) → lex_lt a b ≡ false → lex_lt b a ≡ false → a ≡ b
unfolding lex_lt
lex_lt_same [] [] h k = refl
lex_lt_same [] (y ∷ b) h k = ground (arith, h)
lex_lt_same (x ∷ a) [] h k = ground (arith, k)
lex_lt_same (x ∷ a) (y ∷ b) h k =
    let (e, f, g) = same_head x y a b h k in let rest = lex_lt_same a b f g in λ i. e i ∷ rest i

-- Of two keys that differ, one is the smaller, and then the other is not.
apart :
    (a b : List ℕ)
    → a ≢ b
    → ((lex_lt a b ≡ true) × (lex_lt b a ≡ false)) ⊎ ((lex_lt b a ≡ true) × (lex_lt a b ≡ false))
apart a b d = elim (Bool-cases (lex_lt a b)) [
  | inl h ↦ inl (h, lex_lt_asym a b h)
  | inr h ↦ elim (Bool-cases (lex_lt b a)) [
    | inl k ↦ inr (k, h)
    | inr k ↦ absurd (d (lex_lt_same a b h k))
  ]
]

-- Where `a` is before `b`, and not the other way round.
insert_less :
    (a b : Entry) (es : List Entry)
    → lex_lt a.0 b.0 ≡ true
    → lex_lt b.0 a.0 ≡ false
    → insert_entry a (insert_entry b es) ≡ insert_entry b (insert_entry a es)
unfolding insert_entry
insert_less a b [] h k = rw (h, k)
insert_less a b (x ∷ es) h k = elim (Bool-cases (lex_lt b.0 x.0)) [
  | inl bx ↦ rw (bx, lex_lt_trans a.0 b.0 x.0 h bx) (rw (h, k) (rw bx))
  | inr bx ↦ elim (Bool-cases (lex_lt a.0 x.0)) [
    | inl ax ↦ rw (bx, ax) (rw k (rw bx))
    | inr ax ↦ rw (bx, ax) (rw bx (ap (λ l. x ∷ l) (insert_less a b es h k)))
  ]
]

insert_comm :
    (a b : Entry) (es : List Entry)
    → a.0 ≢ b.0
    → insert_entry a (insert_entry b es) ≡ insert_entry b (insert_entry a es)
insert_comm a b es d = elim (apart a.0 b.0 d) [
  | inl (h, k) ↦ insert_less a b es h k
  | inr (h, k) ↦ sym (insert_less b a es h k)
]

-- The same entries in another order: two that are next to each other, with keys that are encoded
-- differently, change places, any number of times.
pub data Reordered : Fields → Fields → Type 0 where
  unchanged : (m : Fields) → Reordered m m
  behind : (k v : Value) (m n : Fields) → Reordered m n → Reordered (field k v m) (field k v n)
  swapped :
      (k v j w : Value) (m : Fields)
      → encode_canonical k ≢ encode_canonical j
      → Reordered (field k v (field j w m)) (field j w (field k v m))
  and_then : (l m n : Fields) → Reordered l m → Reordered m n → Reordered l n

sort_reordered :
    (m n : Fields)
    → Reordered m n
    → (sort_entries (encode_entries m) ≡ sort_entries (encode_entries n))
      × (length (encode_entries m) ≡ length (encode_entries n))
unfolding encode_canonical sort_entries
sort_reordered m n (unchanged _) = (refl, refl)
sort_reordered m n (behind k v m1 n1 r) =
    let (e, l) = sort_reordered m1 n1 r in
    (ap (insert_entry (encode_canonical k, encode_canonical v)) e, ap suc l)
sort_reordered m n (swapped k v j w rest d) = (
  insert_comm (encode_canonical k, encode_canonical v) (encode_canonical j, encode_canonical w)
      (sort_entries (encode_entries rest)) d,
  refl,
)
sort_reordered m n (and_then l h r p q) =
    let (e, f) = sort_reordered l h p in let (g, i) = sort_reordered h r q in (e ∙ g, f ∙ i)

-- Maps whose entries differ in their order only, entries with the same encoded key kept in theirs, have
-- the same canonical encoding.
pub encode_canonical-Reordered :
    (m n : Fields) → Reordered m n → encode_canonical (map m) ≡ encode_canonical (map n)
unfolding encode_canonical
encode_canonical-Reordered m n r =
    let (e, l) = sort_reordered m n r in
    ap (λ k. put_head 5 k ++ concat_entries (sort_entries (encode_entries m))) l
    ∙ ap (λ es. put_head 5 (length (encode_entries n)) ++ concat_entries es) e

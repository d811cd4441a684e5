-- ===== src/Cbor/Total.antt =====
-- proto/src/cbor.cpp: the decoder on any input. It ends, it consumes what it reads, and what it
-- returns fits the C++ types.
use loom_client.Common.{
  ℕ, zero, suc, ◌+◌, ◌-◌, ◌*◌, ◌/◌, ◌^◌, ◌<◌, bit_and, ◌≡◌, refl, ap, subst, ◌≢◌, arith, ℤ, IsI64,
  pos, negsuc, some, List, [], ◌∷◌, length, length-take, length-drop, take, drop, All,
  if◌then◌else◌, ltb, ltb→le, ◌==◌,
}
use loom_client.Cbor.{
  Value, Items, Fields, integer, bytes, text, array, map, items_size, fields_size, IsRepresentable,
  AreItems, AreFields,
}
use loom_client.Cbor.Decode.{
  Outcome, ok, malformed, stuck, ◌>>=◌, read_arg, decode_major, decode_item, decode_items,
  decode_fields, decode, item_of,
}
use loom_client.Cbor.Ends.{
  IsByte, Ends, Ends->>=, Ends-mono, Ends-if, Leaves, ReadsArg, ReadsValue, All-drop, read_arg-Ends,
  read_simple-Ends,
}

-- The loops of cases 4 and 5 read as many items as the head says.
abbrev ReadsItems : ℕ → ℕ → Items × List ℕ → Type 0
ReadsItems n limit r = (items_size r.0 ≡ n) × AreItems r.0 × Leaves limit r.1

abbrev ReadsFields : ℕ → ℕ → Fields × List ℕ → Type 0
ReadsFields n limit r = (fields_size r.0 ≡ n) × AreFields r.0 × Leaves limit r.1

module _ (items : ℕ → List ℕ → Outcome (Items × List ℕ))
    (fields : ℕ → List ℕ → Outcome (Fields × List ℕ)) (b : List ℕ) (hb : All IsByte b)
    (items_end : (n : ℕ) → Ends (ReadsItems n (length b)) (items n b))
    (fields_end : (n : ℕ) → Ends (ReadsFields n (length b)) (fields n b)) where
  decode_major-Ends :
      (major ai arg : ℕ)
      → arg < 2 ^ 64
      → Ends (ReadsValue (length b)) (decode_major items fields major ai arg b)
  unfolding decode_major
  decode_major-Ends major ai arg ha =
      let P = ReadsValue (length b) in
      Ends-if P (major == 0) _ _ (λ _. integer_end (pos arg) (λ h. h))
        λ _.
          Ends-if P (major == 1) _ _ (λ _. integer_end (negsuc arg) (λ h. h))
            λ _.
              Ends-if P (major == 2) _ _ (λ _. string_end (λ s. bytes s) (λ s h. h))
                λ _.
                  Ends-if P (major == 3) _ _ (λ _. string_end (λ s. text s) (λ s h. h))
                    λ _.
                      Ends-if P (major == 4) _ _ (λ _. array_end)
                        λ _.
                          Ends-if P (major == 5) _ _ (λ _. map_end)
                            λ _.
                              Ends-if P (major == 7) _ _ (λ _. read_simple-Ends ai arg b ha hb)
                                λ _. tt
    where
      integer_end :
          (i : ℤ)
          → (arg < 2 ^ 63 → IsI64 i)
          → Ends
              (ReadsValue (length b))
              (if ltb (2 ^ 63 - 1) arg then malformed else ok (integer i, b))
      integer_end i small =
          Ends-if (ReadsValue (length b)) (ltb (2 ^ 63 - 1) arg) _ _ (λ _. tt)
            (λ t. (small (omega (arith, ltb→le (2 ^ 63 - 1) arg t)), (hb, omega arith)))

      string_end :
          (wrap : List ℕ → Value)
          → ((s : List ℕ) → length s < 2 ^ 64 → IsRepresentable (wrap s))
          → Ends
              (ReadsValue (length b))
              (if ltb (length b) arg then malformed else ok (wrap (take arg b), drop arg b))
      string_end wrap small =
          Ends-if (ReadsValue (length b)) (ltb (length b) arg) _ _ (λ _. tt)
            (λ t. (
              small (take arg b) (omega (arith, length-take arg b)),
              (All-drop arg b hb, omega (arith, length-drop arg b)),
            ))

      array_end : Ends (ReadsValue (length b)) (items arg b >>= λ (a, rest). ok (array a, rest))
      array_end =
          Ends->>= (ReadsItems arg (length b)) (ReadsValue (length b)) (items arg b)
            (λ (a, rest). ok (array a, rest)) (items_end arg) (λ r h. ((rw h.0 ha, h.1), h.2))

      map_end : Ends (ReadsValue (length b)) (fields arg b >>= λ (m, rest). ok (map m, rest))
      map_end =
          Ends->>= (ReadsFields arg (length b)) (ReadsValue (length b)) (fields arg b)
            (λ (m, rest). ok (map m, rest)) (fields_end arg) (λ r h. ((rw h.0 ha, h.1), h.2))

-- An item takes a byte at least.
abbrev pub ReadsItem : ℕ → Value × List ℕ → Type 0
ReadsItem n r = IsRepresentable r.0 × All IsByte r.1 × (length r.1 < n)

-- A call of one of the three readers with enough fuel.
mutual
  unfolding decode_item

  item_Ends :
      (f : ℕ) (b : List ℕ)
      → 2 * length b < f
      → All IsByte b
      → Ends (ReadsItem (length b)) (decode_item f b)
  item_Ends zero b h hb = absurd (omega arith)
  item_Ends (suc f) [] h hb = tt
  item_Ends (suc f) (ib ∷ b) h hb =
      Ends->>= (ReadsArg (length b)) _ (read_arg (bit_and ib 0x1f) b) _
        (read_arg-Ends (bit_and ib 0x1f) b hb.1)
        λ r k.
          Ends-mono (ReadsValue (length r.1)) _ _
            (decode_major-Ends (λ n c. decode_items f n c) (λ n c. decode_fields f n c) r.1 k.1.0
              (λ n. items_Ends f n r.1 (omega arith) k.1.0)
              (λ n. fields_Ends f n r.1 (omega arith) k.1.0) (ib / 2 ^ 5) (bit_and ib 0x1f) r.0 k.0)
            (λ q e. (e.0, e.1.0, omega arith))

  items_Ends :
      (f n : ℕ) (b : List ℕ)
      → suc (2 * length b) < f
      → All IsByte b
      → Ends (ReadsItems n (length b)) (decode_items f n b)
  items_Ends zero n b h hb = absurd (omega arith)
  items_Ends (suc f) zero b h hb = (refl, tt, (hb, omega arith))
  items_Ends (suc f) (suc n) b h hb =
      Ends->>= (ReadsItem (length b)) _ (decode_item f b) _ (item_Ends f b (omega arith) hb) λ r k.
        Ends->>= (ReadsItems n (length r.1)) _ (decode_items f n r.1) _
          (items_Ends f n r.1 (omega arith) k.1)
          (λ q e. (ap suc e.0, (k.0, e.1), (e.2.0, omega arith)))

  fields_Ends :
      (f n : ℕ) (b : List ℕ)
      → suc (2 * length b) < f
      → All IsByte b
      → Ends (ReadsFields n (length b)) (decode_fields f n b)
  fields_Ends zero n b h hb = absurd (omega arith)
  fields_Ends (suc f) zero b h hb = (refl, tt, (hb, omega arith))
  fields_Ends (suc f) (suc n) b h hb =
      Ends->>= (ReadsItem (length b)) _ (decode_item f b) _ (item_Ends f b (omega arith) hb) λ r k.
        Ends->>= (ReadsItem (length r.1)) _ (decode_item f r.1) _
          (item_Ends f r.1 (omega arith) k.1)
          λ q e.
            Ends->>= (ReadsFields n (length q.1)) _ (decode_fields f n q.1) _
              (fields_Ends f n q.1 (omega arith) e.1)
              (λ z d. (ap suc d.0, (k.0, e.0, d.1), (d.2.0, omega arith)))

-- With fuel above twice the input's length the decoder ends on every input of bytes: it refuses it,
-- or returns a value that the C++ types can hold and has consumed a byte at least.
pub decode_item_total :
    (f : ℕ) (b : List ℕ)
    → 2 * length b < f
    → All IsByte b
    → Ends (ReadsItem (length b)) (decode_item f b)
decode_item_total = item_Ends

Ends-ne-stuck {ℓ} : {A : Type ℓ} (P : A → Type 0) (m : Outcome A) → Ends P m → m ≢ stuck
Ends-ne-stuck P (ok a) h e = cc
Ends-ne-stuck P malformed h e = cc
Ends-ne-stuck P stuck h e = absurd h

-- The fuel that `decode` hands out is enough for every input of bytes.
pub decode-ne-stuck : (b : List ℕ) → All IsByte b → decode_item (2 * length b + 1) b ≢ stuck
decode-ne-stuck b hb = Ends-ne-stuck _ _ (item_Ends (2 * length b + 1) b (omega arith) hb)

item_of-Ends :
    (P : Value → Type 0) (m : Outcome (Value × List ℕ)) (v : Value)
    → Ends (λ (r : Value × List ℕ). P r.0) m
    → item_of m ≡ some v
    → P v
item_of-Ends P (ok r) v h e = subst P (cc) h
item_of-Ends P malformed v h e = cc
item_of-Ends P stuck v h e = cc

-- Every value that `decode` returns can be held by the C++ types: an integer fits an int64_t, every
-- size and count fits 64 bits.
pub decode-IsRepresentable :
    (b : List ℕ) (v : Value) → All IsByte b → decode b ≡ some v → IsRepresentable v
unfolding decode
decode-IsRepresentable b v hb e =
    item_of-Ends IsRepresentable _ v
      (Ends-mono (ReadsItem (length b)) _ _ (item_Ends _ b (omega arith) hb) (λ r h. h.0)) e

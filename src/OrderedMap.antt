-- ===== src/OrderedMap.antt =====
-- `std::map` with unsigned keys, as an association list in ascending order of its keys.
use loom_client.Common.{
  ℕ, suc, ◌+◌, ◌≤◌, ◌<◌, ◌≡◌, refl, arith, Option, none, some, List, [], ◌∷◌, length, All, ltb,
  ◌==◌, if◌then◌else◌,
}

module _ {ℓ} {V : Type ℓ} where
  unfoldable pub find : ℕ → List (ℕ × V) → Option V
  find k [] = none
  find k ((j, w) ∷ m) = if j == k then some w else find k m

  -- `m[k] = v`
  unfoldable pub assign : ℕ → V → List (ℕ × V) → List (ℕ × V)
  assign k v [] = (k, v) ∷ []
  assign k v ((j, w) ∷ m) =
      if ltb k j then (k, v) ∷ (j, w) ∷ m else if j == k then (k, v) ∷ m else (j, w) ∷ assign k v m

  unfoldable pub erase : ℕ → List (ℕ × V) → List (ℕ × V)
  erase k [] = []
  erase k ((j, w) ∷ m) = if j == k then erase k m else (j, w) ∷ erase k m

  pub find-assign :
      (k j : ℕ) (v : V) (m : List (ℕ × V))
      → find j (assign k v m) ≡ (if k == j then some v else find j m)
  unfolding find assign
  find-assign k j v [] = refl
  find-assign k j v ((i, w) ∷ m) = ground (arith, find-assign k j v m)

  pub find-erase :
      (k j : ℕ) (m : List (ℕ × V)) → find j (erase k m) ≡ (if k == j then none else find j m)
  unfolding find erase
  find-erase k j [] = ground arith
  find-erase k j ((i, w) ∷ m) = ground (arith, find-erase k j m)

  pub length-assign_le : (k : ℕ) (v : V) (m : List (ℕ × V)) → length (assign k v m) ≤ length m + 1
  unfolding assign
  length-assign_le k v [] = omega arith
  length-assign_le k v ((j, w) ∷ m) = ground (arith, length-assign_le k v m)

  pub length-erase_le : (k : ℕ) (m : List (ℕ × V)) → length (erase k m) ≤ length m
  unfolding erase
  length-erase_le k [] = omega arith
  length-erase_le k ((j, w) ∷ m) = ground (arith, length-erase_le k m)

  -- The keys ascend, and all are above `low` or equal to it.
  abbrev pub Ascending : ℕ → List (ℕ × V) → Type 0
  Ascending low [] = Unit {0}
  Ascending low ((j, w) ∷ m) = (low ≤ j) × Ascending (suc j) m

  pub Ascending-weaken :
      (low low' : ℕ) (m : List (ℕ × V)) → low' ≤ low → Ascending low m → Ascending low' m
  Ascending-weaken low low' [] h a = tt
  Ascending-weaken low low' ((j, w) ∷ m) h a = (omega arith, a.1)

  pub Ascending-assign :
      (low k : ℕ) (v : V) (m : List (ℕ × V))
      → low ≤ k
      → Ascending low m
      → Ascending low (assign k v m)
  unfolding assign
  Ascending-assign low k v [] h a = (h, tt)
  Ascending-assign low k v ((j, w) ∷ m) h a = ground (arith, Ascending-assign (suc j) k v m)

  pub Ascending-erase : (low k : ℕ) (m : List (ℕ × V)) → Ascending low m → Ascending low (erase k m)
  unfolding erase
  Ascending-erase low k [] a = tt
  Ascending-erase low k ((j, w) ∷ m) a = ground (
    arith,
    Ascending-erase (suc j) k m a.1,
    Ascending-weaken (suc j) low (erase k m) (omega arith),
  )

  find-Ascending_below :
      (k low : ℕ) (m : List (ℕ × V)) → k < low → Ascending low m → find k m ≡ none
  unfolding find
  find-Ascending_below k low [] h a = refl
  find-Ascending_below k low ((j, w) ∷ m) h a =
      ground (arith, find-Ascending_below k (suc j) m (omega arith) a.1)

  -- A key that is there is overwritten in place.
  pub length-assign_old :
      (k low : ℕ) (v w : V) (m : List (ℕ × V))
      → Ascending low m
      → find k m ≡ some w
      → length (assign k v m) ≡ length m
  unfolding assign find
  length-assign_old k low v w [] a h = cc
  length-assign_old k low v w ((j, x) ∷ m) a h =
      ground (arith, length-assign_old k (suc j) v w m a.1, find-Ascending_below k (suc j) m)

  pub assign-assign :
      (k : ℕ) (v w : V) (m : List (ℕ × V)) → assign k v (assign k w m) ≡ assign k v m
  unfolding assign
  assign-assign k v w [] = ground arith
  assign-assign k v w ((j, x) ∷ m) = ground (arith, assign-assign k v w m)

  pub erase-assign : (k : ℕ) (v : V) (m : List (ℕ × V)) → erase k (assign k v m) ≡ erase k m
  unfolding assign erase
  erase-assign k v [] = ground arith
  erase-assign k v ((j, x) ∷ m) = ground (arith, erase-assign k v m)

  module _ (P : ℕ × V → Type 0) where
    pub All-assign : (k : ℕ) (v : V) (m : List (ℕ × V)) → P (k, v) → All P m → All P (assign k v m)
    unfolding assign
    All-assign k v [] h a = (h, tt)
    All-assign k v ((j, w) ∷ m) h a = ground (arith, All-assign k v m h a.1)

    pub All-erase : (k : ℕ) (m : List (ℕ × V)) → All P m → All P (erase k m)
    unfolding erase
    All-erase k [] a = tt
    All-erase k ((j, w) ∷ m) a = ground (arith, All-erase k m a.1)

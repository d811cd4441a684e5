-- ===== src/VideoReceiver/Table.antt =====
-- core/src/video_receiver.cpp: the payloads of a frame by their index, whatever the order of arrival.
use loom_client.Common.{
  ℕ, zero, suc, ◌+◌, ◌≤◌, ◌<◌, ◌==◌, ==_refl, ◌≡◌, refl, ◌∙◌, ap, arith, true, false, List, [], ◌∷◌,
  ◌++◌, length, if◌then◌else◌,
}
use loom_client.OrderedMap.{find, assign}
use loom_client.Reassembly.{has_index, insert_index}
use loom_client.VideoReceiver.{join_parts}

-- The payload of each fragment.
abbrev pub Body : Type 0
Body = ℕ → List ℕ

-- `n` payloads from the index `k` on, joined.
abbrev pub whole_body : Body → ℕ → ℕ → List ℕ
whole_body body zero k = []
whole_body body (suc n) k = body k ++ whole_body body n (suc k)

pub has_index-insert :
    (j i : ℕ) (have : List ℕ)
    → has_index j (insert_index i have) ≡ (if i == j then true else has_index j have)
unfolding has_index insert_index
has_index-insert j i have = ground arith

module _ (body : Body) where
  -- Of the `n` indices from `k` on, those of `have` with their payloads.
  abbrev pub table : ℕ → ℕ → List ℕ → List (ℕ × List ℕ)
  table zero k have = []
  table (suc n) k have =
      let rest = table n (suc k) have in if has_index k have then (k, body k) ∷ rest else rest

  table-insert_below :
      (n k i : ℕ) (have : List ℕ) → i < k → table n k (insert_index i have) ≡ table n k have
  table-insert_below zero k i have h = refl
  table-insert_below (suc n) k i have h =
      ground (arith, table-insert_below n (suc k) i have, has_index-insert k i have)

  assign-table_below :
      (n k i : ℕ) (p have : List ℕ) → i < k → assign i p (table n k have) ≡ (i, p) ∷ table n k have
  unfolding assign
  assign-table_below zero k i p have h = refl
  assign-table_below (suc n) k i p have h = ground (arith, assign-table_below n (suc k) i p have)

  -- A payload that arrives goes to its place.
  pub assign-table :
      (n k i : ℕ) (have : List ℕ)
      → k ≤ i
      → i < k + n
      → assign i (body i) (table n k have) ≡ table n k (insert_index i have)
  unfolding assign
  assign-table zero k i have low h = ground arith
  assign-table (suc n) k i have low h = ground (
    arith,
    assign-table n (suc k) i have,
    has_index-insert k i have,
    assign-table_below n (suc k) i (body i) have,
    table-insert_below n (suc k) i have,
  )

  pub length-table_le : (n k : ℕ) (have : List ℕ) → length (table n k have) ≤ n
  length-table_le zero k have = omega arith
  length-table_le (suc n) k have = ground (arith, length-table_le n (suc k) have)

  -- One that is missing leaves a gap.
  pub length-table_lt :
      (n k i : ℕ) (have : List ℕ)
      → k ≤ i
      → i < k + n
      → has_index i have ≡ false
      → length (table n k have) < n
  length-table_lt zero k i have low h out = omega (arith, low, h)
  length-table_lt (suc n) k i have low h out =
      ground (arith, length-table_lt n (suc k) i have, length-table_le n (suc k) have)

  -- Every index of the range has arrived.
  abbrev pub Covers : ℕ → ℕ → List ℕ → Type 0
  Covers n k have = (j : ℕ) → k ≤ j → j < k + n → has_index j have ≡ true

  pub length-table_full : (n k : ℕ) (have : List ℕ) → Covers n k have → length (table n k have) ≡ n
  length-table_full zero k have all = refl
  length-table_full (suc n) k have all = rw (all k (omega arith) (omega arith)) (
      ap suc (
        length-table_full n (suc k) have
          (λ j. λ a. λ b. all j (omega (arith, a)) (omega (arith, b)))))

  join_parts-above :
      (n i k : ℕ) (p : List ℕ) (m : List (ℕ × List ℕ))
      → k < i
      → join_parts n i ((k, p) ∷ m) ≡ join_parts n i m
  unfolding join_parts find
  join_parts-above zero i k p m h = refl
  join_parts-above (suc n) i k p m h = ground (arith, join_parts-above n (i + 1) k p m)

  pub join_parts-table :
      (n k : ℕ) (have : List ℕ)
      → Covers n k have
      → join_parts n k (table n k have) ≡ whole_body body n k
  unfolding join_parts find
  join_parts-table zero k have all = refl
  join_parts-table (suc n) k have all =
      rw (all k (omega arith) (omega arith), ==_refl k)
        (ap (λ l. body k ++ l)
          (join_parts-above n (k + 1) k (body k) (table n (suc k) have) (omega arith)
            ∙ ap (λ j. join_parts n j (table n (suc k) have)) (omega arith)
            ∙ join_parts-table n (suc k) have
                (λ j. λ a. λ b. all j (omega (arith, a)) (omega (arith, b)))))

  -- A fresh index adds one payload.
  pub length-table_insert :
      (n k i : ℕ) (have : List ℕ)
      → k ≤ i
      → i < k + n
      → has_index i have ≡ false
      → length (table n k (insert_index i have)) ≡ suc (length (table n k have))
  length-table_insert zero k i have low h out = omega (arith, low, h)
  length-table_insert (suc n) k i have low h out = ground (
    arith,
    length-table_insert n (suc k) i have,
    has_index-insert k i have,
    table-insert_below n (suc k) i have,
  )

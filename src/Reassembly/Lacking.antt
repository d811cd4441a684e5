-- ===== src/Reassembly/Lacking.antt =====
-- proto/src/reassembly.cpp: the frames in flight are those that still lack a fragment.
use loom_client.Common.{
  ℕ, zero, suc, ◌≤◌, ◌<◌, ℤ, ◌≡◌, ◌≢◌, ◌⊎◌, sym, arith, true, false, true≢false, List, [], ◌∷◌,
  length, All, ◌==◌, Bool-cases, inl, inr, if◌then◌else◌,
}
use loom_client.OrderedMap.{Ascending}
use loom_client.Reassembly.{Fragment, Incomplete, Reassembler, has_index, run}
use loom_client.Reassembly.Window.{Inv, Unfinished, AtMost, floor, run-Inv}

without : ℕ → List ℕ → List ℕ
without n [] = []
without n (x ∷ xs) = let rest = without n xs in if x == n then rest else x ∷ rest

length-without_le : (n : ℕ) (xs : List ℕ) → length (without n xs) ≤ length xs
unfolding without
length-without_le n [] = omega arith
length-without_le n (x ∷ xs) = ground (arith, length-without_le n xs)

length-without_lt :
    (n : ℕ) (xs : List ℕ) → has_index n xs ≡ true → length (without n xs) < length xs
unfolding without has_index
length-without_lt n [] h = absurd (true≢false (sym h))
length-without_lt n (x ∷ xs) h = ground (arith, length-without_lt n xs, length-without_le n xs)

abbrev IsAbsent : ℕ → List ℕ → Type 0
IsAbsent i xs = All (λ x. x ≢ i) xs

has_index-IsAbsent : (i : ℕ) (xs : List ℕ) → has_index i xs ≡ false → IsAbsent i xs
unfolding has_index
has_index-IsAbsent i [] h = tt
has_index-IsAbsent i (x ∷ xs) h = ground (arith, has_index-IsAbsent i xs)

without-IsAbsent : (i n : ℕ) (xs : List ℕ) → i < n → IsAbsent i (without n xs) → IsAbsent i xs
unfolding without
without-IsAbsent i n [] h a = tt
without-IsAbsent i n (x ∷ xs) h a = elim (Bool-cases (x == n)) [
  | inl t ↦ (λ e. ground arith, without-IsAbsent i n xs h (rw t at a))
  | inr t ↦ let (this, rest) = rw t at a in (this, without-IsAbsent i n xs h rest)
]

-- An index below `n` that the list has not.
abbrev LacksBelow : ℕ → List ℕ → Type 0
LacksBelow n xs = (i : ℕ) × (i < n) × IsAbsent i xs

-- Fewer than `n` indices leave one below `n` out.
short-LacksBelow : (n : ℕ) (xs : List ℕ) → length xs < n → LacksBelow n xs
short-LacksBelow zero xs h = absurd (omega arith)
short-LacksBelow (suc n) xs h = elim (Bool-cases (has_index n xs)) [
  | inl t ↦
      let (i, below, a) =
        short-LacksBelow n (without n xs) (omega (arith, length-without_lt n xs t)) in
      (i, omega arith, without-IsAbsent i n xs below a)
  | inr t ↦ (n, omega arith, has_index-IsAbsent n xs t)
]

abbrev Lacks : ℕ × Incomplete → Type 0
Lacks e = (e.1.need ≡ 0) ⊎ LacksBelow e.1.need e.1.have

Unfinished-Lacks : (m : List (ℕ × Incomplete)) → All Unfinished m → All Lacks m
Unfinished-Lacks [] a = tt
Unfinished-Lacks ((k, e) ∷ m) (inl none_announced, a) = (inl none_announced, Unfinished-Lacks m a)
Unfinished-Lacks ((k, e) ∷ m) (inr less, a) =
    (inr (short-LacksBelow e.need e.have less), Unfinished-Lacks m a)

-- At most two frames are in flight, in ascending order, each above the newest complete one; each
-- lacks a fragment, unless it announced that it has none; the last decoded frame is not above the
-- newest complete one.
pub record IsWindow (s : Reassembler) : Type 0 where
  pub few : length s.incomplete ≤ 2
  pub ascending : Ascending (floor s.newest_complete) s.incomplete
  pub lacking : All Lacks s.incomplete
  pub decoded : AtMost s.last_decoded s.newest_complete

-- Any sequence of fragments leaves a reassembler that kept the window's invariant, as a new one does,
-- with at most two frames in flight, in ascending order and above the newest complete frame. Of each
-- of them a fragment with an index below the count that it announced has not come, unless it
-- announced a count of 0. The last decoded frame is not above the newest complete one.
pub run-IsWindow : (fs : List (ℤ × Fragment)) (s : Reassembler) → Inv s → IsWindow (run fs s)
run-IsWindow fs s h =
    let v = run-Inv fs s h in
    record {
      few = v.few;
      ascending = v.ascending;
      lacking = Unfinished-Lacks (run fs s).incomplete v.unfinished;
      decoded = v.decoded;
    }

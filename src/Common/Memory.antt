-- ===== src/Common/Memory.antt =====
-- A block of memory as the list of its bytes: what is written into it, and its size.
use Prim.Native.Nat.{ℕ, zero, suc, ◌+◌, ◌-◌, ◌≤◌}
use mathlib.Core.Path.{◌≡◌, refl, ap}
use mathlib.Core.Bool.{◌&&◌}
use mathlib.Core.List.{List, [], ◌∷◌, ◌++◌}
use native.Mathlib.Omega.{arith}
use loom_client.Common.Tests.{ltb, leb, if◌then◌else◌}
use loom_client.Common.Lists.{length, take, drop, get_elem?, length-append, length-take}

-- The bytes `bs` in place of those from the index `o` on.
unfoldable pub splice : ℕ → List ℕ → List ℕ → List ℕ
splice zero bs m = bs ++ drop (length bs) m
splice (suc o) bs [] = []
splice (suc o) bs (b ∷ m) = b ∷ splice o bs m

unfoldable pub zeros : ℕ → List ℕ
zeros zero = []
zeros (suc n) = 0 ∷ zeros n

-- `m.resize(n)` of a vector of bytes.
unfoldable pub resize : ℕ → List ℕ → List ℕ
unfolding zeros
resize n m = take n m ++ zeros (n - length m)

get_elem?-drop :
    (bs m : List ℕ) (j : ℕ)
    → length bs ≤ length m
    → get_elem? (bs ++ drop (length bs) m) j
      ≡ (if ltb j (length bs) then get_elem? bs j else get_elem? m j)
get_elem?-drop [] m j h = ground arith
get_elem?-drop (b ∷ bs) [] j h = absurd (omega arith)
get_elem?-drop (b ∷ bs) (x ∷ m) zero h = ground arith
get_elem?-drop (b ∷ bs) (x ∷ m) (suc j) h = ground (arith, get_elem?-drop bs m j)

length-splice_head :
    (bs m : List ℕ) → length bs ≤ length m → length (bs ++ drop (length bs) m) ≡ length m
length-splice_head [] m h = refl
length-splice_head (b ∷ bs) [] h = absurd (omega arith)
length-splice_head (b ∷ bs) (x ∷ m) h = ap suc (length-splice_head bs m (omega arith))

pub length-splice :
    (o : ℕ) (bs m : List ℕ) → o + length bs ≤ length m → length (splice o bs m) ≡ length m
unfolding splice
length-splice zero bs m h = length-splice_head bs m (omega (arith, h))
length-splice (suc o) bs [] h = refl
length-splice (suc o) bs (x ∷ m) h = ap suc (length-splice o bs m (omega (arith, h)))

pub get_elem?-splice :
    (o : ℕ) (bs m : List ℕ) (j : ℕ)
    → o + length bs ≤ length m
    → get_elem? (splice o bs m) j
      ≡ (if leb o j && ltb j (o + length bs) then get_elem? bs (j - o) else get_elem? m j)
unfolding splice
get_elem?-splice zero bs m j h = ground (arith, get_elem?-drop bs m j)
get_elem?-splice (suc o) bs [] j h = absurd (omega (arith, h))
get_elem?-splice (suc o) bs (x ∷ m) zero h = ground arith
get_elem?-splice (suc o) bs (x ∷ m) (suc j) h = ground (arith, get_elem?-splice o bs m j)

pub length-zeros : (n : ℕ) → length (zeros n) ≡ n
unfolding zeros
length-zeros zero = refl
length-zeros (suc n) = ap suc (length-zeros n)

pub length-resize : (n : ℕ) (m : List ℕ) → length (resize n m) ≡ n
unfolding resize
length-resize n m = omega (
  arith,
  length-append (take n m) (zeros (n - length m)),
  length-take n m,
  length-zeros (n - length m),
)

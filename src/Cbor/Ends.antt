-- ===== src/Cbor/Ends.antt =====
-- proto/src/cbor.cpp: postconditions of the decoder's parts, and the parts that do not recur.
use loom_client.Common.{
  ℕ, zero, suc, ◌-◌, ◌*◌, ◌%◌, ◌^◌, ◌≤◌, ◌<◌, bit_or, ◌≡◌, refl, arith, Bool, true, false, List, [],
  ◌∷◌, length, take, drop, All, if◌then◌else◌, ltb, ltb→lt, ◌==◌, byte_or,
}
use loom_client.Cbor.{Value, IsRepresentable}
use loom_client.Cbor.Float.{widen, widen_subnormal}
use loom_client.Cbor.Decode.{
  Outcome, ok, malformed, stuck, ◌>>=◌, read_loop, read_be, read_arg, read_simple,
}

abbrev pub IsByte : ℕ → Type 0
IsByte b = b < 256

-- The run kept within its fuel, and `P` holds of its value if it has one.
abbrev pub Ends {ℓ} : {A : Type ℓ} → (A → Type 0) → Outcome A → Type 0
Ends P (ok a) = P a
Ends P malformed = Unit {0}
Ends P stuck = ⊥

pub Ends->>= {ℓ κ} :
    {A : Type ℓ} {B : Type κ} (P : A → Type 0) (Q : B → Type 0) (m : Outcome A) (f : A → Outcome B)
    → Ends P m
    → ((a : A) → P a → Ends Q (f a))
    → Ends Q (m >>= f)
Ends->>= P Q (ok a) f h k = k a h
Ends->>= P Q malformed f h k = tt
Ends->>= P Q stuck f h k = h

pub Ends-mono {ℓ} :
    {A : Type ℓ} (P Q : A → Type 0) (m : Outcome A) → Ends P m → ((a : A) → P a → Q a) → Ends Q m
Ends-mono P Q (ok a) h k = k a h
Ends-mono P Q malformed h k = tt
Ends-mono P Q stuck h k = h

pub Ends-if {ℓ} :
    {A : Type ℓ} (P : A → Type 0) (t : Bool) (m n : Outcome A)
    → (t ≡ true → Ends P m)
    → (t ≡ false → Ends P n)
    → Ends P (if t then m else n)
Ends-if P true _ _ hm hn = hm refl
Ends-if P false _ _ hm hn = hn refl

-- What is left of the input: bytes, and at most the bytes that were there.
abbrev pub Leaves : ℕ → List ℕ → Type 0
Leaves n rest = All IsByte rest × (length rest ≤ n)

abbrev pub ReadsArg : ℕ → ℕ × List ℕ → Type 0
ReadsArg n r = (r.0 < 2 ^ 64) × Leaves n r.1

shifted : (v x : ℕ) → x < 256 → bit_or (v * 2 ^ 8 % 2 ^ 64) x < 2 ^ 64
shifted v x h =
    let e : v * 2 ^ 8 % 2 ^ 64 ≡ v % 2 ^ 56 * 256 = omega arith in
    rw e (omega (arith, byte_or (v % 2 ^ 56) x h))

read_loop-Ends :
    (limit n v : ℕ) (b : List ℕ)
    → v < 2 ^ 64
    → Leaves limit b
    → Ends (ReadsArg limit) (read_loop n v b)
unfolding read_loop
read_loop-Ends limit zero v b hv hb = (hv, hb)
read_loop-Ends limit (suc n) v [] hv hb = tt
read_loop-Ends limit (suc n) v (x ∷ b) hv hb =
    read_loop-Ends limit n _ b (shifted v x hb.0.0) (hb.0.1, omega arith)

read_be-Ends : (n : ℕ) (b : List ℕ) → All IsByte b → Ends (ReadsArg (length b)) (read_be n b)
unfolding read_be
read_be-Ends n b hb =
    Ends-if (ReadsArg (length b)) (ltb (length b) n) _ _ (λ _. tt)
      (λ _. read_loop-Ends (length b) n 0 b (omega arith) (hb, omega arith))

pub read_arg-Ends :
    (ai : ℕ) (b : List ℕ) → All IsByte b → Ends (ReadsArg (length b)) (read_arg ai b)
unfolding read_arg
read_arg-Ends ai b hb =
    let P = ReadsArg (length b) in
    Ends-if P (ltb ai 24) _ _ (λ t. (omega (arith, ltb→lt ai 24 t), (hb, omega arith)))
      λ _.
        Ends-if P (ai == 24) _ _ (λ _. read_be-Ends 1 b hb)
          λ _.
            Ends-if P (ai == 25) _ _ (λ _. read_be-Ends 2 b hb)
              λ _.
                Ends-if P (ai == 26) _ _ (λ _. read_be-Ends 4 b hb)
                  λ _. Ends-if P (ai == 27) _ _ (λ _. read_be-Ends 8 b hb) λ _. tt

pub All-take : (n : ℕ) (b : List ℕ) → All IsByte b → All IsByte (take n b)
All-take zero b h = tt
All-take (suc n) [] h = tt
All-take (suc n) (x ∷ b) h = (h.0, All-take n b h.1)

pub All-drop : (n : ℕ) (b : List ℕ) → All IsByte b → All IsByte (drop n b)
All-drop zero b h = h
All-drop (suc n) [] h = tt
All-drop (suc n) (x ∷ b) h = All-drop n b h.1

-- A value that the C++ types can hold, and what it leaves of the input.
abbrev pub ReadsValue : ℕ → Value × List ℕ → Type 0
ReadsValue n r = IsRepresentable r.0 × Leaves n r.1

widen_subnormal-lt : (fuel m e : ℕ) → e < 898 → widen_subnormal fuel m e < 898 * 2 ^ 52
unfolding widen_subnormal
widen_subnormal-lt zero m e h = omega arith
widen_subnormal-lt (suc fuel) m e h = ground (arith, widen_subnormal-lt fuel (m * 2) (e - 1))

widen-lt : (f : ℕ) → widen f < 2 ^ 64
unfolding widen
widen-lt f = ground (arith, widen_subnormal-lt 24 (f % 2 ^ 23) 897)

pub read_simple-Ends :
    (ai arg : ℕ) (b : List ℕ)
    → arg < 2 ^ 64
    → All IsByte b
    → Ends (ReadsValue (length b)) (read_simple ai arg b)
unfolding read_simple
read_simple-Ends ai arg b ha hb =
    let P = ReadsValue (length b) in
    let L : Leaves (length b) b = (hb, omega arith) in
    Ends-if P (ai == 20) _ _ (λ _. (tt, L))
      λ _.
        Ends-if P (ai == 21) _ _ (λ _. (tt, L))
          λ _.
            Ends-if P (ai == 22) _ _ (λ _. (tt, L))
              λ _.
                Ends-if P (ai == 25) _ _ (λ _. (widen-lt _, L))
                  λ _.
                    Ends-if P (ai == 26) _ _ (λ _. (widen-lt _, L))
                      λ _. Ends-if P (ai == 27) _ _ (λ _. (ha, L)) λ _. tt

-- ===== src/Overlay/Bands.antt =====
-- quest/src/overlay.cpp: which of several strips of the picture a pixel is in.
use loom_client.Common.{
  ℕ, zero, suc, ◌+◌, ◌-◌, ◌*◌, ◌/◌, ◌%◌, ◌≤◌, ◌<◌, ltb, leb, ◌==◌, Bool, true, false, ◌&&◌, ◌||◌,
  Option, none, some, List, [], ◌∷◌, get_elem?, Bool-cases, ltb→lt, ltb→le, leb→le, leb→lt, inl,
  inr, ◌≡◌, refl, sym, ◌∙◌, ap, arith,
}
use loom_client.Overlay.Paint.{some_of}

-- `v` is one of the `w` numbers from `a` on.
abbrev pub within : ℕ → ℕ → ℕ → Bool
within a w v = leb a v && ltb v (a + w)

pub some_of-same :
    (n k : ℕ) (b c : ℕ → Bool) → ((i : ℕ) → i < k + n → b i ≡ c i) → some_of n k b ≡ some_of n k c
some_of-same zero k b c same = refl
some_of-same (suc n) k b c same =
    ap (λ x. x || some_of n (suc k) b) (same k (omega arith))
    ∙ ap (λ x. c k || x) (some_of-same n (suc k) b c (λ i. λ h. same i (omega (arith, h))))

strips_from :
    (g : ℕ → Bool) (a v n k : ℕ)
    → some_of n k (λ i. g i && within (a + i * 4) 4 v)
      ≡ (within (a + k * 4) (n * 4) v && g ((v - a) / 4))
strips_from g a v zero k = ground arith
strips_from g a v (suc n) k = ground (arith, strips_from g a v n (suc k))

-- Of strips of four, each with its own test, only the one that `v` is in counts.
pub some_of-strips :
    (g : ℕ → Bool) (a v n : ℕ)
    → some_of n 0 (λ i. g i && within (a + i * 4) 4 v) ≡ (within a (n * 4) v && g ((v - a) / 4))
some_of-strips g a v n =
    strips_from g a v n 0 ∙ ap (λ k. within k (n * 4) v && g ((v - a) / 4)) (omega arith)

-- A block of four by four pixels, by the column and the row of a pixel, the row counted from the top.
pub some_of-block :
    (p x y : ℕ)
    → x + 4 ≤ 768
    → 1 ≤ y
    → y + 4 ≤ 192
    → some_of 4 0 (λ sy. some_of 4 0 (λ sx. p == (191 - (y + sy)) * 768 + (x + sx)))
      ≡ (within y 4 (191 - p / 768) && within x 4 (p % 768))
some_of-block p x y hx top hy = ground arith

-- The test of the item that is at an offset, in items of the length `step` after one another.
abbrev pub item_at : {A : Type 0} → (A → ℕ → Bool) → Option A → ℕ → Bool
item_at b none u = false
item_at b (some x) u = b x u

-- The items in their strips, the first from `a` on.
abbrev pub strips : {A : Type 0} → (A → ℕ → Bool) → ℕ → List A → ℕ → ℕ → Bool
strips b step [] a v = false
strips b step (x ∷ xs) a v = (within a step v && b x (v - a)) || strips b step xs (a + step) v

module _ {A : Type 0} (b : A → ℕ → Bool) (step : ℕ) (first_div : (u : ℕ) → u < step → u / step ≡ 0)
    (first_mod : (u : ℕ) → u < step → u % step ≡ u)
    (next_div : (u : ℕ) → (u + step) / step ≡ suc (u / step))
    (next_mod : (u : ℕ) → (u + step) % step ≡ u % step) where
  strips-before : (xs : List A) (a v : ℕ) → v < a → strips b step xs a v ≡ false
  strips-before [] a v h = refl
  strips-before (x ∷ xs) a v h = ground (arith, strips-before xs (a + step) v)

  or_false : (c : Bool) → c || false ≡ c
  or_false true = refl
  or_false false = refl

  near-within : (a u : ℕ) → u < step → within a step (a + u) ≡ true
  near-within a u h = ground (arith, h)

  far-within : (a u : ℕ) → step ≤ u → within a step (a + u) ≡ false
  far-within a u h = ground (arith, h)

  -- The strip of an offset is the quotient, the place in it the remainder.
  at_offset :
      (xs : List A) (a u : ℕ)
      → strips b step xs a (a + u) ≡ item_at b (get_elem? xs (u / step)) (u % step)
  at_offset [] a u = refl
  at_offset (x ∷ xs) a u = elim (Bool-cases (ltb u step)) [
    | inl near ↦
        let h = ltb→lt u step near in
        let e : a + u - a ≡ u = omega arith in
        rw
          (
            near-within a u h,
            e,
            strips-before xs (a + step) (a + u) (omega (arith, h)),
            first_div u h,
            first_mod u h,
          )
          (or_false (b x u))
    | inr far ↦
        let h = ltb→le u step far in
        let e : u ≡ (u - step) + step = omega (arith, h) in
        rw (far-within a u h) (
          ap (strips b step xs (a + step)) (omega (arith, h))
          ∙ at_offset xs (a + step) (u - step)
          ∙ sym (
              ap (item_at b (get_elem? (x ∷ xs) (u / step)))
                (ap (λ k. k % step) e ∙ next_mod (u - step))
              ∙ ap (λ k. item_at b (get_elem? (x ∷ xs) k) ((u - step) % step))
                  (ap (λ k. k / step) e ∙ next_div (u - step))))
  ]

  pub strips_lem :
      (xs : List A) (a v : ℕ)
      → strips b step xs a v
        ≡ (leb a v && item_at b (get_elem? xs ((v - a) / step)) ((v - a) % step))
  strips_lem xs a v = elim (Bool-cases (leb a v)) [
    | inl behind ↦
        rw behind
          (ap (strips b step xs a) (omega (arith, leb→le a v behind)) ∙ at_offset xs a (v - a))
    | inr before ↦ rw before (strips-before xs a v (leb→lt a v before))
  ]

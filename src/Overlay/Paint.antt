-- ===== src/Overlay/Paint.antt =====
-- quest/src/overlay.cpp: which bytes the drawing changes, and to what.
use loom_client.Common.{
  splice, length-splice, get_elem?-splice, ℕ, zero, suc, ◌+◌, ◌*◌, ◌/◌, ◌%◌, ◌≤◌, ◌<◌, pos, ◌==◌,
  Bool, true, false, ◌||◌, Option, some, List, length, get_elem?, if◌then◌else◌, ◌≡◌, refl, ◌∙◌, ap,
  arith,
}
use loom_client.Overlay.{write_at, and_then, loop, text_color}

-- Drawing on `m` ends, and the bytes of the pixels `s` have become text, and no others.
pub record Paints (m : List ℕ) (r : Option (List ℕ)) (s : ℕ → Bool) : Type 0 where
  pub after : List ℕ
  pub ends : r ≡ some after
  pub same_length : length after ≡ length m
  pub bytes :
      (j : ℕ)
      → get_elem? after j ≡ (if s (j / 4) then get_elem? text_color (j % 4) else get_elem? m j)

pub write_at-Paints :
    (q : ℕ) (m : List ℕ)
    → q * 4 + 4 ≤ length m
    → Paints m (write_at (pos (q * 4)) text_color m) (λ p. p == q)
unfolding write_at
write_at-Paints q m h = record {
  after = splice (q * 4) text_color m;
  ends = ground (arith, h);
  same_length = length-splice (q * 4) text_color m h;
  bytes = λ j. ground (arith, get_elem?-splice (q * 4) text_color m j h);
}

pub nothing-Paints : (m : List ℕ) → Paints m (some m) (λ p. false)
nothing-Paints m = record { after = m; ends = refl; same_length = refl; bytes = λ j. refl }

or_if :
    {A : Type 0} (a b : Bool) (x y : A)
    → (if b then x else if a then x else y) ≡ (if a || b then x else y)
or_if true true x y = refl
or_if true false x y = refl
or_if false true x y = refl
or_if false false x y = refl

pub and_then-Paints :
    (m : List ℕ) (r : Option (List ℕ)) (f : List ℕ → Option (List ℕ)) (s u : ℕ → Bool)
    → Paints m r s
    → ((n : List ℕ) → length n ≡ length m → Paints n (f n) u)
    → Paints m (and_then r f) (λ p. s p || u p)
and_then-Paints m r f s u first next =
    let second = next first.after first.same_length in
    record {
      after = second.after;
      ends = ap (λ x. and_then x f) first.ends ∙ second.ends;
      same_length = second.same_length ∙ first.same_length;
      bytes = λ j.
          second.bytes j
          ∙ ap (λ b. if u (j / 4) then get_elem? text_color (j % 4) else b) (first.bytes j)
          ∙ or_if (s (j / 4)) (u (j / 4)) _ _;
    }

-- Some index of the `n` from `k` on.
abbrev pub some_of : ℕ → ℕ → (ℕ → Bool) → Bool
some_of zero k b = false
some_of (suc n) k b = b k || some_of n (suc k) b

abbrev pub any_from : ℕ → ℕ → (ℕ → ℕ → Bool) → ℕ → Bool
any_from n k s p = some_of n k (λ i. s i p)

pub loop-Paints :
    (n k : ℕ) (f : ℕ → List ℕ → Option (List ℕ)) (s : ℕ → ℕ → Bool) (m : List ℕ)
    → ((i : ℕ) → i < k + n → (x : List ℕ) → length x ≡ length m → Paints x (f i x) (s i))
    → Paints m (loop n k f m) (any_from n k s)
unfolding loop
loop-Paints zero k f s m each = nothing-Paints m
loop-Paints (suc n) k f s m each =
    and_then-Paints m (f k m) (loop n (suc k) f) (s k) (any_from n (suc k) s)
      (each k (omega arith) m refl)
      (λ x.
        λ e. loop-Paints n (suc k) f s x (λ i. λ h. λ y. λ l. each i (omega (arith, h)) y (l ∙ e)))

-- The same pixels, told in another way.
pub Paints-same :
    (m : List ℕ) (r : Option (List ℕ)) (s u : ℕ → Bool)
    → ((p : ℕ) → s p ≡ u p)
    → Paints m r s
    → Paints m r u
Paints-same m r s u same x = record {
  after = x.after;
  ends = x.ends;
  same_length = x.same_length;
  bytes = λ j.
      x.bytes j
      ∙ ap (λ b. if b then get_elem? text_color (j % 4) else get_elem? m j) (same (j / 4));
}

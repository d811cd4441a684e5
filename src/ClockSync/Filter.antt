-- ===== src/ClockSync/Filter.antt =====
-- proto/src/clocksync.cpp: the window is the last 16 samples, and the estimate is its minimum.
use loom_client.Common.{
  ℕ, zero, suc, ◌+◌, ◌-◌, ◌<◌, ℤ, ◌≤ℤ◌, ◌<ℤ◌, leb_ℤ, ◌≡◌, refl, sym, ◌∙◌, arith, true, List, [],
  ◌∷◌, ◌++◌, append-nil, append_assoc, length, length-append, length-drop, drop, drop-append_le,
  All, All-append, All-mono, ltb, leb→le, leb→lt, ltb→lt, ltb→le, Bool-cases, inl, inr,
}
use loom_client.ClockSync.{Estimate, sample, slide, scan, best_of, push}

-- `best` is in the window, nothing before it is smaller, and all behind it is larger.
pub record IsLatestMinimum (best : Estimate) (window : List Estimate) : Type 0 where
  pub before : List Estimate
  pub after : List Estimate
  pub is_there : window ≡ before ++ best ∷ after
  pub least : All (λ (s : Estimate). best.rtt ≤ℤ s.rtt) before
  pub latest : All (λ (s : Estimate). best.rtt <ℤ s.rtt) after

-- The samples that were taken, each as its four times, oldest first.
abbrev Times : Type 0
Times = ℤ × ℤ × ℤ × ℤ

abbrev sample_of : Times → Estimate
sample_of q = sample q.0 q.1 q.2 q.3

abbrev pub samples : List Times → List Estimate
samples [] = []
samples (q ∷ qs) = sample_of q ∷ samples qs

-- `ClockFilter` after a history of pushes.
unfoldable pub window_after : List Estimate → List Times → List Estimate
unfolding push
window_after w [] = w
window_after w (q ∷ qs) = window_after (push q.0 q.1 q.2 q.3 w).0 qs

abbrev pub last_16 : List Estimate → List Estimate
last_16 es = drop (length es - 16) es

drop-nil : (m : ℕ) → drop {A = Estimate} m [] ≡ []
drop-nil zero = refl
drop-nil (suc m) = refl

drop-drop : (m n : ℕ) (es : List Estimate) → drop m (drop n es) ≡ drop (n + m) es
drop-drop m zero es = let e : zero + m ≡ m = omega arith in rw e
drop-drop m (suc n) [] = drop-nil m ∙ sym (drop-nil (suc n + m))
drop-drop m (suc n) (x ∷ es) =
    let e : suc n + m ≡ suc (n + m) = omega arith in rw e (drop-drop m n es)

-- The sample joins, and the oldest leaves if there were 16.
slide-last_16 : (es : List Estimate) (e : Estimate) → slide e (last_16 es) ≡ last_16 (es ++ e ∷ [])
unfolding slide
slide-last_16 es e =
    let all = es ++ e ∷ [] in
    let k = length es - 16 in
    let joined : drop k es ++ e ∷ [] ≡ drop k all =
      sym (drop-append_le k es (e ∷ []) (omega arith)) in
    let size = length-append es (e ∷ []) in
    let kept = length-drop k all in
    rw joined (elim (Bool-cases (ltb 16 (length (drop k all)))) [
      | inl full ↦
          let more : length all - 16 ≡ k + 1 =
            omega (arith, ltb→lt 16 (length (drop k all)) full) in
          rw (full, more) (drop-drop 1 k all)
      | inr short ↦
          let same : length all - 16 ≡ k = omega (arith, ltb→le 16 (length (drop k all)) short) in
          rw (short, same)
    ])

window_after-last_16 :
    (es : List Estimate) (qs : List Times)
    → window_after (last_16 es) qs ≡ last_16 (es ++ samples qs)
unfolding window_after
window_after-last_16 es [] = rw append-nil
window_after-last_16 es (q ∷ qs) =
    rw (slide-last_16 es (sample_of q))
      (window_after-last_16 (es ++ sample_of q ∷ []) qs ∙ rw append_assoc)

-- After any history of pushes the window holds the last 16 samples, oldest first, or all of them if
-- there are fewer.
window_after-samples : (qs : List Times) → window_after [] qs ≡ last_16 (samples qs)
window_after-samples qs = window_after-last_16 [] qs

-- The scan, seen from the part of the window that it has passed.
scan-IsLatestMinimum :
    (front back rest : List Estimate) (best : Estimate)
    → All (λ (s : Estimate). best.rtt ≤ℤ s.rtt) front
    → All (λ (s : Estimate). best.rtt <ℤ s.rtt) back
    → IsLatestMinimum (scan best rest) (front ++ best ∷ (back ++ rest))
unfolding scan
scan-IsLatestMinimum front back [] best hf hb = record {
  before = front;
  after = back;
  is_there = rw append-nil;
  least = hf;
  latest = hb;
}
scan-IsLatestMinimum front back (s ∷ rest) best hf hb = elim (Bool-cases (leb_ℤ s.rtt best.rtt)) [
  | inl smaller ↦
      let le : s.rtt ≤ℤ best.rtt = leb→le _ _ smaller in
      let passed : front ++ best ∷ (back ++ s ∷ rest) ≡ (front ++ best ∷ back) ++ s ∷ rest =
        sym (append_assoc front (best ∷ back) (s ∷ rest)) in
      rw (smaller, passed)
        (scan-IsLatestMinimum (front ++ best ∷ back) [] rest s
          (All-append (λ (x : Estimate). s.rtt ≤ℤ x.rtt) front (best ∷ back)
            (All-mono (λ (x : Estimate). best.rtt ≤ℤ x.rtt) _ front (λ x h. omega arith) hf)
            (le, All-mono (λ (x : Estimate). best.rtt <ℤ x.rtt) _ back (λ x h. omega arith) hb))
          tt)
  | inr larger ↦
      let lt : best.rtt <ℤ s.rtt = leb→lt _ _ larger in
      let passed : back ++ s ∷ rest ≡ (back ++ s ∷ []) ++ rest =
        sym (append_assoc back (s ∷ []) rest) in
      rw (larger, passed)
        (scan-IsLatestMinimum front (back ++ s ∷ []) rest best hf
          (All-append (λ (x : Estimate). best.rtt <ℤ x.rtt) back (s ∷ []) hb (lt, tt)))
]

slide_pos : (e : Estimate) (w : List Estimate) → 0 < length (slide e w)
unfolding slide
slide_pos e w = ground (arith, length-append w (e ∷ []), length-drop 1 (w ++ e ∷ []))

best_of-IsLatestMinimum :
    (e : Estimate) (w : List Estimate) → 0 < length w → IsLatestMinimum (best_of e w) w
unfolding best_of
best_of-IsLatestMinimum e [] h = absurd (omega arith)
best_of-IsLatestMinimum e (s ∷ rest) h =
    let itself : leb_ℤ s.rtt s.rtt ≡ true = ground arith in
    rw itself (scan-IsLatestMinimum [] [] rest s tt tt)

-- The estimate of every push is the sample of least round trip in the window, and among equals the
-- most recent one.
pub push-IsLatestMinimum :
    (t0 t1 t2 t3 : ℤ) (window : List Estimate)
    → IsLatestMinimum (push t0 t1 t2 t3 window).1 (push t0 t1 t2 t3 window).0
unfolding push
push-IsLatestMinimum t0 t1 t2 t3 window =
    let e = sample t0 t1 t2 t3 in best_of-IsLatestMinimum e (slide e window) (slide_pos e window)

-- ===== src/ClockSync.antt =====
-- proto/include/loom/proto/clocksync.hpp, proto/src/clocksync.cpp: the clock offset and the
-- min-filter over the last 16 samples. Times are ℤ, taken to stay in an int64_t.
pub mod Offset
pub mod Filter
use loom_client.Common.{
  ℕ, zero, suc, ◌+◌, ◌-◌, ◌/◌, ◌%◌, ℤ, pos, negsuc, ◌+ℤ◌, ◌-ℤ◌, ltb_ℤ, leb_ℤ, Bool, not, ◌&&◌, List,
  [], ◌∷◌, ◌++◌, length, drop, ltb, ◌==◌, if◌then◌else◌,
}

abbrev pub window_size : ℕ
window_size = 16

pub record Estimate : Type 0 where
  pub rtt : ℤ
  pub offset : ℤ

-- `n / 2` and `n % 2 != 0` of the language: the quotient is cut towards zero.
abbrev minus : ℕ → ℤ
minus zero = pos 0
minus (suc n) = negsuc n

abbrev half : ℤ → ℤ
half (pos n) = pos (n / 2)
half (negsuc n) = minus (suc n / 2)

abbrev is_odd : ℤ → Bool
is_odd (pos n) = not (n % 2 == 0)
is_odd (negsuc n) = not (suc n % 2 == 0)

unfoldable pub floor_div2 : ℤ → ℤ
floor_div2 n = let q = half n in if is_odd n && ltb_ℤ n (pos 0) then q -ℤ pos 1 else q

unfoldable pub sample : ℤ → ℤ → ℤ → ℤ → Estimate
sample t0 t1 t2 t3 = record {
  rtt = t3 -ℤ t0 -ℤ (t2 -ℤ t1);
  offset = floor_div2 (t1 -ℤ t0 +ℤ (t2 -ℤ t3));
}

-- `window_.push_back(...); if (window_.size() > kWindow) window_.pop_front();`
unfoldable pub slide : Estimate → List Estimate → List Estimate
slide e window =
    let longer = window ++ e ∷ [] in
    if ltb window_size (length longer) then drop 1 longer else longer

-- The loop over the window, oldest first.
unfoldable pub scan : Estimate → List Estimate → Estimate
scan best [] = best
scan best (s ∷ rest) = scan (if leb_ℤ s.rtt best.rtt then s else best) rest

-- `window_.front()` and the loop; the window holds the new sample, so it is not empty.
unfoldable pub best_of : Estimate → List Estimate → Estimate
unfolding scan
best_of e [] = e
best_of e (s ∷ rest) = scan s (s ∷ rest)

-- `ClockFilter::push`: the window and the estimate.
unfoldable pub push : ℤ → ℤ → ℤ → ℤ → List Estimate → List Estimate × Estimate
unfolding slide best_of
push t0 t1 t2 t3 window = let e = sample t0 t1 t2 t3 in let w = slide e window in (w, best_of e w)

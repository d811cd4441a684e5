-- ===== src/Metrics/Windows.antt =====
-- sdl/src/metrics.hpp: what a STATS report says of its window.
use loom_client.Common.{
  ℕ, zero, suc, ◌-◌, ◌≤◌, ◌+◌, ◌/◌, ◌^◌, ◌<◌, ltb, ℤ, ◌≡◌, refl, ◌∙◌, ap, arith, Bool, true, false,
  ◌&&◌, Option, none, some, List, [], ◌∷◌, length, if◌then◌else◌,
}
use loom_client.VideoReceiver.{Counters}
use loom_client.Metrics.{Doubles, Metrics, sub_u64, mean, on_frame, take_window}

-- A frame that is displayed.
pub record Shown : Type 0 where
  pub capture_ts : ℕ
  pub arrival_us : ℤ
  pub decode_us : ℕ
  pub e2e_us : ℕ

abbrev pub decode_total : List Shown → ℕ
decode_total [] = 0
decode_total (f ∷ fs) = f.decode_us + decode_total fs

abbrev pub e2e_total : List Shown → ℕ
e2e_total [] = 0
e2e_total (f ∷ fs) = f.e2e_us + e2e_total fs

abbrev pub mean_if : Bool → ℕ → ℕ → Option ℕ
mean_if true sum zero = none
mean_if true sum (suc n) = some (sum / suc n)
mean_if false sum n = none

module _ (fl : Doubles) where
  abbrev pub show : List Shown → Metrics → Metrics
  show [] s = s
  show (f ∷ fs) s = show fs (on_frame fl f.capture_ts f.arrival_us f.decode_us f.e2e_us s)

  show-sums :
      (fs : List Shown) (s : Metrics)
      → s.decode_sum + decode_total fs < 2 ^ 64
      → s.e2e_sum + e2e_total fs < 2 ^ 64
      → s.n + length fs < 2 ^ 64
      → ((show fs s).decode_sum ≡ s.decode_sum + decode_total fs)
        × ((show fs s).e2e_sum ≡ s.e2e_sum + e2e_total fs)
        × ((show fs s).n ≡ s.n + length fs)
        × ((show fs s).base ≡ s.base)
  unfolding on_frame
  show-sums [] s hd he hn = (omega arith, omega arith, omega arith, refl)
  show-sums (f ∷ fs) s hd he hn =
      let s1 = on_frame fl f.capture_ts f.arrival_us f.decode_us f.e2e_us s in
      let d1 : s1.decode_sum ≡ s.decode_sum + f.decode_us = omega arith in
      let e1 : s1.e2e_sum ≡ s.e2e_sum + f.e2e_us = omega arith in
      let n1 : s1.n ≡ s.n + 1 = omega arith in
      let (d, e, n, b) = show-sums fs s1 (omega arith) (omega arith) (omega arith) in
      (omega arith, omega arith, omega arith, b)

  mean_if_lem :
      (c : Bool) (sum k : ℕ) → (if c && ltb 0 k then some (sum / k) else none) ≡ mean_if c sum k
  mean_if_lem true sum zero = refl
  mean_if_lem true sum (suc k) = ground arith
  mean_if_lem false sum k = refl

  sub_u64_lem : (a b : ℕ) → b ≤ a → a < 2 ^ 64 → sub_u64 a b ≡ a - b
  sub_u64_lem a b h lt = omega arith

  -- The counters do not fall between two reports, and no sum reaches 2 ^ 64: the second report has
  -- the differences of the three counters, and the means of the decode times and of the delays of
  -- exactly the frames shown between the reports, with no delay where there is no clock or no frame.
  pub take_window-show :
      (fs : List Shown) (s : Metrics) (old cur : Counters) (rtt0 rtt : ℕ) (c0 c : Bool)
      → old.frames_received ≤ cur.frames_received
      → old.frames_dropped ≤ cur.frames_dropped
      → old.datagrams ≤ cur.datagrams
      → cur.frames_received < 2 ^ 64
      → cur.frames_dropped < 2 ^ 64
      → cur.datagrams < 2 ^ 64
      → decode_total fs < 2 ^ 64
      → e2e_total fs < 2 ^ 64
      → length fs < 2 ^ 64
      → let first = (take_window fl old rtt0 c0 s).1 in
        let report = (take_window fl cur rtt c (show fs first)).0 in
        (report.frames_received ≡ cur.frames_received - old.frames_received)
        × (report.frames_dropped ≡ cur.frames_dropped - old.frames_dropped)
        × (report.datagrams ≡ cur.datagrams - old.datagrams)
        × (report.decode_us ≡ mean (decode_total fs) (length fs))
        × (report.e2e_us ≡ mean_if c (e2e_total fs) (length fs))
  unfolding take_window
  take_window-show fs s old cur rtt0 rtt c0 c r d g rb db gb hd he hn =
      let first = (take_window fl old rtt0 c0 s).1 in
      let (decode, e2e, n, base) = show-sums fs first (omega arith) (omega arith) (omega arith) in
      let all_decoded : (show fs first).decode_sum ≡ decode_total fs = omega (arith, decode) in
      let all_delays : (show fs first).e2e_sum ≡ e2e_total fs = omega (arith, e2e) in
      let all_shown : (show fs first).n ≡ length fs = omega (arith, n) in
      (
        ap (λ (b : Counters). sub_u64 cur.frames_received b.frames_received) base
            ∙ sub_u64_lem cur.frames_received old.frames_received r rb,
        ap (λ (b : Counters). sub_u64 cur.frames_dropped b.frames_dropped) base
            ∙ sub_u64_lem cur.frames_dropped old.frames_dropped d db,
        ap (λ (b : Counters). sub_u64 cur.datagrams b.datagrams) base
            ∙ sub_u64_lem cur.datagrams old.datagrams g gb,
        ap (λ k. mean k (show fs first).n) all_decoded ∙ ap (mean (decode_total fs)) all_shown,
        mean_if_lem c (show fs first).e2e_sum (show fs first).n
            ∙ ap (λ k. mean_if c k (show fs first).n) all_delays
            ∙ ap (mean_if c (e2e_total fs)) all_shown,
      )

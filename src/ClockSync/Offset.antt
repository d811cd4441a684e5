-- ===== src/ClockSync/Offset.antt =====
-- proto/src/clocksync.cpp: the floor division and the accuracy of the offset.
use loom_client.Common.{
  ℤ, pos, negsuc, ◌+ℤ◌, ◌-ℤ◌, ◌≤ℤ◌, ◌<ℤ◌, int_laws, pos_part, neg_part, ◌≡◌, ap, arith,
}
use loom_client.ClockSync.{floor_div2, sample}

-- Twice the quotient is the number or one below it, for negative numbers too.
pub floor_div2_bounds :
    (n : ℤ) → (floor_div2 n +ℤ floor_div2 n ≤ℤ n) × (n <ℤ floor_div2 n +ℤ floor_div2 n +ℤ pos 2)
unfolding floor_div2 ◌+ℤ◌ ◌-ℤ◌
floor_div2_bounds (pos n) = ground arith
floor_div2_bounds (negsuc n) = ground arith

-- Where the host's clock is the client's plus `theta`, and the ping and the pong take times `d1` and
-- `d2` that are not negative, the round trip is their sum, and twice the error of the offset is at
-- most the round trip, rounded up by one.
pub sample_accuracy :
    (theta d1 d2 t0 t1 t2 t3 : ℤ)
    → pos 0 ≤ℤ d1
    → pos 0 ≤ℤ d2
    → t1 ≡ t0 +ℤ theta +ℤ d1
    → t3 ≡ t2 -ℤ theta +ℤ d2
    → let e = sample t0 t1 t2 t3 in
      (e.rtt ≡ d1 +ℤ d2)
      × (e.offset +ℤ e.offset ≤ℤ theta +ℤ theta +ℤ e.rtt)
      × (theta +ℤ theta ≤ℤ e.offset +ℤ e.offset +ℤ e.rtt +ℤ pos 1)
unfolding sample
sample_accuracy theta d1 d2 t0 t1 t2 t3 h1 h2 e1 e3 =
    let n = t1 -ℤ t0 +ℤ (t2 -ℤ t3) in
    let bounds = floor_div2_bounds n in
    let p1 = ap pos_part e1 in
    let n1 = ap neg_part e1 in
    let p3 = ap pos_part e3 in
    let n3 = ap neg_part e3 in (omega int_laws, omega int_laws, omega int_laws)

-- ===== src/Cbor/Float.antt =====
-- proto/src/cbor.cpp: half, single and double floats as bit patterns. `widen` and `narrow` are the
-- conversions of the language (IEEE 754, to nearest, ties to even), `feq32` and `feq64` its `==`.
use loom_client.Common.{
  ℕ, zero, suc, ◌+◌, ◌-◌, ◌*◌, ◌/◌, ◌%◌, ◌^◌, bit_and, bit_or, Bool, not, ◌&&◌, ◌||◌, ltb, leb,
  ◌==◌, if◌then◌else◌,
}

abbrev pub u32 : ℕ → ℕ
u32 x = x % 2 ^ 32

-- `while ((m & 0x400u) == 0) { m <<= 1; e--; }`: a half's subnormal mantissa is not 0 and below
-- 0x400, so ten rounds are enough.
normalize : ℕ → ℕ → ℕ → ℕ × ℕ
normalize zero m e = (m, e)
normalize (suc fuel) m e =
    let next = normalize fuel (u32 (m * 2)) (u32 (e + 2 ^ 32 - 1)) in
    if bit_and m 0x400 == 0 then next else (m, e)

unfoldable pub subnormal_half : ℕ → ℕ → ℕ
unfolding normalize
subnormal_half sign m =
    let (m', e) = normalize 10 m 0 in
    let e' = u32 (e + 1) in
    let rest = bit_and m' (2 ^ 32 - 1 - 0x400) in
    bit_or (bit_or sign (u32 (u32 (e' + (127 - 15)) * 2 ^ 23))) (u32 (rest * 2 ^ 13))

unfoldable pub f16_to_f32 : ℕ → ℕ
unfolding subnormal_half
f16_to_f32 h =
    let sign = u32 (bit_and h 0x8000 * 2 ^ 16) in
    let e = bit_and (h / 2 ^ 10) 0x1f in
    let m = bit_and h 0x3ff in
    if e == 0
    then (if m == 0 then sign else subnormal_half sign m)
    else if e == 0x1f
    then bit_or (bit_or sign 0x7f800000) (u32 (m * 2 ^ 13))
    else bit_or (bit_or sign (u32 (u32 (e + 2 ^ 32 - 15 + 127) * 2 ^ 23))) (u32 (m * 2 ^ 13))

abbrev pub u16 : ℕ → ℕ
u16 x = x % 2 ^ 16

-- `half++` if the bits that were cut off are above the middle, or at it beside an odd `half`.
round_even : ℕ → ℕ → ℕ → ℕ
round_even half rem mid =
    if ltb mid rem || (rem == mid && not (bit_and half 1 == 0)) then u32 (half + 1) else half

-- The biased exponent `e` of the half is `biased - 127 + 15`; the branches test it for `e >= 0x1f`,
-- `e <= 0` and `e < -10`, which are `143 <= biased`, `biased <= 112` and `biased < 102`.
unfoldable pub f32_to_f16 : ℕ → ℕ
unfolding round_even
f32_to_f16 x =
    let sign = bit_and (x / 2 ^ 16) 0x8000 in
    let biased = bit_and (x / 2 ^ 23) 0xff in
    let m = bit_and x 0x7fffff in
    if biased == 0xff
    then u16 (bit_or (bit_or sign 0x7c00) (if m == 0 then 0 else 0x200))
    else if leb 143 biased
    then u16 (bit_or sign 0x7c00)
    else if leb biased 112
    then (if ltb biased 102
        then u16 sign
        else let m' = bit_or m 0x800000 in
          let shift = 14 + 112 - biased in
          let half = m' / 2 ^ shift in
          u16 (bit_or sign (round_even half (bit_and m' (2 ^ shift - 1)) (2 ^ (shift - 1)))))
    else let half = bit_or ((biased - 112) * 2 ^ 10) (m / 2 ^ 13) in
      u16 (bit_or sign (round_even half (bit_and m 0x1fff) 0x1000))

-- The language's own conversions and comparisons.
abbrev pub is_nan32 : ℕ → Bool
is_nan32 f = ltb 0x7f800000 (f % 2 ^ 31)

abbrev pub is_nan64 : ℕ → Bool
is_nan64 d = ltb 0x7ff0000000000000 (d % 2 ^ 63)

abbrev pub feq32 : ℕ → ℕ → Bool
feq32 a b =
    not (is_nan32 a) && (not (is_nan32 b) && (a == b || (a % 2 ^ 31 == 0 && b % 2 ^ 31 == 0)))

abbrev pub feq64 : ℕ → ℕ → Bool
feq64 a b =
    not (is_nan64 a) && (not (is_nan64 b) && (a == b || (a % 2 ^ 63 == 0 && b % 2 ^ 63 == 0)))

-- The exponent, as a double's, and the fraction of a subnormal single, whose value is m * 2 ^ -149.
-- Each round doubles `m` until bit 23 is set, at most 23 times.
unfoldable pub widen_subnormal : ℕ → ℕ → ℕ → ℕ
widen_subnormal zero m e = 0
widen_subnormal (suc fuel) m e =
    let next = widen_subnormal fuel (m * 2) (e - 1) in
    if ltb m (2 ^ 23) then next else e * 2 ^ 52 + m % 2 ^ 23 * 2 ^ 29

-- (double)f. A NaN is made quiet.
unfoldable pub widen : ℕ → ℕ
unfolding widen_subnormal
widen f =
    let sign = f / 2 ^ 31 % 2 * 2 ^ 63 in
    let e = f / 2 ^ 23 % 2 ^ 8 in
    let m = f % 2 ^ 23 in
    if e == 0xff
    then sign
      + 0x7ff * 2 ^ 52
      + (if m == 0 then 0 else if ltb m (2 ^ 22) then (m + 2 ^ 22) * 2 ^ 29 else m * 2 ^ 29)
    else if e == 0
    then (if m == 0 then sign else sign + widen_subnormal 24 m 897)
    else sign + (e + 896) * 2 ^ 52 + m * 2 ^ 29

narrow_round : ℕ → ℕ → ℕ
narrow_round m shift =
    let q = m / 2 ^ shift in
    let r = m % 2 ^ shift in
    let mid = 2 ^ (shift - 1) in if ltb mid r || (r == mid && q % 2 == 1) then q + 1 else q

-- (float)d: below exponent 873 the value is under half the least subnormal; 897 is the least normal
-- exponent and 1150 the greatest; a carry of the rounding runs on into the exponent.
unfoldable pub narrow : ℕ → ℕ
unfolding narrow_round
narrow d =
    let sign = d / 2 ^ 63 % 2 * 2 ^ 31 in
    let e = d / 2 ^ 52 % 2 ^ 11 in
    let m = d % 2 ^ 52 in
    let magnitude : ℕ =
      (if e == 0x7ff
        then 0xff * 2 ^ 23 + (if m == 0 then 0 else 2 ^ 22 + m / 2 ^ 29 % 2 ^ 22)
        else if ltb 1150 e
        then 0xff * 2 ^ 23
        else if ltb e 872
        then 0
        else if ltb e 897
        then narrow_round (m + 2 ^ 52) (29 + 897 - e)
        else (e - 897) * 2 ^ 23 + narrow_round (m + 2 ^ 52) 29) in
    u32 (sign + magnitude)

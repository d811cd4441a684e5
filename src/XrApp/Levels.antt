-- ===== src/XrApp/Levels.antt =====
-- quest/src/xr_app.cpp: the number of levels of a cylinder's swapchain.
use loom_client.Common.{
  ℕ, zero, suc, ◌+◌, ◌*◌, ◌/◌, ◌^◌, ◌≤◌, ◌<◌, ltb, arith, Bool-cases, inl, inr, ltb→lt, ltb→le,
  if◌then◌else◌,
}
use native.Mathlib.Nat.{pow-suc}
use loom_client.XrApp.{halvings, mip_levels}

halvings-bounds :
    (fuel dim : ℕ)
    → dim < 2 ^ fuel
    → 1 ≤ dim
    → (2 ^ halvings fuel dim ≤ dim) × (dim < 2 ^ suc (halvings fuel dim))
unfolding halvings
halvings-bounds zero dim h one = absurd (omega arith)
halvings-bounds (suc fuel) dim h one = elim (Bool-cases (ltb 1 dim)) [
  | inl more ↦
      let k = halvings fuel (dim / 2) in
      let two = ltb→lt 1 dim more in
      let (low, high) =
        halvings-bounds fuel (dim / 2) (omega (arith, pow-suc 2 fuel)) (omega (arith, two)) in
      rw more (omega (arith, pow-suc 2 k), omega (arith, pow-suc 2 k, pow-suc 2 (suc k)))
  | inr last ↦ rw last (omega arith, omega (arith, ltb→le 1 dim last))
]

-- The full chain of a swapchain of a uint32_t size that is not 0: the number of its levels is that of
-- the binary digits of the larger side, so that the last level is one texel and no level is missing.
-- The 32 rounds that the loop is given are enough.
mip_levels-bounds :
    (width height : ℕ)
    → width < 2 ^ 32
    → height < 2 ^ 32
    → 1 ≤ width + height
    → let side = if ltb width height then height else width in
      (2 ^ mip_levels width height ≤ 2 * side) × (side < 2 ^ mip_levels width height)
unfolding mip_levels
mip_levels-bounds w h a b c =
    let side = if ltb w h then h else w in
    let (low, high) = halvings-bounds 32 side (ground arith) (ground arith) in
    (omega (arith, pow-suc 2 (halvings 32 side)), high)

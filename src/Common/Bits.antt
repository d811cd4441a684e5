-- ===== src/Common/Bits.antt =====
-- `|` of disjoint fields and `&` with a mask, as arithmetic. The library defines the native
-- operations by recursion on binary digits; `or_halves` is that recursion without its fuel.
use Prim.Native.Nat.{
  ℕ, zero, suc, ◌+◌, ◌*◌, ◌/◌, ◌%◌, ◌^◌, ◌≤◌, ◌<◌, max, bit_and, bit_or, digits, bit_or-bitwise,
}
use mathlib.Core.Path.{◌≡◌, refl, ap}
use mathlib.Core.Bool.{Bool, true, ◌&&◌}
use native.Mathlib.Omega.{arith}
use native.Mathlib.Nat.{pow-suc}
use loom_client.Common.Tests.{◌==◌, ==_iff}

abbrev or_digits : ℕ → ℕ → ℕ → ℕ
or_digits n a b = digits (λ y. y) max n a b

or_digits-any_fuel : (n m a b : ℕ) → a ≤ n → a ≤ m → or_digits n a b ≡ or_digits m a b
or_digits-any_fuel zero zero a b p q = refl
or_digits-any_fuel zero (suc m) zero b p q = refl
or_digits-any_fuel zero (suc m) (suc a) b p q = absurd (omega arith)
or_digits-any_fuel (suc n) zero zero b p q = refl
or_digits-any_fuel (suc n) zero (suc a) b p q = absurd (omega arith)
or_digits-any_fuel (suc n) (suc m) zero b p q = refl
or_digits-any_fuel (suc n) (suc m) (suc a) b p q =
    omega (arith, or_digits-any_fuel n m (suc a / 2) (b / 2) (omega arith) (omega arith))

zero-or : (b : ℕ) → bit_or 0 b ≡ b
zero-or b = bit_or-bitwise 0 b

or_halves : (a b : ℕ) → bit_or a b ≡ bit_or (a / 2) (b / 2) * 2 + max (a % 2) (b % 2)
or_halves zero b = omega (arith, zero-or b, zero-or (b / 2))
or_halves (suc a) b = omega (
  arith,
  bit_or-bitwise (suc a) b,
  bit_or-bitwise (suc a / 2) (b / 2),
  or_digits-any_fuel a (suc a / 2) (suc a / 2) (b / 2) (omega arith) (omega arith),
)

or-zero_upto : (n a : ℕ) → a ≤ n → bit_or a 0 ≡ a
or-zero_upto zero zero h = zero-or 0
or-zero_upto zero (suc a) h = absurd (omega arith)
or-zero_upto (suc n) zero h = zero-or 0
or-zero_upto (suc n) (suc a) h =
    omega (arith, or_halves (suc a) 0, or-zero_upto n (suc a / 2) (omega arith))

double_power : (q k : ℕ) → q * 2 ^ suc k ≡ 2 * (q * 2 ^ k)
double_power q k = omega (arith, ap (λ (t : ℕ). q * t) (pow-suc 2 k))

-- `(q << k) | r` is a sum if `r` fits below bit `k`.
pub or_fields : (k q r : ℕ) → r < 2 ^ k → bit_or (q * 2 ^ k) r ≡ q * 2 ^ k + r
or_fields zero q r h = ground (arith, or-zero_upto q q)
or_fields (suc k) q r h =
    ground
      (arith, double_power q k, pow-suc 2 k, or_halves (q * 2 ^ suc k) r, or_fields k q (r / 2))

pub byte_or : (q r : ℕ) → r < 256 → bit_or (q * 256) r ≡ q * 256 + r
byte_or q r h = or_fields 8 q r h

pub nibble_or : (q r : ℕ) → r < 16 → bit_or (q * 16) r ≡ q * 16 + r
nibble_or q r h = or_fields 4 q r h

pub byte_split : (q r : ℕ) → r < 32 → bit_or (q * 32) r ≡ q * 32 + r
byte_split q r h = or_fields 5 q r h

-- Over a byte, every value is checked by evaluation.
unfoldable pub all_below : ℕ → (ℕ → Bool) → Bool
all_below zero p = true
all_below (suc n) p = p n && all_below n p

pub all_below→ : (n : ℕ) (p : ℕ → Bool) (x : ℕ) → all_below n p ≡ true → x < n → p x ≡ true
unfolding all_below
all_below→ zero p x h lt = absurd (omega arith)
all_below→ (suc n) p x h lt = ground (arith, all_below→ n p x)

mask_table : all_below 256 (λ x. bit_and x 0x1f == x % 32) ≡ true
unfolding all_below
mask_table = refl

-- `ib & 0x1f` of a byte.
pub mask_five : (x : ℕ) → x < 256 → bit_and x 0x1f ≡ x % 32
mask_five x h = (==_iff _ _).0 (all_below→ 256 _ x mask_table h)

-- `(uint32_t(a) << 24) | (uint32_t(b) << 16) | (uint32_t(c) << 8) | uint32_t(d)`
unfoldable pub be_u32 : ℕ → ℕ → ℕ → ℕ → ℕ
be_u32 a b c d =
    bit_or (bit_or (bit_or (a * 2 ^ 24 % 2 ^ 32) (b * 2 ^ 16 % 2 ^ 32)) (c * 2 ^ 8 % 2 ^ 32)) d

pub be_u32_bytes :
    (a b c d : ℕ)
    → a < 256
    → b < 256
    → c < 256
    → d < 256
    → be_u32 a b c d ≡ a * 2 ^ 24 + b * 2 ^ 16 + c * 2 ^ 8 + d
unfolding be_u32
be_u32_bytes a b c d ha hb hc hd =
    let ea : a * 2 ^ 24 % 2 ^ 32 ≡ a * 2 ^ 24 = omega arith in
    let eb : b * 2 ^ 16 % 2 ^ 32 ≡ b * 2 ^ 16 = omega arith in
    let ec : c * 2 ^ 8 % 2 ^ 32 ≡ c * 2 ^ 8 = omega arith in
    let two : a * 2 ^ 24 + b * 2 ^ 16 ≡ (a * 256 + b) * 2 ^ 16 = omega arith in
    let three : (a * 256 + b) * 2 ^ 16 + c * 2 ^ 8 ≡ ((a * 256 + b) * 256 + c) * 256 =
      omega arith in
    rw
      (
        ea,
        eb,
        ec,
        or_fields 24 a (b * 2 ^ 16) (omega arith),
        two,
        or_fields 16 (a * 256 + b) (c * 2 ^ 8) (omega arith),
        three,
        byte_or ((a * 256 + b) * 256 + c) d hd,
      )
      (omega arith)

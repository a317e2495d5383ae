-- ===== src/Base/Bits.antt =====
-- Laws of the native bit operations at variables, from their recursion on binary digits.
use Prim.Native.Nat.{
  ℕ, zero, suc, ◌+◌, ◌*◌, ◌/◌, ◌%◌, ◌^◌, ◌≤◌, ◌<◌, min, max, bit_and, bit_or, bit_xor, digits,
  bit_and-bitwise, bit_or-bitwise, bit_xor-bitwise, differ,
}
use mathlib.Core.Path.{◌≡◌, refl, ap, ◌∙◌}
use native.Mathlib.Nat.{pow-suc}
use native.Mathlib.Omega.{arith}

module _ (z : ℕ → ℕ) (f : ℕ → ℕ → ℕ) where
  -- Fuel above the first number does not matter.
  digits_enough : (x y s t : ℕ) → x ≤ s → x ≤ t → digits z f s x y ≡ digits z f t x y
  digits_enough zero y zero zero _ _ = refl
  digits_enough zero y zero (suc t) _ _ = refl
  digits_enough zero y (suc s) zero _ _ = refl
  digits_enough zero y (suc s) (suc t) _ _ = refl
  digits_enough (suc x) y zero t below _ = absurd (omega arith)
  digits_enough (suc x) y (suc s) zero _ below = absurd (omega arith)
  digits_enough (suc x) y (suc s) (suc t) below below' =
      rw (digits_enough (suc x / 2) (y / 2) s t (omega arith) (omega arith))

differ-digits : (a b : ℕ) → a < 2 → b < 2 → differ a b ≡ (a + b) % 2
differ-digits zero b p q = omega arith
differ-digits (suc zero) zero p q = refl
differ-digits (suc zero) (suc zero) p q = refl
differ-digits (suc zero) (suc (suc b)) p q = absurd (omega arith)
differ-digits (suc (suc a)) b p q = absurd (omega arith)

-- The lowest digit, and the rest.
pub bit_xor_step : (x y : ℕ) → bit_xor x y ≡ (x + y) % 2 + 2 * bit_xor (x / 2) (y / 2)
bit_xor_step zero y = simp bit_xor-bitwise (omega arith)
bit_xor_step (suc x) y = simp bit_xor-bitwise (
    omega (
      arith,
      digits_enough (λ d. d) differ (suc x / 2) (y / 2) x (suc x / 2) (omega arith) (omega arith),
      differ-digits (suc x % 2) (y % 2) (omega arith) (omega arith),
    ))

bit_or_step : (x y : ℕ) → bit_or x y ≡ max (x % 2) (y % 2) + 2 * bit_or (x / 2) (y / 2)
bit_or_step zero y = simp bit_or-bitwise (omega arith)
bit_or_step (suc x) y = simp bit_or-bitwise (
    omega (
      arith,
      digits_enough (λ d. d) max (suc x / 2) (y / 2) x (suc x / 2) (omega arith) (omega arith),
    ))

pub bit_and_step : (x y : ℕ) → bit_and x y ≡ min (x % 2) (y % 2) + 2 * bit_and (x / 2) (y / 2)
bit_and_step zero y = simp bit_and-bitwise (omega arith)
bit_and_step (suc x) y = simp bit_and-bitwise (
    omega (
      arith,
      digits_enough (λ d. 0) min (suc x / 2) (y / 2) x (suc x / 2) (omega arith) (omega arith),
    ))

-- A bit above all digits of the other number is added.
pub bit_or_high : (k a : ℕ) → a < 2 ^ k → bit_or a (2 ^ k) ≡ a + 2 ^ k
bit_or_high zero zero h = refl
bit_or_high zero (suc a) h = absurd (omega arith)
bit_or_high (suc k) a h =
    let half : 2 ^ suc k / 2 ≡ 2 ^ k = omega (arith, pow-suc 2 k) in
    let rest = bit_or_high k (a / 2) (omega (arith, pow-suc 2 k)) in
    bit_or_step a (2 ^ suc k) ∙ rw half (omega (arith, rest, pow-suc 2 k))

bit_xor_half : (a b : ℕ) → bit_xor a b / 2 ≡ bit_xor (a / 2) (b / 2)
bit_xor_half a b = omega (arith, bit_xor_step a b)

xor_cancel_fuel : (n a b : ℕ) → a ≤ n → b ≤ n → bit_xor (bit_xor a b) b ≡ a
xor_cancel_fuel zero zero zero p q = refl
xor_cancel_fuel zero (suc a) b p q = absurd (omega arith)
xor_cancel_fuel zero zero (suc b) p q = absurd (omega arith)
xor_cancel_fuel (suc n) a b p q =
    bit_xor_step (bit_xor a b) b
    ∙ rw bit_xor_half (
        omega
          (arith, xor_cancel_fuel n (a / 2) (b / 2) (omega arith) (omega arith), bit_xor_step a b))

-- Exclusive or with the same number twice changes nothing.
pub bit_xor_cancel : (a b : ℕ) → bit_xor (bit_xor a b) b ≡ a
bit_xor_cancel a b = xor_cancel_fuel (a + b) a b (omega arith) (omega arith)

-- `bit_xor` modulo `m` reads only its arguments modulo `m`.
abbrev pub XorMod : ℕ → Type 0
XorMod m = (a b c d : ℕ) → a % m ≡ c % m → b % m ≡ d % m → bit_xor a b % m ≡ bit_xor c d % m

XorMod-two : XorMod 2
XorMod-two a b c d p q = omega (arith, bit_xor_step a b, bit_xor_step c d)

mod_double : (m x : ℕ) → 0 < m → x % (2 * m) ≡ 2 * (x / 2 % m) + x % 2
mod_double m x pos = grind arith

XorMod-double : (m : ℕ) → 0 < m → XorMod m → XorMod (2 * m)
XorMod-double m pos h a b c d p q =
    let a2 = mod_double m a pos in
    let b2 = mod_double m b pos in
    let c2 = mod_double m c pos in
    let d2 = mod_double m d pos in
    let hi = h (a / 2) (b / 2) (c / 2) (d / 2) (omega arith) (omega arith) in
    let low = XorMod-two a b c d (omega arith) (omega arith) in
    omega (
      arith,
      mod_double m (bit_xor a b) pos,
      mod_double m (bit_xor c d) pos,
      ap (λ (t : ℕ). t % m) (bit_xor_half a b),
      ap (λ (t : ℕ). t % m) (bit_xor_half c d),
      bit_xor_step a b,
      bit_xor_step c d,
    )

XorMod-16 : XorMod 16
XorMod-16 =
    XorMod-double 8 (omega arith)
      (XorMod-double 4 (omega arith) (XorMod-double 2 (omega arith) XorMod-two))

-- The low byte of an exclusive or depends on the low bytes.
pub XorMod-byte : XorMod 256
XorMod-byte = XorMod-double 128 (omega arith) (
    XorMod-double 64 (omega arith)
      (XorMod-double 32 (omega arith) (XorMod-double 16 (omega arith) XorMod-16)))

xor_lt_fuel : (k a b : ℕ) → a < 2 ^ k → b < 2 ^ k → bit_xor a b < 2 ^ k
xor_lt_fuel zero zero b p q = omega (arith, bit_xor-bitwise 0 b)
xor_lt_fuel zero (suc a) b p q = absurd (omega arith)
xor_lt_fuel (suc k) a b p q = omega (
  arith,
  bit_xor_step a b,
  pow-suc 2 k,
  xor_lt_fuel k (a / 2) (b / 2) (omega (arith, pow-suc 2 k)) (omega (arith, pow-suc 2 k)),
)

-- Two numbers of `k` bits have an exclusive or of `k` bits.
pub bit_xor-lt : (k a b : ℕ) → a < 2 ^ k → b < 2 ^ k → bit_xor a b < 2 ^ k
bit_xor-lt = xor_lt_fuel

zero_mask : (fuel x : ℕ) → x ≤ fuel → bit_and x 0 ≡ 0
zero_mask fuel zero below = refl
zero_mask zero (suc x) below = absurd (omega arith)
zero_mask (suc fuel) (suc x) below =
    omega (arith, zero_mask fuel (suc x / 2) (omega arith), bit_and_step (suc x) 0)

bit_and-zero : (x : ℕ) → bit_and x 0 ≡ 0
bit_and-zero x = zero_mask x x (omega arith)

-- `a & 0xf`, four steps of the recursion.
bit_and_15 : (a : ℕ) → bit_and a 15 ≡ a % 16
bit_and_15 a = omega (
  arith,
  bit_and_step a 15,
  bit_and_step (a / 2) 7,
  bit_and_step (a / 2 / 2) 3,
  bit_and_step (a / 2 / 2 / 2) 1,
  bit_and-zero (a / 2 / 2 / 2 / 2),
)

-- `a & 0xff`
pub bit_and_byte : (a : ℕ) → bit_and a 255 ≡ a % 256
bit_and_byte a = omega (
  arith,
  bit_and_step a 255,
  bit_and_step (a / 2) 127,
  bit_and_step (a / 2 / 2) 63,
  bit_and_step (a / 2 / 2 / 2) 31,
  bit_and_15 (a / 2 / 2 / 2 / 2),
)

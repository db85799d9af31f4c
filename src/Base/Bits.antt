-- ===== src/Base/Bits.antt =====
-- The operations on binary digits where their operands have no digit in common, and masks of ones.
use Prim.Native.Nat.{
  ℕ, zero, suc, ◌+◌, ◌*◌, ◌/◌, ◌%◌, ◌^◌, ◌≤◌, ◌<◌, min, max, bit_and, bit_or, digits,
  bit_and-bitwise, bit_or-bitwise,
}
use mathlib.Core.Path.{◌≡◌, refl, sym, ap, ◌∙◌, subst}
use native.Mathlib.Nat.{pow-succ', mul_assoc, mul_comm}
use native.Mathlib.Omega.{arith}

module _ (z : ℕ → ℕ) (f : ℕ → ℕ → ℕ) where
  -- More fuel than there are digits changes nothing.
  digits_enough : (n m a b : ℕ) → a ≤ n → a ≤ m → digits z f n a b ≡ digits z f m a b
  digits_enough zero zero a b p q = refl
  digits_enough zero (suc m) zero b p q = refl
  digits_enough zero (suc m) (suc a) b p q = absurd (omega arith)
  digits_enough (suc n) zero zero b p q = refl
  digits_enough (suc n) zero (suc a) b p q = absurd (omega arith)
  digits_enough (suc n) (suc m) zero b p q = refl
  digits_enough (suc n) (suc m) (suc a) b p q =
      omega (arith, digits_enough n m (suc a / 2) (b / 2) (omega arith) (omega arith))

pub bit_or_step : (a b : ℕ) → bit_or a b ≡ bit_or (a / 2) (b / 2) * 2 + max (a % 2) (b % 2)
bit_or_step zero b = omega (arith, bit_or-bitwise 0 b, bit_or-bitwise 0 (b / 2))
bit_or_step (suc a) b = omega (
  arith,
  bit_or-bitwise (suc a) b,
  bit_or-bitwise (suc a / 2) (b / 2),
  digits_enough (λ b. b) max a (suc a / 2) (suc a / 2) (b / 2) (omega arith) (omega arith),
)

bit_or-zero_below : (n a : ℕ) → a ≤ n → bit_or a 0 ≡ a
bit_or-zero_below n zero h = bit_or-bitwise 0 0
bit_or-zero_below zero (suc a) h = absurd (omega arith)
bit_or-zero_below (suc n) (suc a) h =
    omega (arith, bit_or_step (suc a) 0, bit_or-zero_below n (suc a / 2) (omega arith))

-- Fields that do not overlap.
pub bit_or-fields : (k a b : ℕ) → b < 2 ^ k → bit_or (a * 2 ^ k) b ≡ a * 2 ^ k + b
bit_or-fields zero a b h =
    let none : b ≡ 0 = omega arith in
    let whole : a * 2 ^ 0 ≡ a = omega arith in
    rw (none, whole) (omega (arith, bit_or-zero_below a a (omega arith)))
bit_or-fields (suc k) a b h =
    let double : a * 2 ^ suc k ≡ a * 2 ^ k * 2 =
      ap (◌*◌ a) (pow-succ' 2 k ∙ mul_comm 2 (2 ^ k)) ∙ sym (mul_assoc a (2 ^ k) 2) in
    let half : a * 2 ^ suc k / 2 ≡ a * 2 ^ k = omega (arith, double) in
    let step : bit_or (a * 2 ^ suc k) b
        ≡ bit_or (a * 2 ^ k) (b / 2) * 2 + max (a * 2 ^ suc k % 2) (b % 2) =
      subst (λ x. bit_or (a * 2 ^ suc k) b ≡ bit_or x (b / 2) * 2 + max (a * 2 ^ suc k % 2) (b % 2))
        half (bit_or_step (a * 2 ^ suc k) b) in
    let small : b / 2 < 2 ^ k = omega (arith, pow-succ' 2 k) in
    omega (arith, double, step, bit_or-fields k a (b / 2) small)

pub bit_and_step : (a b : ℕ) → bit_and a b ≡ bit_and (a / 2) (b / 2) * 2 + min (a % 2) (b % 2)
bit_and_step zero b = omega (arith, bit_and-bitwise 0 b, bit_and-bitwise 0 (b / 2))
bit_and_step (suc a) b = omega (
  arith,
  bit_and-bitwise (suc a) b,
  bit_and-bitwise (suc a / 2) (b / 2),
  digits_enough (λ b. zero) min a (suc a / 2) (suc a / 2) (b / 2) (omega arith) (omega arith),
)

bit_and-zero_below : (n a : ℕ) → a ≤ n → bit_and a 0 ≡ 0
bit_and-zero_below n zero h = bit_and-bitwise 0 0
bit_and-zero_below zero (suc a) h = absurd (omega arith)
bit_and-zero_below (suc n) (suc a) h =
    omega (arith, bit_and_step (suc a) 0, bit_and-zero_below n (suc a / 2) (omega arith))

-- Masks of one to six ones.
bit_and-1 : (a : ℕ) → bit_and a 0x1 ≡ a % 2
bit_and-1 a = omega (arith, bit_and_step a 1, bit_and-zero_below (a / 2) (a / 2) (omega arith))

bit_and-3 : (a : ℕ) → bit_and a 0x3 ≡ a % 4
bit_and-3 a = omega (arith, bit_and_step a 0x3, bit_and-1 (a / 2))

bit_and-7 : (a : ℕ) → bit_and a 0x7 ≡ a % 8
bit_and-7 a = omega (arith, bit_and_step a 0x7, bit_and-3 (a / 2))

pub bit_and-15 : (a : ℕ) → bit_and a 0xf ≡ a % 16
bit_and-15 a = omega (arith, bit_and_step a 0xf, bit_and-7 (a / 2))

pub bit_and-31 : (a : ℕ) → bit_and a 0x1f ≡ a % 32
bit_and-31 a = omega (arith, bit_and_step a 0x1f, bit_and-15 (a / 2))

pub bit_and-63 : (a : ℕ) → bit_and a 0x3f ≡ a % 64
bit_and-63 a = omega (arith, bit_and_step a 0x3f, bit_and-31 (a / 2))

-- ===== src/Base/Powers.antt =====
-- The test of the code for a power of two, `(x & (x - 1)) == 0`.
use Prim.Native.Nat.{
  ℕ, zero, suc, ◌+◌, ◌-◌, ◌*◌, ◌/◌, ◌%◌, ◌^◌, ◌≤◌, ◌<◌, min, bit_and, digits, bit_and-bitwise,
}
use mathlib.Core.Path.{◌≡◌, refl, sym, ◌∙◌, ap}
use native.Mathlib.Decide.{ℕ_discrete}
use native.Mathlib.Nat.{pow-succ'}
use native.Mathlib.Omega.{arith}

pub two_pow-pos : (k : ℕ) → 0 < 2 ^ k
two_pow-pos zero = omega arith
two_pow-pos (suc k) = omega (arith, two_pow-pos k, pow-succ' 2 k)

abbrev fuelled : ℕ → ℕ → ℕ → ℕ
fuelled n a b = digits (λ b. zero) min n a b

-- A number with nothing in common with itself is 0.
and-self_zero : (n x : ℕ) → x ≤ n → fuelled n x x ≡ 0 → x ≡ 0
and-self_zero n zero le e = refl
and-self_zero zero (suc x) le e = absurd (omega arith)
and-self_zero (suc n) (suc x) le e =
    let rest : fuelled n (suc x / 2) (suc x / 2) * 2 + min (suc x % 2) (suc x % 2) ≡ 0 = e in
    absurd (omega (arith, and-self_zero n (suc x / 2) (omega arith) (omega arith)))

-- A number without a common digit with the number before it is a power of two.
and-pred_zero : (n b : ℕ) → suc b ≤ n → fuelled n (suc b) b ≡ 0 → (s : ℕ) × (suc b ≡ 2 ^ s)
and-pred_zero zero b le e = absurd (omega arith)
and-pred_zero (suc n) b le e =
    let rest : fuelled n (suc b / 2) (b / 2) * 2 + min (suc b % 2) (b % 2) ≡ 0 = e in
    elim (ℕ_discrete (suc b % 2) 0) [
      | yes even ↦
          let half : suc b / 2 ≡ suc (b / 2) = omega arith in
          let (s, at) =
            and-pred_zero n (b / 2) (omega arith)
              (ap (λ h. fuelled n h (b / 2)) (sym half) ∙ omega arith) in
          (suc s, omega (arith, at, pow-succ' 2 s))
      | no odd ↦
          let half : suc b / 2 ≡ b / 2 = omega arith in
          let none =
            and-self_zero n (b / 2) (omega arith)
              (ap (λ h. fuelled n h (b / 2)) (sym half) ∙ omega arith) in
          (0, omega arith)
    ]

pub bit_and-pred : (x : ℕ) → 0 < x → bit_and x (x - 1) ≡ 0 → (s : ℕ) × (x ≡ 2 ^ s)
bit_and-pred zero some_x e = absurd (omega arith)
bit_and-pred (suc b) some_x e =
    and-pred_zero (suc b) b (omega arith)
      (sym (bit_and-bitwise (suc b) b) ∙ ap (bit_and (suc b)) (omega arith) ∙ e)

-- ===== src/Base/Bits/Step.antt =====
-- One equation for the lowest digit of each operation. The natives recur on a count of digits,
-- which serves as fuel; any count that is large enough gives the same number.
use Prim.Native.Nat.{
  ℕ, zero, suc, ◌+◌, ◌*◌, ◌/◌, ◌%◌, ◌≤◌, min, max, digits, bitwise, differ, bit_and, bit_or,
  bit_xor, bit_and-bitwise, bit_or-bitwise, bit_xor-bitwise,
}
use mathlib.Core.Path.{◌≡◌, refl, sym, ◌∙◌, ap}
use native.Mathlib.Omega.{arith}

module _ (z : ℕ → ℕ) (f : ℕ → ℕ → ℕ) where
  digits-zero : (n b : ℕ) → digits z f n zero b ≡ z b
  digits-zero zero b = refl
  digits-zero (suc n) b = refl

  enough_digits : (n m a b : ℕ) → a ≤ n → a ≤ m → digits z f n a b ≡ digits z f m a b
  enough_digits n m zero b hn hm = digits-zero n b ∙ sym (digits-zero m b)
  enough_digits zero m (suc a) b hn hm = absurd (omega arith)
  enough_digits (suc n) zero (suc a) b hn hm = absurd (omega arith)
  enough_digits (suc n) (suc m) (suc a) b hn hm =
      ap (λ (t : ℕ). t * 2 + f (suc a % 2) (b % 2))
        (enough_digits n m (suc a / 2) (b / 2) (omega arith) (omega arith))

  module _ (runs_out : (b : ℕ) → z b ≡ z (b / 2) * 2 + f 0 (b % 2)) where
    lowest_digit : (a b : ℕ) → bitwise z f a b ≡ bitwise z f (a / 2) (b / 2) * 2 + f (a % 2) (b % 2)
    lowest_digit zero b = runs_out b
    lowest_digit (suc a) b =
        ap (λ (t : ℕ). t * 2 + f (suc a % 2) (b % 2))
          (enough_digits a (suc a / 2) (suc a / 2) (b / 2) (omega arith) (omega arith))

differ_runs_out : (b : ℕ) → b ≡ b / 2 * 2 + differ 0 (b % 2)
differ_runs_out b = omega arith

pub bit_or_step : (a b : ℕ) → bit_or a b ≡ bit_or (a / 2) (b / 2) * 2 + max (a % 2) (b % 2)
bit_or_step a b = simp bit_or-bitwise (lowest_digit (λ b. b) max (λ b. omega arith) a b)

pub bit_and_step : (a b : ℕ) → bit_and a b ≡ bit_and (a / 2) (b / 2) * 2 + min (a % 2) (b % 2)
bit_and_step a b = simp bit_and-bitwise (lowest_digit (λ b. 0) min (λ b. omega arith) a b)

pub bit_xor_step : (a b : ℕ) → bit_xor a b ≡ bit_xor (a / 2) (b / 2) * 2 + differ (a % 2) (b % 2)
bit_xor_step a b = simp bit_xor-bitwise (lowest_digit (λ b. b) differ differ_runs_out a b)

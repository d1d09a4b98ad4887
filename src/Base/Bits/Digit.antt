-- ===== src/Base/Bits/Digit.antt =====
-- A number by its binary digits.
use Prim.Native.Nat.{ℕ, zero, suc, ◌/◌, ◌%◌, ◌^◌, ◌<◌, differ, bit_and, bit_or, bit_xor}
use mathlib.Core.Path.{◌≡◌, refl}
use mathlib.Core.Bool.{Bool, false, xor, ◌&&◌, ◌||◌}
use native.Mathlib.Nat.{pow-suc}
use native.Mathlib.Omega.{arith}
use rv32i_emu.Base.Tests.{◌==◌}
use rv32i_emu.Base.Bits.Step.{bit_or_step, bit_and_step, bit_xor_step}

-- Digit i of x.
unfoldable pub test_bit : ℕ → ℕ → Bool
test_bit x zero = x % 2 == 1
test_bit x (suc i) = test_bit (x / 2) i

and_half : (a b : ℕ) → bit_and a b / 2 ≡ bit_and (a / 2) (b / 2)
and_half a b = omega (arith, bit_and_step a b)

or_half : (a b : ℕ) → bit_or a b / 2 ≡ bit_or (a / 2) (b / 2)
or_half a b = omega (arith, bit_or_step a b)

pub differ_lt : (a b : ℕ) → a < 2 → b < 2 → differ a b < 2
differ_lt zero b ha hb = hb
differ_lt (suc a) zero ha hb = ha
differ_lt (suc a) (suc b) ha hb = differ_lt a b (omega arith) (omega arith)

xor_half : (a b : ℕ) → bit_xor a b / 2 ≡ bit_xor (a / 2) (b / 2)
xor_half a b =
    omega (arith, bit_xor_step a b, differ_lt (a % 2) (b % 2) (omega arith) (omega arith))

pub test_bit-and : (a b i : ℕ) → test_bit (bit_and a b) i ≡ (test_bit a i && test_bit b i)
unfolding test_bit
test_bit-and a b zero = ground (arith, bit_and_step a b)
test_bit-and a b (suc i) = rw (and_half a b) (test_bit-and (a / 2) (b / 2) i)

pub test_bit-or : (a b i : ℕ) → test_bit (bit_or a b) i ≡ (test_bit a i || test_bit b i)
unfolding test_bit
test_bit-or a b zero = ground (arith, bit_or_step a b)
test_bit-or a b (suc i) = rw (or_half a b) (test_bit-or (a / 2) (b / 2) i)

low_differ : (a b : ℕ) → a < 2 → b < 2 → (differ a b % 2 == 1) ≡ xor (a == 1) (b == 1)
unfolding xor
low_differ zero b ha hb = ground arith
low_differ (suc zero) zero ha hb = refl
low_differ (suc zero) (suc zero) ha hb = refl
low_differ (suc zero) (suc (suc b)) ha hb = absurd (omega arith)
low_differ (suc (suc a)) b ha hb = absurd (omega arith)

pub test_bit-xor : (a b i : ℕ) → test_bit (bit_xor a b) i ≡ xor (test_bit a i) (test_bit b i)
unfolding test_bit
test_bit-xor a b zero =
    ground (arith, bit_xor_step a b, low_differ (a % 2) (b % 2) (omega arith) (omega arith))
test_bit-xor a b (suc i) = rw (xor_half a b) (test_bit-xor (a / 2) (b / 2) i)

pub test_bit-zero : (i : ℕ) → test_bit 0 i ≡ false
unfolding test_bit
test_bit-zero zero = refl
test_bit-zero (suc i) = test_bit-zero i

half_pow : (k : ℕ) → 2 ^ suc k / 2 ≡ 2 ^ k
half_pow k = omega (arith, pow-suc 2 k)

pub test_bit-pow : (k i : ℕ) → test_bit (2 ^ k) i ≡ (k == i)
unfolding test_bit
test_bit-pow zero zero = refl
test_bit-pow zero (suc i) = rw (test_bit-zero i) (ground arith)
test_bit-pow (suc k) zero = ground (arith, pow-suc 2 k)
test_bit-pow (suc k) (suc i) = rw (half_pow k, test_bit-pow k i) (ground arith)

-- Numbers with the same digits are equal.
pub eq_of_test_bit :
    (w a b : ℕ) → a < 2 ^ w → b < 2 ^ w → ((i : ℕ) → test_bit a i ≡ test_bit b i) → a ≡ b
unfolding test_bit
eq_of_test_bit zero a b ha hb h = omega arith
eq_of_test_bit (suc w) a b ha hb h = ground (
  arith,
  h 0,
  eq_of_test_bit w (a / 2) (b / 2) (omega (arith, pow-suc 2 w)) (omega (arith, pow-suc 2 w))
      (λ i. h (suc i)),
)

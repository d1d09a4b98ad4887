-- ===== src/Base/Bits/Masks.antt =====
-- Digits of masks and shifted fields, at every position.
use Prim.Native.Nat.{ℕ, zero, suc, ◌-◌, ◌/◌, ◌^◌, ◌≤◌, ◌<◌, bit_and, bit_or}
use mathlib.Core.Path.{◌≡◌, ap, ◌∙◌}
use mathlib.Core.Bool.{false, not, xor, ◌&&◌, ◌||◌}
use native.Mathlib.Nat.{pow-suc, one-le-pow}
use native.Mathlib.Omega.{arith}
use rv32i_emu.Base.Tests.{ltb, ◌==◌}
use rv32i_emu.Base.Word.{not32}
use rv32i_emu.Base.Bits.Step.{bit_and_step}
use rv32i_emu.Base.Bits.Fields.{bit_and-lt, bit_or-lt, bit_and-zero}
use rv32i_emu.Base.Bits.Digit.{
  test_bit, test_bit-zero, test_bit-and, test_bit-or, test_bit-xor, test_bit-pow,
}

pow_lt : (k w : ℕ) → k < w → 2 ^ k < 2 ^ w
pow_lt zero zero h = absurd (omega arith)
pow_lt zero (suc w) h = omega (arith, pow-suc 2 w, one-le-pow w 2)
pow_lt (suc k) zero h = absurd (omega arith)
pow_lt (suc k) (suc w) h = omega (arith, pow-suc 2 k, pow-suc 2 w, pow_lt k w (omega arith))

pub test_bit-ones : (w i : ℕ) → test_bit (2 ^ w - 1) i ≡ ltb i w
unfolding test_bit
test_bit-ones zero i = rw (test_bit-zero i) (ground arith)
test_bit-ones (suc w) zero = ground (arith, pow-suc 2 w, one-le-pow w 2)
test_bit-ones (suc w) (suc i) =
    ap (λ (t : ℕ). test_bit t i) (omega (arith, pow-suc 2 w, one-le-pow w 2))
    ∙ test_bit-ones w i
    ∙ ground arith

-- Beyond its width a number has no digits.
pub test_bit_above : (w m i : ℕ) → m < 2 ^ w → w ≤ i → test_bit m i ≡ false
unfolding test_bit
test_bit_above zero m i h k = ap (λ (t : ℕ). test_bit t i) (omega arith) ∙ test_bit-zero i
test_bit_above (suc w) m zero h k = absurd (omega arith)
test_bit_above (suc w) m (suc i) h k =
    test_bit_above w (m / 2) i (omega (arith, pow-suc 2 w)) (omega arith)

-- ~x
pub test_bit-not32 : (x i : ℕ) → test_bit (not32 x) i ≡ xor (test_bit x i) (ltb i 32)
test_bit-not32 x i = test_bit-xor x (2 ^ 32 - 1) i ∙ ap (xor (test_bit x i)) (test_bit-ones 32 i)

-- m & ~(1 << k)
pub test_bit-clear :
    (k m i : ℕ)
    → m < 2 ^ 32
    → k < 32
    → test_bit (bit_and m (not32 (2 ^ k))) i ≡ (test_bit m i && not (k == i))
unfolding xor
test_bit-clear k m i h hk = ground (
  arith,
  test_bit-and m (not32 (2 ^ k)) i,
  test_bit-not32 (2 ^ k) i,
  test_bit-pow k i,
  test_bit_above 32 m i,
)

-- m | 1 << k
pub test_bit-set : (k m i : ℕ) → test_bit (bit_or m (2 ^ k)) i ≡ (test_bit m i || k == i)
test_bit-set k m i = ground (arith, test_bit-or m (2 ^ k) i, test_bit-pow k i)

-- Clearing a bit and setting a bit of a 32-bit word give a 32-bit word.
pub clear-lt : (k m : ℕ) → m < 2 ^ 32 → bit_and m (not32 (2 ^ k)) < 2 ^ 32
clear-lt k m h = bit_and-lt 32 m (not32 (2 ^ k)) h

pub set-lt : (k m : ℕ) → m < 2 ^ 32 → k < 32 → bit_or m (2 ^ k) < 2 ^ 32
set-lt k m h hk = bit_or-lt 32 m (2 ^ k) h (pow_lt k 32 hk)

-- A mask of bits 1 and 3.
pub and_bits_1_3 : (p : ℕ) → (bit_and p 10 == 0) ≡ not (test_bit p 1 || test_bit p 3)
unfolding test_bit
and_bits_1_3 p = ground (
  arith,
  bit_and_step p 10,
  bit_and_step (p / 2) 5,
  bit_and_step (p / 2 / 2) 2,
  bit_and_step (p / 2 / 2 / 2) 1,
  bit_and-zero (p / 2 / 2 / 2 / 2),
)

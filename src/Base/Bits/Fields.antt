-- ===== src/Base/Bits/Fields.antt =====
-- Masks and disjoint fields as arithmetic, at every width.
use Prim.Native.Nat.{
  ℕ, zero, suc, ◌+◌, ◌-◌, ◌*◌, ◌/◌, ◌%◌, ◌^◌, ◌<◌, bit_and, bit_or, bit_or-bitwise, bit_and-bitwise,
  bit_xor-bitwise, bit_xor,
}
use mathlib.Core.Path.{◌≡◌, sym, ap}
use native.Mathlib.Nat.{pow-suc, pow-succ', one-le-pow, div-div-eq-div-mul, mod-add-div'}
use native.Mathlib.Omega.{arith}
use rv32i_emu.Base.Word.{nonzero}
use rv32i_emu.Base.Bits.Step.{bit_or_step, bit_and_step, bit_xor_step}
use rv32i_emu.Base.Bits.Digit.{test_bit, differ_lt}

double : (q k : ℕ) → q * 2 ^ suc k ≡ q * 2 ^ k * 2
double q k = omega (arith, ap (λ (t : ℕ). q * t) (pow-suc 2 k))

bit_and-zero_below : (w a : ℕ) → a < 2 ^ w → bit_and a 0 ≡ 0
bit_and-zero_below zero a h = ground (arith, bit_and_step 0 0)
bit_and-zero_below (suc w) a h = omega (
  arith,
  bit_and_step a 0,
  pow-suc 2 w,
  bit_and-zero_below w (a / 2) (omega (arith, pow-suc 2 w)),
)

bit_or-zero_below : (w a : ℕ) → a < 2 ^ w → bit_or a 0 ≡ a
bit_or-zero_below zero a h = ground (arith, bit_or_step 0 0)
bit_or-zero_below (suc w) a h =
    omega (arith, bit_or_step a 0, bit_or-zero_below w (a / 2) (omega (arith, pow-suc 2 w)))

lt-two_pow : (a : ℕ) → a < 2 ^ a
lt-two_pow zero = omega arith
lt-two_pow (suc a) = omega (arith, lt-two_pow a, pow-suc 2 a)

pub bit_and-zero : (a : ℕ) → bit_and a 0 ≡ 0
bit_and-zero a = bit_and-zero_below a a (lt-two_pow a)

pub bit_or-zero : (a : ℕ) → bit_or a 0 ≡ a
bit_or-zero a = bit_or-zero_below a a (lt-two_pow a)

-- A field above k bits joined to a value that fits the k bits, in both orders.
pub or_above : (k q r : ℕ) → r < 2 ^ k → bit_or (q * 2 ^ k) r ≡ q * 2 ^ k + r
or_above zero q r h = ground (arith, bit_or-zero q)
or_above (suc k) q r h = ground (
  arith,
  bit_or_step (q * 2 ^ suc k) r,
  double q k,
  or_above k q (r / 2) (omega (arith, pow-suc 2 k)),
)

pub or_below : (k q r : ℕ) → r < 2 ^ k → bit_or r (q * 2 ^ k) ≡ q * 2 ^ k + r
or_below zero q r h = ground (arith, bit_or-bitwise 0 q)
or_below (suc k) q r h = ground (
  arith,
  bit_or_step r (q * 2 ^ suc k),
  double q k,
  or_below k q (r / 2) (omega (arith, pow-suc 2 k)),
)

div_pow_suc : (a k : ℕ) → a / 2 ^ suc k ≡ a / 2 / 2 ^ k
div_pow_suc a k = rw pow-succ' (sym (div-div-eq-div-mul a 2 (2 ^ k)))

mod_pow_suc : (a k : ℕ) → a % 2 ^ suc k ≡ a / 2 % 2 ^ k * 2 + a % 2
mod_pow_suc a k = omega (
  arith,
  mod-add-div' a (2 ^ suc k),
  mod-add-div' (a / 2) (2 ^ k),
  div_pow_suc a k,
  double (a / 2 ^ suc k) k,
  ap (λ (t : ℕ). t * 2 ^ k) (div_pow_suc a k),
)

-- A mask of the low k bits.
pub and_low : (k a : ℕ) → bit_and a (2 ^ k - 1) ≡ a % 2 ^ k
and_low zero a = ground (arith, bit_and-zero a)
and_low (suc k) a = ground (
  arith,
  one-le-pow k 2,
  pow-suc 2 k,
  bit_and_step a (2 ^ suc k - 1),
  mod_pow_suc a k,
  and_low k (a / 2),
)

-- A mask of j bits from bit k.
pub and_field : (k j a : ℕ) → bit_and a ((2 ^ j - 1) * 2 ^ k) ≡ a / 2 ^ k % 2 ^ j * 2 ^ k
and_field zero j a = ground (arith, and_low j a)
and_field (suc k) j a = ground (
  arith,
  bit_and_step a ((2 ^ j - 1) * 2 ^ suc k),
  double (2 ^ j - 1) k,
  div_pow_suc a k,
  double (a / 2 ^ suc k % 2 ^ j) k,
  and_field k j (a / 2),
)

-- A mask of one bit, as a condition.
pub and_bit : (k a : ℕ) → nonzero (bit_and a (2 ^ k)) ≡ test_bit a k
unfolding test_bit
and_bit zero a = ground (arith, and_low 1 a)
and_bit (suc k) a = ground (arith, bit_and_step a (2 ^ suc k), pow-suc 2 k, and_bit k (a / 2))

-- Each operation keeps within the width of its operands.
pub bit_and-lt : (w a b : ℕ) → a < 2 ^ w → bit_and a b < 2 ^ w
bit_and-lt zero a b h = ground (arith, bit_and-bitwise 0 b)
bit_and-lt (suc w) a b h =
    ground (arith, bit_and_step a b, pow-suc 2 w, bit_and-lt w (a / 2) (b / 2))

pub bit_or-lt : (w a b : ℕ) → a < 2 ^ w → b < 2 ^ w → bit_or a b < 2 ^ w
bit_or-lt zero a b h k = ground (arith, bit_or-bitwise 0 b)
bit_or-lt (suc w) a b h k =
    ground (arith, bit_or_step a b, pow-suc 2 w, bit_or-lt w (a / 2) (b / 2))

pub bit_xor-lt : (w a b : ℕ) → a < 2 ^ w → b < 2 ^ w → bit_xor a b < 2 ^ w
bit_xor-lt zero a b h k = ground (arith, bit_xor-bitwise 0 b)
bit_xor-lt (suc w) a b h k = ground (
  arith,
  bit_xor_step a b,
  pow-suc 2 w,
  differ_lt (a % 2) (b % 2) (omega arith) (omega arith),
  bit_xor-lt w (a / 2) (b / 2),
)

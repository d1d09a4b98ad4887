-- ===== src/Base/Word.antt =====
-- Fixed-width unsigned arithmetic as C does it, the shifts, and two's complement.
use Prim.Native.Nat.{ℕ, ◌+◌, ◌-◌, ◌*◌, ◌/◌, ◌%◌, ◌^◌, bit_xor}
use mathlib.Core.Bool.{Bool, not}
use rv32i_emu.Base.Tests.{◌==◌}

abbrev pub u8 : ℕ → ℕ
u8 n = n % 2 ^ 8

abbrev pub u16 : ℕ → ℕ
u16 n = n % 2 ^ 16

abbrev pub u32 : ℕ → ℕ
u32 n = n % 2 ^ 32

abbrev pub u64 : ℕ → ℕ
u64 n = n % 2 ^ 64

-- u32 a + b, a - b and a <<< k
abbrev pub add32 : ℕ → ℕ → ℕ
add32 a b = u32 (a + b)

abbrev pub sub32 : ℕ → ℕ → ℕ
sub32 a b = u32 (a + 2 ^ 32 - b)

infixl 75 ◌<<<◌ ◌>>>◌
abbrev pub ◌<<<◌ : ℕ → ℕ → ℕ
x <<< k = u32 (x * 2 ^ k)

abbrev pub ◌>>>◌ : ℕ → ℕ → ℕ
x >>> k = x / 2 ^ k

-- ~x
abbrev pub not32 : ℕ → ℕ
not32 x = bit_xor x 0xffff_ffff

-- x used as a C condition
abbrev pub nonzero : ℕ → Bool
nonzero x = not (x == 0)

-- ===== src/Fpu/Host.antt =====
-- What src/fpu.c takes from the C library and the processor: single-precision arithmetic under a
-- rounding mode, with the exceptions that fetestexcept reports. Floats are their bit patterns.
use rv32i_emu.Base.{ℕ, Bool}

pub data FpOp : Type 0 where
  add sub mul div sqrt : FpOp

-- FE_TONEAREST, FE_TOWARDZERO, FE_DOWNWARD, FE_UPWARD
pub data Rounding : Type 0 where
  to_nearest toward_zero downward upward : Rounding

-- The FE_* exceptions after an operation that began with none.
pub record Exceptions : Type 0 where
  pub inexact : Bool
  pub underflow : Bool
  pub overflow : Bool
  pub divbyzero : Bool
  pub invalid : Bool

pub record FloatResult : Type 0 where
  pub bits : ℕ
  pub flags : Exceptions

-- `less`, `less_eq` and `equal` are <, <= and == of the floats. A comparison of the code in double
-- is one of floats, since its operands are floats or one of the constants below.
pub record HostFloat : Type 0 where
  pub arith : FpOp → Rounding → ℕ → ℕ → FloatResult
  pub less : ℕ → ℕ → Bool
  pub less_eq : ℕ → ℕ → Bool
  pub equal : ℕ → ℕ → Bool
  pub nearbyint : Rounding → ℕ → FloatResult
  pub to_u32 : ℕ → ℕ
  pub to_s32 : ℕ → ℕ
  pub of_u32 : Rounding → ℕ → FloatResult
  pub of_s32 : Rounding → ℕ → FloatResult

-- 0.0, 4294967296.0, 2147483648.0 and -2147483648.0 as floats.
abbrev pub zero_float : ℕ
zero_float = 0

abbrev pub two_pow_32 : ℕ
two_pow_32 = 0x4f80_0000

abbrev pub two_pow_31 : ℕ
two_pow_31 = 0x4f00_0000

abbrev pub minus_two_pow_31 : ℕ
minus_two_pow_31 = 0xcf00_0000

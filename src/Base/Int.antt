-- ===== src/Base/Int.antt =====
-- Signed integers, and the s32 that a 32-bit pattern stands for.
use Prim.Native.Nat.{ℕ, zero, suc, ◌+◌, ◌-◌, ◌*◌, ◌/◌, ◌%◌, ◌^◌}
use mathlib.Core.Bool.{Bool}
use rv32i_emu.Base.Tests.{ltb, if◌then◌else◌}

-- `negsuc n` is -(n + 1).
pub data ℤ : Type 0 where
  pos : ℕ → ℤ
  negsuc : ℕ → ℤ

abbrev pub pos_part : ℤ → ℕ
pos_part (pos n) = n
pos_part (negsuc n) = 0

abbrev pub neg_part : ℤ → ℕ
neg_part (pos n) = 0
neg_part (negsuc n) = suc n

abbrev pub ltb_ℤ : ℤ → ℤ → Bool
ltb_ℤ a b = ltb (pos_part a + neg_part b) (pos_part b + neg_part a)

abbrev pub neg_ℕ : ℕ → ℤ
neg_ℕ zero = pos 0
neg_ℕ (suc n) = negsuc n

infixl 70 ◌*ℤ◌
abbrev pub ◌*ℤ◌ : ℤ → ℤ → ℤ
pos a *ℤ pos b = pos (a * b)
pos a *ℤ negsuc b = neg_ℕ (a * suc b)
negsuc a *ℤ pos b = neg_ℕ (suc a * b)
negsuc a *ℤ negsuc b = pos (suc a * suc b)

-- C's `/` and `%`, which round toward zero. The divisor is not 0.
abbrev pub quot : ℤ → ℤ → ℤ
quot (pos a) (pos b) = pos (a / b)
quot (pos a) (negsuc b) = neg_ℕ (a / suc b)
quot (negsuc a) (pos b) = neg_ℕ (suc a / b)
quot (negsuc a) (negsuc b) = pos (suc a / suc b)

abbrev pub rem : ℤ → ℤ → ℤ
rem (pos a) (pos b) = pos (a % b)
rem (pos a) (negsuc b) = pos (a % suc b)
rem (negsuc a) (pos b) = neg_ℕ (suc a % b)
rem (negsuc a) (negsuc b) = neg_ℕ (suc a % suc b)

-- `>>` of a signed number, which keeps the sign.
abbrev pub shr_ℤ : ℤ → ℕ → ℤ
shr_ℤ (pos n) k = pos (n / 2 ^ k)
shr_ℤ (negsuc n) k = negsuc (n / 2 ^ k)

-- (s32)w and (u32)z
abbrev pub s32 : ℕ → ℤ
s32 w = if ltb w (2 ^ 31) then pos w else negsuc (2 ^ 32 - 1 - w)

abbrev pub to_u32 : ℤ → ℕ
to_u32 (pos n) = n % 2 ^ 32
to_u32 (negsuc n) = 2 ^ 32 - 1 - n % 2 ^ 32

-- ===== src/Alu.antt =====
-- src/execute.c: the arithmetic of the ALU instructions. Operands and results are 32-bit patterns.
pub mod Division
pub mod Product
use rv32i_emu.Base.{
  ℕ, ◌*◌, ◌/◌, ◌%◌, ◌&&◌, Bool, not, Option, none, some, ltb, leb, ◌==◌, if◌then◌else◌, u32, add32,
  sub32, nonzero, ◌<<<◌, ◌>>>◌, bit_and, bit_or, bit_xor,
}
use rv32i_emu.Base.Int.{pos, ltb_ℤ, ◌*ℤ◌, quot, rem, shr_ℤ, s32, to_u32}

unfoldable pub sext8 : ℕ → ℕ
sext8 val = if nonzero (bit_and val 0x80) then bit_or val 0xffff_ff00 else val

unfoldable pub sext16 : ℕ → ℕ
sext16 val = if nonzero (bit_and val 0x8000) then bit_or val 0xffff_0000 else val

unfoldable pub rv_div : ℕ → ℕ → ℕ
rv_div a b =
    if b == 0
    then 0xffff_ffff
    else if a == 0x8000_0000 && b == 0xffff_ffff
    then 0x8000_0000
    else to_u32 (quot (s32 a) (s32 b))

unfoldable pub rv_divu : ℕ → ℕ → ℕ
rv_divu a b = if b == 0 then 0xffff_ffff else a / b

unfoldable pub rv_rem : ℕ → ℕ → ℕ
rv_rem a b =
    if b == 0
    then a
    else if a == 0x8000_0000 && b == 0xffff_ffff
    then 0
    else to_u32 (rem (s32 a) (s32 b))

unfoldable pub rv_remu : ℕ → ℕ → ℕ
rv_remu a b = if b == 0 then a else a % b

-- MULH, MULHSU and MULHU: the upper half of the 64-bit product.
unfoldable pub mulh : ℕ → ℕ → ℕ
mulh a b = to_u32 (shr_ℤ (s32 a *ℤ s32 b) 32)

unfoldable pub mulhsu : ℕ → ℕ → ℕ
mulhsu a b = to_u32 (shr_ℤ (s32 a *ℤ pos b) 32)

unfoldable pub mulhu : ℕ → ℕ → ℕ
mulhu a b = u32 ((a * b) >>> 32)

unfoldable pub slt : ℕ → ℕ → ℕ
slt a b = if ltb_ℤ (s32 a) (s32 b) then 1 else 0

unfoldable pub sltu : ℕ → ℕ → ℕ
sltu a b = if ltb a b then 1 else 0

unfoldable pub sra : ℕ → ℕ → ℕ
sra a k = to_u32 (shr_ℤ (s32 a) k)

-- funct7 = 0x01; `none` is `goto unknown`.
unfoldable pub muldiv_result : ℕ → ℕ → ℕ → Option ℕ
unfolding rv_div rv_divu rv_rem rv_remu mulh mulhsu mulhu
muldiv_result funct3 a b =
    if funct3 == 0
    then some (u32 (a * b))
    else if funct3 == 1
    then some (mulh a b)
    else if funct3 == 2
    then some (mulhsu a b)
    else if funct3 == 3
    then some (mulhu a b)
    else if funct3 == 4
    then some (rv_div a b)
    else if funct3 == 5
    then some (rv_divu a b)
    else if funct3 == 6
    then some (rv_rem a b)
    else if funct3 == 7
    then some (rv_remu a b)
    else none

unfoldable pub alu_result : ℕ → ℕ → ℕ → ℕ → Option ℕ
unfolding slt sltu sra
alu_result funct3 funct7 a b =
    if funct3 == 0
    then some (if funct7 == 0x20 then sub32 a b else add32 a b)
    else if funct3 == 1
    then some (a <<< bit_and b 0x1f)
    else if funct3 == 2
    then some (slt a b)
    else if funct3 == 3
    then some (sltu a b)
    else if funct3 == 4
    then some (bit_xor a b)
    else if funct3 == 5
    then some (if funct7 == 0x20 then sra a (bit_and b 0x1f) else a >>> bit_and b 0x1f)
    else if funct3 == 6
    then some (bit_or a b)
    else if funct3 == 7
    then some (bit_and a b)
    else none

-- The immediate forms: no SUBI.
unfoldable pub alui_result : ℕ → ℕ → ℕ → ℕ → Option ℕ
unfolding slt sltu sra
alui_result funct3 funct7 a imm =
    if funct3 == 0
    then some (add32 a imm)
    else if funct3 == 1
    then some (a <<< bit_and imm 0x1f)
    else if funct3 == 2
    then some (slt a imm)
    else if funct3 == 3
    then some (sltu a imm)
    else if funct3 == 4
    then some (bit_xor a imm)
    else if funct3 == 5
    then some (if funct7 == 0x20 then sra a (bit_and imm 0x1f) else a >>> bit_and imm 0x1f)
    else if funct3 == 6
    then some (bit_or a imm)
    else if funct3 == 7
    then some (bit_and a imm)
    else none

-- The condition of a branch.
unfoldable pub branch_taken : ℕ → ℕ → ℕ → Option Bool
branch_taken funct3 a b =
    if funct3 == 0
    then some (a == b)
    else if funct3 == 1
    then some (not (a == b))
    else if funct3 == 4
    then some (ltb_ℤ (s32 a) (s32 b))
    else if funct3 == 5
    then some (not (ltb_ℤ (s32 a) (s32 b)))
    else if funct3 == 6
    then some (ltb a b)
    else if funct3 == 7
    then some (leb b a)
    else none

-- The value that an AMO writes back.
unfoldable pub amo_result : ℕ → ℕ → ℕ → Option ℕ
amo_result funct5 old val =
    if funct5 == 0x00
    then some (add32 old val)
    else if funct5 == 0x01
    then some val
    else if funct5 == 0x04
    then some (bit_xor old val)
    else if funct5 == 0x08
    then some (bit_or old val)
    else if funct5 == 0x0c
    then some (bit_and old val)
    else if funct5 == 0x10
    then some (if ltb_ℤ (s32 old) (s32 val) then old else val)
    else if funct5 == 0x14
    then some (if ltb_ℤ (s32 val) (s32 old) then old else val)
    else if funct5 == 0x18
    then some (if ltb old val then old else val)
    else if funct5 == 0x1c
    then some (if ltb val old then old else val)
    else none

-- ===== src/Isa/Results.antt =====
-- The arithmetic of src/execute.c against the results that the specification gives.
use rv32i_emu.Base.{
  ℕ, ◌+◌, ◌-◌, ◌/◌, ◌%◌, ◌^◌, ◌<◌, ◌≡◌, refl, ap, arith, Bool, not, some, ltb, if◌then◌else◌,
  bit_and,
}
use rv32i_emu.Base.Bits.{and_low}
use rv32i_emu.Base.Int.{ltb_ℤ, s32}
use rv32i_emu.Alu.{sra, slt, alu_result, alui_result, branch_taken}
use rv32i_emu.Isa.{
  Operation, Condition, operation_funct3, operation_funct7, condition_funct3, immediate_field,
  FitsImmediate, less_signed, result, holds,
}

ltb-s32 : (a b : ℕ) → a < 2 ^ 32 → b < 2 ^ 32 → ltb_ℤ (s32 a) (s32 b) ≡ less_signed a b
ltb-s32 a b h k = ground arith

slt_lem : (a b : ℕ) → a < 2 ^ 32 → b < 2 ^ 32 → slt a b ≡ (if less_signed a b then 1 else 0)
unfolding slt
slt_lem a b h k = rw (ltb-s32 a b h k) refl

-- A quotient by a power of two is not larger.
quot-lt : (a k n : ℕ) → a < n → a / 2 ^ k < n
quot-lt a k n h = grind arith

sra_lem :
    (a k : ℕ)
    → a < 2 ^ 32
    → sra a k ≡ (if ltb a (2 ^ 31) then a / 2 ^ k else 2 ^ 32 - 1 - (2 ^ 32 - 1 - a) / 2 ^ k)
unfolding sra
sra_lem a k h = ground (arith, quot-lt a k (2 ^ 32), quot-lt (2 ^ 32 - 1 - a) k (2 ^ 32))

low5 : (b : ℕ) → bit_and b 0x1f ≡ b % 32
low5 b = and_low 5 b

pub alu_result_lem :
    (op : Operation) (a b : ℕ)
    → a < 2 ^ 32
    → b < 2 ^ 32
    → alu_result (operation_funct3 op) (operation_funct7 op) a b ≡ some (result op a b)
unfolding alu_result result
alu_result_lem Operation.add a b h k = refl
alu_result_lem Operation.sub a b h k = ap some (omega arith)
alu_result_lem Operation.sll a b h k = rw (low5 b) refl
alu_result_lem Operation.slt a b h k = ap some (slt_lem a b h k)
alu_result_lem Operation.sltu a b h k = refl
alu_result_lem Operation.xor a b h k = refl
alu_result_lem Operation.srl a b h k = rw (low5 b) refl
alu_result_lem Operation.sra a b h k = rw (low5 b) (ap some (sra_lem a (b % 32) h))
alu_result_lem Operation.or a b h k = refl
alu_result_lem Operation.and a b h k = refl

low5_field : (imm : ℕ) → imm < 32 → bit_and (imm + 0x400) 0x1f ≡ imm % 32
low5_field imm h = omega (arith, and_low 5 (imm + 0x400))

-- The immediate forms, with funct7 in the upper bits of the immediate field.
pub alui_result_lem :
    (op : Operation) (a imm : ℕ)
    → a < 2 ^ 32
    → FitsImmediate op imm
    → alui_result
        (operation_funct3 op)
        (immediate_field op imm % 2 ^ 12 / 2 ^ 5)
        a
        (immediate_field op imm)
      ≡ some (result op a imm)
unfolding alui_result result
alui_result_lem Operation.add a b h k = refl
alui_result_lem Operation.sub a b h k = absurd k
alui_result_lem Operation.sll a b h k = rw (low5 b) refl
alui_result_lem Operation.slt a b h k = ap some (slt_lem a b h (ground arith))
alui_result_lem Operation.sltu a b h k = refl
alui_result_lem Operation.xor a b h k = refl
alui_result_lem Operation.srl a b h k = ground (arith, low5 b)
alui_result_lem Operation.sra a b h k = ground (arith, low5_field b k, sra_lem a (b % 32) h)
alui_result_lem Operation.or a b h k = refl
alui_result_lem Operation.and a b h k = refl

pub branch_taken_lem :
    (c : Condition) (a b : ℕ)
    → a < 2 ^ 32
    → b < 2 ^ 32
    → branch_taken (condition_funct3 c) a b ≡ some (holds c a b)
unfolding branch_taken holds
branch_taken_lem Condition.eq a b h k = refl
branch_taken_lem Condition.ne a b h k = refl
branch_taken_lem Condition.lt a b h k = ap some (ltb-s32 a b h k)
branch_taken_lem Condition.ge a b h k = ap (λ (t : Bool). some (not t)) (ltb-s32 a b h k)
branch_taken_lem Condition.ltu a b h k = refl
branch_taken_lem Condition.geu a b h k = ground arith

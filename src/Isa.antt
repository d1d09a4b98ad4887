-- ===== src/Isa.antt =====
-- The base integer instructions that compute, jump and branch, and those of the M extension, as the
-- unprivileged RISC-V specification describes them: their encodings, and what each does to the
-- registers and to pc. It is what emu_step of src/emu.c and execute() of src/execute.c are compared
-- with.
pub mod Results
pub mod Products
pub mod Executed
pub mod Stepped
pub mod Fence
pub mod Ran
pub mod Accesses
pub mod Loads
pub mod Stores
use rv32i_emu.Base.{
  ℕ, ◌+◌, ◌-◌, ◌*◌, ◌/◌, ◌%◌, ◌^◌, ◌<◌, ◌≡◌, ◌≢◌, Bool, not, ltb, leb, ◌==◌, if◌then◌else◌, bit_and,
  bit_or, bit_xor, ◌||◌,
}
use rv32i_emu.Base.Int.{ℤ, pos, ◌*ℤ◌, s32}
use rv32i_emu.RegFile.{RegFile}
use rv32i_emu.Alu.Division.{magnitude}
use rv32i_emu.Alu.Product.{to_u64}
use rv32i_emu.Decode.RoundTrip.{Assembly, asm_r, asm_i, asm_b, asm_u, asm_j, FitsSigned}

pub data Operation : Type 0 where
  add sub sll slt sltu xor srl sra or and : Operation

-- The operations of the M extension.
pub data Multiplication : Type 0 where
  mul mulh mulhsu mulhu div divu rem remu : Multiplication

pub data Condition : Type 0 where
  eq ne lt ge ltu geu : Condition

-- Registers by number, and immediates as 32-bit patterns: `register op rd rs1 rs2`,
-- `multiply op rd rs1 rs2`,
-- `immediate op rd rs1 imm`, `lui rd imm`, `auipc rd imm`, `jal rd offset`, `jalr rd rs1 offset`,
-- `branch c rs1 rs2 offset`.
pub data Instruction : Type 0 where
  register immediate : Operation → ℕ → ℕ → ℕ → Instruction
  multiply : Multiplication → ℕ → ℕ → ℕ → Instruction
  lui auipc jal : ℕ → ℕ → Instruction
  jalr : ℕ → ℕ → ℕ → Instruction
  branch : Condition → ℕ → ℕ → ℕ → Instruction

-- The fields funct3 and funct7.
abbrev pub operation_funct3 : Operation → ℕ
operation_funct3 add = 0
operation_funct3 sub = 0
operation_funct3 sll = 1
operation_funct3 slt = 2
operation_funct3 sltu = 3
operation_funct3 xor = 4
operation_funct3 srl = 5
operation_funct3 sra = 5
operation_funct3 or = 6
operation_funct3 and = 7

abbrev pub operation_funct7 : Operation → ℕ
operation_funct7 sub = 0x20
operation_funct7 sra = 0x20
operation_funct7 _ = 0

abbrev pub multiplication_funct3 : Multiplication → ℕ
multiplication_funct3 mul = 0
multiplication_funct3 mulh = 1
multiplication_funct3 mulhsu = 2
multiplication_funct3 mulhu = 3
multiplication_funct3 div = 4
multiplication_funct3 divu = 5
multiplication_funct3 rem = 6
multiplication_funct3 remu = 7

abbrev pub condition_funct3 : Condition → ℕ
condition_funct3 eq = 0
condition_funct3 ne = 1
condition_funct3 lt = 4
condition_funct3 ge = 5
condition_funct3 ltu = 6
condition_funct3 geu = 7

-- The immediate field: an arithmetic shift to the right sets bit 10 of it.
abbrev pub immediate_field : Operation → ℕ → ℕ
immediate_field sra imm = imm + 0x400
immediate_field _ imm = imm

-- The encoding.
unfoldable pub assembly : Instruction → Assembly
assembly (register op rd rs1 rs2) =
    asm_r (operation_funct7 op) rs2 rs1 (operation_funct3 op) rd 0x33
assembly (immediate op rd rs1 imm) =
    asm_i (immediate_field op imm) rs1 (operation_funct3 op) rd 0x13
assembly (multiply op rd rs1 rs2) = asm_r 0x01 rs2 rs1 (multiplication_funct3 op) rd 0x33
assembly (lui rd imm) = asm_u imm rd 0x37
assembly (auipc rd imm) = asm_u imm rd 0x17
assembly (jal rd offset) = asm_j offset rd 0x6f
assembly (jalr rd rs1 offset) = asm_i offset rs1 0 rd 0x67
assembly (branch c rs1 rs2 offset) = asm_b offset rs2 rs1 (condition_funct3 c) 0x63

-- Immediate shifts are by less than 32, and there is no immediate subtraction.
abbrev pub FitsImmediate : Operation → ℕ → Type 0
FitsImmediate sub imm = ⊥
FitsImmediate sll imm = imm < 32
FitsImmediate srl imm = imm < 32
FitsImmediate sra imm = imm < 32
FitsImmediate _ imm = FitsSigned 11 imm

-- The instructions that have an encoding.
abbrev pub IsInstruction : Instruction → Type 0
IsInstruction (register op rd rs1 rs2) = (rd < 32) × (rs1 < 32) × (rs2 < 32)
IsInstruction (immediate op rd rs1 imm) = (rd < 32) × (rs1 < 32) × FitsImmediate op imm
IsInstruction (multiply op rd rs1 rs2) = (rd < 32) × (rs1 < 32) × (rs2 < 32)
IsInstruction (lui rd imm) = (rd < 32) × (imm < 2 ^ 32) × (imm % 2 ^ 12 ≡ 0)
IsInstruction (auipc rd imm) = (rd < 32) × (imm < 2 ^ 32) × (imm % 2 ^ 12 ≡ 0)
IsInstruction (jal rd offset) = (rd < 32) × FitsSigned 20 offset × (offset % 2 ≡ 0)
IsInstruction (jalr rd rs1 offset) = (rd < 32) × (rs1 < 32) × FitsSigned 11 offset
IsInstruction (branch c rs1 rs2 offset) =
    (rs1 < 32) × (rs2 < 32) × FitsSigned 12 offset × (offset % 2 ≡ 0)

-- The order of two's complement numbers, as that of the patterns with the sign bit turned over.
abbrev pub less_signed : ℕ → ℕ → Bool
less_signed a b = ltb ((a + 2 ^ 31) % 2 ^ 32) ((b + 2 ^ 31) % 2 ^ 32)

-- The result of an operation. A shift uses the low five bits of its second operand; an arithmetic
-- shift of a negative number shifts the complement, and complements again.
unfoldable pub result : Operation → ℕ → ℕ → ℕ
result add a b = (a + b) % 2 ^ 32
result sub a b = (2 ^ 32 + a - b) % 2 ^ 32
result sll a b = a * 2 ^ (b % 32) % 2 ^ 32
result slt a b = if less_signed a b then 1 else 0
result sltu a b = if ltb a b then 1 else 0
result xor a b = bit_xor a b
result srl a b = a / 2 ^ (b % 32)
result sra a b =
    if ltb a (2 ^ 31) then a / 2 ^ (b % 32) else 2 ^ 32 - 1 - (2 ^ 32 - 1 - a) / 2 ^ (b % 32)
result or a b = bit_or a b
result and a b = bit_and a b

-- The upper half of the 64-bit pattern of a product.
abbrev pub upper : ℤ → ℕ
upper z = to_u64 z / 2 ^ 32

-- The magnitude m with the sign of a, or turned over.
abbrev pub signed_like : Bool → ℕ → ℕ
signed_like negative m = if negative then (2 ^ 32 - m) % 2 ^ 32 else m

abbrev pub is_negative : ℕ → Bool
is_negative a = leb (2 ^ 31) a

-- Signed division rounds towards zero, so that it is one of the magnitudes, and the remainder has the
-- sign of the dividend. A division by zero gives all ones, and leaves the dividend as the remainder.
unfoldable pub multiplied : Multiplication → ℕ → ℕ → ℕ
multiplied mul a b = a * b % 2 ^ 32
multiplied mulh a b = upper (s32 a *ℤ s32 b)
multiplied mulhsu a b = upper (s32 a *ℤ pos b)
multiplied mulhu a b = a * b / 2 ^ 32
multiplied div a b =
    if b == 0
    then 2 ^ 32 - 1
    else if is_negative b
    then signed_like (not (is_negative a)) (magnitude a / magnitude b)
    else signed_like (is_negative a) (magnitude a / magnitude b)
multiplied divu a b = if b == 0 then 2 ^ 32 - 1 else a / b
multiplied rem a b = if b == 0 then a else signed_like (is_negative a) (magnitude a % magnitude b)
multiplied remu a b = if b == 0 then a else a % b

unfoldable pub holds : Condition → ℕ → ℕ → Bool
holds eq a b = a == b
holds ne a b = not (a == b)
holds lt a b = less_signed a b
holds ge a b = not (less_signed a b)
holds ltu a b = ltb a b
holds geu a b = not (ltb a b)

-- x0 stays 0.
abbrev pub set_register : ℕ → ℕ → RegFile → RegFile
set_register rd v rf =
    if rd == 0 then rf else record rf { regs = λ n. if n == rd then v else rf.regs n }

abbrev pub set_pc : ℕ → RegFile → RegFile
set_pc pc rf = record rf { pc = pc }

-- The register file after an instruction.
unfoldable pub effect : Instruction → RegFile → RegFile
unfolding result multiplied holds
effect (register op rd rs1 rs2) rf =
    set_pc ((rf.pc + 4) % 2 ^ 32) (set_register rd (result op (rf.regs rs1) (rf.regs rs2)) rf)
effect (immediate op rd rs1 imm) rf =
    set_pc ((rf.pc + 4) % 2 ^ 32) (set_register rd (result op (rf.regs rs1) imm) rf)
effect (multiply op rd rs1 rs2) rf =
    set_pc ((rf.pc + 4) % 2 ^ 32) (set_register rd (multiplied op (rf.regs rs1) (rf.regs rs2)) rf)
effect (lui rd imm) rf = set_pc ((rf.pc + 4) % 2 ^ 32) (set_register rd imm rf)
effect (auipc rd imm) rf =
    set_pc ((rf.pc + 4) % 2 ^ 32) (set_register rd ((rf.pc + imm) % 2 ^ 32) rf)
effect (jal rd offset) rf =
    set_pc ((rf.pc + offset) % 2 ^ 32) (set_register rd ((rf.pc + 4) % 2 ^ 32) rf)
effect (jalr rd rs1 offset) rf =
    set_pc ((rf.regs rs1 + offset) % 2 ^ 32 / 2 * 2) (set_register rd ((rf.pc + 4) % 2 ^ 32) rf)
effect (branch c rs1 rs2 offset) rf =
    set_pc
      (if holds c (rf.regs rs1) (rf.regs rs2)
        then (rf.pc + offset) % 2 ^ 32
        else (rf.pc + 4) % 2 ^ 32)
      rf

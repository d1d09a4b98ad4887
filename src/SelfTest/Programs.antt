-- ===== src/SelfTest/Programs.antt =====
-- The test programs of execute_selftest of src/execute.c, and the checks after each.
use rv32i_emu.Base.{ℕ, List, [], ◌∷◌, ◌==◌}
use rv32i_emu.Base.Int.{negsuc, to_u32}
use rv32i_emu.RegFile.{reg_read}
use rv32i_emu.Machine.{Emulator}
use rv32i_emu.SelfTest.{Line, heading, check, is_halted, holds_word}

-- ADDI (add immediate)
abbrev pub addi_program : List (ℕ × ℕ)
addi_program = (0, 0x02a0_0093) ∷ (4, 0xfff0_0113) ∷ (8, 0x0640_8193) ∷ (12, 0x0000_0073) ∷ []

abbrev pub addi_checks : Emulator → List Line
addi_checks e =
    heading "── ADDI (add immediate) ──"
    ∷ check (reg_read e.rf 1 == 42) "addi x1, x0, 42"
    ∷ check (reg_read e.rf 2 == 0xffff_ffff) "addi x2, x0, -1"
    ∷ check (reg_read e.rf 3 == 142) "addi x3, x1, 100"
    ∷ []

-- ALU R-type
abbrev pub alu_program : List (ℕ × ℕ)
alu_program =
    (0, 0x00a0_0093)
    ∷ (4, 0x0030_0113)
    ∷ (8, 0x0020_81b3)
    ∷ (12, 0x4020_8233)
    ∷ (16, 0x0011_22b3)
    ∷ (20, 0x0011_3333)
    ∷ (24, 0x0020_c3b3)
    ∷ (28, 0x0020_e433)
    ∷ (32, 0x0020_f4b3)
    ∷ (36, 0x0020_9533)
    ∷ (40, 0x0020_d5b3)
    ∷ (44, 0x0000_0073)
    ∷ []

abbrev pub alu_checks : Emulator → List Line
alu_checks e =
    heading "── ALU R-type ──"
    ∷ check (reg_read e.rf 1 == 10) "addi x1,10"
    ∷ check (reg_read e.rf 2 == 3) "addi x2,3"
    ∷ check (reg_read e.rf 3 == 13) "add  x3,x1,x2"
    ∷ check (reg_read e.rf 4 == 7) "sub  x4,x1,x2"
    ∷ check (reg_read e.rf 5 == 1) "slt  x5,x2,x1"
    ∷ check (reg_read e.rf 6 == 1) "sltu x6,x2,x1"
    ∷ check (reg_read e.rf 7 == 9) "xor  x7,x1,x2"
    ∷ check (reg_read e.rf 8 == 11) "or   x8,x1,x2"
    ∷ check (reg_read e.rf 9 == 2) "and  x9,x1,x2"
    ∷ check (reg_read e.rf 10 == 80) "sll  x10,x1,x2"
    ∷ check (reg_read e.rf 11 == 1) "srl  x11,x1,x2"
    ∷ []

-- Shift variants
abbrev pub shift_program : List (ℕ × ℕ)
shift_program =
    (0, 0xff80_0093)
    ∷ (4, 0x4020_d113)
    ∷ (8, 0x0010_d193)
    ∷ (12, 0x0040_9213)
    ∷ (16, 0x0000_0073)
    ∷ []

abbrev pub shift_checks : Emulator → List Line
shift_checks e =
    heading "── Shift variants ──"
    ∷ check (reg_read e.rf 2 == to_u32 (negsuc 1)) "srai x2, x1, 2"
    ∷ check (reg_read e.rf 3 == 0x7fff_fffc) "srli x3, x1, 1"
    ∷ check (reg_read e.rf 4 == to_u32 (negsuc 127)) "slli x4, x1, 4"
    ∷ []

-- LUI / AUIPC
abbrev pub upper_program : List (ℕ × ℕ)
upper_program = (0, 0x1234_50b7) ∷ (4, 0x0001_0117) ∷ (8, 0x0000_0073) ∷ []

abbrev pub upper_checks : Emulator → List Line
upper_checks e =
    heading "── LUI / AUIPC ──"
    ∷ check (reg_read e.rf 1 == 0x1234_5000) "lui x1, 0x12345"
    ∷ check (reg_read e.rf 2 == 0x10004) "auipc x2, 0x10 (pc=4 + 0x10000)"
    ∷ []

-- Branch (taken)
abbrev pub taken_program : List (ℕ × ℕ)
taken_program =
    (0, 0x0050_0093)
    ∷ (4, 0x0050_0113)
    ∷ (8, 0x0020_8463)
    ∷ (12, 0x3e70_0193)
    ∷ (16, 0x0010_0213)
    ∷ (20, 0x0000_0073)
    ∷ []

abbrev pub taken_checks : Emulator → List Line
taken_checks e =
    heading "── Branch (taken) ──"
    ∷ check (reg_read e.rf 3 == 0) "x3 = 0 (skipped)"
    ∷ check (reg_read e.rf 4 == 1) "x4 = 1 (branch taken)"
    ∷ []

-- Branch (not taken)
abbrev pub not_taken_program : List (ℕ × ℕ)
not_taken_program =
    (0, 0x0050_0093)
    ∷ (4, 0x0030_0113)
    ∷ (8, 0x0020_9463)
    ∷ (12, 0x3e70_0193)
    ∷ (16, 0x0020_0213)
    ∷ (20, 0x0000_0073)
    ∷ []

abbrev pub not_taken_checks : Emulator → List Line
not_taken_checks e =
    heading "── Branch (not taken) ──"
    ∷ check (reg_read e.rf 3 == 0) "x3 = 0 (skipped)"
    ∷ check (reg_read e.rf 4 == 2) "x4 = 2 (bne taken)"
    ∷ []

-- JAL / JALR
abbrev pub jump_program : List (ℕ × ℕ)
jump_program =
    (0, 0x00c0_00ef)
    ∷ (4, 0x3e70_0113)
    ∷ (8, 0x3e70_0113)
    ∷ (12, 0x0070_0193)
    ∷ (16, 0x0000_8267)
    ∷ (20, 0x0000_0073)
    ∷ (4, 0x02a0_0293)
    ∷ (8, 0x0000_0073)
    ∷ []

abbrev pub jump_checks : Emulator → List Line
jump_checks e =
    heading "── JAL / JALR ──"
    ∷ check (reg_read e.rf 1 == 4) "jal: ra = 4"
    ∷ check (reg_read e.rf 4 == 20) "jalr: rd = 20"
    ∷ check (reg_read e.rf 5 == 42) "executed after jalr return"
    ∷ []

-- LW / SW (memory)
abbrev pub word_program : List (ℕ × ℕ)
word_program =
    (0, 0x1000_0093)
    ∷ (4, 0x1234_5137)
    ∷ (8, 0x6781_0113)
    ∷ (12, 0x0020_a023)
    ∷ (16, 0x0000_a183)
    ∷ (20, 0x0000_0073)
    ∷ []

abbrev pub word_checks : Emulator → List Line
word_checks e =
    heading "── LW / SW (memory) ──"
    ∷ check (reg_read e.rf 2 == 0x1234_5678) "x2 = 0x12345678"
    ∷ check (reg_read e.rf 3 == 0x1234_5678) "lw x3 = mem[256]"
    ∷ check (holds_word e 256 0x1234_5678) "mem[256] = 0x12345678"
    ∷ []

-- ECALL
abbrev pub ecall_program : List (ℕ × ℕ)
ecall_program = (0, 0x02a0_0513) ∷ (4, 0x0000_0073) ∷ []

abbrev pub ecall_checks : Emulator → List Line
ecall_checks e =
    heading "── ECALL ──"
    ∷ check (is_halted e.state) "ecall → EMU_HALTED"
    ∷ check (e.exit_code == 42) "exit_code = 42"
    ∷ []

-- RV32M (mul/div)
abbrev pub muldiv_program : List (ℕ × ℕ)
muldiv_program =
    (0, 0x0070_0093)
    ∷ (4, 0x0030_0113)
    ∷ (8, 0x0220_81b3)
    ∷ (12, 0x0220_9233)
    ∷ (16, 0x0220_b2b3)
    ∷ (20, 0x0220_c333)
    ∷ (24, 0x0220_d3b3)
    ∷ (28, 0x0220_e433)
    ∷ (32, 0x0220_f4b3)
    ∷ (36, 0xff90_0513)
    ∷ (40, 0x0225_45b3)
    ∷ (44, 0x0225_6633)
    ∷ (48, 0x0225_1833)
    ∷ (52, 0x0000_0693)
    ∷ (56, 0x02d0_c733)
    ∷ (60, 0x02d0_e7b3)
    ∷ (64, 0x0000_0073)
    ∷ []

abbrev pub muldiv_checks : Emulator → List Line
muldiv_checks e =
    heading "── RV32M (mul/div) ──"
    ∷ check (reg_read e.rf 3 == 21) "mul    7*3 = 21"
    ∷ check (reg_read e.rf 4 == 0) "mulh   7*3 high = 0"
    ∷ check (reg_read e.rf 5 == 0) "mulhu  7*3 high = 0"
    ∷ check (reg_read e.rf 6 == 2) "div    7/3 = 2"
    ∷ check (reg_read e.rf 7 == 2) "divu   7/3 = 2"
    ∷ check (reg_read e.rf 8 == 1) "rem    7%3 = 1"
    ∷ check (reg_read e.rf 9 == 1) "remu   7%3 = 1"
    ∷ check (reg_read e.rf 11 == to_u32 (negsuc 1)) "div   -7/3 = -2"
    ∷ check (reg_read e.rf 12 == to_u32 (negsuc 0)) "rem   -7%3 = -1"
    ∷ check (reg_read e.rf 16 == 0xffff_ffff) "mulh  -7*3 high = -1"
    ∷ check (reg_read e.rf 14 == 0xffff_ffff) "div   7/0 = -1"
    ∷ check (reg_read e.rf 15 == 7) "rem   7%0 = 7"
    ∷ []

-- RV32A (lr/sc + amo)
abbrev pub atomic_program : List (ℕ × ℕ)
atomic_program =
    (0, 0x1000_0093)
    ∷ (4, 0x0050_0113)
    ∷ (8, 0x0020_8023)
    ∷ (12, 0x1000_a1af)
    ∷ (16, 0x0070_0113)
    ∷ (20, 0x1820_a22f)
    ∷ (24, 0x0000_a283)
    ∷ (28, 0x1000_a32f)
    ∷ (32, 0x0090_0393)
    ∷ (36, 0x0070_a023)
    ∷ (40, 0x1820_a42f)
    ∷ (44, 0x0020_a4af)
    ∷ (48, 0xa020_a52f)
    ∷ (52, 0xc020_a5af)
    ∷ (56, 0x0000_a603)
    ∷ (60, 0x0000_0073)
    ∷ []

abbrev pub atomic_checks : Emulator → List Line
atomic_checks e =
    heading "── RV32A (lr/sc + amo) ──"
    ∷ check (reg_read e.rf 3 == 5) "lr.w  x3 = 5"
    ∷ check (reg_read e.rf 4 == 0) "sc.w  x4 = 0 (success)"
    ∷ check (reg_read e.rf 5 == 7) "lw    x5 = 7 (sc wrote)"
    ∷ check (reg_read e.rf 6 == 7) "lr.w  x6 = 7"
    ∷ check (reg_read e.rf 8 == 1) "sc.w  x8 = 1 (store broke reservation)"
    ∷ check (reg_read e.rf 9 == 9) "amoadd.w  x9 = 9 (old value)"
    ∷ check (reg_read e.rf 10 == 16) "amomax.w  x10 = 16 (old value)"
    ∷ check (reg_read e.rf 11 == 16) "amominu.w x11 = 16 (old value)"
    ∷ check (reg_read e.rf 12 == 7) "lw    x12 = 7 (min(16,7))"
    ∷ check (holds_word e 0x100 7) "mem[0x100] = 7"
    ∷ []

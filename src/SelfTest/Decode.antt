-- ===== src/SelfTest/Decode.antt =====
-- decode_selftest of src/decode_test.c. What it prints of two words that it does not check is left out.
pub mod Passed
use Prim.Native.String.{String}
use rv32i_emu.Base.{ℕ, ◌+◌, false, none, some, List, [], ◌∷◌, ◌++◌, ◌==◌, ◌&&◌, bit_and, ◌>>>◌}
use rv32i_emu.Base.Int.{negsuc, to_u32}
use rv32i_emu.Decode.{
  Format, fmt_r, fmt_i, fmt_s, fmt_b, fmt_u, fmt_j, fmt_unknown, op_lui, op_auipc, op_jal, op_jalr,
  op_branch, op_load, op_store, op_alui, op_alu, op_amo, op_system, decode,
}
use rv32i_emu.SelfTest.{Line, heading, check}

-- The format as C numbers it.
unfoldable pub number_of : Format → ℕ
number_of fmt_r = 0
number_of fmt_i = 1
number_of fmt_s = 2
number_of fmt_b = 3
number_of fmt_u = 4
number_of fmt_j = 5
number_of fmt_unknown = 6

-- TEST_FULL: the immediate is given as the u32 that the macro casts it to.
unfoldable pub test_full : String → ℕ → Format → ℕ → ℕ → Line
unfolding decode number_of
test_full name raw fmt op imm = elim (decode raw) [
  | none ↦ check false name
  | some inst ↦
      check
        (number_of inst.fmt == number_of fmt
          && inst.opcode == op
          && inst.rd == bit_and (raw >>> 7) 0x1f
          && inst.rs1 == bit_and (raw >>> 15) 0x1f
          && inst.rs2 == bit_and (raw >>> 20) 0x1f
          && inst.funct3 == bit_and (raw >>> 12) 0x07
          && inst.funct7 == bit_and (raw >>> 25) 0x7f
          && inst.imm == imm)
        name
]

unfoldable pub register_formats : List Line
unfolding test_full
register_formats =
    heading "── R-type (register-register) ──"
    ∷ test_full "add  x5, x10, x11" 0x00b5_82b3 fmt_r op_alu 0
    ∷ test_full "sub  x3, x4, x5" 0x4052_01b3 fmt_r op_alu 0
    ∷ test_full "sll  x2, x3, x4" 0x0041_91b3 fmt_r op_alu 0
    ∷ test_full "slt  x1, x2, x3" 0x0031_20b3 fmt_r op_alu 0
    ∷ test_full "xor  x7, x8, x9" 0x0094_43b3 fmt_r op_alu 0
    ∷ test_full "srl  x6, x7, x8" 0x0083_d333 fmt_r op_alu 0
    ∷ test_full "or   x9, x10, x11" 0x00b5_64b3 fmt_r op_alu 0
    ∷ test_full "and  x4, x5, x6" 0x0062_f233 fmt_r op_alu 0
    ∷ test_full "sra  x3, x4, x5" 0x4052_51b3 fmt_r op_alu 0
    ∷ []

unfoldable pub immediate_formats : List Line
unfolding test_full
immediate_formats =
    heading "── I-type (immediate) ──"
    ∷ test_full "addi x1, x0, 0" 0x0000_0093 fmt_i op_alui 0
    ∷ test_full "addi x2, x3, 42" 0x02a1_8113 fmt_i op_alui 42
    ∷ test_full "addi x5, x5, -1" 0xfff2_8293 fmt_i op_alui (to_u32 (negsuc 0))
    ∷ test_full "slti x1, x2, 100" 0x0641_2093 fmt_i op_alui 100
    ∷ test_full "xori x3, x4, 255" 0x0ff2_4193 fmt_i op_alui 255
    ∷ test_full "ori  x6, x7, 0" 0x0003_e313 fmt_i op_alui 0
    ∷ test_full "andi x8, x9, 2047" 0x7ff4_f413 fmt_i op_alui 2047
    ∷ test_full "slli x10, x11, 16" 0x0105_9513 fmt_i op_alui 16
    ∷ test_full "srli x4, x5, 8" 0x0082_d213 fmt_i op_alui 8
    ∷ test_full "srai x6, x7, 31" 0x41f3_d313 fmt_i op_alui 0x41f
    ∷ []

unfoldable pub load_formats : List Line
unfolding test_full
load_formats =
    heading "── I-type (load) ──"
    ∷ test_full "lw   x1, 0(x2)" 0x0001_2083 fmt_i op_load 0
    ∷ test_full "lw   x3, 8(x4)" 0x0082_2183 fmt_i op_load 8
    ∷ test_full "lh   x5, -4(x6)" 0xffc3_1283 fmt_i op_load (to_u32 (negsuc 3))
    ∷ test_full "lb   x7, 1(x8)" 0x0014_0383 fmt_i op_load 1
    ∷ test_full "lbu  x9, 255(x10)" 0x0ff5_4483 fmt_i op_load 255
    ∷ []

unfoldable pub store_formats : List Line
unfolding test_full
store_formats =
    heading "── S-type (store) ──"
    ∷ test_full "sw   x1, 0(x2)" 0x0011_2023 fmt_s op_store 0
    ∷ test_full "sw   x3, 16(x4)" 0x0032_2823 fmt_s op_store 16
    ∷ test_full "sw   x5, -4(x6)" 0xfe53_2e23 fmt_s op_store (to_u32 (negsuc 3))
    ∷ test_full "sh   x7, 2(x8)" 0x0074_1123 fmt_s op_store 2
    ∷ test_full "sb   x9, 2047(x10)" 0x7e95_0fa3 fmt_s op_store 2047
    ∷ []

unfoldable pub branch_formats : List Line
unfolding test_full
branch_formats =
    heading "── B-type (branch) ──"
    ∷ test_full "beq  x1, x2, +16" 0x0020_8863 fmt_b op_branch 16
    ∷ test_full "bne  x3, x4, -8" 0xfe41_9ce3 fmt_b op_branch (to_u32 (negsuc 7))
    ∷ test_full "blt  x5, x6, +256" 0x1062_c063 fmt_b op_branch 256
    ∷ test_full "bge  x7, x8, +4" 0x0083_d263 fmt_b op_branch 4
    ∷ test_full "bltu x1, x2, +0" 0x0020_e063 fmt_b op_branch 0
    ∷ []

unfoldable pub upper_formats : List Line
unfolding test_full
upper_formats =
    heading "── U-type (upper immediate) ──"
    ∷ test_full "lui  x1, 0x12345" 0x1234_50b7 fmt_u op_lui 0x1234_5000
    ∷ test_full "lui  x31, 0xFFFFF" 0xffff_ffb7 fmt_u op_lui 0xffff_f000
    ∷ test_full "auipc x5, 0x1" 0x0000_1297 fmt_u op_auipc 0x0000_1000
    ∷ []

unfoldable pub jump_formats : List Line
unfolding test_full
jump_formats =
    heading "── J-type (jump) ──"
    ∷ test_full "jal  x1, +256" 0x1000_00ef fmt_j op_jal 256
    ∷ test_full "jal  x0, -4" 0xffdf_f06f fmt_j op_jal (to_u32 (negsuc 3))
    ∷ test_full "jal  x5, -1M" 0x8000_02ef fmt_j op_jal (to_u32 (negsuc 0xf_ffff))
    ∷ []

unfoldable pub jump_register_formats : List Line
unfolding test_full
jump_register_formats =
    heading "── JALR (I-type jump register) ──"
    ∷ test_full "jalr x1, 0(x2)" 0x0001_00e7 fmt_i op_jalr 0
    ∷ test_full "jalr x5, 16(x6)" 0x0103_02e7 fmt_i op_jalr 16
    ∷ []

unfoldable pub system_formats : List Line
unfolding test_full
system_formats =
    heading "── SYSTEM (privileged) ──"
    ∷ test_full "ecall" 0x0000_0073 fmt_i op_system 0
    ∷ test_full "ebreak" 0x0010_0073 fmt_i op_system 1
    ∷ test_full "mret" 0x3020_0073 fmt_i op_system 0x302
    ∷ []

unfoldable pub atomic_formats : List Line
unfolding test_full
atomic_formats =
    heading "── RV32A (atomic) ──"
    ∷ test_full "lr.w x3, (x1)" 0x1000_a1af fmt_r op_amo 0
    ∷ test_full "sc.w x4, x2, (x1)" 0x1820_a22f fmt_r op_amo 0
    ∷ test_full "amoadd.w x9, x2, (x1)" 0x0020_a4af fmt_r op_amo 0
    ∷ test_full "amomaxu.w x10, x2, (x1)" 0xe020_a52f fmt_r op_amo 0
    ∷ []

unfoldable pub decode_selftest : List Line
unfolding register_formats immediate_formats load_formats store_formats branch_formats upper_formats
    jump_formats jump_register_formats system_formats atomic_formats
decode_selftest =
    register_formats
    ++ (immediate_formats
        ++ (load_formats
            ++ (store_formats
                ++ (branch_formats
                    ++ (upper_formats
                        ++ (jump_formats
                            ++ (jump_register_formats ++ (system_formats ++ (atomic_formats)))))))))

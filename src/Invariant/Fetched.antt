-- ===== src/Invariant/Fetched.antt =====
-- The instruction words that expand_compressed of src/decode.c gives.
use rv32i_emu.Base.{ℕ, ◌^◌, ◌<◌, arith, bit_and, bit_or}
use rv32i_emu.Base.Bits.{bit_or-lt, and_low, and_field}
use rv32i_emu.Decode.Encode.{enc_r, enc_i, enc_s, enc_b, enc_u, enc_j}
use rv32i_emu.Decode.Compressed.{
  expand_q0, expand_lui, expand_alu, expand_q1, expand_jump, expand_q2, expand_compressed,
}
use rv32i_emu.Invariant.Arithmetic.{ResultFits, results, u32-lt}

or-lt : {a b : ℕ} → a < 2 ^ 32 → b < 2 ^ 32 → bit_or a b < 2 ^ 32
or-lt {a} {b} h k = bit_or-lt 32 a b h k

opcode-lt : (x : ℕ) → bit_and x 0x7f < 2 ^ 32
opcode-lt x = omega (arith, and_low 7 x)

upper-lt : (x : ℕ) → bit_and x 0xffff_f000 < 2 ^ 32
upper-lt x = omega (arith, and_field 12 20 x)

ruleset joins = (or-lt, opcode-lt, upper-lt, u32-lt)

enc_r-lt : (f7 rs2 rs1 f3 rd op : ℕ) → enc_r f7 rs2 rs1 f3 rd op < 2 ^ 32
unfolding enc_r
enc_r-lt f7 rs2 rs1 f3 rd op = search joins depth 12

enc_i-lt : (imm rs1 f3 rd op : ℕ) → enc_i imm rs1 f3 rd op < 2 ^ 32
unfolding enc_i
enc_i-lt imm rs1 f3 rd op = search joins depth 12

enc_s-lt : (imm rs2 rs1 f3 op : ℕ) → enc_s imm rs2 rs1 f3 op < 2 ^ 32
unfolding enc_s
enc_s-lt imm rs2 rs1 f3 op = search joins depth 12

enc_b-lt : (imm rs2 rs1 f3 op : ℕ) → enc_b imm rs2 rs1 f3 op < 2 ^ 32
unfolding enc_b
enc_b-lt imm rs2 rs1 f3 op = search joins depth 12

enc_u-lt : (imm rd op : ℕ) → enc_u imm rd op < 2 ^ 32
unfolding enc_u
enc_u-lt imm rd op = search joins depth 12

enc_j-lt : (imm rd op : ℕ) → enc_j imm rd op < 2 ^ 32
unfolding enc_j
enc_j-lt imm rd op = search joins depth 12

ruleset expansions = (results, enc_r-lt, enc_i-lt, enc_s-lt, enc_b-lt, enc_u-lt, enc_j-lt)

ebreak-lt : 0x0010_0073 < 2 ^ 32
ebreak-lt = omega arith

expand_alu-ResultFits : (c : ℕ) → ResultFits (expand_alu c)
unfolding expand_alu
expand_alu-ResultFits c = search expansions depth 14

expand_lui-ResultFits : (c rd : ℕ) → ResultFits (expand_lui c rd)
unfolding expand_lui
expand_lui-ResultFits c rd = search expansions depth 14

expand_jump-ResultFits : (c rd rs2 : ℕ) → ResultFits (expand_jump c rd rs2)
unfolding expand_jump
expand_jump-ResultFits c rd rs2 = search (expansions, ebreak-lt) depth 14

-- Whatever halfword expand_compressed is given, the instruction it gives, if any, is a 32-bit word.
pub expand_compressed-ResultFits : (c : ℕ) → ResultFits (expand_compressed c)
unfolding expand_compressed expand_q0 expand_q1 expand_q2
expand_compressed-ResultFits c =
    search (expansions, expand_alu-ResultFits, expand_lui-ResultFits, expand_jump-ResultFits) depth
      20

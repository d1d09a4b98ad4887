-- ===== src/Decode/Bounds.antt =====
-- What decode() guarantees to execute().
use rv32i_emu.Base.{ℕ, ◌+◌, ◌*◌, ◌/◌, ◌%◌, ◌^◌, ◌<◌, ◌≡◌, none, some, arith}
use rv32i_emu.Base.Bits.{bit_and-lt}
use rv32i_emu.Decode.{
  Format, fmt_r, fmt_i, fmt_s, fmt_b, fmt_u, fmt_j, fmt_unknown, Inst, get_opcode, get_fmt, fields,
  immediate, decode, decode_as, imm_u, op_fence,
}
use rv32i_emu.Decode.Fields.{
  get_opcode_lem, get_rd_lem, get_funct3_lem, get_rs1_lem, get_rs2_lem, get_funct7_lem, imm_i_lem,
  imm_s_lem, imm_b_lem, imm_j_lem, sext_11, sext_12, sext_20,
}

-- The register fields index arrays of 32, and the other fields have their widths.
pub record IsDecoded (i : Inst) : Type 0 where
  pub raw_fits : i.raw < 2 ^ 32
  pub opcode_fits : i.opcode < 128
  pub rd_fits : i.rd < 32
  pub rs1_fits : i.rs1 < 32
  pub rs2_fits : i.rs2 < 32
  pub funct3_fits : i.funct3 < 8
  pub funct7_fits : i.funct7 < 128
  pub imm_fits : i.imm < 2 ^ 32

immediate-lt : (f : Format) (raw : ℕ) → raw < 2 ^ 32 → immediate f raw < 2 ^ 32
unfolding immediate imm_u
immediate-lt fmt_r raw h = omega arith
immediate-lt fmt_i raw h = ground (arith, imm_i_lem raw, sext_11 (raw / 2 ^ 20 % 2 ^ 12))
immediate-lt fmt_s raw h =
    ground (arith, imm_s_lem raw, sext_11 (raw / 2 ^ 25 % 2 ^ 7 * 2 ^ 5 + raw / 2 ^ 7 % 2 ^ 5))
immediate-lt fmt_b raw h = ground (
  arith,
  imm_b_lem raw,
  sext_12 (
      raw / 2 ^ 31 % 2 * 2 ^ 12
      + raw / 2 ^ 7 % 2 * 2 ^ 11
      + raw / 2 ^ 25 % 2 ^ 6 * 2 ^ 5
      + raw / 2 ^ 8 % 2 ^ 4 * 2),
)
immediate-lt fmt_u raw h = bit_and-lt 32 raw 0xffff_f000 h
immediate-lt fmt_j raw h = ground (
  arith,
  imm_j_lem raw,
  sext_20 (
      raw / 2 ^ 31 % 2 * 2 ^ 20
      + raw / 2 ^ 12 % 2 ^ 8 * 2 ^ 12
      + raw / 2 ^ 20 % 2 * 2 ^ 11
      + raw / 2 ^ 21 % 2 ^ 10 * 2),
)
immediate-lt fmt_unknown raw h = omega arith

fields-IsDecoded : (raw : ℕ) (f : Format) → raw < 2 ^ 32 → IsDecoded (fields raw f)
unfolding fields
fields-IsDecoded raw f h = record {
  raw_fits = h;
  opcode_fits = omega (arith, get_opcode_lem raw);
  rd_fits = omega (arith, get_rd_lem raw);
  rs1_fits = omega (arith, get_rs1_lem raw);
  rs2_fits = omega (arith, get_rs2_lem raw);
  funct3_fits = omega (arith, get_funct3_lem raw);
  funct7_fits = omega (arith, get_funct7_lem raw);
  imm_fits = immediate-lt f raw h;
}

decode_as-fields : (raw : ℕ) (f : Format) {i : Inst} → decode_as raw f ≡ some i → i ≡ fields raw f
unfolding decode_as
decode_as-fields raw fmt_unknown e = cc
decode_as-fields raw fmt_r e = cc
decode_as-fields raw fmt_i e = cc
decode_as-fields raw fmt_s e = cc
decode_as-fields raw fmt_b e = cc
decode_as-fields raw fmt_u e = cc
decode_as-fields raw fmt_j e = cc

-- A decoded 32-bit word has register numbers below 32, so that execute() and fpu_execute() index
-- `regs` and `fregs` inside the arrays, and every other field within its width, the immediate a u32.
pub decode-IsDecoded : (raw : ℕ) {i : Inst} → raw < 2 ^ 32 → decode raw ≡ some i → IsDecoded i
unfolding decode
decode-IsDecoded raw h e =
    let f = get_fmt (get_opcode raw) in rw (decode_as-fields raw f e) (fields-IsDecoded raw f h)

-- FENCE and FENCE.I: every word with the MISC-MEM opcode is refused by decode.
pub decode_fence : (raw : ℕ) → raw % 128 ≡ op_fence → decode raw ≡ none
unfolding decode get_fmt
decode_fence raw h = rw (get_opcode_lem raw, h)

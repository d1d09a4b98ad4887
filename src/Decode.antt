-- ===== src/Decode.antt =====
-- src/decode.c and include/decode.h: field extraction, immediates and instruction formats. The
-- children hold the encoders and RV32C.
pub mod Encode
pub mod Compressed
pub mod Fields
pub mod Encoded
pub mod RoundTrip
pub mod Expanded
pub mod Bounds
use rv32i_emu.Base.{
  ℕ, ◌+◌, Option, none, some, ◌==◌, if◌then◌else◌, sub32, nonzero, ◌<<<◌, ◌>>>◌, not32, bit_and,
  bit_or,
}

pub data Format : Type 0 where
  fmt_r fmt_i fmt_s fmt_b fmt_u fmt_j fmt_unknown : Format

abbrev pub op_lui : ℕ
op_lui = 0x37

abbrev pub op_auipc : ℕ
op_auipc = 0x17

abbrev pub op_jal : ℕ
op_jal = 0x6f

abbrev pub op_jalr : ℕ
op_jalr = 0x67

abbrev pub op_branch : ℕ
op_branch = 0x63

abbrev pub op_load : ℕ
op_load = 0x03

abbrev pub op_store : ℕ
op_store = 0x23

abbrev pub op_load_fp : ℕ
op_load_fp = 0x07

abbrev pub op_store_fp : ℕ
op_store_fp = 0x27

abbrev pub op_alui : ℕ
op_alui = 0x13

abbrev pub op_alu : ℕ
op_alu = 0x33

abbrev pub op_fence : ℕ
op_fence = 0x0f

abbrev pub op_amo : ℕ
op_amo = 0x2f

abbrev pub op_fp : ℕ
op_fp = 0x53

abbrev pub op_system : ℕ
op_system = 0x73

-- decoded_inst_t; `opcode` is the 7-bit number behind the enum.
pub record Inst : Type 0 where
  pub raw : ℕ
  pub len : ℕ
  pub fmt : Format
  pub opcode : ℕ
  pub rd : ℕ
  pub rs1 : ℕ
  pub rs2 : ℕ
  pub funct3 : ℕ
  pub funct7 : ℕ
  pub imm : ℕ

-- The extraction macros OPCODE, RD, FUNCT3, RS1, RS2, FUNCT7.
unfoldable pub get_opcode : ℕ → ℕ
get_opcode x = bit_and x 0x7f

unfoldable pub get_rd : ℕ → ℕ
get_rd x = bit_and (x >>> 7) 0x1f

unfoldable pub get_funct3 : ℕ → ℕ
get_funct3 x = bit_and (x >>> 12) 0x07

unfoldable pub get_rs1 : ℕ → ℕ
get_rs1 x = bit_and (x >>> 15) 0x1f

unfoldable pub get_rs2 : ℕ → ℕ
get_rs2 x = bit_and (x >>> 20) 0x1f

unfoldable pub get_funct7 : ℕ → ℕ
get_funct7 x = bit_and (x >>> 25) 0x7f

-- Sign extension from bit n; an s32 is its bit pattern.
unfoldable pub sext : ℕ → ℕ → ℕ
sext val n =
    let sign = bit_and (val >>> n) 1 in
    if nonzero sign
    then bit_or val (not32 (sub32 (1 <<< (n + 1)) 1))
    else bit_and val (sub32 (1 <<< (n + 1)) 1)

unfoldable pub imm_i : ℕ → ℕ
imm_i raw = sext (bit_and (raw >>> 20) 0xfff) 11

unfoldable pub imm_s : ℕ → ℕ
imm_s raw =
    let lo = bit_and (raw >>> 7) 0x1f in
    let hi = bit_and (raw >>> 25) 0x7f in sext (bit_or (hi <<< 5) lo) 11

unfoldable pub imm_b : ℕ → ℕ
imm_b raw =
    let b11 = bit_and (raw >>> 7) 0x01 in
    let b4_1 = bit_and (raw >>> 8) 0x0f in
    let b10_5 = bit_and (raw >>> 25) 0x3f in
    let b12 = bit_and (raw >>> 31) 0x01 in
    sext (bit_or (bit_or (bit_or (b12 <<< 12) (b11 <<< 11)) (b10_5 <<< 5)) (b4_1 <<< 1)) 12

unfoldable pub imm_u : ℕ → ℕ
imm_u raw = bit_and raw 0xffff_f000

unfoldable pub imm_j : ℕ → ℕ
imm_j raw =
    let b19_12 = bit_and (raw >>> 12) 0xff in
    let b11 = bit_and (raw >>> 20) 0x01 in
    let b10_1 = bit_and (raw >>> 21) 0x3ff in
    let b20 = bit_and (raw >>> 31) 0x01 in
    sext (bit_or (bit_or (bit_or (b20 <<< 20) (b19_12 <<< 12)) (b11 <<< 11)) (b10_1 <<< 1)) 20

unfoldable pub get_fmt : ℕ → Format
get_fmt op =
    if op == op_alu
    then fmt_r
    else if op == op_alui
    then fmt_i
    else if op == op_load
    then fmt_i
    else if op == op_jalr
    then fmt_i
    else if op == op_load_fp
    then fmt_i
    else if op == op_store
    then fmt_s
    else if op == op_store_fp
    then fmt_s
    else if op == op_amo
    then fmt_r
    else if op == op_fp
    then fmt_r
    else if op == op_branch
    then fmt_b
    else if op == op_lui
    then fmt_u
    else if op == op_auipc
    then fmt_u
    else if op == op_jal
    then fmt_j
    else if op == op_system
    then fmt_i
    else fmt_unknown

-- The switch that fills `imm`.
unfoldable pub immediate : Format → ℕ → ℕ
immediate fmt_i raw = imm_i raw
immediate fmt_s raw = imm_s raw
immediate fmt_b raw = imm_b raw
immediate fmt_u raw = imm_u raw
immediate fmt_j raw = imm_j raw
immediate _ raw = 0

unfoldable pub fields : ℕ → Format → Inst
unfolding immediate
fields raw fmt = record {
  raw = raw;
  len = 4;
  fmt = fmt;
  opcode = get_opcode raw;
  rd = get_rd raw;
  rs1 = get_rs1 raw;
  rs2 = get_rs2 raw;
  funct3 = get_funct3 raw;
  funct7 = get_funct7 raw;
  imm = immediate fmt raw;
}

-- After the test for FMT_UNKNOWN.
unfoldable pub decode_as : ℕ → Format → Option Inst
decode_as raw fmt_unknown = none
decode_as raw fmt = some (fields raw fmt)

-- `none` is the result false.
unfoldable pub decode : ℕ → Option Inst
unfolding decode_as
decode raw = decode_as raw (get_fmt (get_opcode raw))

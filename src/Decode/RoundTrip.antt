-- ===== src/Decode/RoundTrip.antt =====
-- decode() against the encoders of src/decode.c, one theorem for each format.
use rv32i_emu.Base.{
  ℕ, ◌+◌, ◌-◌, ◌%◌, ◌^◌, ◌<◌, ◌≡◌, ◌≢◌, refl, ap, ◌∙◌, some, arith, ltb, if◌then◌else◌,
}
use rv32i_emu.Decode.{
  Format, Inst, fmt_r, fmt_i, fmt_s, fmt_b, fmt_u, fmt_j, fmt_unknown, get_opcode, get_fmt, fields,
  decode,
}
use rv32i_emu.Decode.Encode.{enc_r, enc_i, enc_s, enc_b, enc_u, enc_j}
use rv32i_emu.Decode.Fields.{
  get_opcode_lem, get_rd_lem, get_funct3_lem, get_rs1_lem, get_rs2_lem, get_funct7_lem, imm_i_lem,
  imm_s_lem, imm_b_lem, imm_u_lem, imm_j_lem, sext_11, sext_12, sext_20,
}
use rv32i_emu.Decode.Encoded.{enc_r_lem, enc_i_lem, enc_s_lem, enc_b_lem, enc_u_lem, enc_j_lem}

pub decode_known :
    (raw : ℕ) (fmt : Format)
    → get_fmt (get_opcode raw) ≡ fmt
    → fmt ≢ fmt_unknown
    → decode raw ≡ some (fields raw fmt)
unfolding decode
decode_known raw fmt_unknown e ne = absurd (ne refl)
decode_known raw fmt_r e ne = rw e
decode_known raw fmt_i e ne = rw e
decode_known raw fmt_s e ne = rw e
decode_known raw fmt_b e ne = rw e
decode_known raw fmt_u e ne = rw e
decode_known raw fmt_j e ne = rw e

-- An s32 within n + 1 bits.
abbrev pub FitsSigned : ℕ → ℕ → Type 0
FitsSigned n imm = imm ≡ (
    if ltb (imm % 2 ^ (n + 1)) (2 ^ n)
    then imm % 2 ^ (n + 1)
    else imm % 2 ^ (n + 1) + 2 ^ 32 - 2 ^ (n + 1))

-- An instruction by its format and its operands, as an assembler writes it.
pub data Assembly : Type 0 where
  asm_r : ℕ → ℕ → ℕ → ℕ → ℕ → ℕ → Assembly
  asm_i asm_s asm_b : ℕ → ℕ → ℕ → ℕ → ℕ → Assembly
  asm_u asm_j : ℕ → ℕ → ℕ → Assembly

unfoldable pub encode : Assembly → ℕ
encode (asm_r f7 rs2 rs1 f3 rd op) = enc_r f7 rs2 rs1 f3 rd op
encode (asm_i imm rs1 f3 rd op) = enc_i imm rs1 f3 rd op
encode (asm_s imm rs2 rs1 f3 op) = enc_s imm rs2 rs1 f3 op
encode (asm_b imm rs2 rs1 f3 op) = enc_b imm rs2 rs1 f3 op
encode (asm_u imm rd op) = enc_u imm rd op
encode (asm_j imm rd op) = enc_j imm rd op

-- The operands fit their fields, immediates as signed numbers, and the opcode has the format.
abbrev pub IsEncodable : Assembly → Type 0
IsEncodable (asm_r f7 rs2 rs1 f3 rd op) =
    (f7 < 128) × (rs2 < 32) × (rs1 < 32) × (f3 < 8) × (rd < 32) × (op < 128) × (get_fmt op ≡ fmt_r)
IsEncodable (asm_i imm rs1 f3 rd op) =
    FitsSigned 11 imm × (rs1 < 32) × (f3 < 8) × (rd < 32) × (op < 128) × (get_fmt op ≡ fmt_i)
IsEncodable (asm_s imm rs2 rs1 f3 op) =
    FitsSigned 11 imm × (rs2 < 32) × (rs1 < 32) × (f3 < 8) × (op < 128) × (get_fmt op ≡ fmt_s)
IsEncodable (asm_b imm rs2 rs1 f3 op) =
    FitsSigned 12 imm
    × (imm % 2 ≡ 0)
    × (rs2 < 32)
    × (rs1 < 32)
    × (f3 < 8)
    × (op < 128)
    × (get_fmt op ≡ fmt_b)
IsEncodable (asm_u imm rd op) =
    (imm < 2 ^ 32) × (imm % 2 ^ 12 ≡ 0) × (rd < 32) × (op < 128) × (get_fmt op ≡ fmt_u)
IsEncodable (asm_j imm rd op) =
    FitsSigned 20 imm × (imm % 2 ≡ 0) × (rd < 32) × (op < 128) × (get_fmt op ≡ fmt_j)

-- Every operand of the assembly instruction stands in its field of the decoded one.
abbrev pub Carries : Assembly → Inst → Type 0
Carries (asm_r f7 rs2 rs1 f3 rd op) i =
    (i.fmt ≡ fmt_r)
    × (i.opcode ≡ op)
    × (i.funct7 ≡ f7)
    × (i.rs2 ≡ rs2)
    × (i.rs1 ≡ rs1)
    × (i.funct3 ≡ f3)
    × (i.rd ≡ rd)
    × (i.imm ≡ 0)
Carries (asm_i imm rs1 f3 rd op) i =
    (i.fmt ≡ fmt_i)
    × (i.opcode ≡ op)
    × (i.imm ≡ imm)
    × (i.rs1 ≡ rs1)
    × (i.funct3 ≡ f3)
    × (i.rd ≡ rd)
Carries (asm_s imm rs2 rs1 f3 op) i =
    (i.fmt ≡ fmt_s)
    × (i.opcode ≡ op)
    × (i.imm ≡ imm)
    × (i.rs2 ≡ rs2)
    × (i.rs1 ≡ rs1)
    × (i.funct3 ≡ f3)
Carries (asm_b imm rs2 rs1 f3 op) i =
    (i.fmt ≡ fmt_b)
    × (i.opcode ≡ op)
    × (i.imm ≡ imm)
    × (i.rs2 ≡ rs2)
    × (i.rs1 ≡ rs1)
    × (i.funct3 ≡ f3)
Carries (asm_u imm rd op) i = (i.fmt ≡ fmt_u) × (i.opcode ≡ op) × (i.imm ≡ imm) × (i.rd ≡ rd)
Carries (asm_j imm rd op) i = (i.fmt ≡ fmt_j) × (i.opcode ≡ op) × (i.imm ≡ imm) × (i.rd ≡ rd)

format : Assembly → Format
format (asm_r f7 rs2 rs1 f3 rd op) = fmt_r
format (asm_i imm rs1 f3 rd op) = fmt_i
format (asm_s imm rs2 rs1 f3 op) = fmt_s
format (asm_b imm rs2 rs1 f3 op) = fmt_b
format (asm_u imm rd op) = fmt_u
format (asm_j imm rd op) = fmt_j

Carries-fields : (a : Assembly) → IsEncodable a → Carries a (fields (encode a) (format a))
unfolding encode fields format
Carries-fields (asm_r f7 rs2 rs1 f3 rd op) h =
    let w = enc_r f7 rs2 rs1 f3 rd op in
    ground (
      arith,
      get_opcode_lem w,
      get_rd_lem w,
      get_funct3_lem w,
      get_rs1_lem w,
      get_rs2_lem w,
      get_funct7_lem w,
      enc_r_lem f7 rs2 rs1 f3 rd op,
    )
Carries-fields (asm_i imm rs1 f3 rd op) h =
    let w = enc_i imm rs1 f3 rd op in
    ground (
      arith,
      get_opcode_lem w,
      get_rd_lem w,
      get_funct3_lem w,
      get_rs1_lem w,
      imm_i_lem w,
      sext_11 (imm % 2 ^ 12),
      enc_i_lem imm rs1 f3 rd op,
    )
Carries-fields (asm_s imm rs2 rs1 f3 op) h =
    let w = enc_s imm rs2 rs1 f3 op in
    ground (
      arith,
      get_opcode_lem w,
      get_rs2_lem w,
      get_funct3_lem w,
      get_rs1_lem w,
      imm_s_lem w,
      sext_11 (imm % 2 ^ 12),
      enc_s_lem imm rs2 rs1 f3 op,
    )
Carries-fields (asm_b imm rs2 rs1 f3 op) h =
    let w = enc_b imm rs2 rs1 f3 op in
    ground (
      arith,
      get_opcode_lem w,
      get_rs2_lem w,
      get_funct3_lem w,
      get_rs1_lem w,
      imm_b_lem w,
      sext_12 (imm % 2 ^ 13),
      enc_b_lem imm rs2 rs1 f3 op,
    )
Carries-fields (asm_u imm rd op) h =
    let w = enc_u imm rd op in
    ground (arith, get_opcode_lem w, get_rd_lem w, imm_u_lem w, enc_u_lem imm rd op)
Carries-fields (asm_j imm rd op) h =
    let w = enc_j imm rd op in
    ground (
      arith,
      get_opcode_lem w,
      get_rd_lem w,
      imm_j_lem w,
      sext_20 (imm % 2 ^ 21),
      enc_j_lem imm rd op,
    )

format-encode : (a : Assembly) → IsEncodable a → get_fmt (get_opcode (encode a)) ≡ format a
unfolding encode format
format-encode (asm_r f7 rs2 rs1 f3 rd op) h =
    let w = enc_r f7 rs2 rs1 f3 rd op in
    ap get_fmt (ground (arith, get_opcode_lem w, enc_r_lem f7 rs2 rs1 f3 rd op)) ∙ h.6
format-encode (asm_i imm rs1 f3 rd op) h =
    let w = enc_i imm rs1 f3 rd op in
    ap get_fmt (ground (arith, get_opcode_lem w, enc_i_lem imm rs1 f3 rd op)) ∙ h.5
format-encode (asm_s imm rs2 rs1 f3 op) h =
    let w = enc_s imm rs2 rs1 f3 op in
    ap get_fmt (ground (arith, get_opcode_lem w, enc_s_lem imm rs2 rs1 f3 op)) ∙ h.5
format-encode (asm_b imm rs2 rs1 f3 op) h =
    let w = enc_b imm rs2 rs1 f3 op in
    ap get_fmt (ground (arith, get_opcode_lem w, enc_b_lem imm rs2 rs1 f3 op)) ∙ h.6
format-encode (asm_u imm rd op) h =
    let w = enc_u imm rd op in
    ap get_fmt (ground (arith, get_opcode_lem w, enc_u_lem imm rd op)) ∙ h.4
format-encode (asm_j imm rd op) h =
    let w = enc_j imm rd op in
    ap get_fmt (ground (arith, get_opcode_lem w, enc_j_lem imm rd op)) ∙ h.4

format_known : (a : Assembly) → format a ≢ fmt_unknown
unfolding format
format_known (asm_r f7 rs2 rs1 f3 rd op) = cc
format_known (asm_i imm rs1 f3 rd op) = cc
format_known (asm_s imm rs2 rs1 f3 op) = cc
format_known (asm_b imm rs2 rs1 f3 op) = cc
format_known (asm_u imm rd op) = cc
format_known (asm_j imm rd op) = cc

-- For each of the six formats: an instruction whose operands fit their fields, encoded by the
-- encoder of its format, is decoded, with length 4, and every operand comes back in its field, the
-- immediate as the same signed number.
pub decode-encode :
    (a : Assembly)
    → IsEncodable a
    → (i : Inst) × (decode (encode a) ≡ some i) × (i.raw ≡ encode a) × (i.len ≡ 4) × Carries a i
unfolding fields
decode-encode a h = (
  fields (encode a) (format a),
  decode_known (encode a) (format a) (format-encode a h) (format_known a),
  refl,
  refl,
  Carries-fields a h,
)

-- ===== src/Decode/Encoded.antt =====
-- The encoders of src/decode.c as sums of disjoint fields.
use rv32i_emu.Base.{ℕ, ◌+◌, ◌*◌, ◌/◌, ◌%◌, ◌^◌, ◌<◌, ◌≡◌, arith, bit_and, bit_or, ◌<<<◌}
use rv32i_emu.Base.Bits.{and_low, and_field, or_above}
use rv32i_emu.Decode.Encode.{enc_r, enc_i, enc_s, enc_b, enc_u, enc_j}

-- The low 25 bits that R, I and S share: rs1, funct3, rd or the low immediate, opcode.
tail_fields :
    (h rs1 f3 rd op : ℕ)
    → h < 2 ^ 12
    → bit_or
        (bit_or
          (bit_or (bit_or (h * 2 ^ 20) (bit_and rs1 0x1f <<< 15)) (bit_and f3 7 <<< 12))
          (bit_and rd 0x1f <<< 7))
        (bit_and op 0x7f)
      ≡ h * 2 ^ 20 + rs1 % 32 * 2 ^ 15 + f3 % 8 * 2 ^ 12 + rd % 32 * 2 ^ 7 + op % 128
tail_fields h rs1 f3 rd op fits =
    let s1 : ℕ = rs1 % 32 in
    let s2 : ℕ = f3 % 8 in
    let s3 : ℕ = rd % 32 in
    let s4 : ℕ = op % 128 in
    ground (
      arith,
      and_low 5 rs1,
      and_low 3 f3,
      and_low 5 rd,
      and_low 7 op,
      or_above 20 h (s1 * 2 ^ 15) (omega arith),
      or_above 15 (h * 2 ^ 5 + s1) (s2 * 2 ^ 12) (omega arith),
      or_above 12 (h * 2 ^ 8 + s1 * 2 ^ 3 + s2) (s3 * 2 ^ 7) (omega arith),
      or_above 7 (h * 2 ^ 13 + s1 * 2 ^ 8 + s2 * 2 ^ 5 + s3) s4 (omega arith),
    )

pub enc_i_lem :
    (imm rs1 f3 rd op : ℕ)
    → enc_i imm rs1 f3 rd op
      ≡ imm % 2 ^ 12 * 2 ^ 20 + rs1 % 32 * 2 ^ 15 + f3 % 8 * 2 ^ 12 + rd % 32 * 2 ^ 7 + op % 128
unfolding enc_i
enc_i_lem imm rs1 f3 rd op =
    ground (arith, and_low 12 imm, tail_fields (imm % 2 ^ 12) rs1 f3 rd op (omega arith))

pub enc_r_lem :
    (f7 rs2 rs1 f3 rd op : ℕ)
    → enc_r f7 rs2 rs1 f3 rd op
      ≡ (f7 % 128 * 32 + rs2 % 32) * 2 ^ 20
        + rs1 % 32 * 2 ^ 15
        + f3 % 8 * 2 ^ 12
        + rd % 32 * 2 ^ 7
        + op % 128
unfolding enc_r
enc_r_lem f7 rs2 rs1 f3 rd op = ground (
  arith,
  and_low 7 f7,
  and_low 5 rs2,
  or_above 25 (f7 % 128) (rs2 % 32 * 2 ^ 20) (omega arith),
  tail_fields (f7 % 128 * 32 + rs2 % 32) rs1 f3 rd op (omega arith),
)

pub enc_s_lem :
    (u rs2 rs1 f3 op : ℕ)
    → enc_s u rs2 rs1 f3 op
      ≡ (u / 2 ^ 5 % 128 * 32 + rs2 % 32) * 2 ^ 20
        + rs1 % 32 * 2 ^ 15
        + f3 % 8 * 2 ^ 12
        + u % 32 * 2 ^ 7
        + op % 128
unfolding enc_s
enc_s_lem u rs2 rs1 f3 op = ground (
  arith,
  and_low 7 (u / 2 ^ 5),
  and_low 5 rs2,
  or_above 25 (u / 2 ^ 5 % 128) (rs2 % 32 * 2 ^ 20) (omega arith),
  tail_fields (u / 2 ^ 5 % 128 * 32 + rs2 % 32) rs1 f3 u op (omega arith),
)

pub enc_u_lem :
    (imm rd op : ℕ) → enc_u imm rd op ≡ imm / 2 ^ 12 % 2 ^ 20 * 2 ^ 12 + rd % 32 * 2 ^ 7 + op % 128
unfolding enc_u
enc_u_lem imm rd op =
    let q : ℕ = imm / 2 ^ 12 % 2 ^ 20 in
    ground (
      arith,
      and_field 12 20 imm,
      and_low 5 rd,
      and_low 7 op,
      or_above 12 q (rd % 32 * 2 ^ 7) (omega arith),
      or_above 7 (q * 2 ^ 5 + rd % 32) (op % 128) (omega arith),
    )

pub enc_j_lem :
    (u rd op : ℕ)
    → enc_j u rd op
      ≡ u / 2 ^ 20 % 2 * 2 ^ 31
        + u / 2 % 2 ^ 10 * 2 ^ 21
        + u / 2 ^ 11 % 2 * 2 ^ 20
        + u / 2 ^ 12 % 2 ^ 8 * 2 ^ 12
        + rd % 32 * 2 ^ 7
        + op % 128
unfolding enc_j
enc_j_lem u rd op =
    let b20 : ℕ = u / 2 ^ 20 % 2 in
    let b10 : ℕ = u / 2 % 2 ^ 10 in
    let b11 : ℕ = u / 2 ^ 11 % 2 in
    let b19 : ℕ = u / 2 ^ 12 % 2 ^ 8 in
    ground (
      arith,
      and_low 1 (u / 2 ^ 20),
      and_low 10 (u / 2),
      and_low 1 (u / 2 ^ 11),
      and_low 8 (u / 2 ^ 12),
      and_low 5 rd,
      and_low 7 op,
      or_above 31 b20 (b10 * 2 ^ 21) (omega arith),
      or_above 21 (b20 * 2 ^ 10 + b10) (b11 * 2 ^ 20) (omega arith),
      or_above 20 (b20 * 2 ^ 11 + b10 * 2 + b11) (b19 * 2 ^ 12) (omega arith),
      or_above 12 (b20 * 2 ^ 19 + b10 * 2 ^ 9 + b11 * 2 ^ 8 + b19) (rd % 32 * 2 ^ 7) (omega arith),
      or_above 7 (b20 * 2 ^ 24 + b10 * 2 ^ 14 + b11 * 2 ^ 13 + b19 * 2 ^ 5 + rd % 32) (op % 128)
          (omega arith),
    )

pub enc_b_lem :
    (u rs2 rs1 f3 op : ℕ)
    → enc_b u rs2 rs1 f3 op
      ≡ u / 2 ^ 12 % 2 * 2 ^ 31
        + u / 2 ^ 5 % 2 ^ 6 * 2 ^ 25
        + rs2 % 32 * 2 ^ 20
        + rs1 % 32 * 2 ^ 15
        + f3 % 8 * 2 ^ 12
        + u / 2 % 2 ^ 4 * 2 ^ 8
        + u / 2 ^ 11 % 2 * 2 ^ 7
        + op % 128
unfolding enc_b
enc_b_lem u rs2 rs1 f3 op =
    let b12 : ℕ = u / 2 ^ 12 % 2 in
    let b10 : ℕ = u / 2 ^ 5 % 2 ^ 6 in
    let b4 : ℕ = u / 2 % 2 ^ 4 in
    let b11 : ℕ = u / 2 ^ 11 % 2 in
    let s2 : ℕ = rs2 % 32 in
    let s1 : ℕ = rs1 % 32 in
    let s3 : ℕ = f3 % 8 in
    ground (
      arith,
      and_low 1 (u / 2 ^ 12),
      and_low 6 (u / 2 ^ 5),
      and_low 4 (u / 2),
      and_low 1 (u / 2 ^ 11),
      and_low 5 rs2,
      and_low 5 rs1,
      and_low 3 f3,
      and_low 7 op,
      or_above 31 b12 (b10 * 2 ^ 25) (omega arith),
      or_above 25 (b12 * 2 ^ 6 + b10) (s2 * 2 ^ 20) (omega arith),
      or_above 20 (b12 * 2 ^ 11 + b10 * 2 ^ 5 + s2) (s1 * 2 ^ 15) (omega arith),
      or_above 15 (b12 * 2 ^ 16 + b10 * 2 ^ 10 + s2 * 2 ^ 5 + s1) (s3 * 2 ^ 12) (omega arith),
      or_above 12 (b12 * 2 ^ 19 + b10 * 2 ^ 13 + s2 * 2 ^ 8 + s1 * 2 ^ 3 + s3) (b4 * 2 ^ 8)
          (omega arith),
      or_above 8 (b12 * 2 ^ 23 + b10 * 2 ^ 17 + s2 * 2 ^ 12 + s1 * 2 ^ 7 + s3 * 2 ^ 4 + b4)
          (b11 * 2 ^ 7) (omega arith),
      or_above 7
          (b12 * 2 ^ 24 + b10 * 2 ^ 18 + s2 * 2 ^ 13 + s1 * 2 ^ 8 + s3 * 2 ^ 5 + b4 * 2 + b11)
          (op % 128) (omega arith),
    )

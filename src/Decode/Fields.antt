-- ===== src/Decode/Fields.antt =====
-- The fields and immediates of src/decode.c as arithmetic on the instruction word.
use rv32i_emu.Base.{ℕ, ◌+◌, ◌-◌, ◌*◌, ◌/◌, ◌%◌, ◌^◌, ◌<◌, ◌≡◌, arith, ltb, if◌then◌else◌}
use rv32i_emu.Base.Bits.{and_low, and_field, or_above, or_below}
use rv32i_emu.Decode.{
  get_opcode, get_rd, get_funct3, get_rs1, get_rs2, get_funct7, sext, imm_i, imm_s, imm_b, imm_u,
  imm_j,
}

pub get_opcode_lem : (x : ℕ) → get_opcode x ≡ x % 128
unfolding get_opcode
get_opcode_lem x = and_low 7 x

pub get_rd_lem : (x : ℕ) → get_rd x ≡ x / 2 ^ 7 % 32
unfolding get_rd
get_rd_lem x = and_low 5 (x / 2 ^ 7)

pub get_funct3_lem : (x : ℕ) → get_funct3 x ≡ x / 2 ^ 12 % 8
unfolding get_funct3
get_funct3_lem x = and_low 3 (x / 2 ^ 12)

pub get_rs1_lem : (x : ℕ) → get_rs1 x ≡ x / 2 ^ 15 % 32
unfolding get_rs1
get_rs1_lem x = and_low 5 (x / 2 ^ 15)

pub get_rs2_lem : (x : ℕ) → get_rs2 x ≡ x / 2 ^ 20 % 32
unfolding get_rs2
get_rs2_lem x = and_low 5 (x / 2 ^ 20)

pub get_funct7_lem : (x : ℕ) → get_funct7 x ≡ x / 2 ^ 25 % 128
unfolding get_funct7
get_funct7_lem x = and_low 7 (x / 2 ^ 25)

pub ruleset field_laws =
    (get_opcode_lem, get_rd_lem, get_funct3_lem, get_rs1_lem, get_rs2_lem, get_funct7_lem)

-- Sign extension from bit n, as the two's complement of the n + 1 low bits.
abbrev pub SignExtends : ℕ → Type 0
SignExtends n =
    (v : ℕ) → v < 2 ^ (n + 1) → sext v n ≡ (if ltb v (2 ^ n) then v else v + 2 ^ 32 - 2 ^ (n + 1))

pub sext_11 : SignExtends 11
unfolding sext
sext_11 v h = ground (arith, and_low 1 (v / 2 ^ 11), and_low 12 v, or_below 12 0xf_ffff v)

pub sext_5 : SignExtends 5
unfolding sext
sext_5 v h = ground (arith, and_low 1 (v / 2 ^ 5), and_low 6 v, or_below 6 0x3ff_ffff v)

pub sext_8 : SignExtends 8
unfolding sext
sext_8 v h = ground (arith, and_low 1 (v / 2 ^ 8), and_low 9 v, or_below 9 0x7f_ffff v)

pub sext_9 : SignExtends 9
unfolding sext
sext_9 v h = ground (arith, and_low 1 (v / 2 ^ 9), and_low 10 v, or_below 10 0x3f_ffff v)

pub sext_12 : SignExtends 12
unfolding sext
sext_12 v h = ground (arith, and_low 1 (v / 2 ^ 12), and_low 13 v, or_below 13 0x7_ffff v)

pub sext_20 : SignExtends 20
unfolding sext
sext_20 v h = ground (arith, and_low 1 (v / 2 ^ 20), and_low 21 v, or_below 21 0x7ff v)

pub imm_i_lem : (x : ℕ) → imm_i x ≡ sext (x / 2 ^ 20 % 2 ^ 12) 11
unfolding imm_i
imm_i_lem x = ground (arith, and_low 12 (x / 2 ^ 20))

pub imm_s_lem : (x : ℕ) → imm_s x ≡ sext (x / 2 ^ 25 % 2 ^ 7 * 2 ^ 5 + x / 2 ^ 7 % 2 ^ 5) 11
unfolding imm_s
imm_s_lem x = ground (
  arith,
  and_low 5 (x / 2 ^ 7),
  and_low 7 (x / 2 ^ 25),
  or_above 5 (x / 2 ^ 25 % 2 ^ 7) (x / 2 ^ 7 % 2 ^ 5) (omega arith),
)

pub imm_b_lem :
    (x : ℕ)
    → imm_b x
      ≡ sext
          (x / 2 ^ 31 % 2 * 2 ^ 12
            + x / 2 ^ 7 % 2 * 2 ^ 11
            + x / 2 ^ 25 % 2 ^ 6 * 2 ^ 5
            + x / 2 ^ 8 % 2 ^ 4 * 2)
          12
unfolding imm_b
imm_b_lem x =
    let b12 : ℕ = x / 2 ^ 31 % 2 in
    let b11 : ℕ = x / 2 ^ 7 % 2 in
    let b10 : ℕ = x / 2 ^ 25 % 2 ^ 6 in
    let b4 : ℕ = x / 2 ^ 8 % 2 ^ 4 in
    ground (
      arith,
      and_low 1 (x / 2 ^ 7),
      and_low 4 (x / 2 ^ 8),
      and_low 6 (x / 2 ^ 25),
      and_low 1 (x / 2 ^ 31),
      or_above 12 b12 (b11 * 2 ^ 11) (omega arith),
      or_above 11 (b12 * 2 + b11) (b10 * 2 ^ 5) (omega arith),
      or_above 5 (b12 * 2 ^ 7 + b11 * 2 ^ 6 + b10) (b4 * 2) (omega arith),
    )

pub imm_j_lem :
    (x : ℕ)
    → imm_j x
      ≡ sext
          (x / 2 ^ 31 % 2 * 2 ^ 20
            + x / 2 ^ 12 % 2 ^ 8 * 2 ^ 12
            + x / 2 ^ 20 % 2 * 2 ^ 11
            + x / 2 ^ 21 % 2 ^ 10 * 2)
          20
unfolding imm_j
imm_j_lem x =
    let b20 : ℕ = x / 2 ^ 31 % 2 in
    let b19 : ℕ = x / 2 ^ 12 % 2 ^ 8 in
    let b11 : ℕ = x / 2 ^ 20 % 2 in
    let b10 : ℕ = x / 2 ^ 21 % 2 ^ 10 in
    ground (
      arith,
      and_low 8 (x / 2 ^ 12),
      and_low 1 (x / 2 ^ 20),
      and_low 10 (x / 2 ^ 21),
      and_low 1 (x / 2 ^ 31),
      or_above 20 b20 (b19 * 2 ^ 12) (omega arith),
      or_above 12 (b20 * 2 ^ 8 + b19) (b11 * 2 ^ 11) (omega arith),
      or_above 11 (b20 * 2 ^ 9 + b19 * 2 + b11) (b10 * 2) (omega arith),
    )

pub imm_u_lem : (x : ℕ) → x < 2 ^ 32 → imm_u x ≡ x / 2 ^ 12 * 2 ^ 12
unfolding imm_u
imm_u_lem x h = ground (arith, and_field 12 20 x)

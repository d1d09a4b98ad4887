-- ===== src/SelfTest/FloatPrograms.antt =====
-- The test programs of fpu_selftest of src/fpu.c, and the encoders that they use.
use rv32i_emu.Base.{ℕ, List, [], ◌∷◌, bit_and, bit_or, ◌<<<◌, ◌>>>◌}

unfoldable pub enc_fp : ℕ → ℕ → ℕ → ℕ → ℕ → ℕ
enc_fp f7 rs2 rs1 f3 rd =
    bit_or
      (bit_or
        (bit_or
          (bit_or (bit_or (bit_and f7 0x7f <<< 25) (bit_and rs2 0x1f <<< 20))
            (bit_and rs1 0x1f <<< 15))
          (bit_and f3 7 <<< 12))
        (bit_and rd 0x1f <<< 7))
      0x53

-- The immediate is given as the u32 that the code casts it to.
unfoldable pub enc_flw : ℕ → ℕ → ℕ → ℕ
enc_flw imm rs1 fd =
    bit_or
      (bit_or (bit_or (bit_or (bit_and imm 0xfff <<< 20) (bit_and rs1 0x1f <<< 15)) (2 <<< 12))
        (bit_and fd 0x1f <<< 7))
      0x07

unfoldable pub enc_fsw : ℕ → ℕ → ℕ → ℕ
enc_fsw imm fs2 rs1 =
    bit_or
      (bit_or
        (bit_or
          (bit_or (bit_or (bit_and (imm >>> 5) 0x7f <<< 25) (bit_and fs2 0x1f <<< 20))
            (bit_and rs1 0x1f <<< 15))
          (2 <<< 12))
        (bit_and imm 0x1f <<< 7))
      0x27

abbrev pub load_store_program : List (ℕ × ℕ)
load_store_program =
    (0, 0x1000_0093)
    ∷ (4, enc_flw 0 1 1)
    ∷ (8, enc_fsw 4 1 1)
    ∷ (12, 0x0040_a183)
    ∷ (16, 0x0000_0073)
    ∷ []

abbrev pub arithmetic_program : List (ℕ × ℕ)
arithmetic_program =
    (0, enc_fp 0x00 2 1 0 10)
    ∷ (4, enc_fp 0x04 2 3 0 11)
    ∷ (8, enc_fp 0x08 2 1 0 12)
    ∷ (12, enc_fp 0x0c 4 3 0 13)
    ∷ (16, enc_fp 0x2c 0 5 0 14)
    ∷ (20, 0x0000_0073)
    ∷ []

abbrev pub sign_min_max_program : List (ℕ × ℕ)
sign_min_max_program =
    (0, enc_fp 0x10 2 1 0 10)
    ∷ (4, enc_fp 0x10 2 1 1 11)
    ∷ (8, enc_fp 0x10 2 1 2 12)
    ∷ (12, enc_fp 0x14 3 2 0 13)
    ∷ (16, enc_fp 0x14 3 2 1 14)
    ∷ (20, 0x0000_0073)
    ∷ []

abbrev pub compare_program : List (ℕ × ℕ)
compare_program =
    (0, enc_fp 0x50 2 1 1 10)
    ∷ (4, enc_fp 0x50 2 1 0 11)
    ∷ (8, enc_fp 0x50 2 1 2 12)
    ∷ (12, enc_fp 0x50 3 1 2 13)
    ∷ (16, enc_fp 0x50 3 1 1 14)
    ∷ (20, 0x0000_0073)
    ∷ []

abbrev pub convert_program : List (ℕ × ℕ)
convert_program =
    (0, enc_fp 0x60 0 1 0 10)
    ∷ (4, enc_fp 0x60 0 1 1 11)
    ∷ (8, enc_fp 0x60 0 2 0 12)
    ∷ (12, enc_fp 0x60 0 2 2 13)
    ∷ (16, 0x0070_0093)
    ∷ (20, enc_fp 0x68 0 1 0 14)
    ∷ (24, 0x0000_0073)
    ∷ []

abbrev pub move_class_program : List (ℕ × ℕ)
move_class_program =
    (0, enc_fp 0x70 0 1 0 10)
    ∷ (4, enc_fp 0x70 0 2 1 11)
    ∷ (8, enc_fp 0x70 0 3 1 12)
    ∷ (12, 0x3f80_02b7)
    ∷ (16, enc_fp 0x78 0 5 0 13)
    ∷ (20, 0x0000_0073)
    ∷ []

abbrev pub flags_program : List (ℕ × ℕ)
flags_program =
    (0, enc_fp 0x0c 2 1 0 10)
    ∷ (4, enc_fp 0x0c 2 2 0 11)
    ∷ (8, enc_fp 0x0c 3 1 0 12)
    ∷ (12, 0x0000_0073)
    ∷ []

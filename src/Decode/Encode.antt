-- ===== src/Decode/Encode.antt =====
-- src/decode.c: the encoders that RV32C expansion uses.
use rv32i_emu.Base.{ℕ, ◌<<<◌, ◌>>>◌, bit_and, bit_or}

unfoldable pub enc_r : ℕ → ℕ → ℕ → ℕ → ℕ → ℕ → ℕ
enc_r f7 rs2 rs1 f3 rd op =
    bit_or
      (bit_or
        (bit_or
          (bit_or (bit_or (bit_and f7 0x7f <<< 25) (bit_and rs2 0x1f <<< 20))
            (bit_and rs1 0x1f <<< 15))
          (bit_and f3 7 <<< 12))
        (bit_and rd 0x1f <<< 7))
      (bit_and op 0x7f)

unfoldable pub enc_i : ℕ → ℕ → ℕ → ℕ → ℕ → ℕ
enc_i imm rs1 f3 rd op =
    bit_or
      (bit_or
        (bit_or (bit_or (bit_and imm 0xfff <<< 20) (bit_and rs1 0x1f <<< 15)) (bit_and f3 7 <<< 12))
        (bit_and rd 0x1f <<< 7))
      (bit_and op 0x7f)

unfoldable pub enc_s : ℕ → ℕ → ℕ → ℕ → ℕ → ℕ
enc_s u rs2 rs1 f3 op =
    bit_or
      (bit_or
        (bit_or
          (bit_or (bit_or (bit_and (u >>> 5) 0x7f <<< 25) (bit_and rs2 0x1f <<< 20))
            (bit_and rs1 0x1f <<< 15))
          (bit_and f3 7 <<< 12))
        (bit_and u 0x1f <<< 7))
      (bit_and op 0x7f)

unfoldable pub enc_b : ℕ → ℕ → ℕ → ℕ → ℕ → ℕ
enc_b u rs2 rs1 f3 op =
    bit_or
      (bit_or
        (bit_or
          (bit_or
            (bit_or
              (bit_or (bit_or (bit_and (u >>> 12) 1 <<< 31) (bit_and (u >>> 5) 0x3f <<< 25))
                (bit_and rs2 0x1f <<< 20))
              (bit_and rs1 0x1f <<< 15))
            (bit_and f3 7 <<< 12))
          (bit_and (u >>> 1) 0xf <<< 8))
        (bit_and (u >>> 11) 1 <<< 7))
      (bit_and op 0x7f)

unfoldable pub enc_u : ℕ → ℕ → ℕ → ℕ
enc_u imm rd op =
    bit_or (bit_or (bit_and imm 0xffff_f000) (bit_and rd 0x1f <<< 7)) (bit_and op 0x7f)

unfoldable pub enc_j : ℕ → ℕ → ℕ → ℕ
enc_j u rd op =
    bit_or
      (bit_or
        (bit_or
          (bit_or (bit_or (bit_and (u >>> 20) 1 <<< 31) (bit_and (u >>> 1) 0x3ff <<< 21))
            (bit_and (u >>> 11) 1 <<< 20))
          (bit_and (u >>> 12) 0xff <<< 12))
        (bit_and rd 0x1f <<< 7))
      (bit_and op 0x7f)

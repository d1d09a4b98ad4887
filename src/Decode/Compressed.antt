-- ===== src/Decode/Compressed.antt =====
-- src/decode.c: expansion of a 16-bit RV32C instruction into a 32-bit one. A code `c` is below
-- 2 ^ 16. `none` is the result false.
use rv32i_emu.Base.{
  ℕ, ◌+◌, Option, none, some, ◌||◌, leb, ◌==◌, if◌then◌else◌, nonzero, ◌<<<◌, ◌>>>◌, bit_and,
  bit_or,
}
use rv32i_emu.Decode.{sext}
use rv32i_emu.Decode.Encode.{enc_r, enc_i, enc_s, enc_b, enc_u, enc_j}

-- C_OP, C_F3, C_RD, C_RS2, C_RS1P, C_RDP and C_RS2P
unfoldable pub c_op : ℕ → ℕ
c_op c = bit_and c 3

unfoldable pub c_f3 : ℕ → ℕ
c_f3 c = bit_and (c >>> 13) 7

unfoldable pub c_rd : ℕ → ℕ
c_rd c = bit_and (c >>> 7) 0x1f

unfoldable pub c_rs2 : ℕ → ℕ
c_rs2 c = bit_and (c >>> 2) 0x1f

unfoldable pub c_rs1p : ℕ → ℕ
c_rs1p c = 8 + bit_and (c >>> 7) 7

unfoldable pub c_rdp : ℕ → ℕ
c_rdp c = 8 + bit_and (c >>> 2) 7

unfoldable pub c_rs2p : ℕ → ℕ
c_rs2p c = 8 + bit_and (c >>> 2) 7

unfoldable pub c_imm6 : ℕ → ℕ
c_imm6 c = bit_or (bit_and (c >>> 12) 1 <<< 5) (bit_and (c >>> 2) 0x1f)

unfoldable pub c_uimm_addi4spn : ℕ → ℕ
c_uimm_addi4spn c =
    bit_or
      (bit_or (bit_or (bit_and (c >>> 11) 3 <<< 4) (bit_and (c >>> 7) 0xf <<< 6))
        (bit_and (c >>> 6) 1 <<< 2))
      (bit_and (c >>> 5) 1 <<< 3)

unfoldable pub c_uimm_lw : ℕ → ℕ
c_uimm_lw c =
    bit_or (bit_or (bit_and (c >>> 10) 7 <<< 3) (bit_and (c >>> 6) 1 <<< 2))
      (bit_and (c >>> 5) 1 <<< 6)

unfoldable pub c_uimm_lwsp : ℕ → ℕ
c_uimm_lwsp c =
    bit_or (bit_or (bit_and (c >>> 12) 1 <<< 5) (bit_and (c >>> 4) 7 <<< 2))
      (bit_and (c >>> 2) 3 <<< 6)

unfoldable pub c_uimm_swsp : ℕ → ℕ
c_uimm_swsp c = bit_or (bit_and (c >>> 9) 0xf <<< 2) (bit_and (c >>> 7) 3 <<< 6)

unfoldable pub c_imm_b : ℕ → ℕ
c_imm_b c =
    bit_or
      (bit_or
        (bit_or (bit_or (bit_and (c >>> 12) 1 <<< 8) (bit_and (c >>> 10) 3 <<< 3))
          (bit_and (c >>> 5) 3 <<< 6))
        (bit_and (c >>> 3) 3 <<< 1))
      (bit_and (c >>> 2) 1 <<< 5)

unfoldable pub c_imm_j : ℕ → ℕ
c_imm_j c =
    bit_or
      (bit_or
        (bit_or
          (bit_or
            (bit_or
              (bit_or (bit_or (bit_and (c >>> 12) 1 <<< 11) (bit_and (c >>> 11) 1 <<< 4))
                (bit_and (c >>> 9) 3 <<< 8))
              (bit_and (c >>> 8) 1 <<< 10))
            (bit_and (c >>> 7) 1 <<< 6))
          (bit_and (c >>> 6) 1 <<< 7))
        (bit_and (c >>> 3) 7 <<< 1))
      (bit_and (c >>> 2) 1 <<< 5)

unfoldable pub c_imm_addi16sp : ℕ → ℕ
c_imm_addi16sp c =
    bit_or
      (bit_or
        (bit_or (bit_or (bit_and (c >>> 12) 1 <<< 9) (bit_and (c >>> 6) 1 <<< 4))
          (bit_and (c >>> 5) 1 <<< 6))
        (bit_and (c >>> 3) 3 <<< 7))
      (bit_and (c >>> 2) 1 <<< 5)

-- Quadrant 0: C.ADDI4SPN, C.LW, C.SW.
unfoldable pub expand_q0 : ℕ → ℕ → Option ℕ
unfolding c_rs1p c_rdp c_rs2p c_uimm_addi4spn c_uimm_lw
expand_q0 f3 c =
    if f3 == 0
    then (let imm = c_uimm_addi4spn c in
        if imm == 0 then none else some (enc_i imm 2 0 (c_rdp c) 0x13))
    else if f3 == 2
    then some (enc_i (c_uimm_lw c) (c_rs1p c) 2 (c_rdp c) 0x03)
    else if f3 == 6
    then some (enc_s (c_uimm_lw c) (c_rs2p c) (c_rs1p c) 2 0x23)
    else none

-- Quadrant 1, f3 = 3: C.ADDI16SP and C.LUI.
unfoldable pub expand_lui : ℕ → ℕ → Option ℕ
unfolding c_imm6 c_imm_addi16sp sext
expand_lui rd c =
    if rd == 2
    then (let imm = c_imm_addi16sp c in
        if imm == 0 then none else some (enc_i (sext imm 9) 2 0 2 0x13))
    else if rd == 0
    then none
    else (let imm = c_imm6 c in if imm == 0 then none else some (enc_u (sext imm 5 <<< 12) rd 0x37))

-- Quadrant 1, f3 = 4: C.SRLI, C.SRAI, C.ANDI, C.SUB, C.XOR, C.OR, C.AND.
unfoldable pub expand_alu : ℕ → Option ℕ
unfolding c_rs1p c_rs2p c_imm6 sext
expand_alu c =
    let f2 = bit_and (c >>> 10) 3 in
    let f5 = bit_and (c >>> 5) 3 in
    let imm = bit_or (bit_and (c >>> 12) 1 <<< 5) (bit_and (c >>> 2) 0x1f) in
    if f2 == 0 || f2 == 1
    then if leb 32 imm
      then none
      else some (enc_i (bit_or imm (if f2 == 1 then 0x400 else 0)) (c_rs1p c) 5 (c_rs1p c) 0x13)
    else if f2 == 2
    then some (enc_i (sext (c_imm6 c) 5) (c_rs1p c) 7 (c_rs1p c) 0x13)
    else if nonzero (bit_and (c >>> 12) 1)
    then none
    else if f5 == 0
    then some (enc_r 0x20 (c_rs2p c) (c_rs1p c) 0 (c_rs1p c) 0x33)
    else if f5 == 1
    then some (enc_r 0x00 (c_rs2p c) (c_rs1p c) 4 (c_rs1p c) 0x33)
    else if f5 == 2
    then some (enc_r 0x00 (c_rs2p c) (c_rs1p c) 6 (c_rs1p c) 0x33)
    else some (enc_r 0x00 (c_rs2p c) (c_rs1p c) 7 (c_rs1p c) 0x33)

-- Quadrant 1.
unfoldable pub expand_q1 : ℕ → ℕ → ℕ → Option ℕ
unfolding expand_lui expand_alu c_imm6 c_imm_j c_imm_b c_rs1p sext
expand_q1 f3 rd c =
    if f3 == 0
    then some (enc_i (sext (c_imm6 c) 5) rd 0 rd 0x13)
    else if f3 == 1
    then some (enc_j (sext (c_imm_j c) 11) 1 0x6f)
    else if f3 == 2
    then some (enc_i (sext (c_imm6 c) 5) 0 0 rd 0x13)
    else if f3 == 3
    then expand_lui rd c
    else if f3 == 4
    then expand_alu c
    else if f3 == 5
    then some (enc_j (sext (c_imm_j c) 11) 0 0x6f)
    else if f3 == 6
    then some (enc_b (sext (c_imm_b c) 8) 0 (c_rs1p c) 0 0x63)
    else some (enc_b (sext (c_imm_b c) 8) 0 (c_rs1p c) 1 0x63)

-- Quadrant 2, f3 = 4: C.JR, C.MV, C.EBREAK, C.JALR, C.ADD.
unfoldable pub expand_jump : ℕ → ℕ → ℕ → Option ℕ
expand_jump rd rs2 c =
    if bit_and (c >>> 12) 1 == 0
    then if rs2 == 0
      then if rd == 0 then none else some (enc_i 0 rd 0 0 0x67)
      else some (enc_r 0 rs2 0 0 rd 0x33)
    else if rs2 == 0
    then if rd == 0 then some 0x0010_0073 else some (enc_i 0 rd 0 1 0x67)
    else some (enc_r 0 rs2 rd 0 rd 0x33)

-- Quadrant 2.
unfoldable pub expand_q2 : ℕ → ℕ → ℕ → ℕ → Option ℕ
unfolding expand_jump c_uimm_lwsp c_uimm_swsp
expand_q2 f3 rd rs2 c =
    let shamt = bit_or (bit_and (c >>> 12) 1 <<< 5) (bit_and (c >>> 2) 0x1f) in
    if f3 == 0
    then if leb 32 shamt then none else some (enc_i shamt rd 1 rd 0x13)
    else if f3 == 2
    then if rd == 0 then none else some (enc_i (c_uimm_lwsp c) 2 2 rd 0x03)
    else if f3 == 4
    then expand_jump rd rs2 c
    else if f3 == 6
    then some (enc_s (c_uimm_swsp c) rs2 2 2 0x23)
    else none

unfoldable pub expand_compressed : ℕ → Option ℕ
unfolding expand_q0 expand_q1 expand_q2 c_op c_f3 c_rd c_rs2
expand_compressed c =
    let q = c_op c in
    let f3 = c_f3 c in
    let rd = c_rd c in
    let rs2 = c_rs2 c in
    if q == 0
    then expand_q0 f3 c
    else if q == 1
    then expand_q1 f3 rd c
    else if q == 2
    then expand_q2 f3 rd rs2 c
    else none

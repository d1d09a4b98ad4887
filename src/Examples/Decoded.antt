-- ===== src/Examples/Decoded.antt =====
-- Concrete instructions.
use rv32i_emu.Base.{◌≡◌, refl, some, arith}
use rv32i_emu.Decode.{Inst, decode, get_opcode, get_fmt, fmt_i, fields, sext}
use rv32i_emu.Decode.RoundTrip.{Assembly, asm_i, encode, Carries, decode-encode}
use rv32i_emu.Decode.Compressed.{expand_compressed, expand_q1, c_op, c_f3, c_rd, c_rs2, c_imm6}
use rv32i_emu.Decode.Encode.{enc_i}
use rv32i_emu.Decode.Expanded.{expand_compressed-decode}
use rv32i_emu.Decode.Bounds.{IsDecoded, decode-IsDecoded}

-- addi x5, x6, -3
abbrev addi : Assembly
addi = asm_i 0xffff_fffd 6 0 5 0x13

decode-encode_example :
    (i : Inst) × (decode (encode addi) ≡ some i)
    × (i.raw ≡ encode addi)
    × (i.len ≡ 4)
    × Carries addi i
unfolding get_fmt
decode-encode_example =
    decode-encode addi (refl, omega arith, omega arith, omega arith, omega arith, refl)

abbrev ecall : Inst
ecall = fields 0x73 fmt_i

decode-ecall : decode 0x73 ≡ some ecall
unfolding decode get_opcode get_fmt
decode-ecall = refl

decode-IsDecoded_example : IsDecoded ecall
decode-IsDecoded_example = decode-IsDecoded 0x73 (omega arith) decode-ecall

-- c.addi x10, 1
expand-addi : expand_compressed 0x0505 ≡ some 0x0015_0513
unfolding expand_compressed expand_q1 c_op c_f3 c_rd c_rs2 c_imm6 sext enc_i
expand-addi = refl

expand_compressed-decode_example :
    decode 0x0015_0513 ≡ some (fields 0x0015_0513 (get_fmt (get_opcode 0x0015_0513)))
expand_compressed-decode_example = expand_compressed-decode 0x0505 0x0015_0513 expand-addi

-- ===== src/SelfTest/Decode/Passed.antt =====
-- The checks of decode_selftest of src/decode_test.c.
use rv32i_emu.Base.{◌≡◌, refl, true}
use rv32i_emu.Decode.{
  get_fmt, get_opcode, fields, get_rd, get_rs1, get_rs2, get_funct3, get_funct7, imm_i, sext, imm_s,
  imm_b, imm_u, imm_j,
}
use rv32i_emu.Machine.{Emulator, done}
use rv32i_emu.SelfTest.{passes}
use rv32i_emu.SelfTest.Decode.{decode_selftest}

-- The forty-nine checks of decode_selftest pass.
pub decode_selftest-passes : (e : Emulator) → passes 49 (done decode_selftest e) ≡ true
unfolding passes decode_selftest get_fmt get_opcode fields get_rd get_rs1 get_rs2 get_funct3
    get_funct7 imm_i sext imm_s imm_b imm_u imm_j
decode_selftest-passes e = refl

-- ===== src/SelfTest/Compressed/Passed.antt =====
-- The checks of rvc_selftest of src/decode_test.c.
use rv32i_emu.Base.{◌≡◌, refl, true}
use rv32i_emu.Decode.Encode.{enc_i, enc_u, enc_s, enc_b, enc_j, enc_r}
use rv32i_emu.Machine.{Emulator}
use rv32i_emu.Fpu.Host.{HostFloat}
use rv32i_emu.SelfTest.{passes, holds_word}
use rv32i_emu.SelfTest.Compressed.{rvc_selftest}

-- The thirty-three checks of rvc_selftest pass, whatever the host's float does.
pub rvc_selftest-passes : (host : HostFloat) (e : Emulator) → passes 33 (rvc_selftest host e) ≡ true
unfolding passes rvc_selftest enc_i enc_u enc_s enc_b enc_j enc_r holds_word
rvc_selftest-passes host e = refl

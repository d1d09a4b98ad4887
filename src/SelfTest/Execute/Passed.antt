-- ===== src/SelfTest/Execute/Passed.antt =====
-- The checks of execute_selftest of src/execute.c.
use rv32i_emu.Base.{◌≡◌, refl, true}
use rv32i_emu.Machine.{Emulator}
use rv32i_emu.Fpu.Host.{HostFloat}
use rv32i_emu.SelfTest.{passes}
use rv32i_emu.SelfTest.Execute.{execute_selftest}

-- The 53 checks of execute_selftest pass, whatever the host's float does.
pub execute_selftest-passes :
    (host : HostFloat) (e : Emulator) → passes 53 (execute_selftest host e) ≡ true
unfolding passes execute_selftest
execute_selftest-passes host e = refl

-- ===== src/SelfTest/Traps/Passed.antt =====
-- The checks of trap_selftest of src/trap.c.
use rv32i_emu.Base.{◌≡◌, refl, true}
use rv32i_emu.Machine.{Emulator}
use rv32i_emu.Fpu.Host.{HostFloat}
use rv32i_emu.Trap.{trap_mret}
use rv32i_emu.SelfTest.{passes}
use rv32i_emu.SelfTest.Traps.{trap_selftest}

-- The twenty checks of trap_selftest pass, whatever the host's float does.
pub trap_selftest-passes :
    (host : HostFloat) (e : Emulator) → passes 20 (trap_selftest host e) ≡ true
unfolding passes trap_selftest trap_mret
trap_selftest-passes host e = refl

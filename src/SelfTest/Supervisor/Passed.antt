-- ===== src/SelfTest/Supervisor/Passed.antt =====
-- The checks of trap_smode_selftest of src/trap.c.
use rv32i_emu.Base.{◌≡◌, refl, true}
use rv32i_emu.Csr.{
  csr_priv_ok, csr_writable, csr_read, csr_name, csr_write, write_named, read_named,
}
use rv32i_emu.Machine.{Emulator}
use rv32i_emu.Fpu.Host.{HostFloat}
use rv32i_emu.Trap.{trap_sret, trap_mret}
use rv32i_emu.SelfTest.{passes}
use rv32i_emu.SelfTest.Supervisor.{trap_smode_selftest}

-- The thirty checks of trap_smode_selftest pass, whatever the host's float does.
pub trap_smode_selftest-passes :
    (host : HostFloat) (e : Emulator) → passes 30 (trap_smode_selftest host e) ≡ true
unfolding passes trap_smode_selftest csr_priv_ok csr_writable csr_read csr_name csr_write
    write_named trap_sret trap_mret read_named
trap_smode_selftest-passes host e = refl

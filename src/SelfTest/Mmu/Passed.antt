-- ===== src/SelfTest/Mmu/Passed.antt =====
-- The checks of mmu_selftest of src/mmu.c.
use rv32i_emu.Base.{◌≡◌, refl, ap, true, arith, [], bit_or, ◌>>>◌}
use mathlib.Core.Path.{fun_ext}
use rv32i_emu.Csr.Constants.{priv_u, satp_mode_bit}
use rv32i_emu.Machine.{Emulator, running, Run, ◌>>◌, Exec, modify, with_state, with_csr}
use rv32i_emu.Machine.Runs.{bind-done}
use rv32i_emu.Csr.{
  csr_priv_ok, csr_writable, csr_read, csr_name, csr_write, write_named, read_named,
}
use rv32i_emu.Trap.{trap_mret}
use rv32i_emu.Mmu.{fault_cause}
use rv32i_emu.Fpu.Host.{HostFloat}
use rv32i_emu.Emu.{emu_init}
use rv32i_emu.SelfTest.{passes}
use rv32i_emu.SelfTest.Tables.{t_root, build_test_tables, setup_user_emu, fill_tables}
use rv32i_emu.SelfTest.Mmu.{mmu_selftest}
use rv32i_emu.SelfTest.Tables.Cleared.{blank, clear_tables-blank}

-- The user-mode emulator before its page table is built.
abbrev fresh : Emulator
fresh = record (with_state running (emu_init [])) { priv = priv_u }

abbrev enter_sv32 : Exec (Unit {0})
enter_sv32 = modify (with_csr (λ c. record c { satp = bit_or satp_mode_bit (t_root >>> 12) }))

-- The page table is built as over blank memory, since the loop that clears it changes nothing.
unfoldable user_emu : Run (Unit {0})
unfolding fill_tables emu_init
user_emu = (fill_tables >> enter_sv32) fresh

build_test_tables_blank : build_test_tables fresh ≡ fill_tables fresh
unfolding build_test_tables emu_init blank
build_test_tables_blank = bind-done _ (clear_tables-blank fresh [] 1024 0 (omega arith)) refl

setup_user_emu_done : (e : Emulator) → setup_user_emu e ≡ user_emu
unfolding setup_user_emu user_emu emu_init
setup_user_emu_done e = ap (λ r. ((λ _. r) >> enter_sv32) fresh) build_test_tables_blank

-- The thirty-three checks of mmu_selftest pass, whatever the host's float does.
pub mmu_selftest-passes : (host : HostFloat) (e : Emulator) → passes 33 (mmu_selftest host e) ≡ true
unfolding passes mmu_selftest user_emu csr_priv_ok csr_writable csr_read csr_name csr_write
    write_named read_named trap_mret fault_cause
mmu_selftest-passes host e = rw (fun_ext setup_user_emu_done) refl

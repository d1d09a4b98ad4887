-- ===== src/Examples/Traps.antt =====
-- Concrete traps, from a hart in user mode with its timer due.
use rv32i_emu.Base.{
  ℕ, ◌≤◌, ◌≡◌, refl, true, false, not, ◌&&◌, ◌||◌, leb, ltb, ◌==◌, if◌then◌else◌, [], arith,
}
use rv32i_emu.Base.Bits.{test_bit}
use rv32i_emu.Machine.{Emulator}
use rv32i_emu.Emu.{emu_init}
use rv32i_emu.Trap.{
  trap_raise, trap_mret, trap_sret, enter_m, enter_s, is_delegated, tick, trap_check_interrupt,
}
use rv32i_emu.Trap.Return.{trap_raise-trap_mret, trap_raise-trap_sret}
use rv32i_emu.Trap.Delivery.{is_delegated_lem, trap_raise_priv, trap_check_interrupt_lem, is_due}

-- User mode with both vectors set, the user ecall delegated, and the timer due.
abbrev user : Emulator
user = record (emu_init []) {
  priv = 0;
  mtime = 4;
  mtimecmp = 5;
  csr = record (emu_init []).csr {
    mtvec = 0x100;
    stvec = 0x200;
    medeleg = 0x100;
    mie = 0x80;
    mstatus = 0xa;
  };
}

raise_m : trap_raise 2 7 0x1002 user ≡ (enter_m 2 7 0x1002 user, true)
unfolding trap_raise is_delegated
raise_m = refl

not_delegated : is_delegated 2 user ≡ false
unfolding is_delegated
not_delegated = refl

trap_raise-trap_mret_example :
    ((trap_mret (enter_m 2 7 0x1002 user)).0.priv ≡ 0)
    × ((trap_mret (enter_m 2 7 0x1002 user)).1 ≡ 0x1000)
    × ((i : ℕ)
        → test_bit (trap_mret (enter_m 2 7 0x1002 user)).0.csr.mstatus i
          ≡ (if 7 == i then true else if 11 == i || 12 == i then false else test_bit 0xa i))
trap_raise-trap_mret_example =
    trap_raise-trap_mret 2 7 0x1002 user (omega arith) (omega arith) (omega arith) not_delegated
      raise_m

raise_s : trap_raise 8 0 0x1002 user ≡ (enter_s 8 0 0x1002 user, true)
unfolding trap_raise is_delegated
raise_s = refl

delegated : is_delegated 8 user ≡ true
unfolding is_delegated
delegated = refl

trap_raise-trap_sret_example :
    ((trap_sret (enter_s 8 0 0x1002 user)).0.priv ≡ 0)
    × ((trap_sret (enter_s 8 0 0x1002 user)).1 ≡ 0x1000)
    × ((i : ℕ)
        → test_bit (trap_sret (enter_s 8 0 0x1002 user)).0.csr.mstatus i
          ≡ (if 5 == i then true else if 8 == i then false else test_bit 0xa i))
trap_raise-trap_sret_example =
    trap_raise-trap_sret 8 0 0x1002 user (omega arith) (omega arith) delegated raise_s

is_delegated_lem_example : is_delegated 8 user ≡ (leb 0 1 && ltb 8 16 && test_bit 0x100 8)
is_delegated_lem_example = is_delegated_lem 8 user (omega arith)

trap_raise_priv_example :
    (user.priv ≤ (enter_s 8 0 0x1002 user).priv)
    × (user.priv ≡ 3 → (enter_s 8 0 0x1002 user).priv ≡ 3)
    × (true ≡ false → enter_s 8 0 0x1002 user ≡ user)
trap_raise_priv_example = trap_raise_priv 8 0 0x1002 user (omega arith) raise_s

trap_check_interrupt_lem_example :
    ((tick user).mtime ≡ 5)
    × ((i : ℕ) → test_bit (tick user).csr.mip i ≡ (if 7 == i then is_due user else test_bit 0 i))
    × (trap_check_interrupt 0x40 user ≡ (
        if is_due user && test_bit 0x80 7 && (not (0 == 3) || test_bit 0xa 3)
        then trap_raise 0x8000_0007 0 0x40 (tick user)
        else (tick user, false)))
unfolding emu_init
trap_check_interrupt_lem_example = trap_check_interrupt_lem 0x40 user (omega arith)

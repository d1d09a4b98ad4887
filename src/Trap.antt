-- ===== src/Trap.antt =====
-- src/trap.c: entering a trap, the timer interrupt, mret and sret.
pub mod Mstatus
pub mod Return
pub mod Delivery
use rv32i_emu.Base.{
  ℕ, ◌+◌, Bool, true, false, not, ◌&&◌, ◌||◌, ltb, leb, ◌==◌, if◌then◌else◌, u64, nonzero, ◌<<<◌,
  ◌>>>◌, not32, bit_and, bit_or,
}
use rv32i_emu.Csr.Constants.{
  mstatus_sie, mstatus_mie, mstatus_spie, mstatus_mpie, mstatus_spp, mstatus_mpp_mask,
  mstatus_mpp_u, priv_u, priv_s, priv_m, mie_mtie, mip_mtip, mcause_irq_bit, mcause_irq_timer,
}
use rv32i_emu.Machine.{Emulator}

unfoldable pub trap_init : Emulator → Emulator
trap_init e = record e { mtime = 0; mtimecmp = 0; csr = record e.csr { mstatus = 0 } }

-- `if (m & from) m |= to; else m &= ~to;`
abbrev pub copy_bit : ℕ → ℕ → ℕ → ℕ
copy_bit from to m = if nonzero (bit_and m from) then bit_or m to else bit_and m (not32 to)

-- mstatus on entry to an S-mode handler
unfoldable pub enter_s_mstatus : ℕ → ℕ → ℕ
enter_s_mstatus priv m =
    let m = copy_bit mstatus_sie mstatus_spie m in
    let m = bit_and m (not32 mstatus_sie) in
    if priv == priv_s then bit_or m mstatus_spp else bit_and m (not32 mstatus_spp)

-- mstatus on entry to an M-mode handler
unfoldable pub enter_m_mstatus : ℕ → ℕ → ℕ
enter_m_mstatus priv m =
    let m = copy_bit mstatus_mie mstatus_mpie m in
    let m = bit_and m (not32 mstatus_mie) in
    bit_or (bit_and m (not32 mstatus_mpp_mask)) (bit_and priv 0x3 <<< 11)

unfoldable pub enter_s : ℕ → ℕ → ℕ → Emulator → Emulator
unfolding enter_s_mstatus
enter_s cause tval epc e = record e {
  csr = record e.csr {
    sepc = bit_and epc (not32 0x3);
    scause = cause;
    stval = tval;
    mstatus = enter_s_mstatus e.priv e.csr.mstatus;
  };
  priv = priv_s;
  rf = record e.rf { pc = e.csr.stvec };
}

unfoldable pub enter_m : ℕ → ℕ → ℕ → Emulator → Emulator
unfolding enter_m_mstatus
enter_m cause tval epc e = record e {
  csr = record e.csr {
    mepc = bit_and epc (not32 0x3);
    mcause = cause;
    mtval = tval;
    mstatus = enter_m_mstatus e.priv e.csr.mstatus;
  };
  priv = priv_m;
  rf = record e.rf { pc = e.csr.mtvec };
}

-- Whether the trap goes to S-mode. `deleg >>> code` is read only below 16.
unfoldable pub is_delegated : ℕ → Emulator → Bool
is_delegated cause e =
    let code = bit_and cause (not32 mcause_irq_bit) in
    let irq = nonzero (bit_and cause mcause_irq_bit) in
    let deleg = (if irq then e.csr.mideleg else e.csr.medeleg) in
    leb e.priv priv_s && ltb code 16 && nonzero (bit_and (deleg >>> code) 1)

-- The result is true if a handler is entered.
unfoldable pub trap_raise : ℕ → ℕ → ℕ → Emulator → Emulator × Bool
unfolding enter_s enter_m is_delegated
trap_raise cause tval epc e =
    if is_delegated cause e
    then if e.csr.stvec == 0 then (e, false) else (enter_s cause tval epc e, true)
    else if e.csr.mtvec == 0
    then (e, false)
    else (enter_m cause tval epc e, true)

-- mtime advances, and the level of MTIP follows it.
unfoldable pub tick : Emulator → Emulator
tick e =
    let now = u64 (e.mtime + 1) in
    let due = nonzero e.mtimecmp && leb e.mtimecmp now in
    record e {
      mtime = now;
      csr = record e.csr {
        mip = if due then bit_or e.csr.mip mip_mtip else bit_and e.csr.mip (not32 mip_mtip);
      };
    }

unfoldable pub timer_enabled : Emulator → Bool
timer_enabled e =
    nonzero (bit_and e.csr.mip mip_mtip)
    && nonzero (bit_and e.csr.mie mie_mtie)
    && (not (e.priv == priv_m) || nonzero (bit_and e.csr.mstatus mstatus_mie))

unfoldable pub trap_check_interrupt : ℕ → Emulator → Emulator × Bool
unfolding tick timer_enabled trap_raise
trap_check_interrupt epc e =
    let e' = tick e in
    if timer_enabled e' then trap_raise mcause_irq_timer 0 epc e' else (e', false)

-- The new state and the address to go on from.
unfoldable pub trap_mret : Emulator → Emulator × ℕ
trap_mret e =
    let m = copy_bit mstatus_mpie mstatus_mie e.csr.mstatus in
    let m = bit_or m mstatus_mpie in
    (
      record e {
        priv = bit_and m mstatus_mpp_mask >>> 11;
        csr = record e.csr { mstatus = bit_or (bit_and m (not32 mstatus_mpp_mask)) mstatus_mpp_u };
      },
      e.csr.mepc,
    )

unfoldable pub trap_sret : Emulator → Emulator × ℕ
trap_sret e =
    let m = copy_bit mstatus_spie mstatus_sie e.csr.mstatus in
    let m = bit_or m mstatus_spie in
    (
      record e {
        priv = if nonzero (bit_and m mstatus_spp) then priv_s else priv_u;
        csr = record e.csr { mstatus = bit_and m (not32 mstatus_spp) };
      },
      e.csr.sepc,
    )

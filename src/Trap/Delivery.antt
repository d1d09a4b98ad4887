-- ===== src/Trap/Delivery.antt =====
-- Where src/trap.c delivers a trap, and when the timer interrupt is due.
use rv32i_emu.Base.{
  ℕ, zero, suc, ◌+◌, ◌*◌, ◌/◌, ◌%◌, ◌^◌, ◌≤◌, ◌<◌, ◌≡◌, refl, ◌∙◌, Bool, false, not, ◌&&◌, ◌||◌,
  arith, leb, ltb, ◌==◌, if◌then◌else◌, nonzero, not32, bit_and, ◌>>>◌, u64,
}
use native.Mathlib.Nat.{div-div-eq-div-mul, pow-succ'}
use rv32i_emu.Base.Bits.{test_bit, and_field, and_low, and_bit, test_bit-set, test_bit-clear}
use rv32i_emu.Machine.{Emulator}
use rv32i_emu.Trap.{
  enter_m, enter_s, trap_raise, is_delegated, tick, timer_enabled, trap_check_interrupt,
}

shift_bit : (k d : ℕ) → nonzero (bit_and (d >>> k) 1) ≡ test_bit d k
unfolding test_bit
shift_bit zero d = ground (arith, and_low 1 (d / 1))
shift_bit (suc k) d = rw pow-succ' (rw (← div-div-eq-div-mul d 2 (2 ^ k)) (shift_bit k (d / 2)))

-- A trap is delegated to S-mode exactly when it is raised below M-mode, its code is below 16 and
-- the bit of its code is set in mideleg, for an interrupt, or in medeleg, for an exception.
pub is_delegated_lem :
    (cause : ℕ) (e : Emulator)
    → cause < 2 ^ 32
    → is_delegated cause e ≡ (
        leb e.priv 1
        && ltb (cause % 2 ^ 31) 16
        && test_bit (if leb (2 ^ 31) cause then e.csr.mideleg else e.csr.medeleg) (cause % 2 ^ 31))
unfolding is_delegated
is_delegated_lem cause e h =
    let code : bit_and cause (not32 (2 ^ 31)) ≡ cause % 2 ^ 31 = and_low 31 cause in
    let irq : bit_and cause (2 ^ 31) ≡ cause / 2 ^ 31 % 2 * 2 ^ 31 = and_field 31 1 cause in
    ground (
      arith,
      code,
      irq,
      shift_bit (cause % 2 ^ 31) e.csr.mideleg,
      shift_bit (cause % 2 ^ 31) e.csr.medeleg,
    )

-- trap_raise never lowers the privilege, M-mode traps stay in M-mode, and without a handler the
-- state is as it was.
pub trap_raise_priv :
    (cause tval epc : ℕ) (e : Emulator) {e' : Emulator} {b : Bool}
    → e.priv < 4
    → trap_raise cause tval epc e ≡ (e', b)
    → (e.priv ≤ e'.priv) × (e.priv ≡ 3 → e'.priv ≡ 3) × (b ≡ false → e' ≡ e)
unfolding trap_raise is_delegated enter_s enter_m
trap_raise_priv cause tval epc e {e'} {b} p r = ground arith

-- mtimecmp is set and mtime has reached it, after the step.
unfoldable pub is_due : Emulator → Bool
is_due e = not (e.mtimecmp == 0) && leb e.mtimecmp (u64 (e.mtime + 1))

tick_mip :
    (e : Emulator) (i : ℕ)
    → e.csr.mip < 2 ^ 32
    → test_bit (tick e).csr.mip i ≡ (if 7 == i then is_due e else test_bit e.csr.mip i)
unfolding tick is_due
tick_mip e i h =
    ground (arith, test_bit-set 7 e.csr.mip i, test_bit-clear 7 e.csr.mip i h (omega arith))

-- trap_check_interrupt advances mtime, makes MTIP follow the timer and leaves the other bits of mip,
-- and raises the timer interrupt exactly when the timer is due, MTIE is set and the hart is below
-- M-mode or has MIE set.
pub trap_check_interrupt_lem :
    (epc : ℕ) (e : Emulator)
    → e.csr.mip < 2 ^ 32
    → ((tick e).mtime ≡ u64 (e.mtime + 1))
      × ((i : ℕ)
          → test_bit (tick e).csr.mip i ≡ (if 7 == i then is_due e else test_bit e.csr.mip i))
      × (trap_check_interrupt epc e ≡ (
          if is_due e && test_bit e.csr.mie 7 && (not (e.priv == 3) || test_bit e.csr.mstatus 3)
          then trap_raise 0x8000_0007 0 epc (tick e)
          else (tick e, false)))
unfolding trap_check_interrupt timer_enabled tick
trap_check_interrupt_lem epc e h = (
  refl,
  λ i. tick_mip e i h,
  let t : nonzero (bit_and (tick e).csr.mip 128) ≡ is_due e =
        and_bit 7 (tick e).csr.mip ∙ tick_mip e 7 h in
      let s : nonzero (bit_and e.csr.mie 128) ≡ test_bit e.csr.mie 7 = and_bit 7 e.csr.mie in
      let m : nonzero (bit_and e.csr.mstatus 8) ≡ test_bit e.csr.mstatus 3 =
        and_bit 3 e.csr.mstatus in
      rw (t, s, m) refl,
)

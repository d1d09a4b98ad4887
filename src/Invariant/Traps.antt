-- ===== src/Invariant/Traps.antt =====
-- The functions of src/trap.c keep the invariant.
use rv32i_emu.Base.{ℕ, ◌+◌, ◌^◌, ◌<◌, arith, false, bit_or, bit_and, not32, u64}
use rv32i_emu.Base.Bits.{bit_and-lt, bit_or-lt, set-lt, clear-lt}
use rv32i_emu.Machine.{Emulator}
use rv32i_emu.Trap.{
  enter_m, enter_s, enter_m_mstatus, enter_s_mstatus, trap_raise, tick, timer_enabled,
  trap_check_interrupt, trap_mret, trap_sret, copy_bit,
}
use rv32i_emu.Trap.Mstatus.{enter_m_mstatus-lt, enter_s_mstatus-lt, copy_bit-lt}
use rv32i_emu.Trap.Return.{trap_mret_priv, trap_sret_priv}
use rv32i_emu.Invariant.State.{IsEmulator, if-IsEmulator}

module _ (e : Emulator) (i : IsEmulator e) where
  enter_m-IsEmulator :
      (cause tval epc : ℕ)
      → cause < 2 ^ 32
      → tval < 2 ^ 32
      → epc < 2 ^ 32
      → IsEmulator (enter_m cause tval epc e)
  unfolding enter_m
  enter_m-IsEmulator cause tval epc c t p =
      let k = i.csr in
      let f : bit_and epc (not32 3) < 2 ^ 32 = bit_and-lt 32 epc (not32 3) p in
      let m : enter_m_mstatus e.priv e.csr.mstatus < 2 ^ 32 =
        enter_m_mstatus-lt e.priv e.csr.mstatus k.mstatus_fits in
      let three : 3 < 4 = omega arith in search

  enter_s-IsEmulator :
      (cause tval epc : ℕ)
      → cause < 2 ^ 32
      → tval < 2 ^ 32
      → epc < 2 ^ 32
      → IsEmulator (enter_s cause tval epc e)
  unfolding enter_s
  enter_s-IsEmulator cause tval epc c t p =
      let k = i.csr in
      let f : bit_and epc (not32 3) < 2 ^ 32 = bit_and-lt 32 epc (not32 3) p in
      let m : enter_s_mstatus e.priv e.csr.mstatus < 2 ^ 32 =
        enter_s_mstatus-lt e.priv e.csr.mstatus k.mstatus_fits in
      let one : 1 < 4 = omega arith in search

  pub trap_raise-IsEmulator :
      (cause tval epc : ℕ)
      → cause < 2 ^ 32
      → tval < 2 ^ 32
      → epc < 2 ^ 32
      → IsEmulator (trap_raise cause tval epc e).0
  unfolding trap_raise
  trap_raise-IsEmulator cause tval epc c t p =
      let m = enter_m-IsEmulator cause tval epc c t p in
      let s = enter_s-IsEmulator cause tval epc c t p in ground arith

  tick-IsEmulator : IsEmulator (tick e)
  unfolding tick
  tick-IsEmulator =
      let k = i.csr in
      let t : u64 (e.mtime + 1) < 2 ^ 64 = omega arith in
      let s : bit_or e.csr.mip 128 < 2 ^ 32 = set-lt 7 e.csr.mip k.mip_fits (omega arith) in
      let c : bit_and e.csr.mip (not32 128) < 2 ^ 32 = clear-lt 7 e.csr.mip k.mip_fits in
      let m : (tick e).csr.mip < 2 ^ 32 = ground (arith, s, c) in search

  pub trap_mret-IsEmulator : IsEmulator (trap_mret e).0 × ((trap_mret e).1 < 2 ^ 32)
  unfolding trap_mret
  trap_mret-IsEmulator =
      let k = i.csr in
      let m2 = bit_or (copy_bit 128 8 e.csr.mstatus) 128 in
      let b : m2 < 2 ^ 32 =
        set-lt 7 (copy_bit 128 8 e.csr.mstatus)
          (copy_bit-lt 7 3 e.csr.mstatus k.mstatus_fits (omega arith)) (omega arith) in
      let m : bit_or (bit_and m2 (not32 6144)) 0 < 2 ^ 32 =
        bit_or-lt 32 (bit_and m2 (not32 6144)) 0 (bit_and-lt 32 m2 (not32 6144) b) (omega arith) in
      let p : (trap_mret e).0.priv < 4 = omega (arith, trap_mret_priv e k.mstatus_fits) in
      let j : IsEmulator (trap_mret e).0 = search in (j, k.mepc_fits)

  pub trap_sret-IsEmulator : IsEmulator (trap_sret e).0 × ((trap_sret e).1 < 2 ^ 32)
  unfolding trap_sret
  trap_sret-IsEmulator =
      let k = i.csr in
      let m2 = bit_or (copy_bit 32 2 e.csr.mstatus) 32 in
      let b : m2 < 2 ^ 32 =
        set-lt 5 (copy_bit 32 2 e.csr.mstatus)
          (copy_bit-lt 5 1 e.csr.mstatus k.mstatus_fits (omega arith)) (omega arith) in
      let m : bit_and m2 (not32 256) < 2 ^ 32 = bit_and-lt 32 m2 (not32 256) b in
      let p : (trap_sret e).0.priv < 4 = ground (arith, trap_sret_priv e k.mstatus_fits) in
      let j : IsEmulator (trap_sret e).0 = search in (j, k.sepc_fits)

-- trap_check_interrupt keeps the invariant, whether or not the interrupt is taken and whether or
-- not there is a handler, when the pc it saves is a word.
pub trap_check_interrupt-IsEmulator :
    (epc : ℕ) (e : Emulator)
    → IsEmulator e
    → epc < 2 ^ 32
    → IsEmulator (trap_check_interrupt epc e).0
unfolding trap_check_interrupt
trap_check_interrupt-IsEmulator epc e i h =
    let t = tick-IsEmulator e i in
    if-IsEmulator (timer_enabled (tick e)) (trap_raise 0x8000_0007 0 epc (tick e)) (tick e, false)
      (trap_raise-IsEmulator (tick e) t 0x8000_0007 0 epc (omega arith) (omega arith) h) t

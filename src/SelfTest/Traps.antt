-- ===== src/SelfTest/Traps.antt =====
-- trap_selftest of src/trap.c.
pub mod Passed
use rv32i_emu.Base.{
  ℕ, zero, suc, ◌+◌, true, false, not, List, [], ◌∷◌, ◌++◌, ◌==◌, ◌&&◌, nonzero, bit_and,
}
use rv32i_emu.Csr.Constants.{
  exc_ecall_m, exc_illegal_inst, mcause_irq_timer, mie_mtie, mip_mtip, mstatus_mie, mstatus_mpie,
  mstatus_mpp_m, mstatus_mpp_mask,
}
use rv32i_emu.Machine.{
  running, Exec, ◌>>=◌, ◌>>◌, pure, gets, modify, with_csr, with_state, with_pc,
}
use rv32i_emu.Fpu.Host.{HostFloat}
use rv32i_emu.Emu.{emu_init, emu_step}
use rv32i_emu.SelfTest.{Line, heading, check, is_halted, is_exception, poke, step}

module _ (host : HostFloat) where
  -- The steps that wait for the timer, until pc is 0x300.
  unfoldable pub timer_loop : ℕ → Exec (Unit {0})
  unfolding step
  timer_loop zero = pure tt
  timer_loop (suc n) = do
    modify (with_pc 0x400)
    step host
    (λ e. elim (e.rf.pc == 0x300) [ true ↦ pure tt e | false ↦ timer_loop n e ])

  unfoldable pub legacy_test : Exec (List Line)
  unfolding emu_init step timer_loop
  legacy_test = do
    modify (λ e. emu_init [])
    modify (with_csr (λ c. record c { mtvec = 0 }))
    poke 0 0x73
    poke 1 0x00
    poke 2 0x00
    poke 3 0x00
    modify (with_pc 0)
    st ← gets (λ e. e.state)
    modify (with_state running)
    step host
    check1 ← gets (λ e. check (is_halted e.state) "ecall without handler → halt (exit 0)" ∷ [])
    modify (with_state st)
    pure (heading "── ecall without mtvec (legacy syscall path) ──" ∷ check1)

  unfoldable pub handled_test : Exec (List Line)
  unfolding emu_init step timer_loop
  handled_test = do
    modify (λ e. emu_init [])
    modify (with_state running)
    modify (with_csr (λ c. record c { mtvec = 0x100 }))
    modify (with_csr (λ c. record c { mstatus = mstatus_mie }))
    modify (with_pc 0x40)
    poke 0x40 0x73
    poke 0x41 0x00
    poke 0x42 0x00
    poke 0x43 0x00
    step host
    check1 ← gets (λ e.
        check (e.rf.pc == 0x100) "pc jumps to mtvec"
        ∷ check (e.csr.mcause == exc_ecall_m) "mcause = 11 (ecall from M)"
        ∷ check (e.csr.mepc == 0x40) "mepc = faulting pc"
        ∷ check (bit_and e.csr.mstatus mstatus_mie == 0) "MIE cleared in handler"
        ∷ check (nonzero (bit_and e.csr.mstatus mstatus_mpie)) "MPIE saved MIE"
        ∷ check (bit_and e.csr.mstatus mstatus_mpp_mask == mstatus_mpp_m) "MPP = M-mode"
        ∷ [])
    pure (heading "\n── ecall traps to mtvec ──" ∷ check1)

  unfoldable pub mret_test : Exec (List Line)
  unfolding emu_init step timer_loop
  mret_test = do
    poke 0x100 0x73
    poke 0x101 0x00
    poke 0x102 0x20
    poke 0x103 0x30
    step host
    check1 ← gets (λ e.
        check (e.rf.pc == 0x40) "mret returns to mepc"
        ∷ check (nonzero (bit_and e.csr.mstatus mstatus_mie)) "MIE restored from MPIE"
        ∷ check (nonzero (bit_and e.csr.mstatus mstatus_mpie)) "MPIE forced to 1"
        ∷ [])
    pure (heading "\n── mret restores state ──" ∷ check1)

  unfoldable pub illegal_test : Exec (List Line)
  unfolding emu_init step timer_loop
  illegal_test = do
    modify (λ e. emu_init [])
    modify (with_state running)
    modify (with_csr (λ c. record c { mtvec = 0x200 }))
    modify (with_pc 0x80)
    poke 0x80 0xff
    poke 0x81 0xff
    poke 0x82 0xff
    poke 0x83 0xff
    step host
    check1 ← gets (λ e.
        check (e.rf.pc == 0x200) "illegal → pc = mtvec"
        ∷ check (e.csr.mcause == exc_illegal_inst) "mcause = 2"
        ∷ check (e.csr.mtval == 0xffff_ffff) "mtval = illegal instruction bits"
        ∷ check (e.csr.mepc == 0x80) "mepc = illegal instruction address"
        ∷ [])
    pure (heading "\n── illegal instruction ──" ∷ check1)

  unfoldable pub timer_test : Exec (List Line)
  unfolding emu_init step timer_loop
  timer_test = do
    modify (λ e. emu_init [])
    modify (with_state running)
    modify (with_csr (λ c. record c { mtvec = 0x300 }))
    modify (with_csr (λ c. record c { mstatus = mstatus_mie }))
    modify (with_csr (λ c. record c { mie = mie_mtie }))
    modify (λ e. record e { mtimecmp = 5 })
    modify (with_pc 0x400)
    poke 0x400 0x13
    poke 0x401 0x00
    poke 0x402 0x00
    poke 0x403 0x00
    timer_loop 5
    check1 ← gets (λ e.
        check (e.rf.pc == 0x300) "timer IRQ jumps to mtvec"
        ∷ check (e.csr.mcause == mcause_irq_timer) "mcause = 0x80000007"
        ∷ check (nonzero (bit_and e.csr.mip mip_mtip)) "mip.MTIP pending"
        ∷ check (e.csr.mepc == 0x400) "mepc = next instruction"
        ∷ [])
    modify (λ e. record e { mtimecmp = e.mtime + 100 })
    modify (with_pc 0x400)
    step host
    check2 ←
        gets (λ e. check (bit_and e.csr.mip mip_mtip == 0) "MTIP clears when mtimecmp moves" ∷ [])
    pure (heading "\n── machine timer interrupt ──" ∷ (check1 ++ check2))

  unfoldable pub no_handler_test : Exec (List Line)
  unfolding emu_init step timer_loop
  no_handler_test = do
    modify (λ e. emu_init [])
    modify (with_state running)
    modify (with_pc 0x80)
    poke 0x80 0xff
    poke 0x81 0xff
    poke 0x82 0xff
    poke 0x83 0xff
    ok ← emu_step host
    check1 ←
        gets (λ e.
          check (not ok && is_exception e.state) "no mtvec → illegal instruction is fatal" ∷ [])
    pure (heading "\n── no handler installed ──" ∷ check1)

  unfoldable pub trap_selftest : Exec (List Line)
  unfolding legacy_test handled_test mret_test illegal_test timer_test no_handler_test
  trap_selftest = do
    legacy ← legacy_test
    handled ← handled_test
    mret ← mret_test
    illegal ← illegal_test
    timer ← timer_test
    no_handler ← no_handler_test
    pure (legacy ++ (handled ++ (mret ++ (illegal ++ (timer ++ (no_handler))))))

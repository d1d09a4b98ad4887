-- ===== src/SelfTest/Supervisor.antt =====
-- trap_smode_selftest of src/trap.c.
pub mod Passed
use rv32i_emu.Base.{
  ℕ, ◌+◌, not, List, [], ◌∷◌, ◌++◌, ◌==◌, nonzero, u8, bit_and, bit_or, ◌<<<◌, ◌>>>◌,
}
use rv32i_emu.Csr.Constants.{
  csr_sstatus, exc_ecall_s, exc_ecall_u, exc_illegal_inst, mstatus_mpp_mask, mstatus_mpp_s,
  mstatus_sie, mstatus_spie, mstatus_spp, priv_m, priv_s, priv_u, sstatus_mask,
}
use rv32i_emu.Machine.{
  running, Exec, ◌>>=◌, ◌>>◌, pure, gets, modify, with_csr, with_state, with_pc,
}
use rv32i_emu.Fpu.Host.{HostFloat}
use rv32i_emu.Emu.{emu_init}
use rv32i_emu.SelfTest.{Line, heading, check, poke, step}

unfoldable pub put32 : ℕ → ℕ → Exec (Unit {0})
put32 addr val = do
  poke (addr + 0) (u8 (bit_and val 0xff))
  poke (addr + 1) (u8 (bit_and (val >>> 8) 0xff))
  poke (addr + 2) (u8 (bit_and (val >>> 16) 0xff))
  poke (addr + 3) (u8 (bit_and (val >>> 24) 0xff))

-- csrrs rd, csr, x0
unfoldable pub enc_csrrs : ℕ → ℕ → ℕ
enc_csrrs rd csr = bit_or (bit_or (bit_or (csr <<< 20) (2 <<< 12)) (rd <<< 7)) 0x73

module _ (host : HostFloat) where
  unfoldable pub delegated_test : Exec (List Line)
  unfolding emu_init step put32 enc_csrrs
  delegated_test = do
    modify (λ e. emu_init [])
    modify (with_state running)
    modify (λ e. record e { priv = priv_u })
    modify (with_csr (λ c. record c { medeleg = 1 <<< exc_ecall_u }))
    modify (with_csr (λ c. record c { stvec = 0x500 }))
    modify (with_csr (λ c. record c { mtvec = 0 }))
    modify (with_csr (λ c. record c { mstatus = mstatus_sie }))
    put32 0x40 0x0000_0073
    modify (with_pc 0x40)
    step host
    check1 ← gets (λ e.
        check (e.rf.pc == 0x500) "pc = stvec (not mtvec)"
        ∷ check (e.csr.scause == exc_ecall_u) "scause = 8"
        ∷ check (e.csr.sepc == 0x40) "sepc = faulting pc"
        ∷ check (e.priv == priv_s) "handler runs in S-mode"
        ∷ check (bit_and e.csr.mstatus mstatus_spp == 0) "SPP = U (came from U)"
        ∷ check (bit_and e.csr.mstatus mstatus_sie == 0) "SIE cleared in handler"
        ∷ check (nonzero (bit_and e.csr.mstatus mstatus_spie)) "SPIE saved SIE"
        ∷ [])
    pure (heading "── delegated ecall: U → S ──" ∷ check1)

  unfoldable pub sret_test : Exec (List Line)
  unfolding emu_init step put32 enc_csrrs
  sret_test = do
    modify (with_csr (λ c. record c { sepc = 0x44 }))
    put32 0x500 0x1020_0073
    step host
    check1 ← gets (λ e.
        check (e.rf.pc == 0x44) "sret returns to sepc"
        ∷ check (e.priv == priv_u) "back to U-mode"
        ∷ check (nonzero (bit_and e.csr.mstatus mstatus_sie)) "SIE restored from SPIE"
        ∷ check (nonzero (bit_and e.csr.mstatus mstatus_spie)) "SPIE forced to 1"
        ∷ check (bit_and e.csr.mstatus mstatus_spp == 0) "SPP cleared"
        ∷ [])
    pure (heading "\n── sret restores state ──" ∷ check1)

  unfoldable pub undelegated_test : Exec (List Line)
  unfolding emu_init step put32 enc_csrrs
  undelegated_test = do
    modify (λ e. emu_init [])
    modify (with_state running)
    modify (λ e. record e { priv = priv_s })
    modify (with_csr (λ c. record c { mtvec = 0x600 }))
    modify (with_csr (λ c. record c { stvec = 0x500 }))
    modify (with_csr (λ c. record c { medeleg = 0 }))
    put32 0x100 0x0000_0073
    modify (with_pc 0x100)
    step host
    check1 ← gets (λ e.
        check (e.rf.pc == 0x600) "pc = mtvec"
        ∷ check (e.csr.mcause == exc_ecall_s) "mcause = 9"
        ∷ check (bit_and e.csr.mstatus mstatus_mpp_mask == mstatus_mpp_s) "MPP = S"
        ∷ check (e.priv == priv_m) "handler runs in M-mode"
        ∷ [])
    put32 0x600 0x3020_0073
    step host
    check2 ← gets (λ e.
        check (e.rf.pc == 0x100) "mret returns to S-mode pc"
        ∷ check (e.priv == priv_s) "back to S-mode"
        ∷ [])
    pure (heading "\n── S ecall without delegation → M ──" ∷ (check1 ++ check2))

  unfoldable pub delegated_illegal_test : Exec (List Line)
  unfolding emu_init step put32 enc_csrrs
  delegated_illegal_test = do
    modify (λ e. emu_init [])
    modify (with_state running)
    modify (λ e. record e { priv = priv_u })
    modify (with_csr (λ c. record c { medeleg = 1 <<< exc_illegal_inst }))
    modify (with_csr (λ c. record c { stvec = 0x500 }))
    put32 0x80 0xffff_ffff
    modify (with_pc 0x80)
    step host
    check1 ← gets (λ e.
        check (e.rf.pc == 0x500) "illegal → S handler"
        ∷ check (e.csr.scause == exc_illegal_inst) "scause = 2"
        ∷ check (e.csr.stval == 0xffff_ffff) "stval = instruction bits"
        ∷ [])
    pure (heading "\n── delegated illegal instruction ──" ∷ check1)

  unfoldable pub csr_privilege_test : Exec (List Line)
  unfolding emu_init step put32 enc_csrrs
  csr_privilege_test = do
    modify (λ e. emu_init [])
    modify (with_state running)
    modify (λ e. record e { priv = priv_u })
    modify (with_csr (λ c. record c { medeleg = 1 <<< exc_illegal_inst }))
    modify (with_csr (λ c. record c { stvec = 0x500 }))
    put32 0x200 (enc_csrrs 5 csr_sstatus)
    modify (with_pc 0x200)
    step host
    check1 ← gets (λ e.
        check (e.rf.pc == 0x500) "U reading sstatus → illegal → S"
        ∷ check (e.csr.scause == exc_illegal_inst) "scause = 2"
        ∷ [])
    modify (λ e. record e { priv = priv_s })
    modify (with_pc 0x200)
    step host
    check2 ← gets (λ e.
        check (e.rf.pc == 0x204) "S reading sstatus is allowed"
        ∷ check (e.rf.regs 5 == bit_and e.csr.mstatus sstatus_mask)
            "sstatus read returns the S view"
        ∷ [])
    pure (heading "\n── CSR privilege ──" ∷ (check1 ++ check2))

  unfoldable pub sfence_test : Exec (List Line)
  unfolding emu_init step put32 enc_csrrs
  sfence_test = do
    put32 0x300 0x1200_0073
    modify (λ e. record e { priv = priv_s })
    modify (with_pc 0x300)
    step host
    check1 ← gets (λ e. check (e.rf.pc == 0x304) "S executes sfence.vma" ∷ [])
    modify (λ e. record e { priv = priv_u })
    modify (with_pc 0x300)
    step host
    check2 ← gets (λ e.
        check (e.rf.pc == 0x500) "U executing sfence.vma → illegal → S"
        ∷ check (e.csr.scause == exc_illegal_inst) "scause = 2"
        ∷ [])
    pure (heading "\n── sfence.vma privilege ──" ∷ (check1 ++ check2))

  unfoldable pub sret_privilege_test : Exec (List Line)
  unfolding emu_init step put32 enc_csrrs
  sret_privilege_test = do
    put32 0x400 0x1020_0073
    modify (λ e. record e { priv = priv_u })
    modify (with_pc 0x400)
    step host
    check1 ← gets (λ e.
        check (e.rf.pc == 0x500) "U executing sret → illegal → S"
        ∷ check (e.csr.scause == exc_illegal_inst) "scause = 2"
        ∷ [])
    pure (heading "\n── sret privilege ──" ∷ check1)

  unfoldable pub trap_smode_selftest : Exec (List Line)
  unfolding delegated_test sret_test undelegated_test delegated_illegal_test csr_privilege_test
      sfence_test sret_privilege_test
  trap_smode_selftest = do
    delegated ← delegated_test
    sret ← sret_test
    undelegated ← undelegated_test
    delegated_illegal ← delegated_illegal_test
    csr_privilege ← csr_privilege_test
    sfence ← sfence_test
    sret_privilege ← sret_privilege_test
    pure (
        delegated
        ++ (sret
            ++ (undelegated
                ++ (delegated_illegal ++ (csr_privilege ++ (sfence ++ (sret_privilege)))))))

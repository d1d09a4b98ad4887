-- ===== src/SelfTest/Mmu.antt =====
-- mmu_selftest of src/mmu.c: a page table of its own, translations over it, and privileged instructions.
pub mod Passed
use rv32i_emu.Base.{
  ℕ, ◌+◌, ◌*◌, Bool, false, List, [], ◌∷◌, ◌++◌, ◌==◌, nonzero, not32, bit_and, bit_or, ◌<<<◌,
  ◌>>>◌,
}
use rv32i_emu.Csr.Constants.{
  csr_mstatus, exc_ecall_u, exc_illegal_inst, exc_inst_page_fault, exc_load_page_fault,
  exc_store_page_fault, mstatus_mpp_mask, mstatus_sum, priv_m, priv_s, priv_u, satp_mode_bit,
}
use rv32i_emu.Machine.{
  running, Exec, ◌>>=◌, ◌>>◌, pure, gets, modify, with_csr, with_state, with_pc,
}
use rv32i_emu.Mmu.{
  pte_u, pte_a, pte_d, pte_ppn_shift, acc_fetch, acc_load, acc_store, Translated, mapped, fault,
  mmu_translate,
}
use rv32i_emu.Fpu.Host.{HostFloat}
use rv32i_emu.Emu.{emu_init}
use rv32i_emu.SelfTest.{Line, heading, check, write_word, step}
use rv32i_emu.SelfTest.Tables.{
  t_root, t_l2, t_l2b, t_data, t_code, va_code, va_data, va_data2, va_ro, va_big, va_nomap,
  enc_csrrs, setup_user_emu, read_word,
}

-- What mmu_translate returns as a number, and whether it is 0 with pa set to an address.
unfoldable pub cause_of : Translated → ℕ
cause_of (mapped pa) = 0
cause_of (fault cause) = cause

unfoldable pub maps_to : ℕ → Translated → Bool
maps_to addr (mapped pa) = pa == addr
maps_to addr (fault cause) = false

unfoldable pub machine_mode_test : Exec (List Line)
unfolding emu_init mmu_translate write_word read_word cause_of maps_to
machine_mode_test = do
  modify (λ e. emu_init [])
  modify (λ e. record e { priv = priv_m })
  modify (with_csr (λ c. record c { satp = bit_or satp_mode_bit (t_root >>> 12) }))
  t1 ← mmu_translate va_data acc_load
  check1 ← gets (λ e. check (maps_to va_data t1) "M-mode: satp ignored, VA == PA" ∷ [])
  t2 ← mmu_translate va_nomap acc_store
  check2 ← gets (λ e. check (cause_of t2 == 0) "M-mode: unmapped VA still accessible" ∷ [])
  pure (heading "── M-mode bypasses translation ──" ∷ (check1 ++ check2))

unfoldable pub bare_mode_test : Exec (List Line)
unfolding emu_init mmu_translate write_word read_word cause_of maps_to
bare_mode_test = do
  modify (λ e. record e { priv = priv_u })
  modify (with_csr (λ c. record c { satp = 0 }))
  t1 ← mmu_translate 0x1234_5000 acc_load
  check1 ← gets (λ e. check (maps_to 0x1234_5000 t1) "U-mode bare: VA == PA" ∷ [])
  pure (heading "\n── bare mode (satp.MODE = 0) ──" ∷ check1)

unfoldable pub small_page_test : Exec (List Line)
unfolding emu_init mmu_translate write_word read_word cause_of maps_to
small_page_test = do
  setup_user_emu
  t1 ← mmu_translate (va_data + 0x234) acc_load
  check1 ← gets (λ e. check (maps_to (t_data + 0x234) t1) "load: VA 0x40000234 → PA 0x730234" ∷ [])
  t2 ← mmu_translate va_data2 acc_store
  check2 ← gets (λ e. check (maps_to t_data t2) "store: second page of the same table" ∷ [])
  t3 ← mmu_translate va_code acc_fetch
  check3 ← gets (λ e. check (maps_to t_code t3) "fetch: X page" ∷ [])
  pure (heading "\n── Sv32 4KB page ──" ∷ (check1 ++ (check2 ++ check3)))

unfoldable pub accessed_dirty_test : Exec (List Line)
unfolding emu_init mmu_translate write_word read_word cause_of maps_to
accessed_dirty_test = do
  pte ← read_word (t_l2b + 0 * 4)
  check1 ← gets (λ e.
      check (nonzero (bit_and pte pte_a)) "A set after load"
      ∷ check (bit_and pte pte_d == 0) "D still 0 after load only"
      ∷ [])
  mmu_translate va_data acc_store
  pte ← read_word (t_l2b + 0 * 4)
  check2 ← gets (λ e. check (nonzero (bit_and pte pte_d)) "D set after store" ∷ [])
  pure (heading "\n── A/D bits ──" ∷ (check1 ++ check2))

unfoldable pub permissions_test : Exec (List Line)
unfolding emu_init mmu_translate write_word read_word cause_of maps_to
permissions_test = do
  t1 ← mmu_translate va_ro acc_load
  check1 ← gets (λ e. check (cause_of t1 == 0) "read-only page: load allowed" ∷ [])
  t2 ← mmu_translate va_ro acc_store
  check2 ←
      gets
        (λ e. check (cause_of t2 == exc_store_page_fault) "read-only page: store → cause 15" ∷ [])
  t3 ← mmu_translate va_data acc_fetch
  check3 ←
      gets
        (λ e. check (cause_of t3 == exc_inst_page_fault) "data page (no X): fetch → cause 12" ∷ [])
  pure (heading "\n── permissions ──" ∷ (check1 ++ (check2 ++ check3)))

unfoldable pub user_bit_test : Exec (List Line)
unfolding emu_init mmu_translate write_word read_word cause_of maps_to
user_bit_test = do
  pte ← read_word (t_l2b + 0 * 4)
  write_word (t_l2b + 0 * 4) (bit_and pte (not32 pte_u))
  t1 ← mmu_translate va_data acc_load
  check1 ←
      gets (λ e. check (cause_of t1 == exc_load_page_fault) "PTE.U = 0 → U-mode load fault" ∷ [])
  write_word (t_l2b + 0 * 4) pte
  pure (heading "\n── U bit ──" ∷ check1)

unfoldable pub supervisor_test : Exec (List Line)
unfolding emu_init mmu_translate write_word read_word cause_of maps_to
supervisor_test = do
  modify (λ e. record e { priv = priv_s })
  modify (with_csr (λ c. record c { mstatus = bit_and c.mstatus (not32 mstatus_sum) }))
  t1 ← mmu_translate va_data acc_load
  check1 ←
      gets (λ e.
        check (cause_of t1 == exc_load_page_fault) "S load of U page without SUM → fault" ∷ [])
  t2 ← mmu_translate va_data acc_store
  check2 ← gets (λ e.
      check (cause_of t2 == exc_store_page_fault) "S store of U page without SUM → fault" ∷ [])
  modify (with_csr (λ c. record c { mstatus = bit_or c.mstatus mstatus_sum }))
  t3 ← mmu_translate va_data acc_load
  check3 ← gets (λ e. check (maps_to t_data t3) "SUM=1: S load of U page allowed" ∷ [])
  t4 ← mmu_translate va_data acc_store
  check4 ← gets (λ e. check (cause_of t4 == 0) "SUM=1: S store of U page allowed" ∷ [])
  t5 ← mmu_translate va_code acc_fetch
  check5 ←
      gets
        (λ e. check (cause_of t5 == exc_inst_page_fault) "SUM never allows S to fetch U page" ∷ [])
  pte ← read_word (t_l2 + 0x10 * 4)
  write_word (t_l2 + 0x10 * 4) (bit_and pte (not32 pte_u))
  modify (with_csr (λ c. record c { mstatus = bit_and c.mstatus (not32 mstatus_sum) }))
  t6 ← mmu_translate va_code acc_fetch
  check6 ← gets (λ e. check (cause_of t6 == 0) "S fetches S page without SUM" ∷ [])
  write_word (t_l2 + 0x10 * 4) pte
  modify (λ e. record e { priv = priv_u })
  pure (
      heading "\n── S-mode access to U pages ──"
      ∷ (check1 ++ (check2 ++ (check3 ++ (check4 ++ (check5 ++ check6))))))

unfoldable pub unmapped_test : Exec (List Line)
unfolding emu_init mmu_translate write_word read_word cause_of maps_to
unmapped_test = do
  t1 ← mmu_translate va_nomap acc_load
  check1 ←
      gets (λ e. check (cause_of t1 == exc_load_page_fault) "unmapped VPN1 → load fault (13)" ∷ [])
  t2 ← mmu_translate 0x4010_0000 acc_store
  check2 ← gets (λ e.
      check (cause_of t2 == exc_store_page_fault) "invalid second-level entry → store fault (15)"
      ∷ [])
  pure (heading "\n── unmapped ──" ∷ (check1 ++ check2))

unfoldable pub superpage_test : Exec (List Line)
unfolding emu_init mmu_translate write_word read_word cause_of maps_to
superpage_test = do
  t1 ← mmu_translate (va_big + 0x124) acc_load
  check1 ← gets (λ e. check (maps_to 0x124 t1) "superpage: 0xC0000124 → 0x00000124" ∷ [])
  t2 ← mmu_translate (va_big + 0x10_0000) acc_store
  check2 ← gets (λ e. check (maps_to 0x10_0000 t2) "superpage covers 4MB" ∷ [])
  pure (heading "\n── 4MB superpage ──" ∷ (check1 ++ check2))

unfoldable pub misaligned_test : Exec (List Line)
unfolding emu_init mmu_translate write_word read_word cause_of maps_to
misaligned_test = do
  pte ← read_word (t_root + 0x300 * 4)
  write_word (t_root + 0x300 * 4) (bit_or pte (1 <<< pte_ppn_shift))
  t1 ← mmu_translate va_big acc_load
  check1 ← gets (λ e. check (cause_of t1 == exc_load_page_fault) "PPN[0] != 0 → fault" ∷ [])
  write_word (t_root + 0x300 * 4) pte
  pure (heading "\n── misaligned superpage ──" ∷ check1)

module _ (host : HostFloat) where
  unfoldable pub transitions_test : Exec (List Line)
  unfolding emu_init step write_word enc_csrrs
  transitions_test = do
    modify (λ e. emu_init [])
    modify (with_state running)
    modify (with_csr (λ c. record c { mtvec = 0x300 }))
    modify (λ e. record e { priv = priv_u })
    write_word 0x40 0x0000_0073
    modify (with_pc 0x40)
    step host
    check1 ← gets (λ e.
        check (e.csr.mcause == exc_ecall_u) "ecall from U → cause 8"
        ∷ check (bit_and e.csr.mstatus mstatus_mpp_mask >>> 11 == priv_u) "MPP records U-mode"
        ∷ check (e.priv == priv_m) "trap enters M-mode"
        ∷ [])
    write_word 0x300 0x3020_0073
    modify (with_pc 0x300)
    step host
    check2 ← gets (λ e.
        check (e.priv == priv_u) "mret returns to U-mode"
        ∷ check (e.rf.pc == 0x40) "pc = mepc"
        ∷ check (bit_and e.csr.mstatus mstatus_mpp_mask >>> 11 == priv_u)
            "MPP reset to U (least privileged supported)"
        ∷ [])
    pure (heading "\n── privilege transitions ──" ∷ (check1 ++ check2))

  unfoldable pub privileged_test : Exec (List Line)
  unfolding emu_init step write_word enc_csrrs
  privileged_test = do
    modify (λ e. emu_init [])
    modify (with_state running)
    modify (with_csr (λ c. record c { mtvec = 0x300 }))
    modify (λ e. record e { priv = priv_u })
    write_word 0x40 (enc_csrrs 5 csr_mstatus)
    modify (with_pc 0x40)
    step host
    check1 ← gets (λ e.
        check (e.csr.mcause == exc_illegal_inst) "CSR access from U → illegal instruction"
        ∷ check (e.rf.pc == 0x300) "pc = mtvec"
        ∷ [])
    modify (λ e. emu_init [])
    modify (with_state running)
    modify (with_csr (λ c. record c { mtvec = 0x300 }))
    modify (λ e. record e { priv = priv_u })
    write_word 0x50 0x3020_0073
    modify (with_pc 0x50)
    step host
    check2 ← gets (λ e. check (e.csr.mcause == exc_illegal_inst) "mret from U → illegal" ∷ [])
    pure (heading "\n── privileged instructions in U-mode ──" ∷ (check1 ++ check2))

  -- The sections in their order.
  unfoldable pub mmu_selftest : Exec (List Line)
  unfolding machine_mode_test bare_mode_test small_page_test accessed_dirty_test permissions_test
      user_bit_test supervisor_test unmapped_test superpage_test misaligned_test transitions_test
      privileged_test
  mmu_selftest = do
    machine_mode ← machine_mode_test
    bare_mode ← bare_mode_test
    small_page ← small_page_test
    accessed_dirty ← accessed_dirty_test
    permissions ← permissions_test
    user_bit ← user_bit_test
    supervisor ← supervisor_test
    unmapped ← unmapped_test
    superpage ← superpage_test
    misaligned ← misaligned_test
    transitions ← transitions_test
    privileged ← privileged_test
    pure (
        machine_mode
        ++ (bare_mode
            ++ (small_page
                ++ (accessed_dirty
                    ++ (permissions
                        ++ (user_bit
                            ++ (supervisor
                                ++ (unmapped
                                    ++ (superpage
                                        ++ (misaligned ++ (transitions ++ (privileged))))))))))))

-- ===== src/Execute/Reservation.antt =====
-- LR.W and SC.W of src/execute.c in a row, and with a store between them.
use rv32i_emu.Base.{
  ℕ, ◌≡◌, ap, ◌∙◌, ◌&&◌, refl, true, false, arith, ◌==◌, ◌||◌, nonzero, add32, bit_and,
}
use rv32i_emu.Memory.{Memory, ok, memory_read32, memory_write32}
use rv32i_emu.RegFile.{reg_read, reg_write}
use rv32i_emu.Csr.Constants.{priv_m, satp_mode_bit, clint_mtimecmp_lo}
use rv32i_emu.Decode.{Inst}
use rv32i_emu.Machine.{Emulator, done, ◌>>=◌}
use rv32i_emu.Machine.Runs.{bind-done, accessed, chosen, other}
use rv32i_emu.Mmu.{AccessType, acc_load, acc_store}
use rv32i_emu.Mmu.Bare.{mapped_bare}
use rv32i_emu.Execute.Access.{
  translate, translated, break_reservation, exec_store, store_or_mtimecmp, finish_store,
  store_value,
}
use rv32i_emu.Execute.Atomic.{exec_lr, exec_sc, store_conditional}

pub translate_bare :
    (e : Emulator) (addr : ℕ) (acc : AccessType)
    → (e.priv == priv_m || bit_and e.csr.satp satp_mode_bit == 0) ≡ true
    → translate addr acc e ≡ done addr e
unfolding translate translated
translate_bare e addr acc h = bind-done _ (mapped_bare e addr acc h) refl

same_addr : (a : ℕ) → (a == a) ≡ true
same_addr a = ground arith

lr_done :
    (e : Emulator) (i : Inst) (addr next w : ℕ)
    → (e.priv == priv_m || bit_and e.csr.satp satp_mode_bit == 0) ≡ true
    → memory_read32 e.mem addr ≡ ok w
    → exec_lr next addr i e
      ≡ done next
          (record e { rf = reg_write e.rf i.rd w; reservation_valid = 1; reservation_addr = addr })
unfolding exec_lr
lr_done e i addr next w h r =
    bind-done _ (translate_bare e addr acc_load h) (bind-done _ (accessed _ r) refl)

sc_succeeds :
    (e : Emulator) (i : Inst) (addr next : ℕ) (m : Memory)
    → (e.priv == priv_m || bit_and e.csr.satp satp_mode_bit == 0) ≡ true
    → e.reservation_valid ≡ 1
    → e.reservation_addr ≡ addr
    → memory_write32 e.mem addr (reg_read e.rf i.rs2) ≡ ok m
    → exec_sc next addr i e
      ≡ done next (record e { mem = m; rf = reg_write e.rf i.rd 0; reservation_valid = 0 })
unfolding exec_sc store_conditional
sc_succeeds e i addr next m h v a k = bind-done _ (translate_bare e addr acc_store h) (
    bind-done _
      (chosen (nonzero e.reservation_valid && e.reservation_addr == addr) _ _ (ground (arith, v, a))
        ∙ bind-done _ (accessed _ k) refl)
      refl)

sc_fails :
    (e : Emulator) (i : Inst) (addr next : ℕ)
    → (e.priv == priv_m || bit_and e.csr.satp satp_mode_bit == 0) ≡ true
    → e.reservation_valid ≡ 0
    → exec_sc next addr i e
      ≡ done next (record e { rf = reg_write e.rf i.rd 1; reservation_valid = 0 })
unfolding exec_sc store_conditional
sc_fails e i addr next h v = bind-done _ (translate_bare e addr acc_store h) (
    bind-done _
      (other (nonzero e.reservation_valid && e.reservation_addr == addr) _ _ (ground (arith, v)))
      refl)

module _ (e : Emulator) (s : Inst) (addr next : ℕ) (m : Memory)
    (h : (e.priv == priv_m || bit_and e.csr.satp satp_mode_bit == 0) ≡ true) (word : s.funct3 ≡ 2)
    (sum : add32 (reg_read e.rf s.rs1) s.imm ≡ addr) (aligned : nonzero (bit_and addr 3) ≡ false)
    (device : (addr == clint_mtimecmp_lo) ≡ false)
    (k : memory_write32 e.mem addr (reg_read e.rf s.rs2) ≡ ok m) (v : e.reservation_valid ≡ 1)
    (a : e.reservation_addr ≡ addr) where
  stored :
      store_or_mtimecmp 2 addr addr (reg_read e.rf s.rs2) e
      ≡ done tt (record e { mem = m; reservation_valid = 0 })
  unfolding store_or_mtimecmp finish_store store_value break_reservation
  stored =
      other (addr == clint_mtimecmp_lo) _ _ device
      ∙ bind-done _ (accessed _ k) (
          ap (done tt) (
            chosen (nonzero e.reservation_valid && e.reservation_addr == addr) _ _
              (ground (arith, v, a))))

  store_done : exec_store next s e ≡ done next (record e { mem = m; reservation_valid = 0 })
  unfolding exec_store
  store_done =
      rw (exec_store, word, sum, aligned)
        (bind-done _ (translate_bare e addr acc_store h) (bind-done _ stored refl))

-- Where addresses are physical: an LR.W that reads and an SC.W to the same address. The SC succeeds
-- when the write itself does: it stores rs2, as it is after the LR, writes 0 to rd, and the
-- reservation is gone.
pub exec_lr-exec_sc :
    (e : Emulator) (i j : Inst) (addr next next' w : ℕ) (m : Memory)
    → (e.priv == priv_m || bit_and e.csr.satp satp_mode_bit == 0) ≡ true
    → memory_read32 e.mem addr ≡ ok w
    → memory_write32 e.mem addr (reg_read (reg_write e.rf i.rd w) j.rs2) ≡ ok m
    → (exec_lr next addr i >>= λ _. exec_sc next' addr j) e
      ≡ done next' (record e {
        mem = m;
        rf = reg_write (reg_write e.rf i.rd w) j.rd 0;
        reservation_valid = 0;
        reservation_addr = addr;
      })
unfolding exec_lr exec_sc store_conditional
exec_lr-exec_sc e i j addr next next' w m h r k =
    let e' = record e {
      rf = reg_write e.rf i.rd w;
      reservation_valid = 1;
      reservation_addr = addr;
    } in
    bind-done _ (lr_done e i addr next w h r) (sc_succeeds e' j addr next' m h refl refl k)

-- Where addresses are physical: an LR.W that reads, a SW to the reserved address, a multiple of 4 and
-- not that of mtimecmp, whose write succeeds, and an SC.W to the address. What the SW stored stays in
-- memory, and the SC writes 1 to rd and ends without a reservation.
pub exec_lr-exec_store-exec_sc :
    (e : Emulator) (i s j : Inst) (addr next w : ℕ) (m : Memory)
    → (e.priv == priv_m || bit_and e.csr.satp satp_mode_bit == 0) ≡ true
    → memory_read32 e.mem addr ≡ ok w
    → s.funct3 ≡ 2
    → add32 (reg_read (reg_write e.rf i.rd w) s.rs1) s.imm ≡ addr
    → nonzero (bit_and addr 3) ≡ false
    → (addr == clint_mtimecmp_lo) ≡ false
    → memory_write32 e.mem addr (reg_read (reg_write e.rf i.rd w) s.rs2) ≡ ok m
    → (exec_lr next addr i >>= λ _. exec_store next s >>= λ _. exec_sc next addr j) e
      ≡ done next (record e {
        mem = m;
        rf = reg_write (reg_write e.rf i.rd w) j.rd 1;
        reservation_valid = 0;
        reservation_addr = addr;
      })
exec_lr-exec_store-exec_sc e i s j addr next w m h r f a l c k =
    let e' = record e {
      rf = reg_write e.rf i.rd w;
      reservation_valid = 1;
      reservation_addr = addr;
    } in
    let e'' = record e' { mem = m; reservation_valid = 0 } in
    bind-done _ (lr_done e i addr next w h r) (
      bind-done _ (store_done e' s addr next m h f a l c k refl refl)
        (sc_fails e'' j addr next h refl))

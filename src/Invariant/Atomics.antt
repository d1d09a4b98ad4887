-- ===== src/Invariant/Atomics.antt =====
-- The atomic instructions of src/execute.c keep the invariant.
use rv32i_emu.Base.{
  ℕ, ◌^◌, ◌<◌, refl, arith, Option, some, none, ◌==◌, ◌&&◌, nonzero, if◌then◌else◌, ◌>>>◌,
}
use rv32i_emu.Memory.{memory_read32, memory_write32}
use rv32i_emu.Memory.Laws.{write32-IsMemory}
use rv32i_emu.RegFile.{reg_read, reg_write}
use rv32i_emu.Csr.Constants.{exc_load_misaligned, exc_store_access, exc_store_misaligned}
use rv32i_emu.Decode.{Inst}
use rv32i_emu.Machine.{Emulator, goto_except, with_mem, with_rf}
use rv32i_emu.Mmu.{acc_load, acc_store}
use rv32i_emu.Alu.{amo_result}
use rv32i_emu.Execute.Atomic.{exec_lr, store_conditional, exec_sc, amo_value, exec_rmw, exec_amo}
use rv32i_emu.Invariant.State.{
  IsEmulator, Ensures, IsWord, Anything, bind-Ensures, if-Ensures, branches, done-Ensures,
  leave-Ensures, access-Ensures, reg_write-IsEmulator, reg_read-lt, mem-IsEmulator,
}
use rv32i_emu.Invariant.Accesses.{memory_read32-lt}
use rv32i_emu.Invariant.Arithmetic.{ResultFits, amo_result-ResultFits}
use rv32i_emu.Invariant.Loads.{translate-Ensures, read_result}
use rv32i_emu.Invariant.Stores.{refusal, reserved, unreserved, break_reservation-IsEmulator}

amo_value-Ensures :
    (o : Option ℕ) (e : Emulator) → IsEmulator e → ResultFits o → Ensures IsWord (amo_value o e)
unfolding amo_value
amo_value-Ensures (some v) e i f = done-Ensures (f.fits v refl) i
amo_value-Ensures none e i f = leave-Ensures tt i

store_conditional-Ensures :
    (addr pa : ℕ) (i : Inst) (e : Emulator)
    → IsEmulator e
    → addr < 2 ^ 32
    → Ensures Anything (store_conditional addr pa i e)
unfolding store_conditional
store_conditional-Ensures addr pa i e inv h =
    if-Ensures (nonzero e.reservation_valid && e.reservation_addr == pa)
      (bind-Ensures
        (access-Ensures (memory_write32 e.mem pa (reg_read e.rf i.rs2))
          (goto_except exc_store_access addr) inv (refusal addr h)
          (λ m q. write32-IsMemory e.mem pa (reg_read e.rf i.rs2) inv.memory q))
        λ m q e1 i1.
          done-Ensures tt
            (reg_write-IsEmulator (with_mem m e1) i.rd 0 (mem-IsEmulator e1 i1 m q) (omega arith)))
      (done-Ensures tt (reg_write-IsEmulator e i.rd 1 inv (omega arith)))

module _ (next : ℕ) (i : Inst) (e : Emulator) (inv : IsEmulator e) (n : next < 2 ^ 32) where
  module _ (addr : ℕ) (h : addr < 2 ^ 32) where
    exec_lr-Ensures : Ensures IsWord (exec_lr next addr i e)
    unfolding exec_lr
    exec_lr-Ensures = bind-Ensures (translate-Ensures addr acc_load e inv h) λ pa _ e1 i1.
        bind-Ensures (read_result addr pa e1 i1 h) λ w q e2 i2. done-Ensures n (
          reg_write-IsEmulator (record e2 { reservation_valid = 1; reservation_addr = pa }) i.rd w
            (reserved e2 i2 pa) q)

    exec_sc-Ensures : Ensures IsWord (exec_sc next addr i e)
    unfolding exec_sc
    exec_sc-Ensures = bind-Ensures (translate-Ensures addr acc_store e inv h) λ pa _ e1 i1.
        bind-Ensures (store_conditional-Ensures addr pa i e1 i1 h)
          λ _ _ e2 i2. done-Ensures n (unreserved e2 i2)

    exec_rmw-Ensures : (f5 : ℕ) → Ensures IsWord (exec_rmw next f5 addr i e)
    unfolding exec_rmw
    exec_rmw-Ensures f5 =
        let v = reg_read e.rf i.rs2 in
        bind-Ensures (translate-Ensures addr acc_store e inv h) λ pa _ e1 i1.
          bind-Ensures
            (access-Ensures (memory_read32 e1.mem pa) (goto_except exc_store_access addr) i1
              (refusal addr h) (λ w q. memory_read32-lt e1.mem pa i1.memory q))
            λ old q e2 i2.
              bind-Ensures
                (amo_value-Ensures (amo_result f5 old v) e2 i2
                  (amo_result-ResultFits old v q (reg_read-lt e i.rs2 inv) f5))
                λ new _ e3 i3.
                  bind-Ensures
                    (access-Ensures (memory_write32 e1.mem pa new)
                      (goto_except exc_store_access addr) i3 (refusal addr h)
                      (λ m w. write32-IsMemory e1.mem pa new i1.memory w))
                    λ m w e4 i4. done-Ensures n (
                      break_reservation-IsEmulator
                        (with_rf (λ rf. reg_write rf i.rd old) (with_mem m e4))
                        (reg_write-IsEmulator (with_mem m e4) i.rd old (mem-IsEmulator e4 i4 m w) q)
                        pa)

  pub exec_amo-Ensures : Ensures IsWord (exec_amo next i e)
  unfolding exec_amo
  exec_amo-Ensures =
      let addr = reg_read e.rf i.rs1 in
      let h = reg_read-lt e i.rs1 inv in
      let f5 = i.funct7 >>> 2 in
      let u : Unit {0} = tt in
      let c : (if f5 == 0x02 then exc_load_misaligned else exc_store_misaligned) < 2 ^ 32 =
        ground arith in
      let m : ((if f5 == 0x02 then exc_load_misaligned else exc_store_misaligned) < 2 ^ 32)
          × (addr < 2 ^ 32) =
        (c, h) in
      let l = exec_lr-Ensures addr h in
      let s = exec_sc-Ensures addr h in
      let r = exec_rmw-Ensures addr h f5 in search branches depth 10

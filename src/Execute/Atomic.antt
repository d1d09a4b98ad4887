-- ===== src/Execute/Atomic.antt =====
-- src/execute.c: RV32A. LR.W, SC.W and the read-modify-write instructions.
use rv32i_emu.Base.{ℕ, Option, none, some, ◌&&◌, not, ◌==◌, if◌then◌else◌, nonzero, ◌>>>◌, bit_and}
use rv32i_emu.Memory.{memory_read32, memory_write32}
use rv32i_emu.RegFile.{reg_read, reg_write}
use rv32i_emu.Csr.Constants.{
  exc_load_misaligned, exc_load_access, exc_store_misaligned, exc_store_access,
}
use rv32i_emu.Decode.{Inst}
use rv32i_emu.Machine.{
  goto_except, goto_unknown, done, leave, Exec, ◌>>=◌, ◌>>◌, pure, gets, modify, access, with_rf,
  with_mem,
}
use rv32i_emu.Mmu.{acc_load, acc_store}
use rv32i_emu.Alu.{amo_result}
use rv32i_emu.Execute.Access.{translate, break_reservation}

unfoldable pub exec_lr : ℕ → ℕ → Inst → Exec ℕ
unfolding translate
exec_lr next addr i = do
  pa ← translate addr acc_load
  mem ← gets (λ e. e.mem)
  word ← access (memory_read32 mem pa) (goto_except exc_load_access addr)
  modify (λ e. record e { reservation_valid = 1; reservation_addr = pa })
  modify (with_rf (λ rf. reg_write rf i.rd word))
  pure next

-- The write of a successful SC, or nothing; rd becomes 0 or 1.
unfoldable pub store_conditional : ℕ → ℕ → Inst → Exec (Unit {0})
store_conditional addr pa i e =
    if nonzero e.reservation_valid && e.reservation_addr == pa
    then (do
      m ← access (memory_write32 e.mem pa (reg_read e.rf i.rs2)) (goto_except exc_store_access addr)
      modify (λ e'. with_rf (λ rf. reg_write rf i.rd 0) (with_mem m e')))
        e
    else done tt (with_rf (λ rf. reg_write rf i.rd 1) e)

unfoldable pub exec_sc : ℕ → ℕ → Inst → Exec ℕ
unfolding translate store_conditional
exec_sc next addr i = do
  pa ← translate addr acc_store
  store_conditional addr pa i
  modify (λ e. record e { reservation_valid = 0 })
  pure next

unfoldable pub amo_value : Option ℕ → Exec ℕ
amo_value (some val) e = done val e
amo_value none e = leave goto_unknown e

unfoldable pub exec_rmw : ℕ → ℕ → ℕ → Inst → Exec ℕ
unfolding translate amo_result amo_value break_reservation
exec_rmw next funct5 addr i = do
  val ← gets (λ e. reg_read e.rf i.rs2)
  pa ← translate addr acc_store
  mem ← gets (λ e. e.mem)
  old ← access (memory_read32 mem pa) (goto_except exc_store_access addr)
  new ← amo_value (amo_result funct5 old val)
  m ← access (memory_write32 mem pa new) (goto_except exc_store_access addr)
  modify (with_mem m)
  modify (with_rf (λ rf. reg_write rf i.rd old))
  modify (break_reservation pa)
  pure next

unfoldable pub exec_amo : ℕ → Inst → Exec ℕ
unfolding exec_lr exec_sc exec_rmw
exec_amo next i e =
    let funct5 = i.funct7 >>> 2 in
    let addr = reg_read e.rf i.rs1 in
    if not (i.funct3 == 2)
    then leave goto_unknown e
    else if nonzero (bit_and addr 3)
    then leave
        (goto_except (if funct5 == 0x02 then exc_load_misaligned else exc_store_misaligned) addr) e
    else if funct5 == 0x02
    then exec_lr next addr i e
    else if funct5 == 0x03
    then exec_sc next addr i e
    else exec_rmw next funct5 addr i e

-- ===== src/Execute/Access.antt =====
-- src/execute.c: loads and stores. `next` is the pc of the following instruction.
use rv32i_emu.Base.{
  ℕ, Option, none, some, ◌&&◌, ◌||◌, not, ◌==◌, if◌then◌else◌, u8, u16, add32, nonzero, update,
  bit_and, bit_or,
}
use rv32i_emu.Memory.{
  Memory, Access, memory_read8, memory_read16, memory_read32, memory_write8, memory_write16,
  memory_write32,
}
use rv32i_emu.RegFile.{reg_read, reg_write}
use rv32i_emu.Csr.Constants.{
  clint_mtime_lo, clint_mtimecmp_lo, exc_load_misaligned, exc_load_access, exc_store_misaligned,
  exc_store_access,
}
use rv32i_emu.Decode.{Inst}
use rv32i_emu.Machine.{
  Emulator, goto_except, goto_unknown, done, leave, Exec, ◌>>=◌, ◌>>◌, pure, gets, modify, leave_if,
  access, with_rf, with_mem,
}
use rv32i_emu.Mmu.{AccessType, acc_load, acc_store, Translated, mapped, fault, mmu_translate}
use rv32i_emu.Alu.{sext8, sext16}

-- `xrc = mmu_translate(...); if (xrc != 0) { fault_cause = xrc; goto except; }`
unfoldable pub translated : ℕ → Translated → Exec ℕ
translated addr (mapped pa) e = done pa e
translated addr (fault cause) e = leave (goto_except cause addr) e

unfoldable pub translate : ℕ → AccessType → Exec ℕ
unfolding translated mmu_translate
translate addr acc = do t ← mmu_translate addr acc; translated addr t

-- A store that hits the LR reservation ends it.
unfoldable pub break_reservation : ℕ → Emulator → Emulator
break_reservation pa e =
    if nonzero e.reservation_valid && e.reservation_addr == pa
    then record e { reservation_valid = 0 }
    else e

unfoldable pub load_value : ℕ → ℕ → ℕ → Exec ℕ
unfolding sext8 sext16
load_value funct3 addr pa e =
    let refuse = goto_except exc_load_access addr in
    if funct3 == 0
    then (access (memory_read8 e.mem pa) refuse >>= λ b. pure (sext8 b)) e
    else if funct3 == 1
    then (access (memory_read16 e.mem pa) refuse >>= λ h. pure (sext16 h)) e
    else if funct3 == 2
    then access (memory_read32 e.mem pa) refuse e
    else if funct3 == 4
    then access (memory_read8 e.mem pa) refuse e
    else if funct3 == 5
    then access (memory_read16 e.mem pa) refuse e
    else leave goto_unknown e

-- The value of a load at a translated address: mtime, or memory.
unfoldable pub load_or_mtime : ℕ → ℕ → ℕ → Exec ℕ
unfolding load_value
load_or_mtime funct3 addr pa e =
    if funct3 == 2 && pa == clint_mtime_lo
    then done (bit_and e.mtime 0xffff_ffff) e
    else load_value funct3 addr pa e

unfoldable pub exec_load : ℕ → Inst → Exec ℕ
unfolding translate load_or_mtime
exec_load next i = do
  addr ← gets (λ e. add32 (reg_read e.rf i.rs1) i.imm)
  leave_if ((i.funct3 == 1 || i.funct3 == 5) && nonzero (bit_and addr 1))
      (goto_except exc_load_misaligned addr)
  leave_if (i.funct3 == 2 && nonzero (bit_and addr 3)) (goto_except exc_load_misaligned addr)
  pa ← translate addr acc_load
  result ← load_or_mtime i.funct3 addr pa
  modify (with_rf (λ rf. reg_write rf i.rd result))
  pure next

unfoldable pub exec_load_fp : ℕ → Inst → Exec ℕ
unfolding translate
exec_load_fp next i = do
  leave_if (not (i.funct3 == 2)) goto_unknown
  addr ← gets (λ e. add32 (reg_read e.rf i.rs1) i.imm)
  leave_if (nonzero (bit_and addr 3)) (goto_except exc_load_misaligned addr)
  pa ← translate addr acc_load
  mem ← gets (λ e. e.mem)
  word ← access (memory_read32 mem pa) (goto_except exc_load_access addr)
  modify (λ e. record e { rf = record e.rf { fregs = update e.rf.fregs i.rd word } })
  pure next

-- The switch on funct3 of OP_STORE; `none` is `goto unknown`.
unfoldable pub store_value : ℕ → ℕ → ℕ → Memory → Option (Access Memory)
store_value funct3 pa val m =
    if funct3 == 0
    then some (memory_write8 m pa (u8 (bit_and val 0xff)))
    else if funct3 == 1
    then some (memory_write16 m pa (u16 (bit_and val 0xffff)))
    else if funct3 == 2
    then some (memory_write32 m pa val)
    else none

unfoldable pub finish_store : ℕ → ℕ → Option (Access Memory) → Exec (Unit {0})
unfolding break_reservation
finish_store addr pa none e = leave goto_unknown e
finish_store addr pa (some written) e =
    (do
      m ← access written (goto_except exc_store_access addr)
      modify (λ e'. break_reservation pa (with_mem m e')))
      e

unfoldable pub store_or_mtimecmp : ℕ → ℕ → ℕ → ℕ → Exec (Unit {0})
unfolding store_value finish_store
store_or_mtimecmp funct3 addr pa val e =
    if funct3 == 2 && pa == clint_mtimecmp_lo
    then done tt (record e { mtimecmp = bit_or (bit_and e.mtimecmp 0xffff_ffff_0000_0000) val })
    else finish_store addr pa (store_value funct3 pa val e.mem) e

unfoldable pub exec_store : ℕ → Inst → Exec ℕ
unfolding translate store_or_mtimecmp
exec_store next i = do
  addr ← gets (λ e. add32 (reg_read e.rf i.rs1) i.imm)
  val ← gets (λ e. reg_read e.rf i.rs2)
  leave_if (i.funct3 == 1 && nonzero (bit_and addr 1)) (goto_except exc_store_misaligned addr)
  leave_if (i.funct3 == 2 && nonzero (bit_and addr 3)) (goto_except exc_store_misaligned addr)
  pa ← translate addr acc_store
  store_or_mtimecmp i.funct3 addr pa val
  pure next

unfoldable pub exec_store_fp : ℕ → Inst → Exec ℕ
unfolding translate finish_store
exec_store_fp next i = do
  leave_if (not (i.funct3 == 2)) goto_unknown
  addr ← gets (λ e. add32 (reg_read e.rf i.rs1) i.imm)
  leave_if (nonzero (bit_and addr 3)) (goto_except exc_store_misaligned addr)
  pa ← translate addr acc_store
  (λ e. finish_store addr pa (some (memory_write32 e.mem pa (e.rf.fregs i.rs2))) e)
  pure next

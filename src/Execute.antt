-- ===== src/Execute.antt =====
-- src/execute.c: execute(), one function for each case of the switch on the opcode. A case ends
-- with the next pc, or leaves by `goto except`, `goto unknown` or `return`.
pub mod Access
pub mod Atomic
pub mod System
pub mod Reservation
use rv32i_emu.Base.{
  ℕ, ◌+◌, Bool, true, false, Option, none, some, ◌==◌, if◌then◌else◌, add32, nonzero, not32,
  bit_and,
}
use rv32i_emu.RegFile.{RegFile, reg_read, reg_write}
use rv32i_emu.Csr.Constants.{exc_illegal_inst}
use rv32i_emu.Decode.{
  Inst, op_lui, op_auipc, op_jal, op_jalr, op_branch, op_load, op_store, op_load_fp, op_store_fp,
  op_alui, op_alu, op_fence, op_amo, op_fp, op_system,
}
use rv32i_emu.Machine.{
  EmuState, exception, Emulator, Leave, goto_except, goto_unknown, return, Run, done, leave,
  undefined, Exec, ◌>>=◌, ◌>>◌, pure, exit, modify, with_rf, with_pc, with_state,
}
use rv32i_emu.Trap.{trap_raise}
use rv32i_emu.Alu.{muldiv_result, alu_result, alui_result, branch_taken}
use rv32i_emu.Fpu.Host.{HostFloat}
use rv32i_emu.Fpu.Execute.{fpu_execute}
use Access.{exec_load, exec_store, exec_load_fp, exec_store_fp}
use Atomic.{exec_amo}
use System.{exec_system}

-- `inst->len ? inst->len : 4u`
unfoldable pub inst_length : Inst → ℕ
inst_length i = if nonzero i.len then i.len else 4

abbrev pub sequential : Inst → Emulator → ℕ
sequential i e = add32 e.rf.pc (inst_length i)

abbrev pub write_rd : Inst → ℕ → Emulator → Emulator
write_rd i val = with_rf (λ rf. reg_write rf i.rd val)

-- A result for rd and the next instruction, or `goto unknown`.
unfoldable pub finish_alu : Inst → Option ℕ → Exec ℕ
unfolding inst_length
finish_alu i (some result) e = done (sequential i e) (write_rd i result e)
finish_alu i none e = leave goto_unknown e

unfoldable pub exec_alu : Inst → Exec ℕ
unfolding finish_alu muldiv_result alu_result
exec_alu i e =
    let a = reg_read e.rf i.rs1 in
    let b = reg_read e.rf i.rs2 in
    finish_alu i
      (if i.funct7 == 0x01 then muldiv_result i.funct3 a b else alu_result i.funct3 i.funct7 a b) e

unfoldable pub exec_alui : Inst → Exec ℕ
unfolding finish_alu alui_result
exec_alui i e = finish_alu i (alui_result i.funct3 i.funct7 (reg_read e.rf i.rs1) i.imm) e

unfoldable pub exec_branch : Inst → Exec ℕ
unfolding inst_length branch_taken
exec_branch i e = elim (branch_taken i.funct3 (reg_read e.rf i.rs1) (reg_read e.rf i.rs2)) [
  | some true ↦ done (add32 e.rf.pc i.imm) e
  | some false ↦ done (sequential i e) e
  | none ↦ leave goto_unknown e
]

unfoldable pub exec_jal : Inst → Exec ℕ
unfolding inst_length
exec_jal i e = done (add32 e.rf.pc i.imm) (write_rd i (sequential i e) e)

unfoldable pub exec_jalr : Inst → Exec ℕ
unfolding inst_length
exec_jalr i e =
    done (bit_and (add32 (reg_read e.rf i.rs1) i.imm) (not32 1)) (write_rd i (sequential i e) e)

unfoldable pub exec_lui : Inst → Exec ℕ
unfolding inst_length
exec_lui i e = done (sequential i e) (write_rd i i.imm e)

unfoldable pub exec_auipc : Inst → Exec ℕ
unfolding inst_length
exec_auipc i e = done (sequential i e) (write_rd i (add32 e.rf.pc i.imm) e)

-- What follows a case: the new pc, or a trap whose failure stops the machine.
unfoldable pub take_trap : ℕ → ℕ → ℕ → Emulator → Run Bool
unfolding trap_raise
take_trap cause tval pc e =
    let (e', entered) = trap_raise cause tval pc e in
    if entered then done true e' else done false (with_state exception e')

unfoldable pub conclude : Inst → ℕ → Run ℕ → Run Bool
unfolding take_trap
conclude i pc (done next_pc e) = done true (with_pc next_pc e)
conclude i pc (leave (return b) e) = done b e
conclude i pc (leave goto_unknown e) = take_trap exc_illegal_inst i.raw pc e
conclude i pc (leave (goto_except cause addr) e) =
    take_trap cause (if cause == exc_illegal_inst then i.raw else addr) pc e
conclude i pc undefined = undefined

module _ (host : HostFloat) where
  unfoldable pub exec_fp : Inst → Exec ℕ
  unfolding inst_length fpu_execute
  exec_fp i e = elim (fpu_execute host i e) [
    | some e' ↦ done (sequential i e) e'
    | none ↦ leave goto_unknown e
  ]

  -- The switch on the opcode.
  unfoldable pub exec_opcode : Inst → Exec ℕ
  unfolding exec_fp exec_alu exec_alui exec_branch exec_jal exec_jalr exec_lui exec_auipc exec_load
      exec_store exec_load_fp exec_store_fp exec_amo exec_system
  exec_opcode i e =
      if i.opcode == op_alu
      then exec_alu i e
      else if i.opcode == op_alui
      then exec_alui i e
      else if i.opcode == op_load
      then exec_load (sequential i e) i e
      else if i.opcode == op_load_fp
      then exec_load_fp (sequential i e) i e
      else if i.opcode == op_store
      then exec_store (sequential i e) i e
      else if i.opcode == op_store_fp
      then exec_store_fp (sequential i e) i e
      else if i.opcode == op_fp
      then exec_fp i e
      else if i.opcode == op_amo
      then exec_amo (sequential i e) i e
      else if i.opcode == op_branch
      then exec_branch i e
      else if i.opcode == op_jal
      then exec_jal i e
      else if i.opcode == op_jalr
      then exec_jalr i e
      else if i.opcode == op_lui
      then exec_lui i e
      else if i.opcode == op_auipc
      then exec_auipc i e
      else if i.opcode == op_system
      then exec_system (sequential i e) i e
      else if i.opcode == op_fence
      then done (sequential i e) e
      else leave goto_unknown e

  unfoldable pub execute : Inst → Exec Bool
  unfolding exec_opcode conclude
  execute i e = conclude i e.rf.pc (exec_opcode i e)

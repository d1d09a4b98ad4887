-- ===== src/Invariant/Executed.antt =====
-- execute() of src/execute.c keeps the invariant, on every instruction that decode() gives.
use rv32i_emu.Base.{
  ℕ, ◌^◌, ◌<◌, refl, arith, Bool, true, false, Option, some, none, ◌==◌, if◌then◌else◌, add32,
  not32,
}
use rv32i_emu.Base.Bits.{bit_and-lt}
use rv32i_emu.RegFile.{reg_read}
use rv32i_emu.Csr.Constants.{exc_illegal_inst}
use rv32i_emu.Decode.{Inst}
use rv32i_emu.Decode.Bounds.{IsDecoded}
use rv32i_emu.Machine.{
  Emulator, exception, goto_except, goto_unknown, return, Run, done, leave, undefined,
}
use rv32i_emu.Trap.{trap_raise}
use rv32i_emu.Alu.{muldiv_result, alu_result, alui_result, branch_taken}
use rv32i_emu.Fpu.Host.{HostFloat}
use rv32i_emu.Fpu.Execute.{fpu_execute}
use rv32i_emu.Execute.{
  sequential, finish_alu, exec_alu, exec_alui, exec_branch, exec_jal, exec_jalr, exec_lui,
  exec_auipc, take_trap, conclude, exec_fp, exec_opcode, execute,
}
use rv32i_emu.Invariant.State.{
  IsEmulator, Ensures, IsWord, Anything, if-Ensures, branches, done-Ensures, leave-Ensures,
  undefined-Ensures, reg_write-IsEmulator, reg_read-lt, pc-IsEmulator, state-IsEmulator,
}
use rv32i_emu.Invariant.Arithmetic.{
  ResultFits, if-lt, choice-ResultFits, muldiv_result-ResultFits, alu_result-ResultFits,
  alui_result-ResultFits,
}
use rv32i_emu.Invariant.Traps.{trap_raise-IsEmulator}
use rv32i_emu.Invariant.Loads.{exec_load-Ensures, exec_load_fp-Ensures}
use rv32i_emu.Invariant.Stores.{exec_store-Ensures, exec_store_fp-Ensures}
use rv32i_emu.Invariant.Atomics.{exec_amo-Ensures}
use rv32i_emu.Invariant.Systems.{exec_system-Ensures}
use rv32i_emu.Invariant.Floats.{IsHost}
use rv32i_emu.Invariant.FloatInstructions.{StateFits, fpu_execute-StateFits}

module _ (i : Inst) (d : IsDecoded i) (e : Emulator) (inv : IsEmulator e) where
  sequential-lt : sequential i e < 2 ^ 32
  sequential-lt = omega arith

  finish_alu-Ensures : (o : Option ℕ) → ResultFits o → Ensures IsWord (finish_alu i o e)
  unfolding finish_alu
  finish_alu-Ensures (some r) f =
      done-Ensures sequential-lt (reg_write-IsEmulator e i.rd r inv (f.fits r refl))
  finish_alu-Ensures none f = leave-Ensures tt inv

  exec_alu-Ensures : Ensures IsWord (exec_alu i e)
  unfolding exec_alu
  exec_alu-Ensures =
      let a = reg_read e.rf i.rs1 in
      let b = reg_read e.rf i.rs2 in
      let ha = reg_read-lt e i.rs1 inv in
      let hb = reg_read-lt e i.rs2 inv in
      finish_alu-Ensures
        (if i.funct7 == 1 then muldiv_result i.funct3 a b else alu_result i.funct3 i.funct7 a b)
        (choice-ResultFits (i.funct7 == 1) (muldiv_result-ResultFits a b ha hb i.funct3)
          (alu_result-ResultFits a b ha hb i.funct3 i.funct7))

  exec_alui-Ensures : Ensures IsWord (exec_alui i e)
  unfolding exec_alui
  exec_alui-Ensures =
      finish_alu-Ensures (alui_result i.funct3 i.funct7 (reg_read e.rf i.rs1) i.imm) (
        alui_result-ResultFits (reg_read e.rf i.rs1) i.imm (reg_read-lt e i.rs1 inv) d.imm_fits
          i.funct3 i.funct7)

  branched :
      (o : Option Bool)
      → Ensures IsWord (elim o as (λ _. Run ℕ) [
        | some true ↦ done (add32 e.rf.pc i.imm) e
        | some false ↦ done (sequential i e) e
        | none ↦ leave goto_unknown e
      ])
  branched (some true) = done-Ensures (omega arith) inv
  branched (some false) = done-Ensures sequential-lt inv
  branched none = leave-Ensures tt inv

  exec_branch-Ensures : Ensures IsWord (exec_branch i e)
  unfolding exec_branch
  exec_branch-Ensures = branched (branch_taken i.funct3 (reg_read e.rf i.rs1) (reg_read e.rf i.rs2))

  exec_jal-Ensures : Ensures IsWord (exec_jal i e)
  unfolding exec_jal
  exec_jal-Ensures =
      done-Ensures (omega arith) (reg_write-IsEmulator e i.rd (sequential i e) inv sequential-lt)

  exec_jalr-Ensures : Ensures IsWord (exec_jalr i e)
  unfolding exec_jalr
  exec_jalr-Ensures =
      done-Ensures (bit_and-lt 32 (add32 (reg_read e.rf i.rs1) i.imm) (not32 1) (omega arith))
        (reg_write-IsEmulator e i.rd (sequential i e) inv sequential-lt)

  exec_lui-Ensures : Ensures IsWord (exec_lui i e)
  unfolding exec_lui
  exec_lui-Ensures = done-Ensures sequential-lt (reg_write-IsEmulator e i.rd i.imm inv d.imm_fits)

  exec_auipc-Ensures : Ensures IsWord (exec_auipc i e)
  unfolding exec_auipc
  exec_auipc-Ensures =
      done-Ensures sequential-lt
        (reg_write-IsEmulator e i.rd (add32 e.rf.pc i.imm) inv (omega arith))

  take_trap-Ensures :
      (cause tval pc : ℕ)
      → cause < 2 ^ 32
      → tval < 2 ^ 32
      → pc < 2 ^ 32
      → Ensures Anything (take_trap cause tval pc e)
  unfolding take_trap
  take_trap-Ensures cause tval pc c t p =
      let r = trap_raise-IsEmulator e inv cause tval pc c t p in
      if-Ensures (trap_raise cause tval pc e).1 (done-Ensures tt r)
        (done-Ensures tt (state-IsEmulator (trap_raise cause tval pc e).0 r exception))

conclude-Ensures :
    (i : Inst) (d : IsDecoded i) (pc : ℕ)
    → pc < 2 ^ 32
    → (r : Run ℕ) → Ensures IsWord r
    → Ensures Anything (conclude i pc r)
unfolding conclude
conclude-Ensures i d pc h (done next e) r =
    done-Ensures tt (pc-IsEmulator e r.outcome.1 next r.outcome.0)
conclude-Ensures i d pc h (leave (return b) e) r = done-Ensures tt r.outcome.1
conclude-Ensures i d pc h (leave goto_unknown e) r =
    take_trap-Ensures i d e r.outcome.1 exc_illegal_inst i.raw pc (omega arith) d.raw_fits h
conclude-Ensures i d pc h (leave (goto_except cause addr) e) r =
    take_trap-Ensures i d e r.outcome.1 cause (if cause == exc_illegal_inst then i.raw else addr) pc
      r.outcome.0.0 (if-lt (cause == exc_illegal_inst) d.raw_fits r.outcome.0.1) h
conclude-Ensures i d pc h undefined r = undefined-Ensures

module _ (host : HostFloat) (is_host : IsHost host) (i : Inst) (d : IsDecoded i) (e : Emulator)
    (inv : IsEmulator e) where
  floated :
      (o : Option Emulator)
      → StateFits o
      → Ensures IsWord (elim o as (λ _. Run ℕ) [
        | some e' ↦ done (sequential i e) e'
        | none ↦ leave goto_unknown e
      ])
  floated (some e') f = done-Ensures (omega arith) f.fits
  floated none f = leave-Ensures tt inv

  exec_fp-Ensures : Ensures IsWord (exec_fp host i e)
  unfolding exec_fp
  exec_fp-Ensures = floated (fpu_execute host i e) (fpu_execute-StateFits host is_host i e inv)

  pub exec_opcode-Ensures : Ensures IsWord (exec_opcode host i e)
  unfolding exec_opcode
  exec_opcode-Ensures =
      let n = sequential i e in
      let h = sequential-lt i d e inv in
      let c1 = exec_alu-Ensures i d e inv in
      let c2 = exec_alui-Ensures i d e inv in
      let c3 = exec_load-Ensures n i e inv h in
      let c4 = exec_load_fp-Ensures n i e inv h in
      let c5 = exec_store-Ensures n i e inv h in
      let c6 = exec_store_fp-Ensures n i e inv h in
      let c7 = exec_fp-Ensures in
      let c8 = exec_amo-Ensures n i e inv h in
      let c9 = exec_branch-Ensures i d e inv in
      let c10 = exec_jal-Ensures i d e inv in
      let c11 = exec_jalr-Ensures i d e inv in
      let c12 = exec_lui-Ensures i d e inv in
      let c13 = exec_auipc-Ensures i d e inv in
      let c14 = exec_system-Ensures e inv n h i (omega (arith, d.rs1_fits)) in
      search branches depth 20

  -- execute keeps the invariant on every decoded instruction and every path through it, traps
  -- included, except where C leaves the behaviour undefined, when the host's float results are words.
  pub execute-Ensures : Ensures Anything (execute host i e)
  unfolding execute
  execute-Ensures =
      conclude-Ensures i d e.rf.pc inv.pc_fits (exec_opcode host i e) exec_opcode-Ensures

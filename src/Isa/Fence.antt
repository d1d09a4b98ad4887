-- ===== src/Isa/Fence.antt =====
-- FENCE and FENCE.I in emu_step of src/emu.c: decode() and execute() disagree about them.
use rv32i_emu.Base.{
  ℕ, ◌%◌, ◌≡◌, refl, ap, ◌∙◌, arith, Bool, Bool-cases, none, inl, inr, true, false, ◌==◌, ◌||◌,
  if◌then◌else◌, bit_and,
}
use rv32i_emu.Memory.{ok, memory_read32}
use rv32i_emu.Csr.Constants.{priv_m, satp_mode_bit, exc_illegal_inst}
use rv32i_emu.Decode.{Inst, op_fence, decode}
use rv32i_emu.Decode.Bounds.{decode_fence}
use rv32i_emu.Machine.{
  exception, Emulator, done, leave, return, Run, count_cycle, with_pc, with_state,
}
use rv32i_emu.Machine.Runs.{bind-done, bind-leave, other}
use rv32i_emu.Fpu.Host.{HostFloat}
use rv32i_emu.Trap.{tick, timer_enabled, trap_raise, trap_check_interrupt}
use rv32i_emu.Execute.{sequential, exec_opcode, conclude, execute}
use rv32i_emu.Emu.{reject, decoded, fetch, instruction, returned, emu_step}
use rv32i_emu.Invariant.State.{IsEmulator}
use rv32i_emu.Isa.Stepped.{fetch_word}

-- What becomes of a step that raises an illegal instruction: the handler, or the end of the machine.
abbrev pub illegal : ℕ → ℕ → Emulator → Run Bool
illegal w pc e =
    if (trap_raise exc_illegal_inst w pc e).1
    then done true (count_cycle (trap_raise exc_illegal_inst w pc e).0)
    else done false (with_state exception (trap_raise exc_illegal_inst w pc e).0)

execute_fence :
    (host : HostFloat) (e : Emulator) (i : Inst)
    → i.opcode ≡ op_fence
    → execute host i e ≡ done true (with_pc (sequential i e) e)
unfolding execute conclude exec_opcode
execute_fence host e i h = rw h refl

module _ (host : HostFloat) (w pc : ℕ) (e : Emulator) (d : decode w ≡ none) where
  rejected :
      (b : Bool)
      → (trap_raise exc_illegal_inst w pc e).1 ≡ b
      → decoded pc (w, false) e ≡ (
          if b
          then leave (return true) (count_cycle (trap_raise exc_illegal_inst w pc e).0)
          else leave (return false) (with_state exception (trap_raise exc_illegal_inst w pc e).0))
  unfolding decoded reject
  rejected b t = rw (decoded, d, t) refl

  instruction-illegal :
      fetch pc e ≡ done (w, false) e → returned (instruction host pc e) ≡ illegal w pc e
  unfolding instruction
  instruction-illegal f = elim (Bool-cases (trap_raise exc_illegal_inst w pc e).1) [
    | inl t ↦ ap returned (bind-done _ f (bind-leave _ (rejected true t))) ∙ rw t refl
    | inr t ↦ ap returned (bind-done _ f (bind-leave _ (rejected false t))) ∙ rw t refl
  ]

-- A word with the opcode of FENCE and FENCE.I, at a multiple of 4 at a physical address, when no timer
-- interrupt is due: emu_step raises an illegal instruction with the word as the trap value, and either
-- enters the handler or stops the machine, whereas execute, given an instruction with this opcode,
-- would only go on to the next one.
pub emu_step-fence :
    (host : HostFloat) (e : Emulator) (w : ℕ) (i : Inst)
    → IsEmulator e
    → timer_enabled (tick e) ≡ false
    → (e.priv == priv_m || bit_and e.csr.satp satp_mode_bit == 0) ≡ true
    → e.rf.pc % 4 ≡ 0
    → memory_read32 e.mem e.rf.pc ≡ ok w
    → w % 128 ≡ op_fence
    → i.opcode ≡ op_fence
    → (emu_step host e ≡ illegal w e.rf.pc (tick e))
      × (execute host i e ≡ done true (with_pc (sequential i e) e))
unfolding emu_step trap_check_interrupt tick
emu_step-fence host e w i inv quiet bare aligned there op h =
    let q : trap_check_interrupt e.rf.pc e ≡ (tick e, false) =
      other (timer_enabled (tick e)) _ _ quiet in
    let f = fetch_word (tick e) e.rf.pc w inv.memory aligned (omega arith) there bare in
    (
      rw q (instruction-illegal host w e.rf.pc (tick e) (decode_fence w op) f),
      execute_fence host e i h,
    )

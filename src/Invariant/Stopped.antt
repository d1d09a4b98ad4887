-- ===== src/Invariant/Stopped.antt =====
-- emu_step of src/emu.c ends with a result, and with `false` only when the machine has stopped.
use rv32i_emu.Base.{ℕ, ◌^◌, ◌<◌, ◌≢◌, Bool, true, false, if◌then◌else◌, ◌==◌}
use rv32i_emu.Csr.Constants.{exc_illegal_inst}
use rv32i_emu.Decode.{Inst}
use rv32i_emu.Decode.Bounds.{IsDecoded}
use rv32i_emu.Machine.{
  running, Emulator, goto_except, goto_unknown, return, Run, done, leave, undefined, Exec,
}
use rv32i_emu.Trap.{trap_raise, trap_check_interrupt}
use rv32i_emu.Fpu.Host.{HostFloat}
use rv32i_emu.Execute.{take_trap, conclude, execute, exec_opcode}
use rv32i_emu.Emu.{fetch, decoded, counted, returned, instruction, emu_step}
use rv32i_emu.Invariant.State.{IsEmulator, Ensures, IsWord, exception-ne-running}
use rv32i_emu.Invariant.Floats.{IsHost}
use rv32i_emu.Invariant.Executed.{exec_opcode-Ensures}
use rv32i_emu.Invariant.Stepped.{fetch-Ensures, decoded-Ensures}
use rv32i_emu.Invariant.Traps.{trap_check_interrupt-IsEmulator}
use rv32i_emu.Invariant.Returned.{Returning, fetch-Returning, decoded-Returning}

-- How a step ends: by no label, and with `false` only when the machine has stopped.
abbrev StepEnd : Run Bool → Type 0
StepEnd (done true e) = Unit
StepEnd (done false e) = e.state ≢ running
StepEnd (leave l e) = ⊥
StepEnd undefined = Unit

pub record StepEnds (r : Run Bool) : Type 0 where
  pub step_end : StepEnd r

-- The same, where a `return` may still be on its way.
abbrev Pending : Run Bool → Type 0
Pending (leave (return true) e) = Unit
Pending (leave (return false) e) = e.state ≢ running
Pending r = StepEnd r

record IsPending (r : Run Bool) : Type 0 where
  pending : Pending r

if-StepEnds : (c : Bool) {x y : Run Bool} → StepEnds x → StepEnds y → StepEnds (if c then x else y)
if-StepEnds true h k = h
if-StepEnds false h k = k

take_trap-StepEnds : (cause tval pc : ℕ) (e : Emulator) → StepEnds (take_trap cause tval pc e)
unfolding take_trap
take_trap-StepEnds cause tval pc e =
    if-StepEnds (trap_raise cause tval pc e).1 (record { step_end = tt })
      (record { step_end = exception-ne-running })

conclude-StepEnds : (i : Inst) (pc : ℕ) (r : Run ℕ) → Ensures IsWord r → StepEnds (conclude i pc r)
unfolding conclude
conclude-StepEnds i pc (done next e) h = record { step_end = tt }
conclude-StepEnds i pc (leave (return true) e) h = record { step_end = tt }
conclude-StepEnds i pc (leave (return false) e) h = record { step_end = h.outcome.0 }
conclude-StepEnds i pc (leave goto_unknown e) h = take_trap-StepEnds exc_illegal_inst i.raw pc e
conclude-StepEnds i pc (leave (goto_except cause addr) e) h =
    take_trap-StepEnds cause (if cause == exc_illegal_inst then i.raw else addr) pc e
conclude-StepEnds i pc undefined h = record { step_end = tt }

counted-IsPending :
    (r : Run Bool)
    → StepEnds r
    → IsPending (elim r as (λ _. Run Bool) [
      | done b e ↦ counted b e
      | leave l e ↦ leave l e
      | undefined ↦ undefined
    ])
unfolding counted
counted-IsPending (done true e) h = record { pending = tt }
counted-IsPending (done false e) h = record { pending = h.step_end }
counted-IsPending (leave l e) h = absurd h.step_end
counted-IsPending undefined h = record { pending = tt }

bind-IsPending :
    {A : Type 0} {Q : A → Type 0} (r : Run A) (f : A → Exec Bool)
    → Ensures Q r
    → Returning r
    → ((a : A) → Q a → (e : Emulator) → IsEmulator e → IsPending (f a e))
    → IsPending (elim r as (λ _. Run Bool) [
      | done a e' ↦ f a e'
      | leave l e' ↦ leave l e'
      | undefined ↦ undefined
    ])
bind-IsPending (done a e) f h q k = k a h.outcome.0 e h.outcome.1
bind-IsPending (leave (return true) e) f h q k = record { pending = tt }
bind-IsPending (leave (return false) e) f h q k = record { pending = h.outcome.0 }
bind-IsPending (leave (goto_except c a) e) f h q k = absurd q.by_return
bind-IsPending (leave goto_unknown e) f h q k = absurd q.by_return
bind-IsPending undefined f h q k = record { pending = tt }

returned-StepEnds : (r : Run Bool) → IsPending r → StepEnds (returned r)
returned-StepEnds (done true e) h = record { step_end = tt }
returned-StepEnds (done false e) h = record { step_end = h.pending }
returned-StepEnds (leave (return true) e) h = record { step_end = tt }
returned-StepEnds (leave (return false) e) h = record { step_end = h.pending }
returned-StepEnds (leave (goto_except c a) e) h = absurd h.pending
returned-StepEnds (leave goto_unknown e) h = absurd h.pending
returned-StepEnds undefined h = record { step_end = tt }

module _ (host : HostFloat) (is_host : IsHost host) where
  execute-StepEnds :
      (i : Inst) (e : Emulator) → IsDecoded i → IsEmulator e → StepEnds (execute host i e)
  unfolding execute
  execute-StepEnds i e d inv =
      conclude-StepEnds i e.rf.pc (exec_opcode host i e)
        (exec_opcode-Ensures host is_host i d e inv)

  instruction-IsPending :
      (pc : ℕ) (e : Emulator) → pc < 2 ^ 32 → IsEmulator e → IsPending (instruction host pc e)
  unfolding instruction
  instruction-IsPending pc e p i =
      bind-IsPending (fetch pc e) _ (fetch-Ensures pc p e i) (fetch-Returning pc e) λ f h e1 i1.
        bind-IsPending (decoded pc f e1) _ (decoded-Ensures pc p f e1 h i1)
          (decoded-Returning pc f e1)
          λ inst d e2 i2. counted-IsPending (execute host inst e2) (execute-StepEnds inst e2 d i2)

-- A step always ends with a result, unless the behaviour is undefined: no label of the code is left
-- open, and the result is `false` only when the machine has stopped, so that a running machine can
-- always be stepped on.
pub emu_step-StepEnds :
    (host : HostFloat) → IsHost host → (e : Emulator) → IsEmulator e → StepEnds (emu_step host e)
unfolding emu_step
emu_step-StepEnds host is_host e i =
    let t = trap_check_interrupt-IsEmulator e.rf.pc e i i.pc_fits in
    let e' = (trap_check_interrupt e.rf.pc e).0 in
    if-StepEnds (trap_check_interrupt e.rf.pc e).1 (record { step_end = tt })
      (returned-StepEnds (instruction host e.rf.pc e')
        (instruction-IsPending host is_host e.rf.pc e' i.pc_fits t))

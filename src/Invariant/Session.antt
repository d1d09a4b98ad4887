-- ===== src/Invariant/Session.antt =====
-- The debugger of src/debug.c keeps the invariant of the emulator and of its breakpoint table.
use rv32i_emu.Base.{
  ℕ, zero, suc, ◌+◌, Bool, true, false, Option, none, some, List, [], ◌∷◌, ◌++◌, length, ◌==◌,
}
use rv32i_emu.Base.Text.{Text, codes, joined}
use rv32i_emu.Machine.{
  running, halted, exception, Emulator, Run, done, leave, undefined, ◌>>=◌, pure,
}
use rv32i_emu.Fpu.Host.{HostFloat}
use rv32i_emu.Emu.{emu_step}
use rv32i_emu.Debug.{
  Breakpoints, bp_find, Stop, failed_step, not_running, at_breakpoint, continue_from,
  continue_limit,
}
use rv32i_emu.Debug.Input.{number_or, split_lines, trimmed, until_zero, scan_command}
use rv32i_emu.Debug.Show.{show_inst}
use rv32i_emu.Debug.Commands.{
  after_steps, Command, step, continue, regs, dump, disasm, add, list, delete, clear, help_command,
  quit, unknown_command, Reply, reply, arguments, command,
}
use rv32i_emu.Debug.Shell.{cmd_step, cmd_continue, run_command, run_line, repl, banner, debug_repl}
use rv32i_emu.Invariant.State.{
  IsEmulator, Ensures, Anything, done-Ensures, leave-Ensures, undefined-Ensures, bind-Ensures,
  choose-Ensures,
}
use rv32i_emu.Invariant.Floats.{IsHost}
use rv32i_emu.Invariant.Stepped.{emu_step-Ensures}
use rv32i_emu.Invariant.Commands.{
  IsTable, empty-IsTable, ends, ReplyKeeps, SessionKeeps, by_state, shown, after_steps-Ensures,
  step_line-Ensures, stop_text-Ensures, run_dump-Ensures, run_disasm-Ensures, run_add-IsTable,
  run_delete-IsTable,
}

module _ (host : HostFloat) (is_host : IsHost host) where
  -- After one instruction of `s`.
  stepped :
      (left : ℕ) (t : Text) (r : Run Bool)
      → Ensures Anything r
      → ((e : Emulator) → IsEmulator e → Ensures Anything (cmd_step host left e))
      → Ensures Anything (elim r as (λ _. Run Text) [
        | done true e2 ↦ (cmd_step host left >>= λ rest. pure (t ++ rest)) e2
        | done false e2 ↦ (after_steps >>= λ rest. pure (t ++ rest)) e2
        | leave l e2 ↦ leave l e2
        | undefined ↦ undefined
      ])
  stepped left t (done true e) h k =
      bind-Ensures (k e h.outcome.1) λ rest _ e' i'. done-Ensures tt i'
  stepped left t (done false e) h k =
      bind-Ensures (after_steps-Ensures e h.outcome.1) λ rest _ e' i'. done-Ensures tt i'
  stepped left t (leave l e) h k = leave-Ensures h.outcome.0 h.outcome.1
  stepped left t undefined h k = undefined-Ensures

  cmd_step-Ensures :
      (left : ℕ) (e : Emulator) → IsEmulator e → Ensures Anything (cmd_step host left e)
  unfolding cmd_step
  cmd_step-Ensures zero e i = after_steps-Ensures e i
  cmd_step-Ensures (suc left) e i =
      by_state e.state _ _
        (bind-Ensures (step_line-Ensures e i) λ t _ e1 i1.
          stepped left t (emu_step host e1) (emu_step-Ensures host is_host e1 i1)
            (cmd_step-Ensures left))
        (done-Ensures tt i)

  -- After one instruction of `c` from a running state, and its end.
  at_pc :
      (left steps : ℕ) (bs : Breakpoints) (o : Option ℕ) (e : Emulator)
      → IsEmulator e
      → Ensures Anything (continue_from host left (steps + 1) bs e)
      → Ensures Anything (elim o as (λ _. Run (Stop × ℕ)) [
        | some i ↦ done (at_breakpoint, steps + 1) e
        | none ↦ continue_from host left (steps + 1) bs e
      ])
  at_pc left steps bs (some k) e i h = done-Ensures tt i
  at_pc left steps bs none e i h = h

  continued :
      (left steps : ℕ) (bs : Breakpoints) (r : Run Bool)
      → Ensures Anything r
      → ((e : Emulator)
          → IsEmulator e
          → Ensures Anything (continue_from host left (steps + 1) bs e))
      → Ensures Anything (elim r as (λ _. Run (Stop × ℕ)) [
        | done true e' ↦ elim e'.state as (λ _. Run (Stop × ℕ)) [
          | running ↦ elim (bp_find e'.rf.pc bs) as (λ _. Run (Stop × ℕ)) [
            | some i ↦ done (at_breakpoint, steps + 1) e'
            | none ↦ continue_from host left (steps + 1) bs e'
          ]
          | halted ↦ done (not_running, steps + 1) e'
          | exception ↦ done (not_running, steps + 1) e'
        ]
        | done false e' ↦ done (failed_step, steps) e'
        | leave l e' ↦ leave l e'
        | undefined ↦ undefined
      ])
  continued left steps bs (done true e) h k =
      let i = h.outcome.1 in
      by_state e.state _ _ (at_pc left steps bs (bp_find e.rf.pc bs) e i (k e i))
        (done-Ensures tt i)
  continued left steps bs (done false e) h k = done-Ensures tt h.outcome.1
  continued left steps bs (leave l e) h k = leave-Ensures h.outcome.0 h.outcome.1
  continued left steps bs undefined h k = undefined-Ensures

  continue_from-Ensures :
      (left steps : ℕ) (bs : Breakpoints) (e : Emulator)
      → IsEmulator e
      → Ensures Anything (continue_from host left steps bs e)
  unfolding continue_from
  continue_from-Ensures zero steps bs e i =
      by_state e.state _ _ (done-Ensures tt i) (done-Ensures tt i)
  continue_from-Ensures (suc left) steps bs e i =
      by_state e.state _ _
        (continued left steps bs (emu_step host e) (emu_step-Ensures host is_host e i)
          (continue_from-Ensures left (steps + 1) bs))
        (done-Ensures tt i)

  cmd_continue-Ensures :
      (bs : Breakpoints) (e : Emulator) → IsEmulator e → Ensures Anything (cmd_continue host bs e)
  unfolding cmd_continue
  cmd_continue-Ensures bs e i =
      bind-Ensures (continue_from-Ensures continue_limit 0 bs e i)
        λ q _ e' i'. stop_text-Ensures q e' i'

  -- A command that prints, with the table as it was.
  answered :
      (bs : Breakpoints) (m : Run Text)
      → IsTable bs
      → Ensures Anything m
      → Ensures ReplyKeeps (elim m as (λ _. Run Reply) [
        | done t e ↦ done (reply bs t) e
        | leave l e ↦ leave l e
        | undefined ↦ undefined
      ])
  answered bs m t h = bind-Ensures h λ s _ e i. done-Ensures t i

  run_command-Ensures :
      (c : Command) (cmd args : Text) (bs : Breakpoints) (e : Emulator)
      → IsTable bs
      → IsEmulator e
      → Ensures ReplyKeeps (run_command host c cmd args bs e)
  unfolding run_command
  run_command-Ensures step cmd args bs e t i =
      answered bs _ t (cmd_step-Ensures (number_or 1 args).0 e i)
  run_command-Ensures continue cmd args bs e t i = answered bs _ t (cmd_continue-Ensures bs e i)
  run_command-Ensures regs cmd args bs e t i = done-Ensures t i
  run_command-Ensures dump cmd args bs e t i = answered bs _ t (run_dump-Ensures args e i)
  run_command-Ensures disasm cmd args bs e t i = answered bs _ t (run_disasm-Ensures args e i)
  run_command-Ensures add cmd args bs e t i = done-Ensures (run_add-IsTable args bs t) i
  run_command-Ensures list cmd args bs e t i = done-Ensures t i
  run_command-Ensures delete cmd args bs e t i = done-Ensures (run_delete-IsTable args bs t) i
  run_command-Ensures clear cmd args bs e t i = done-Ensures empty-IsTable i
  run_command-Ensures help_command cmd args bs e t i = done-Ensures t i
  run_command-Ensures quit cmd args bs e t i = done-Ensures t i
  run_command-Ensures unknown_command cmd args bs e t i = done-Ensures t i

  run_line-Ensures :
      (input : Text) (bs : Breakpoints) (e : Emulator)
      → IsTable bs
      → IsEmulator e
      → Ensures ReplyKeeps (run_line host input bs e)
  unfolding run_line
  run_line-Ensures input bs e t i =
      let line = trimmed (until_zero input) in
      let cmd = scan_command line in
      let args = arguments line cmd in
      choose-Ensures (length cmd == 0) (pure (reply bs []))
        (run_command host (command cmd) cmd args bs) {e = e} (done-Ensures t i)
        (run_command-Ensures (command cmd) cmd args bs e t i)

  next_line :
      (ls : List Text) (r : Run Reply)
      → Ensures ReplyKeeps r
      → ((bs : Breakpoints) (e : Emulator)
          → IsTable bs
          → IsEmulator e
          → Ensures SessionKeeps (repl host ls bs e))
      → Ensures SessionKeeps (elim r as (λ _. Run (Breakpoints × Text)) [
        | done r e' ↦ elim r.ends as (λ _. Run (Breakpoints × Text)) [
          | true ↦ done (r.table, codes "(rvdbg) " ++ r.printed) e'
          | false ↦
              (repl host ls r.table >>= λ q.
              pure (q.0, joined (codes "(rvdbg) " ∷ r.printed ∷ q.1 ∷ [])))
                e'
        ]
        | leave l e' ↦ leave l e'
        | undefined ↦ undefined
      ])
  next_line ls (done r e) h k =
      let t = h.outcome.0 in
      let i = h.outcome.1 in
      ends r.ends _ _ (done-Ensures t i)
        (bind-Ensures (k r.table e t i) λ q s e' i'. done-Ensures s i')
  next_line ls (leave l e) h k = leave-Ensures h.outcome.0 h.outcome.1
  next_line ls undefined h k = undefined-Ensures

  repl-Ensures :
      (ls : List Text) (bs : Breakpoints) (e : Emulator)
      → IsTable bs
      → IsEmulator e
      → Ensures SessionKeeps (repl host ls bs e)
  unfolding repl
  repl-Ensures [] bs e t i = done-Ensures t i
  repl-Ensures (l ∷ ls) bs e t i =
      next_line ls (run_line host l bs e) (run_line-Ensures l bs e t i) (repl-Ensures ls)

  banner-Ensures : (e : Emulator) → IsEmulator e → Ensures Anything (banner host e)
  unfolding banner
  banner-Ensures e i =
      by_state e.state _ _ (shown (show_inst e.mem e.rf.pc) _ e i) (done-Ensures tt i)

-- Whatever is typed into the debugger, every state it leaves is well formed, and the table holds
-- at most 32 breakpoints, each once, unless the code reads or writes where C leaves the behaviour
-- undefined: stepping, running on, dumping, disassembling, setting and deleting breakpoints included.
pub debug_repl-Ensures :
    (host : HostFloat)
    → IsHost host
    → (input : Text) (bs : Breakpoints) (e : Emulator) → IsTable bs
    → IsEmulator e
    → Ensures SessionKeeps (debug_repl host input bs e)
unfolding debug_repl
debug_repl-Ensures host is_host input bs e t i =
    bind-Ensures (banner-Ensures host is_host e i) λ opening _ e1 i1.
      bind-Ensures (repl-Ensures host is_host (split_lines 127 [] input) bs e1 t i1)
        λ q s e2 i2. done-Ensures s i2

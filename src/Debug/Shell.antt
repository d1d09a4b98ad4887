-- ===== src/Debug/Shell.antt =====
-- src/debug.c: the commands of the debugger and its loop over the lines of the input. What it prints
-- is a text; what the program under test writes to the console stands in the memory of the model.
use rv32i_emu.Base.{ℕ, zero, suc, true, false, List, [], ◌∷◌, ◌++◌, ◌==◌, if◌then◌else◌, length}
use rv32i_emu.Base.Text.{Text, codes, joined}
use rv32i_emu.Machine.{running, done, leave, undefined, Exec, ◌>>=◌, pure, gets}
use rv32i_emu.Fpu.Host.{HostFloat}
use rv32i_emu.Emu.{emu_step}
use rv32i_emu.Dump.{regfile_dump, csr_dump}
use rv32i_emu.Debug.{Breakpoints, continue_from, continue_limit}
use rv32i_emu.Debug.Input.{number_or, split_lines, until_zero, trimmed, scan_command}
use rv32i_emu.Debug.Show.{bp_list, show_inst, show_status}
use rv32i_emu.Debug.Commands.{
  printing, after_steps, stop_text, step_line, help, Command, step, continue, regs, dump, disasm,
  add, list, delete, clear, help_command, quit, unknown_command, command, Reply, reply, run_dump,
  run_disasm, run_add, run_delete, arguments,
}

module _ (host : HostFloat) where
  -- cmd_step, with `left` rounds to go.
  unfoldable pub cmd_step : ℕ → Exec Text
  unfolding after_steps step_line emu_step show_status
  cmd_step zero e = after_steps e
  cmd_step (suc left) e = elim e.state [
    | running ↦
        (step_line >>= λ t e1. elim (emu_step host e1) [
          | done true e2 ↦ (cmd_step left >>= λ rest. pure (t ++ rest)) e2
          | done false e2 ↦ (after_steps >>= λ rest. pure (t ++ rest)) e2
          | leave l e2 ↦ leave l e2
          | undefined ↦ undefined
        ])
          e
    | _ ↦ done (codes "emulator is not running\n" ++ show_status e) e
  ]

  unfoldable pub cmd_continue : Breakpoints → Exec Text
  unfolding continue_from stop_text
  cmd_continue bs = continue_from host continue_limit 0 bs >>= stop_text

  -- One command with its arguments; `cmd` is named when it is unknown.
  unfoldable pub run_command : Command → Text → Text → Breakpoints → Exec Reply
  unfolding cmd_step cmd_continue run_dump run_disasm run_add run_delete bp_list number_or
      regfile_dump csr_dump
  run_command step cmd args bs = cmd_step (number_or 1 args).0 >>= λ t. pure (reply bs t)
  run_command continue cmd args bs = cmd_continue bs >>= λ t. pure (reply bs t)
  run_command regs cmd args bs = gets (λ e. reply bs (regfile_dump e.rf ++ csr_dump e.csr))
  run_command dump cmd args bs = run_dump args >>= λ t. pure (reply bs t)
  run_command disasm cmd args bs = run_disasm args >>= λ t. pure (reply bs t)
  run_command add cmd args bs = pure (run_add args bs)
  run_command list cmd args bs = pure (reply bs (bp_list bs))
  run_command delete cmd args bs = pure (run_delete args bs)
  run_command clear cmd args bs = pure (reply [] (codes "all breakpoints cleared\n"))
  run_command help_command cmd args bs = pure (reply bs help)
  run_command quit cmd args bs = pure (record { table = bs; printed = []; ends = true })
  run_command unknown_command cmd args bs =
      pure (reply bs (joined (codes "unknown command: " ∷ cmd ∷ codes " (try 'h')\n" ∷ [])))

  -- One line of the input, with its newline. A blank line does nothing.
  unfoldable pub run_line : Text → Breakpoints → Exec Reply
  unfolding trimmed scan_command command arguments run_command
  run_line input bs =
      let line = trimmed (until_zero input) in
      let cmd = scan_command line in
      if length cmd == 0
      then pure (reply bs [])
      else run_command (command cmd) cmd (arguments line cmd) bs

  -- The loop: the breakpoints at its end, and what it printed.
  unfoldable pub repl : List Text → Breakpoints → Exec (Breakpoints × Text)
  unfolding run_line
  repl [] bs e = done (bs, codes "(rvdbg) \n") e
  repl (l ∷ ls) bs e = elim (run_line l bs e) [
    | done r e' ↦ elim r.ends [
      | true ↦ done (r.table, codes "(rvdbg) " ++ r.printed) e'
      | false ↦
          (repl ls r.table >>= λ q. pure (q.0, joined (codes "(rvdbg) " ∷ r.printed ∷ q.1 ∷ []))) e'
    ]
    | leave l e' ↦ leave l e'
    | undefined ↦ undefined
  ]

  unfoldable pub banner : Exec Text
  unfolding show_status show_inst printing
  banner e =
      let opening =
        codes "\n=== RV32I Debugger ===\nType 'h' for help, 'q' to quit.\n" ++ show_status e in
      elim e.state [
        | running ↦ (printing (show_inst e.mem e.rf.pc) >>= λ t. pure (opening ++ t)) e
        | _ ↦ done opening e
      ]

  -- debug_repl on the whole input, with the breakpoints set before.
  unfoldable pub debug_repl : Text → Breakpoints → Exec (Breakpoints × Text)
  unfolding banner repl split_lines
  debug_repl input bs = do
    opening ← banner
    q ← repl (split_lines 127 [] input) bs
    pure (q.0, opening ++ q.1)

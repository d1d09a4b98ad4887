-- ===== src/Debug/Commands.antt =====
-- src/debug.c: the commands of the debugger that do not run the emulator, and what the others print.
use rv32i_emu.Base.{
  ℕ, Option, none, some, Bool, false, List, [], ◌∷◌, ◌++◌, ◌||◌, ◌==◌, if◌then◌else◌, length,
}
use rv32i_emu.Base.Text.{Text, codes, joined, decimal, text_eq, drop}
use rv32i_emu.Machine.{running, done, undefined, Exec, ◌>>=◌, pure}
use rv32i_emu.Dump.{address, memory_dump}
use rv32i_emu.Debug.{
  Breakpoints, bp_add, bp_del, Stop, at_limit, failed_step, not_running, at_breakpoint,
  continue_limit,
}
use rv32i_emu.Debug.Input.{is_blank, skip_while, next_u32, number_or}
use rv32i_emu.Debug.Show.{bp_add_message, bp_del_message, show_inst, cmd_disasm, show_status}

-- Printing reads memory; a read outside the array is undefined.
unfoldable pub printing : Option Text → Exec Text
printing (some t) e = done t e
printing none e = undefined

-- The end of cmd_step.
unfoldable pub after_steps : Exec Text
unfolding printing show_inst show_status
after_steps e = elim e.state [
  | running ↦ (printing (show_inst e.mem e.rf.pc) >>= λ t. pure (codes "[next]\n" ++ t)) e
  | _ ↦ done (show_status e) e
]

-- What cmd_continue prints.
unfoldable pub stop_text : Stop × ℕ → Exec Text
unfolding printing show_inst show_status decimal
stop_text (at_limit, steps) e =
    done
      (joined (
        codes "stopped after "
        ∷ decimal continue_limit
        ∷ codes " steps (limit). Use 's' to continue.\n"
        ∷ []))
      e
stop_text (failed_step, steps) e = done (show_status e) e
stop_text (not_running, steps) e = done (show_status e) e
stop_text (at_breakpoint, steps) e =
    (printing (show_inst e.mem e.rf.pc) >>= λ t. pure (
        joined (
          codes "[break] hit breakpoint\n"
          ∷ show_status e
          ∷ t
          ∷ codes "executed "
          ∷ decimal steps
          ∷ codes " instructions\n"
          ∷ [])))
      e

unfoldable pub step_line : Exec Text
unfolding printing show_inst address
step_line e =
    (printing (show_inst e.mem e.rf.pc) >>= λ t.
    pure (joined (codes "[step] pc=" ∷ address e.rf.pc ∷ codes "\n" ∷ t ∷ [])))
      e

abbrev pub help : Text
help = joined (
    codes "commands:\n"
    ∷ codes "  s [n]         step n instructions (default 1)\n"
    ∷ codes "  c             continue until breakpoint / halt\n"
    ∷ codes "  r             dump registers and CSRs\n"
    ∷ codes "  x <addr> [n]  dump n bytes of memory (default 64)\n"
    ∷ codes "  d [addr] [n]  disassemble n instructions (default: pc, 8)\n"
    ∷ codes "  b <addr>      set breakpoint\n"
    ∷ codes "  bl            list breakpoints\n"
    ∷ codes "  bd <addr>     delete breakpoint\n"
    ∷ codes "  bc            clear all breakpoints\n"
    ∷ codes "  h             help\n"
    ∷ codes "  q             quit\n"
    ∷ [])

-- The commands, as the strcmp chain tells them apart.
pub data Command : Type 0 where
  step continue regs dump disasm add list delete clear help_command quit unknown_command : Command

abbrev pub is_one_of : Text → List Text → Bool
is_one_of cmd [] = false
is_one_of cmd (t ∷ ts) = text_eq cmd t || is_one_of cmd ts

unfoldable pub command : Text → Command
command cmd =
    if is_one_of cmd (codes "s" ∷ codes "step" ∷ [])
    then step
    else if is_one_of cmd (codes "c" ∷ codes "continue" ∷ [])
    then continue
    else if is_one_of cmd (codes "r" ∷ codes "regs" ∷ [])
    then regs
    else if is_one_of cmd (codes "x" ∷ [])
    then dump
    else if is_one_of cmd (codes "d" ∷ codes "dis" ∷ [])
    then disasm
    else if is_one_of cmd (codes "b" ∷ [])
    then add
    else if is_one_of cmd (codes "bl" ∷ [])
    then list
    else if is_one_of cmd (codes "bd" ∷ [])
    then delete
    else if is_one_of cmd (codes "bc" ∷ [])
    then clear
    else if is_one_of cmd (codes "h" ∷ codes "help" ∷ codes "?" ∷ [])
    then help_command
    else if is_one_of cmd (codes "q" ∷ codes "quit" ∷ [])
    then quit
    else unknown_command

-- After a command: the breakpoints, what it printed, and whether the loop ends.
pub record Reply : Type 0 where
  pub table : Breakpoints
  pub printed : Text
  pub ends : Bool

abbrev pub reply : Breakpoints → Text → Reply
reply bs t = record { table = bs; printed = t; ends = false }

-- `x` and `d`, with the numbers that args gives.
unfoldable pub run_dump : Text → Exec Text
unfolding next_u32 number_or memory_dump printing
run_dump args e = elim (next_u32 args) [
  | none ↦ done (codes "usage: x <addr> [len]\n") e
  | some (addr, rest) ↦ printing (memory_dump e.mem addr (number_or 64 rest).0) e
]

unfoldable pub run_disasm : Text → Exec Text
unfolding number_or cmd_disasm printing
run_disasm args e =
    let (addr, rest) = number_or e.rf.pc args in
    let n = (number_or 8 rest).0 in printing (cmd_disasm e.mem addr (if n == 0 then 8 else n)) e

unfoldable pub run_add : Text → Breakpoints → Reply
unfolding next_u32 bp_add bp_add_message
run_add args bs = elim (next_u32 args) [
  | none ↦ reply bs (codes "usage: b <addr>\n")
  | some (addr, rest) ↦ reply (bp_add addr bs) (bp_add_message addr bs)
]

unfoldable pub run_delete : Text → Breakpoints → Reply
unfolding next_u32 bp_del bp_del_message
run_delete args bs = elim (next_u32 args) [
  | none ↦ reply bs (codes "usage: bd <addr>\n")
  | some (addr, rest) ↦ reply (bp_del addr bs) (bp_del_message addr bs)
]

-- The text after the command, counted from the start of the line.
unfoldable pub arguments : Text → Text → Text
arguments line cmd = skip_while is_blank (drop (length cmd) line)

-- ===== src/Invariant/Commands.antt =====
-- The commands of src/debug.c that do not run the emulator, and the invariant of the breakpoint table.
use rv32i_emu.Base.{ℕ, ◌≤◌, Bool, true, false, Option, none, some, [], ◌++◌, arith, length}
use rv32i_emu.Base.Text.{Text, codes}
use rv32i_emu.Machine.{EmuState, running, halted, exception, Emulator, Run, done, ◌>>=◌, pure}
use rv32i_emu.Debug.{
  Breakpoints, max_breakpoints, bp_add, bp_del, Stop, at_limit, failed_step, not_running,
  at_breakpoint,
}
use rv32i_emu.Debug.Breakpoints.{count, bp_add-bp_del}
use rv32i_emu.Debug.Input.{next_u32, number_or}
use rv32i_emu.Debug.Show.{show_inst, bp_add_message, bp_del_message}
use rv32i_emu.Dump.{memory_dump}
use rv32i_emu.Debug.Commands.{
  printing, after_steps, stop_text, step_line, Reply, reply, run_dump, run_disasm, run_add,
  run_delete,
}
use rv32i_emu.Invariant.State.{
  IsEmulator, Ensures, Anything, done-Ensures, undefined-Ensures, bind-Ensures,
}

-- At most 32 breakpoints, each once.
pub record IsTable (bs : Breakpoints) : Type 0 where
  pub once : (x : ℕ) → count x bs ≤ 1
  pub room : length bs ≤ max_breakpoints

abbrev pub ReplyKeeps : Reply → Type 0
ReplyKeeps r = IsTable r.table

abbrev pub SessionKeeps : Breakpoints × Text → Type 0
SessionKeeps q = IsTable q.0

pub empty-IsTable : IsTable []
unfolding count
empty-IsTable = record { once = λ x. omega arith; room = omega arith }

-- Both ends of a round of the loop.
pub ends :
    {A : Type 0} {Q : A → Type 0} (b : Bool) (x y : Run A)
    → Ensures Q x
    → Ensures Q y
    → Ensures Q (elim b as (λ _. Run A) [ true ↦ x | false ↦ y ])
ends true x y h k = h
ends false x y h k = k

pub printing-Ensures :
    (t : Option Text) (e : Emulator) → IsEmulator e → Ensures Anything (printing t e)
unfolding printing
printing-Ensures (some t) e i = done-Ensures tt i
printing-Ensures none e i = undefined-Ensures

-- A text made of one that is printed.
pub shown :
    (t : Option Text) (f : Text → Text) (e : Emulator)
    → IsEmulator e
    → Ensures Anything ((printing t >>= λ s. pure (f s)) e)
shown t f e i = bind-Ensures (printing-Ensures t e i) λ s h e' i'. done-Ensures tt i'

pub by_state :
    {A : Type 0} {Q : A → Type 0} (s : EmuState) (x y : Run A)
    → Ensures Q x
    → Ensures Q y
    → Ensures Q (elim s as (λ _. Run A) [ running ↦ x | halted ↦ y | exception ↦ y ])
by_state running x y h k = h
by_state halted x y h k = k
by_state exception x y h k = k

pub after_steps-Ensures : (e : Emulator) → IsEmulator e → Ensures Anything (after_steps e)
unfolding after_steps
after_steps-Ensures e i =
    by_state e.state _ _ (shown (show_inst e.mem e.rf.pc) (λ t. codes "[next]\n" ++ t) e i)
      (done-Ensures tt i)

pub step_line-Ensures : (e : Emulator) → IsEmulator e → Ensures Anything (step_line e)
unfolding step_line
step_line-Ensures e i =
    bind-Ensures (printing-Ensures (show_inst e.mem e.rf.pc) e i) λ s h e' i'. done-Ensures tt i'

pub stop_text-Ensures :
    (q : Stop × ℕ) (e : Emulator) → IsEmulator e → Ensures Anything (stop_text q e)
unfolding stop_text
stop_text-Ensures (at_limit, n) e i = done-Ensures tt i
stop_text-Ensures (failed_step, n) e i = done-Ensures tt i
stop_text-Ensures (not_running, n) e i = done-Ensures tt i
stop_text-Ensures (at_breakpoint, n) e i =
    bind-Ensures (printing-Ensures (show_inst e.mem e.rf.pc) e i) λ s h e' i'. done-Ensures tt i'

pub run_dump-Ensures :
    (args : Text) (e : Emulator) → IsEmulator e → Ensures Anything (run_dump args e)
unfolding run_dump
run_dump-Ensures args e i =
    elim (next_u32 args)
      as (λ o. Ensures Anything (elim o as (λ _. Run Text) [
        | none ↦ done (codes "usage: x <addr> [len]\n") e
        | some r ↦ printing (memory_dump e.mem r.0 (number_or 64 r.1).0) e
      ])) [
        | none ↦ done-Ensures tt i
        | some (addr, rest) ↦ printing-Ensures (memory_dump e.mem addr (number_or 64 rest).0) e i
      ]

pub run_disasm-Ensures :
    (args : Text) (e : Emulator) → IsEmulator e → Ensures Anything (run_disasm args e)
unfolding run_disasm
run_disasm-Ensures args e i = printing-Ensures _ e i

-- The table after `b` and `bd`.
pub run_add-IsTable : (args : Text) (bs : Breakpoints) → IsTable bs → ReplyKeeps (run_add args bs)
unfolding run_add
run_add-IsTable args bs t =
    elim (next_u32 args)
      as (λ o. ReplyKeeps (elim o as (λ _. Reply) [
        | none ↦ reply bs (codes "usage: b <addr>\n")
        | some r ↦ reply (bp_add r.0 bs) (bp_add_message r.0 bs)
      ])) [
        | none ↦ t
        | some (addr, rest) ↦
            let k = bp_add-bp_del addr bs t.once t.room in record { once = k.2; room = k.3 }
      ]

pub run_delete-IsTable :
    (args : Text) (bs : Breakpoints) → IsTable bs → ReplyKeeps (run_delete args bs)
unfolding run_delete
run_delete-IsTable args bs t =
    elim (next_u32 args)
      as (λ o. ReplyKeeps (elim o as (λ _. Reply) [
        | none ↦ reply bs (codes "usage: bd <addr>\n")
        | some r ↦ reply (bp_del r.0 bs) (bp_del_message r.0 bs)
      ])) [
        | none ↦ t
        | some (addr, rest) ↦
            let k = bp_add-bp_del addr bs t.once t.room in
            record { once = λ x. ground (arith, k.1 x, t.once x); room = k.4 }
      ]

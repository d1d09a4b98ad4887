-- ===== src/Invariant/Course.antt =====
-- The course of the program of src/main.c with a bound on the steps.
use rv32i_emu.Base.{
  ℕ, ◌+◌, ◌^◌, ◌<◌, ◌≤◌, ◌≡◌, refl, arith, Option, none, some, Bool, true, false, List, [],
  if◌then◌else◌, ◌++◌,
}
use rv32i_emu.Base.Text.{Text}
use rv32i_emu.Memory.{Access, ok, refused, out_of_bounds}
use rv32i_emu.Machine.{Emulator, Run, done, leave, undefined}
use rv32i_emu.Fpu.Host.{HostFloat}
use rv32i_emu.Emu.{emu_init, emu_load_elf, emu_run}
use rv32i_emu.Main.{
  Options, options, Exit, exited, self_tests, out_of_fuel, run_loaded, load_and_run, main,
  no_options, parse_args, loaded_text, run_report, load_failed, usage, banner_text,
}
use rv32i_emu.Main.Arguments.{max_steps-lt}
use rv32i_emu.Invariant.State.{IsEmulator}
use rv32i_emu.Invariant.Floats.{IsHost}
use rv32i_emu.Invariant.Stepped.{emu_init-IsEmulator}
use rv32i_emu.Invariant.Loaded.{IsFile, Gives, LoadResult, emu_load_elf-Gives}
use rv32i_emu.Invariant.Ran.{Ends, emu_run-Ends}

-- The program exits, with code 0 or 1, and in a well-formed state.
abbrev MainEnd : Run Exit → Type 0
MainEnd (done (exited code t) e) = (code ≤ 1) × IsEmulator e
MainEnd (done self_tests e) = IsEmulator e
MainEnd (done out_of_fuel e) = ⊥
MainEnd (leave l e) = ⊥
MainEnd undefined = Unit

pub record MainEnds (r : Run Exit) : Type 0 where
  pub main_end : MainEnd r

module _ (host : HostFloat) (is_host : IsHost host) (files : Text → Option (List ℕ))
    (are_files : (path : Text) (file : List ℕ) → files path ≡ some file → IsFile file)
    (stdin : Text) (o : Options) (runs : o.debug ≡ false) (pos : 0 < o.max_steps)
    (fits : o.max_steps < 2 ^ 64) where
  reported :
      (path : Text) (e : Emulator) (r : Run (Option ℕ))
      → Ends o.max_steps r
      → MainEnds (elim r as (λ _. Run Exit) [
        | done (some steps) e' ↦ done (exited 0 (loaded_text path e ++ run_report steps e')) e'
        | done none e' ↦ done out_of_fuel e'
        | leave l e' ↦ leave l e'
        | undefined ↦ undefined
      ])
  reported path e (done (some n) e') h = record { main_end = (omega arith, h.ends.2) }
  reported path e (done none e') h = absurd h.ends
  reported path e (leave l e') h = absurd h.ends
  reported path e undefined h = record { main_end = tt }

  run_loaded-MainEnds :
      (path : Text) (e : Emulator)
      → IsEmulator e
      → MainEnds (run_loaded host files (o.max_steps + 1) stdin o path e)
  unfolding run_loaded
  run_loaded-MainEnds path e i =
      rw (run_loaded, runs)
        (reported path e (emu_run host (o.max_steps + 1) o.max_steps e)
          (emu_run-Ends host is_host o.max_steps e pos fits i))

  after_load :
      (path : Text) (r : Access (Emulator × Bool))
      → Gives (LoadResult (emu_init [])) r
      → MainEnds (elim r as (λ _. Run Exit) [
        | ok (e, true) ↦ run_loaded host files (o.max_steps + 1) stdin o path e
        | ok (e, false) ↦ done (load_failed path) e
        | refused ↦ undefined
        | out_of_bounds ↦ undefined
      ])
  unfolding load_failed
  after_load path (ok (e, true)) g = run_loaded-MainEnds path e g.holds.0
  after_load path (ok (e, false)) g = record { main_end = (omega arith, g.holds.0) }
  after_load path refused g = record { main_end = tt }
  after_load path out_of_bounds g = record { main_end = tt }

  by_file :
      (path : Text) (f : Option (List ℕ))
      → ((file : List ℕ) → f ≡ some file → IsFile file)
      → MainEnds (elim f as (λ _. Run Exit) [
        | none ↦ done (load_failed path) (emu_init [])
        | some file ↦ elim (emu_load_elf file (emu_init [])) as (λ _. Run Exit) [
          | ok (e, true) ↦ run_loaded host files (o.max_steps + 1) stdin o path e
          | ok (e, false) ↦ done (load_failed path) e
          | refused ↦ undefined
          | out_of_bounds ↦ undefined
        ]
      ])
  unfolding load_failed
  by_file path none k = record { main_end = (omega arith, emu_init-IsEmulator []) }
  by_file path (some file) k =
      after_load path (emu_load_elf file (emu_init []))
        (emu_load_elf-Gives file (emu_init []) (k file refl) (emu_init-IsEmulator []))

  load_and_run-MainEnds :
      (path : Text) → MainEnds (load_and_run host files (o.max_steps + 1) stdin o path)
  unfolding load_and_run
  load_and_run-MainEnds path = by_file path (files path) (are_files path)

  chosen :
      (p : Option Text) (prog : Text)
      → MainEnds (elim p as (λ _. Run Exit) [
        | none ↦ done (exited 1 (banner_text ++ usage prog)) (emu_init [])
        | some path ↦ load_and_run host files (o.max_steps + 1) stdin o path
      ])
  chosen none prog = record { main_end = (omega arith, emu_init-IsEmulator []) }
  chosen (some path) prog = load_and_run-MainEnds path

  either :
      (b : Bool) {x : Run Exit}
      → MainEnds x
      → MainEnds (if b then done self_tests (emu_init []) else x)
  either true h = record { main_end = emu_init-IsEmulator [] }
  either false h = h

-- With --steps N, for a positive N, and without the debugger the program comes to its end: unless it
-- meets undefined behaviour it exits with code 0 or 1, or runs its self-tests, and fuel of one more than
-- N is never used up; and the emulator is left in a well-formed state, whatever the file holds.
pub main-MainEnds :
    (host : HostFloat)
    → IsHost host
    → (files : Text → Option (List ℕ))
    → ((path : Text) (file : List ℕ) → files path ≡ some file → IsFile file)
    → (stdin prog : Text) (args : List Text) (o : Options) → parse_args args no_options ≡ options o
    → o.debug ≡ false
    → 0 < o.max_steps
    → MainEnds (main host files (o.max_steps + 1) stdin prog args)
unfolding main
main-MainEnds host is_host files are_files stdin prog args o parsed runs pos =
    let fits = max_steps-lt args parsed in
    rw (main, parsed)
      (either host is_host files are_files stdin o runs pos fits o.selftest
        (chosen host is_host files are_files stdin o runs pos fits o.path prog))

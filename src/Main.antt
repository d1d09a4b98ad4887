-- ===== src/Main.antt =====
-- src/main.c: the command line and the course of the program. The host's files are a parameter; the
-- messages of the loader are left out of what is printed.
pub mod Arguments
use rv32i_emu.Base.{
  ℕ, Option, none, some, Bool, true, false, not, List, [], ◌∷◌, ◌++◌, ◌||◌, ◌&&◌, ◌==◌,
  if◌then◌else◌,
}
use rv32i_emu.Base.Text.{Text, codes, joined, decimal, text_eq}
use rv32i_emu.Memory.{Access, ok, refused, out_of_bounds}
use rv32i_emu.Machine.{Emulator, Run, done, leave, undefined}
use rv32i_emu.Fpu.Host.{HostFloat}
use rv32i_emu.Emu.{emu_init, emu_load_elf, emu_run}
use rv32i_emu.Dump.{address, emu_dump_state}
use rv32i_emu.Debug.Input.{strtoul}
use rv32i_emu.Debug.Shell.{debug_repl}

unfoldable pub usage : Text → Text
usage prog = joined (
    codes "Usage: "
    ∷ prog
    ∷ codes " [options] <riscv-elf>\n"
    ∷ codes "       "
    ∷ prog
    ∷ codes " --selftest\n"
    ∷ codes "\nOptions:\n"
    ∷ codes "  -d, --debug      interactive debugger\n"
    ∷ codes "  --steps N        stop after N instructions\n"
    ∷ codes "  -h, --help       this message\n"
    ∷ [])

-- The variables that the loop over argv sets.
pub record Options : Type 0 where
  pub path : Option Text
  pub debug : Bool
  pub selftest : Bool
  pub max_steps : ℕ

abbrev pub no_options : Options
no_options = record { path = none; debug = false; selftest = false; max_steps = 0 }

-- How the loop ends: with the options, or with a return from main.
pub data Parsed : Type 0 where
  options : Options → Parsed
  help : Parsed
  unknown_option : Text → Parsed

-- What an argument is, by the strcmp chain; `last` when no argument follows it.
pub data Argument : Type 0 where
  selftest_option debug_option steps_option help_option unknown path_argument : Argument

abbrev pub is_option : Text → Bool
is_option [] = false
is_option (c ∷ t) = c == b'-'

unfoldable pub argument : Text → Bool → Argument
argument arg last =
    if text_eq arg (codes "--selftest")
    then selftest_option
    else if text_eq arg (codes "-d") || text_eq arg (codes "--debug")
    then debug_option
    else if text_eq arg (codes "--steps") && not last
    then steps_option
    else if text_eq arg (codes "-h") || text_eq arg (codes "--help")
    then help_option
    else if is_option arg
    then unknown
    else path_argument

-- (u64)strtoul(arg, NULL, 0)
unfoldable pub steps_of : Text → ℕ
unfolding strtoul
steps_of arg = elim (strtoul arg) [ some (n, end) ↦ n | none ↦ 0 ]

-- The loop over argv[1], argv[2], ...
unfoldable pub parse_args : List Text → Options → Parsed
unfolding argument steps_of
parse_args [] o = options o
parse_args (arg ∷ []) o = elim (argument arg true) [
  | selftest_option ↦ options (record o { selftest = true })
  | debug_option ↦ options (record o { debug = true })
  | steps_option ↦ options o
  | help_option ↦ help
  | unknown ↦ unknown_option arg
  | path_argument ↦ options (record o { path = some arg })
]
parse_args (arg ∷ next ∷ rest) o = elim (argument arg false) [
  | selftest_option ↦ parse_args (next ∷ rest) (record o { selftest = true })
  | debug_option ↦ parse_args (next ∷ rest) (record o { debug = true })
  | steps_option ↦ parse_args rest (record o { max_steps = steps_of next })
  | help_option ↦ help
  | unknown ↦ unknown_option arg
  | path_argument ↦ parse_args (next ∷ rest) (record o { path = some arg })
]

abbrev pub banner_text : Text
banner_text = joined (
    codes "┌──────────────────────────────────────┐\n"
    ∷ codes "│  RV32I Emulator v0.8                 │\n"
    ∷ codes "│  RV32IMAFC + trap + Sv32 + S/U-mode   │\n"
    ∷ codes "└──────────────────────────────────────┘\n\n"
    ∷ [])

-- The exit code and what was printed; the self-tests, which SelfTest models; or the end of the fuel
-- of emu_run. The state beside it is that before emu_free.
pub data Exit : Type 0 where
  exited : ℕ → Text → Exit
  self_tests out_of_fuel : Exit

unfoldable pub load_failed : Text → Exit
load_failed path = exited 1 (
    joined
      (banner_text ∷ codes "[LOAD] " ∷ path ∷ codes "\n  FAILED: could not load ELF file.\n" ∷ []))

unfoldable pub loaded_text : Text → Emulator → Text
unfolding address
loaded_text path e = joined (
    banner_text
    ∷ codes "[LOAD] "
    ∷ path
    ∷ codes "\n  entry = "
    ∷ address e.entry
    ∷ codes "\n  pc    = "
    ∷ address e.rf.pc
    ∷ codes "\n"
    ∷ [])

unfoldable pub run_report : ℕ → Emulator → Text
unfolding decimal emu_dump_state
run_report steps e = joined (
    codes "\n[RUN]\n[RUN] "
    ∷ decimal steps
    ∷ codes " instructions executed\n"
    ∷ emu_dump_state e
    ∷ [])

module _ (host : HostFloat) (files : Text → Option (List ℕ)) (fuel : ℕ) (stdin : Text) where
  unfoldable pub run_loaded : Options → Text → Emulator → Run Exit
  unfolding loaded_text run_report debug_repl emu_run
  run_loaded o path e = elim o.debug [
    | true ↦ elim (debug_repl host stdin [] e) [
      | done (bs, t) e' ↦ done (exited 0 (loaded_text path e ++ t)) e'
      | leave l e' ↦ leave l e'
      | undefined ↦ undefined
    ]
    | false ↦ elim (emu_run host fuel o.max_steps e) [
      | done (some steps) e' ↦ done (exited 0 (loaded_text path e ++ run_report steps e')) e'
      | done none e' ↦ done out_of_fuel e'
      | leave l e' ↦ leave l e'
      | undefined ↦ undefined
    ]
  ]

  unfoldable pub load_and_run : Options → Text → Run Exit
  unfolding run_loaded load_failed emu_init emu_load_elf
  load_and_run o path = elim (files path) [
    | none ↦ done (load_failed path) (emu_init [])
    | some file ↦ elim (emu_load_elf file (emu_init [])) [
      | ok (e, true) ↦ run_loaded o path e
      | ok (e, false) ↦ done (load_failed path) e
      | refused ↦ undefined
      | out_of_bounds ↦ undefined
    ]
  ]

  unfoldable pub main : Text → List Text → Run Exit
  unfolding parse_args load_and_run usage emu_init
  main prog args = elim (parse_args args no_options) [
    | help ↦ done (exited 0 (usage prog)) (emu_init [])
    | unknown_option arg ↦
        done (exited 1 (joined (codes "unknown option: " ∷ arg ∷ codes "\n" ∷ usage prog ∷ [])))
          (emu_init [])
    | options o ↦
        if o.selftest then done self_tests (emu_init []) else elim o.path as (λ _. Run Exit) [
          | none ↦ done (exited 1 (banner_text ++ usage prog)) (emu_init [])
          | some path ↦ load_and_run o path
        ]
  ]

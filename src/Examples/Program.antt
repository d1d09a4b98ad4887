-- ===== src/Examples/Program.antt =====
-- A file that is loaded, a step, and the program with a bound on its steps.
use rv32i_emu.Base.{ℕ, ◌+◌, ◌≡◌, refl, arith, Option, some, false, List, [], ◌∷◌}
use rv32i_emu.Base.Text.{Text, codes}
use rv32i_emu.Emu.{emu_init, emu_load_elf, emu_step}
use rv32i_emu.Main.{Options, options, no_options, parse_args, main}
use rv32i_emu.Invariant.Stepped.{emu_init-IsEmulator}
use rv32i_emu.Invariant.Stopped.{StepEnds, emu_step-StepEnds}
use rv32i_emu.Invariant.Loaded.{IsFile, are_bytes-IsFile, Gives, LoadResult, emu_load_elf-Gives}
use rv32i_emu.Invariant.Course.{MainEnds, main-MainEnds}
use rv32i_emu.Examples.Host.{zero_host, zero_host-IsHost, reset, reset-IsEmulator}

-- One executable segment of four bytes at 0x1000: ebreak.
abbrev elf_file : List ℕ
elf_file =
    0x7f ∷ 0x45 ∷ 0x4c ∷ 0x46 ∷ 1 ∷ 1 ∷ 1 ∷ 0 ∷ 0 ∷ 0 ∷ 0 ∷ 0 ∷ 0 ∷ 0 ∷ 0 ∷ 0 ∷ 2 ∷ 0 ∷ 0xf3 ∷ 0 ∷ 1
    ∷ 0 ∷ 0 ∷ 0 ∷ 0 ∷ 0x10 ∷ 0 ∷ 0 ∷ 52 ∷ 0 ∷ 0 ∷ 0 ∷ 0 ∷ 0 ∷ 0 ∷ 0 ∷ 0 ∷ 0 ∷ 0 ∷ 0 ∷ 52 ∷ 0 ∷ 32
    ∷ 0 ∷ 1 ∷ 0 ∷ 0 ∷ 0 ∷ 0 ∷ 0 ∷ 0 ∷ 0 ∷ 1 ∷ 0 ∷ 0 ∷ 0 ∷ 84 ∷ 0 ∷ 0 ∷ 0 ∷ 0 ∷ 0x10 ∷ 0 ∷ 0 ∷ 0
    ∷ 0x10 ∷ 0 ∷ 0 ∷ 4 ∷ 0 ∷ 0 ∷ 0 ∷ 4 ∷ 0 ∷ 0 ∷ 0 ∷ 5 ∷ 0 ∷ 0 ∷ 0 ∷ 0 ∷ 0x10 ∷ 0 ∷ 0 ∷ 0x73 ∷ 0
    ∷ 0x10 ∷ 0 ∷ []

elf_file-IsFile : IsFile elf_file
elf_file-IsFile = are_bytes-IsFile elf_file refl

emu_load_elf-Gives_example : Gives (LoadResult (emu_init [])) (emu_load_elf elf_file (emu_init []))
emu_load_elf-Gives_example =
    emu_load_elf-Gives elf_file (emu_init []) elf_file-IsFile (emu_init-IsEmulator [])

emu_step-StepEnds_example : StepEnds (emu_step zero_host reset)
emu_step-StepEnds_example = emu_step-StepEnds zero_host zero_host-IsHost reset reset-IsEmulator

-- Every path leads to the file above.
abbrev disk : Text → Option (List ℕ)
disk path = some elf_file

disk_files : (path : Text) (file : List ℕ) → disk path ≡ some file → IsFile file
disk_files path file h = rw (← file_is path file h) elf_file-IsFile
  where
    file_is : (path : Text) (file : List ℕ) → disk path ≡ some file → elf_file ≡ file
    file_is path file h = cc

abbrev argv : List Text
argv = codes "--steps" ∷ codes "10" ∷ codes "a.elf" ∷ []

abbrev chosen : Options
chosen = record { path = some (codes "a.elf"); debug = false; selftest = false; max_steps = 10 }

argv_parsed : parse_args argv no_options ≡ options chosen
unfolding parse_args
argv_parsed = refl

main-MainEnds_example : MainEnds (main zero_host disk (10 + 1) [] (codes "rvemu") argv)
main-MainEnds_example =
    main-MainEnds zero_host zero_host-IsHost disk disk_files [] (codes "rvemu") argv chosen
      argv_parsed refl (omega arith)

-- ===== src/Examples/Debugged.antt =====
-- A session of the debugger, one command, a number read back, and a dump.
use rv32i_emu.Base.{
  ◌+◌, ◌^◌, ◌≤◌, ◌<◌, ◌≡◌, ◌≢◌, ◌⊎◌, ◌↔◌, refl, arith, none, some, false, [], ◌∷◌, ◌++◌,
}
use rv32i_emu.Base.Text.{codes, word_hex}
use rv32i_emu.Memory.{Memory, memory_init}
use rv32i_emu.Dump.{memory_dump}
use rv32i_emu.Dump.Bounds.{memory_dump_lem}
use rv32i_emu.Debug.Input.{starts_digit, next_u32}
use rv32i_emu.Debug.Input.Numbers.{next_u32-word_hex}
use rv32i_emu.Debug.Shell.{debug_repl}
use rv32i_emu.Invariant.State.{Ensures}
use rv32i_emu.Invariant.Commands.{SessionKeeps, empty-IsTable}
use rv32i_emu.Invariant.Session.{debug_repl-Ensures}
use rv32i_emu.Examples.Host.{zero_host, zero_host-IsHost, reset, reset-IsEmulator}

-- An address and a count, as in "x 0x80001000 4".
blank_is_no_digit : starts_digit 16 (codes " 4") ≡ false
unfolding starts_digit
blank_is_no_digit = refl

next_u32-word_hex_example :
    next_u32 (b'0' ∷ b'x' ∷ (word_hex 0x8000_1000 ++ codes " 4")) ≡ some (0x8000_1000, codes " 4")
next_u32-word_hex_example =
    next_u32-word_hex 0x8000_1000 (codes " 4") (omega arith) blank_is_no_digit

abbrev fresh : Memory
fresh = memory_init []

fresh_fits : fresh.size < 2 ^ 32
unfolding memory_init
fresh_fits = omega arith

-- A length whose end wraps.
memory_dump_lem_example :
    ((fresh.size ≤ 0x100) × (memory_dump fresh 0x100 0xffff_ffff ≡ some []))
    ⊎ ((0x100 < fresh.size)
        × ((memory_dump fresh 0x100 0xffff_ffff ≢ none) ↔ (0x100 + 0xffff_ffff < 2 ^ 32)))
memory_dump_lem_example = memory_dump_lem fresh 0x100 0xffff_ffff fresh_fits (omega arith)

debug_repl-Ensures_example :
    Ensures SessionKeeps (debug_repl zero_host (codes "b 0x40\ns 2\nc\nq\n") [] reset)
debug_repl-Ensures_example =
    debug_repl-Ensures zero_host zero_host-IsHost (codes "b 0x40\ns 2\nc\nq\n") [] reset
      empty-IsTable reset-IsEmulator

-- ===== src/Debug.antt =====
-- src/debug.c: the breakpoint table, the decoding of one instruction for display, and the commands
-- that run the emulator. The children read command lines, print, and carry out commands.
pub mod Breakpoints
pub mod Input
pub mod Show
pub mod Commands
pub mod Shell
use rv32i_emu.Base.{
  ℕ, zero, suc, ◌+◌, Bool, true, false, Option, none, some, List, [], ◌∷◌, ◌++◌, not, leb, ◌==◌,
  if◌then◌else◌, bit_and, length,
}
use mathlib.Core.Option
use rv32i_emu.Memory.{Memory, Access, ok, refused, out_of_bounds, memory_read16, memory_read32}
use rv32i_emu.Decode.{Inst, decode, fields, get_fmt}
use rv32i_emu.Decode.Compressed.{expand_compressed}
use rv32i_emu.Machine.{running, done, leave, undefined, Exec}
use rv32i_emu.Fpu.Host.{HostFloat}
use rv32i_emu.Emu.{emu_step}

abbrev pub max_breakpoints : ℕ
max_breakpoints = 32

-- The first `bp_count` entries of the array `breakpoints`.
abbrev pub Breakpoints : Type 0
Breakpoints = List ℕ

-- The index of the address; `none` is -1.
unfoldable pub bp_find : ℕ → Breakpoints → Option ℕ
bp_find addr [] = none
bp_find addr (b ∷ bs) = if b == addr then some 0 else Option.map suc (bp_find addr bs)

unfoldable pub bp_add : ℕ → Breakpoints → Breakpoints
unfolding bp_find
bp_add addr bs = elim (bp_find addr bs) [
  | some i ↦ bs
  | none ↦ if leb max_breakpoints (length bs) then bs else bs ++ addr ∷ []
]

-- The entries after the index move down by one.
unfoldable pub remove_at : ℕ → Breakpoints → Breakpoints
remove_at i [] = []
remove_at zero (b ∷ bs) = bs
remove_at (suc i) (b ∷ bs) = b ∷ remove_at i bs

unfoldable pub bp_del : ℕ → Breakpoints → Breakpoints
unfolding bp_find remove_at
bp_del addr bs = elim (bp_find addr bs) [ some i ↦ remove_at i bs | none ↦ bs ]

-- fetch_decoded: -1, -2 with the raw bits, or 0 with the instruction and whether it is compressed.
pub data Fetched : Type 0 where
  unmapped invalid_access : Fetched
  illegal : ℕ → Fetched
  fetched : ℕ → Inst → Bool → Fetched

unfoldable pub decode_narrow : ℕ → Fetched
unfolding expand_compressed decode fields get_fmt
decode_narrow lo = elim (expand_compressed lo) [
  | none ↦ illegal lo
  | some raw ↦ elim (decode raw) [
    | none ↦ illegal lo
    | some i ↦ fetched lo (record i { len = 2 }) true
  ]
]

unfoldable pub decode_wide : Access ℕ → Fetched
unfolding decode fields get_fmt
decode_wide refused = unmapped
decode_wide out_of_bounds = invalid_access
decode_wide (ok raw) = elim (decode raw) [ none ↦ illegal raw | some i ↦ fetched raw i false ]

-- `invalid_access` is a read outside the array.
unfoldable pub fetch_decoded : ℕ → Memory → Fetched
unfolding decode_narrow decode_wide memory_read16 memory_read32
fetch_decoded addr m = elim (memory_read16 m addr) [
  | refused ↦ unmapped
  | out_of_bounds ↦ invalid_access
  | ok lo ↦ if not (bit_and lo 3 == 3) then decode_narrow lo else decode_wide (memory_read32 m addr)
]

-- CONTINUE_LIMIT
abbrev pub continue_limit : ℕ
continue_limit = 10000000

-- How `continue` ends.
pub data Stop : Type 0 where
  at_limit failed_step not_running at_breakpoint : Stop

module _ (host : HostFloat) where
  -- cmd_continue, with `left` steps to the limit and the steps made.
  unfoldable pub continue_from : ℕ → ℕ → Breakpoints → Exec (Stop × ℕ)
  continue_from zero steps bs e = elim e.state [
    | running ↦ done (at_limit, steps) e
    | _ ↦ done (not_running, steps) e
  ]
  continue_from (suc left) steps bs e = elim e.state [
    | running ↦ elim (emu_step host e) [
      | done true e' ↦ elim e'.state [
        | running ↦ elim (bp_find e'.rf.pc bs) [
          | some i ↦ done (at_breakpoint, steps + 1) e'
          | none ↦ continue_from left (steps + 1) bs e'
        ]
        | _ ↦ done (not_running, steps + 1) e'
      ]
      | done false e' ↦ done (failed_step, steps) e'
      | leave l e' ↦ leave l e'
      | undefined ↦ undefined
    ]
    | _ ↦ done (not_running, steps) e
  ]

-- ===== src/Debug/Show.antt =====
-- src/debug.c: what the debugger prints of breakpoints, instructions and the emulator. `none` is a
-- read outside the memory array.

use rv32i_emu.Base.{
  ℕ, zero, suc, ◌+◌, Option, none, some, Bool, [], ◌∷◌, ◌++◌, leb, ◌==◌, if◌then◌else◌, add32,
  nonzero, ◌<<<◌, bit_and, length,
}
use mathlib.Core.Option
use rv32i_emu.Base.Text.{Text, codes, joined, decimal, hex}
use rv32i_emu.Memory.{Memory}
use rv32i_emu.Csr.Constants.{priv_m, satp_mode_bit, satp_ppn_mask}
use rv32i_emu.Machine.{EmuState, running, halted, exception, Emulator}
use rv32i_emu.Decode.{Inst}
use rv32i_emu.Disasm.{decode_disasm}
use rv32i_emu.Dump.{address}
use rv32i_emu.Debug.{
  Breakpoints, max_breakpoints, bp_find, unmapped, invalid_access, illegal, fetched, fetch_decoded,
}

-- What bp_add prints.
unfoldable pub bp_add_message : ℕ → Breakpoints → Text
unfolding bp_find address decimal
bp_add_message addr bs = elim (bp_find addr bs) [
  | some i ↦ joined (codes "breakpoint already set at " ∷ address addr ∷ codes "\n" ∷ [])
  | none ↦
      if leb max_breakpoints (length bs)
      then joined (codes "breakpoint table full (" ∷ decimal max_breakpoints ∷ codes ")\n" ∷ [])
      else joined (
          codes "breakpoint "
          ∷ decimal (length bs)
          ∷ codes " set at "
          ∷ address addr
          ∷ codes "\n"
          ∷ [])
]

-- What bp_del prints.
unfoldable pub bp_del_message : ℕ → Breakpoints → Text
unfolding bp_find address
bp_del_message addr bs = elim (bp_find addr bs) [
  | none ↦ joined (codes "no breakpoint at " ∷ address addr ∷ codes "\n" ∷ [])
  | some i ↦ joined (codes "breakpoint at " ∷ address addr ∷ codes " deleted\n" ∷ [])
]

-- The loop of bp_list, from entry i.
unfoldable pub list_from : ℕ → Breakpoints → Text
unfolding decimal address
list_from i [] = []
list_from i (b ∷ bs) =
    joined
      (codes "  [" ∷ decimal i ∷ codes "] " ∷ address b ∷ codes "\n" ∷ list_from (i + 1) bs ∷ [])

unfoldable pub bp_list : Breakpoints → Text
unfolding list_from
bp_list [] = codes "no breakpoints\n"
bp_list (b ∷ bs) = list_from 0 (b ∷ bs)

unfoldable pub unmapped_line : ℕ → Text
unfolding address
unmapped_line addr = joined (codes "  " ∷ address addr ∷ codes ": <unmapped>\n" ∷ [])

unfoldable pub illegal_line : ℕ → ℕ → Text
unfolding address
illegal_line addr raw =
    joined (codes "  " ∷ address addr ∷ codes ": .word " ∷ address raw ∷ codes "\n" ∷ [])

-- The text that decode_disasm leaves in a buffer of 128.
unfoldable pub disassembly : Inst → Text
unfolding decode_disasm
disassembly i = elim (decode_disasm i (some []) 128) [ some t ↦ t | none ↦ [] ]

unfoldable pub inst_line : ℕ → Inst → Bool → Text
unfolding address disassembly
inst_line addr i compressed = joined (
    codes "  "
    ∷ address addr
    ∷ codes ": "
    ∷ (if compressed then codes "[c] " else [])
    ∷ disassembly i
    ∷ codes "\n"
    ∷ [])

unfoldable pub show_inst : Memory → ℕ → Option Text
unfolding fetch_decoded unmapped_line illegal_line inst_line
show_inst m addr = elim (fetch_decoded addr m) [
  | unmapped ↦ some (unmapped_line addr)
  | invalid_access ↦ none
  | illegal raw ↦ some (illegal_line addr raw)
  | fetched raw i compressed ↦ some (inst_line addr i compressed)
]

-- cmd_disasm, with `left` instructions to go.
unfoldable pub cmd_disasm : Memory → ℕ → ℕ → Option Text
unfolding fetch_decoded unmapped_line illegal_line inst_line
cmd_disasm m addr zero = some []
cmd_disasm m addr (suc left) = elim (fetch_decoded addr m) [
  | unmapped ↦ some (unmapped_line addr)
  | invalid_access ↦ none
  | illegal raw ↦
      Option.map (λ t. illegal_line addr raw ++ t)
        (cmd_disasm m (add32 addr (if bit_and raw 3 == 3 then 4 else 2)) left)
  | fetched raw i compressed ↦
      Option.map (λ t. inst_line addr i compressed ++ t) (cmd_disasm m (add32 addr i.len) left)
]

unfoldable pub state_name : EmuState → Text
state_name running = codes "RUNNING"
state_name halted = codes "HALTED"
state_name exception = codes "EXCEPTION"

unfoldable pub status_exit : EmuState → ℕ → Text
unfolding decimal
status_exit halted n = joined (codes "  exit_code=" ∷ decimal n ∷ [])
status_exit _ n = []

unfoldable pub show_status : Emulator → Text
unfolding state_name status_exit address hex
show_status e = joined (
    codes "["
    ∷ state_name e.state
    ∷ codes "] pc="
    ∷ address e.rf.pc
    ∷ codes " priv="
    ∷ (if e.priv == priv_m then codes "M" else codes "U")
    ∷ (if nonzero (bit_and e.csr.satp satp_mode_bit)
        then joined (codes " satp=Sv32@0x" ∷ hex (bit_and e.csr.satp satp_ppn_mask <<< 12) ∷ [])
        else [])
    ∷ status_exit e.state e.exit_code
    ∷ codes "\n"
    ∷ [])

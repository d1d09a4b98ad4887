-- ===== src/Dump.antt =====
-- The dumps: memory_dump of src/memory.c, regfile_dump and regfile_dump_f of src/regfile.c, csr_dump of
-- src/csr.c and emu_dump_state of src/emu.c, each as the text that it prints.
pub mod Bounds
use Prim.Native.String.{String}
use rv32i_emu.Base.{
  ℕ, zero, suc, ◌+◌, ◌-◌, ◌*◌, Option, none, some, true, false, List, [], ◌∷◌, ◌++◌, ltb, leb, ◌==◌,
  if◌then◌else◌, add32, sub32, nonzero, ◌<<<◌, ◌>>>◌, bit_and, bit_or, get_or, length,
}
use mathlib.Core.Option
use rv32i_emu.Base.Text.{Text, codes, joined, decimal, hex, padded_hex, word_hex, repeat}
use rv32i_emu.Memory.{Memory}
use rv32i_emu.RegFile.{RegFile}
use rv32i_emu.Csr.{Csr}
use rv32i_emu.Csr.Constants.{
  mstatus_mie, mstatus_mpie, mstatus_mpp_mask, mstatus_sie, mstatus_spie, mstatus_spp, mstatus_sum,
  mcause_irq_bit, sstatus_mask,
}
use rv32i_emu.Machine.{EmuState, running, halted, exception, Emulator}
use rv32i_emu.Disasm.Names.{reg_name}

-- "0x%08X"
unfoldable pub address : ℕ → Text
unfolding word_hex
address n = joined (codes "0x" ∷ word_hex n ∷ [])

-- One round of the loop of memory_dump.
unfoldable pub dump_byte : (ℕ → ℕ) → ℕ → ℕ → Text
unfolding address padded_hex
dump_byte bytes start i = joined (
    (if bit_and i 0xf == 0
      then joined (codes "  " ∷ address (add32 start i) ∷ codes "  " ∷ [])
      else [])
    ∷ padded_hex 2 (bytes (add32 start i))
    ∷ codes " "
    ∷ (if bit_and i 0xf == 0xf then codes "\n" else [])
    ∷ [])

-- The loop, with `left` bytes to go; `none` is a read outside the array.
unfoldable pub dump_bytes : Memory → ℕ → ℕ → ℕ → Option Text
unfolding dump_byte
dump_bytes m start zero i = some []
dump_bytes m start (suc left) i = elim (ltb (add32 start i) m.size) [
  | true ↦ Option.map (λ t. dump_byte m.data_bytes start i ++ t) (dump_bytes m start left (i + 1))
  | false ↦ none
]

-- The clipped length, by a sum that wraps.
unfoldable pub dump_length : Memory → ℕ → ℕ → ℕ
dump_length m start len = if ltb m.size (add32 start len) then m.size - start else len

unfoldable pub memory_dump : Memory → ℕ → ℕ → Option Text
unfolding dump_length dump_bytes address
memory_dump m start len =
    let n = dump_length m start len in
    if leb m.size start
    then some []
    else Option.map
        (λ t. joined (
          codes "Memory dump ["
          ∷ address start
          ∷ codes " — "
          ∷ address (sub32 (add32 start n) 1)
          ∷ codes "]:\n"
          ∷ t
          ∷ (if nonzero (bit_and n 0xf) then codes "\n" else [])
          ∷ []))
        (dump_bytes m start n 0)

-- "%-ns": spaces behind, up to the width.
unfoldable pub padded_right : ℕ → Text → Text
padded_right width t = t ++ repeat b' ' (width - length t)

unfoldable pub dump_freg : RegFile → ℕ → Text
unfolding padded_right decimal address
dump_freg rf i =
    joined (codes "  f" ∷ padded_right 2 (decimal i) ∷ codes "=" ∷ address (rf.fregs i) ∷ [])

-- The loop of regfile_dump_f: `left` lines of four registers, from f(i).
unfoldable pub dump_fregs : RegFile → ℕ → ℕ → Text
unfolding dump_freg
dump_fregs rf zero i = []
dump_fregs rf (suc left) i = joined (
    dump_freg rf i
    ∷ dump_freg rf (i + 1)
    ∷ dump_freg rf (i + 2)
    ∷ dump_freg rf (i + 3)
    ∷ codes "\n"
    ∷ dump_fregs rf left (i + 4)
    ∷ [])

unfoldable pub regfile_dump_f : RegFile → Text
unfolding dump_fregs
regfile_dump_f rf = codes "\nFP registers (f0-f31, raw bits):\n" ++ dump_fregs rf 8 0

unfoldable pub dump_reg : RegFile → ℕ → Text
unfolding padded_right decimal address
dump_reg rf i = joined (
    codes "│ x"
    ∷ padded_right 3 (decimal i)
    ∷ codes " │ "
    ∷ padded_right 8 (codes (get_or reg_name i "?"))
    ∷ codes " │ "
    ∷ address (rf.regs i)
    ∷ codes " │\n"
    ∷ [])

unfoldable pub dump_regs : RegFile → ℕ → ℕ → Text
unfolding dump_reg
dump_regs rf zero i = []
dump_regs rf (suc left) i = dump_reg rf i ++ dump_regs rf left (i + 1)

unfoldable pub regfile_dump : RegFile → Text
unfolding dump_regs address
regfile_dump rf = joined (
    codes "┌──────┬──────────┬──────────┐\n"
    ∷ codes "│ reg  │  ABI     │   value  │\n"
    ∷ codes "├──────┼──────────┼──────────┤\n"
    ∷ dump_regs rf 32 0
    ∷ codes "├──────┴──────────┴──────────┤\n"
    ∷ codes "│ pc                       │ "
    ∷ address rf.pc
    ∷ codes " │\n"
    ∷ codes "└──────────────────────────┘\n"
    ∷ [])

-- ((x & mask) ? 1u : 0u) as %u
unfoldable pub flag : ℕ → ℕ → Text
flag x mask = if nonzero (bit_and x mask) then codes "1" else codes "0"

-- The lines of csr_dump on mstatus, satp and the machine trap registers.
unfoldable pub dump_machine : Csr → Text
unfolding address flag decimal hex
dump_machine c = joined (
    codes "  mstatus  = "
    ∷ address c.mstatus
    ∷ codes "  (MIE="
    ∷ flag c.mstatus mstatus_mie
    ∷ codes " MPIE="
    ∷ flag c.mstatus mstatus_mpie
    ∷ codes " MPP="
    ∷ decimal (bit_and c.mstatus mstatus_mpp_mask >>> 11)
    ∷ codes ")\n"
    ∷ codes "  satp     = "
    ∷ address c.satp
    ∷ codes "  (mode="
    ∷ (if nonzero (bit_and c.satp 0x8000_0000) then codes "Sv32" else codes "bare")
    ∷ codes " root=0x"
    ∷ hex (bit_and c.satp 0x003f_ffff <<< 12)
    ∷ codes ")\n"
    ∷ codes "  mtvec    = "
    ∷ address c.mtvec
    ∷ codes "\n"
    ∷ codes "  mepc     = "
    ∷ address c.mepc
    ∷ codes "\n"
    ∷ codes "  mcause   = "
    ∷ address c.mcause
    ∷ (if nonzero (bit_and c.mcause mcause_irq_bit)
        then codes "  (interrupt)"
        else codes "  (exception)")
    ∷ codes "\n"
    ∷ codes "  mtval    = "
    ∷ address c.mtval
    ∷ codes "\n"
    ∷ codes "  mie/mip  = "
    ∷ address c.mie
    ∷ codes " / "
    ∷ address c.mip
    ∷ codes "\n"
    ∷ codes "  mcycle   = "
    ∷ decimal c.mcycle
    ∷ codes "\n"
    ∷ [])

-- Its lines on the supervisor registers, delegation and fcsr.
unfoldable pub dump_supervisor : Csr → Text
unfolding address flag padded_hex decimal
dump_supervisor c = joined (
    codes "  S-mode: sstatus="
    ∷ address (bit_and c.mstatus sstatus_mask)
    ∷ codes " (SIE="
    ∷ flag c.mstatus mstatus_sie
    ∷ codes " SPIE="
    ∷ flag c.mstatus mstatus_spie
    ∷ codes " SPP="
    ∷ flag c.mstatus mstatus_spp
    ∷ codes " SUM="
    ∷ flag c.mstatus mstatus_sum
    ∷ codes ")\n"
    ∷ codes "  stvec    = "
    ∷ address c.stvec
    ∷ codes "  sepc = "
    ∷ address c.sepc
    ∷ codes "  scause = "
    ∷ address c.scause
    ∷ codes "  stval = "
    ∷ address c.stval
    ∷ codes "\n"
    ∷ codes "  medeleg  = "
    ∷ address c.medeleg
    ∷ codes "  mideleg = "
    ∷ address c.mideleg
    ∷ codes "\n"
    ∷ codes "  fcsr     = 0x"
    ∷ padded_hex 2 (bit_or (bit_and c.frm 7 <<< 5) (bit_and c.fflags 0x1f))
    ∷ codes "  (frm="
    ∷ decimal (bit_and c.frm 7)
    ∷ codes " fflags=0x"
    ∷ padded_hex 2 (bit_and c.fflags 0x1f)
    ∷ codes ")\n"
    ∷ [])

unfoldable pub csr_dump : Csr → Text
unfolding dump_machine dump_supervisor
csr_dump c = joined (codes "CSR:\n" ∷ dump_machine c ∷ dump_supervisor c ∷ [])

-- The number of the enum.
unfoldable pub state_number : EmuState → ℕ
state_number running = 0
state_number halted = 1
state_number exception = 2

unfoldable pub exit_line : EmuState → ℕ → Text
unfolding decimal
exit_line halted n = joined (codes "  exit_code = " ∷ decimal n ∷ codes "\n" ∷ [])
exit_line _ n = []

unfoldable pub emu_dump_state : Emulator → Text
unfolding state_number exit_line address regfile_dump regfile_dump_f csr_dump decimal
emu_dump_state e = joined (
    codes "\n=== Emulator State ===\n"
    ∷ codes "  state = "
    ∷ decimal (state_number e.state)
    ∷ codes "\n  pc    = "
    ∷ address e.rf.pc
    ∷ codes "\n"
    ∷ exit_line e.state e.exit_code
    ∷ regfile_dump e.rf
    ∷ regfile_dump_f e.rf
    ∷ csr_dump e.csr
    ∷ [])

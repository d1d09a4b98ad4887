-- ===== src/SelfTest.antt =====
-- The self-tests of src/decode_test.c, src/execute.c, src/trap.c, src/mmu.c and src/fpu.c: their test programs, and the
-- checks that they make. What they print is kept as the headings, and the names and outcomes of the checks.
pub mod Programs
pub mod Execute
pub mod Decode
pub mod Compressed
pub mod Traps
pub mod Supervisor
pub mod Tables
pub mod Mmu
pub mod FloatPrograms
pub mod Fpu
use Prim.Native.String.{String}
use rv32i_emu.Base.{ℕ, suc, ◌+◌, Bool, true, false, List, [], ◌∷◌, ◌==◌, ◌&&◌, update}
use rv32i_emu.Base.Text.{Text, codes}
use rv32i_emu.Memory.{
  ok, refused, out_of_bounds, memory_read8, memory_read16, memory_read32, memory_write8,
  memory_write16, memory_write32,
}
use rv32i_emu.RegFile.{reg_read, reg_write}
use rv32i_emu.Decode.{
  get_opcode, get_rd, get_funct3, get_rs1, get_rs2, get_funct7, imm_i, imm_s, imm_b, imm_u, imm_j,
}
use rv32i_emu.Machine.{
  ◌>>=◌, ◌>>◌, EmuState, running, halted, exception, Emulator, done, leave, undefined, Run, Exec,
  pure, modify, with_mem, with_pc, with_state,
}
use rv32i_emu.Fpu.Host.{HostFloat}
use rv32i_emu.Emu.{emu_init, emu_step, emu_run}

-- What a self-test does line by line: a heading, or the outcome of CHECK(cond, name).
pub data Line : Type 0 where
  title : Text → Line
  outcome : Bool → Text → Line

abbrev pub heading : String → Line
heading text = title (codes text)

abbrev pub check : Bool → String → Line
check passed name = outcome passed (codes name)

-- The counters `pass` and `fail`.
unfoldable pub passed : List Line → ℕ
passed [] = 0
passed (outcome true name ∷ lines) = suc (passed lines)
passed (_ ∷ lines) = passed lines

unfoldable pub failed : List Line → ℕ
failed [] = 0
failed (outcome false name ∷ lines) = suc (failed lines)
failed (_ ∷ lines) = failed lines

-- A run that is done, of n checks, none of which fails.
unfoldable pub passes : ℕ → Run (List Line) → Bool
unfolding passed failed
passes n (done lines e) = passed lines == n && failed lines == 0
passes n (leave l e) = false
passes n undefined = false

-- A call of memory_write32 whose result is dropped.
unfoldable pub write_word : ℕ → ℕ → Exec (Unit {0})
write_word offset raw e = elim (memory_write32 e.mem offset raw) [
  | ok m ↦ done tt (with_mem m e)
  | refused ↦ done tt e
  | out_of_bounds ↦ undefined
]

unfoldable pub mem_write_inst : ℕ → ℕ → Exec (Unit {0})
unfolding write_word
mem_write_inst offset raw = write_word offset raw

unfoldable pub write_program : List (ℕ × ℕ) → Exec (Unit {0})
unfolding mem_write_inst
write_program [] e = done tt e
write_program ((offset, raw) ∷ rest) e = elim (mem_write_inst offset raw e) [
  | done u e' ↦ write_program rest e'
  | leave l e' ↦ leave l e'
  | undefined ↦ undefined
]

-- emu_init(&emu, MEM_SIZE); emu.state = EMU_RUNNING;
unfoldable pub init_running : Exec (Unit {0})
unfolding emu_init
init_running e = done tt (with_state running (emu_init []))

abbrev pub is_halted : EmuState → Bool
is_halted halted = true
is_halted running = false
is_halted exception = false

abbrev pub is_exception : EmuState → Bool
is_exception exception = true
is_exception running = false
is_exception halted = false

-- emu.mem.data[a] = b
abbrev pub poke : ℕ → ℕ → Exec (Unit {0})
poke a b e = done tt (with_mem (record e.mem { data_bytes = update e.mem.data_bytes a b }) e)

-- A word of memory equals a value.
unfoldable pub holds_word : Emulator → ℕ → ℕ → Bool
holds_word e addr value = elim (memory_read32 e.mem addr) [
  | ok word ↦ word == value
  | refused ↦ false
  | out_of_bounds ↦ false
]

module _ (host : HostFloat) where
  -- emu_run, whose result is dropped.
  unfoldable pub run_for : ℕ → Exec (Unit {0})
  unfolding emu_run emu_step memory_read8 memory_read16 memory_read32 memory_write8 memory_write16
      memory_write32 reg_read reg_write get_opcode get_rd get_funct3 get_rs1 get_rs2 get_funct7
      imm_i imm_s imm_b imm_u imm_j
  run_for steps = do n ← emu_run host (steps + 1) steps; pure tt

  -- The program, emu.rf.pc = base; and emu_run.
  unfoldable pub run_program : List (ℕ × ℕ) → ℕ → Exec (Unit {0})
  unfolding write_program run_for
  run_program program steps = do write_program program; modify (with_pc 0); run_for steps

  unfoldable pub step : Exec (Unit {0})
  unfolding emu_step memory_read8 memory_read16 memory_read32 memory_write8 memory_write16
      memory_write32 reg_read reg_write get_opcode get_rd get_funct3 get_rs1 get_rs2 get_funct7
      imm_i imm_s imm_b imm_u imm_j
  step = do b ← emu_step host; pure tt

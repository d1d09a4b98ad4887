-- ===== src/Emu.antt =====
-- src/emu.c: reset, one step of fetch, decode and execute, and the run loop.
use rv32i_emu.Base.{
  ℕ, zero, suc, ◌+◌, Bool, true, false, Option, none, some, List, ◌&&◌, not, ltb, leb, ◌==◌,
  if◌then◌else◌, u64, add32, nonzero, ◌<<<◌, bit_and, bit_or,
}
use rv32i_emu.Memory.{
  Access, memory_init, memory_free, memory_read16, memory_read32, ok, refused, out_of_bounds,
}
use rv32i_emu.RegFile.{regfile_init}
use rv32i_emu.Csr.{csr_init}
use rv32i_emu.Csr.Constants.{priv_m, exc_inst_misaligned, exc_inst_access, exc_illegal_inst}
use rv32i_emu.Decode.{Inst, decode, fields, get_fmt}
use rv32i_emu.Decode.Compressed.{expand_compressed}
use rv32i_emu.Machine.{
  running, halted, exception, Emulator, return, Run, done, leave, undefined, Exec, ◌>>=◌, pure,
  with_state, with_mem, count_cycle,
}
use rv32i_emu.Trap.{trap_init, trap_raise, trap_check_interrupt}
use rv32i_emu.Mmu.{acc_fetch, mapped, fault, mmu_translate}
use rv32i_emu.Fpu.Host.{HostFloat}
use rv32i_emu.Execute.{execute}
use rv32i_emu.Elf.{elf_load}

unfoldable pub emu_init : List ℕ → Emulator
unfolding memory_init regfile_init csr_init trap_init
emu_init out = trap_init (record {
  mem = memory_init out;
  rf = regfile_init;
  csr = csr_init;
  mtime = 0;
  mtimecmp = 0;
  priv = priv_m;
  reservation_valid = 0;
  reservation_addr = 0;
  state = halted;
  entry = 0;
  exit_code = 0;
})

unfoldable pub emu_free : Emulator → Emulator
unfolding memory_free
emu_free e = with_mem (memory_free e.mem) e

-- emu_load_elf on the bytes of the file; false if elf_load returns 0.
unfoldable pub emu_load_elf : List ℕ → Emulator → Access (Emulator × Bool)
unfolding elf_load
emu_load_elf file e = elim (elf_load file e.mem) [
  | ok (entry, m, info) ↦
      if entry == 0
      then ok (with_mem m e, false)
      else ok (
        record e {
          mem = m;
          entry = entry;
          rf = record e.rf { pc = entry };
          state = running;
          exit_code = 0;
        },
        true,
      )
  | refused ↦ refused
  | out_of_bounds ↦ out_of_bounds
]

-- A failed fetch or decode: the trap, counted as a cycle, or the machine stops.
unfoldable pub reject : {A : Type 0} → ℕ → ℕ → ℕ → Exec A
unfolding trap_raise
reject cause tval pc e =
    let (e', entered) = trap_raise cause tval pc e in
    if entered
    then leave (return true) (count_cycle e')
    else leave (return false) (with_state exception e')

-- A fetched halfword or word, or an instruction access fault.
unfoldable pub fetched : {A : Type 0} → ℕ → Access A → Exec A
unfolding reject
fetched pc (ok a) e = done a e
fetched pc refused e = reject exc_inst_access pc pc e
fetched pc out_of_bounds e = undefined

unfoldable pub join_halves : ℕ → ℕ → ℕ
join_halves lo hi = bit_or lo (hi <<< 16)

-- The second half of an instruction across a page end. Any failure is an access fault.
unfoldable pub fetch_second : ℕ → ℕ → Exec ℕ
unfolding fetched join_halves mmu_translate
fetch_second pc lo = do
  t ← mmu_translate (add32 pc 2) acc_fetch
  (λ e. elim t [
    | mapped pa2 ↦ (fetched pc (memory_read16 e.mem pa2) >>= λ hi. pure (join_halves lo hi)) e
    | fault _ ↦ reject exc_inst_access pc pc e
  ])

unfoldable pub fetch_wide : ℕ → ℕ → ℕ → Exec ℕ
unfolding fetched fetch_second
fetch_wide pc pa lo e =
    if leb (bit_and pa 0xfff) 0xffc
    then fetched pc (memory_read32 e.mem pa) e
    else fetch_second pc lo e

unfoldable pub expanded : ℕ → ℕ → Option ℕ → Exec (ℕ × Bool)
unfolding reject
expanded pc lo (some raw) e = done (raw, true) e
expanded pc lo none e = reject exc_illegal_inst lo pc e

-- The instruction at a translated pc, and whether it was compressed.
unfoldable pub fetch_at : ℕ → ℕ → Exec (ℕ × Bool)
unfolding fetched fetch_wide expanded expand_compressed
fetch_at pc pa = do
  lo ← (λ e. fetched pc (memory_read16 e.mem pa) e)
  if not (bit_and lo 3 == 3)
      then expanded pc lo (expand_compressed lo)
      else (fetch_wide pc pa lo >>= λ raw. pure (raw, false))

unfoldable pub fetch : ℕ → Exec (ℕ × Bool)
unfolding fetch_at reject mmu_translate
fetch pc e =
    if nonzero (bit_and pc 1)
    then reject exc_inst_misaligned pc pc e
    else (mmu_translate pc acc_fetch >>= λ t. elim t [
      | mapped pa ↦ fetch_at pc pa
      | fault cause ↦ reject cause pc pc
    ])
        e

-- decode(), and the length of a compressed instruction.
unfoldable pub decoded : ℕ → ℕ × Bool → Exec Inst
unfolding reject decode fields get_fmt
decoded pc f e = elim (decode f.0) [
  | some i ↦ done (if f.1 then record i { len = 2 } else i) e
  | none ↦ reject exc_illegal_inst f.0 pc e
]

unfoldable pub counted : Bool → Exec Bool
counted true e = done true (count_cycle e)
counted false e = done false e

-- `return` of the function itself.
abbrev pub returned : Run Bool → Run Bool
returned (leave (return b) e) = done b e
returned r = r

module _ (host : HostFloat) where
  unfoldable pub instruction : ℕ → Exec Bool
  unfolding fetch decoded counted execute
  instruction pc = do f ← fetch pc; i ← decoded pc f; b ← execute host i; counted b

  unfoldable pub emu_step : Exec Bool
  unfolding trap_check_interrupt instruction
  emu_step e =
      let (e', interrupted) = trap_check_interrupt e.rf.pc e in
      if interrupted then done true (count_cycle e') else returned (instruction e.rf.pc e')

  -- The loop, with the steps done so far. `none` is the end of the fuel.
  unfoldable pub emu_run_from : ℕ → ℕ → ℕ → Exec (Option ℕ)
  emu_run_from zero max_steps steps e = done none e
  emu_run_from (suc fuel) max_steps steps e = elim e.state [
    | running ↦ elim (ltb 0 max_steps && leb max_steps steps) [
      | true ↦ done (some steps) e
      | false ↦ elim (emu_step e) [
        | done true e' ↦ emu_run_from fuel max_steps (u64 (steps + 1)) e'
        | done false e' ↦ done (some steps) e'
        | leave l e' ↦ leave l e'
        | undefined ↦ undefined
      ]
    ]
    | halted ↦ done (some steps) e
    | exception ↦ done (some steps) e
  ]

  unfoldable pub emu_run : ℕ → ℕ → Exec (Option ℕ)
  unfolding emu_run_from
  emu_run fuel max_steps = emu_run_from fuel max_steps 0

-- ===== src/Isa/Ran.antt =====
-- emu_run of src/emu.c on programs of the instructions of the specification.
use rv32i_emu.Base.{
  ℕ, zero, suc, ◌+◌, ◌%◌, ◌^◌, ◌<◌, ◌≡◌, refl, ap, ◌∙◌, arith, Bool, true, false, some, leb, ltb,
  ◌==◌, ◌||◌, ◌&&◌, bit_and, u64,
}
use rv32i_emu.Memory.{Memory, ok, memory_read32}
use rv32i_emu.RegFile.{RegFile}
use rv32i_emu.Csr.Constants.{priv_m, satp_mode_bit, mie_mtie}
use rv32i_emu.Decode.RoundTrip.{Assembly, FitsSigned, encode}
use rv32i_emu.Machine.{EmuState, running, Emulator, Run, done}
use rv32i_emu.Fpu.Host.{HostFloat}
use rv32i_emu.Trap.{tick, timer_enabled}
use rv32i_emu.Emu.{emu_step, emu_run_from, emu_run}
use rv32i_emu.Invariant.State.{IsEmulator, Ensures, Anything}
use rv32i_emu.Invariant.Floats.{IsHost}
use rv32i_emu.Invariant.Stepped.{emu_step-Ensures}
use rv32i_emu.Isa.{Instruction, assembly, IsInstruction, effect, set_pc}
use rv32i_emu.Isa.Accesses.{
  Load, Store, load_assembly, store_assembly, load_width, store_width, stored, IsAccess,
}
use rv32i_emu.Isa.Loads.{load_effect, emu_step-load_effect}
use rv32i_emu.Isa.Stores.{emu_step-store_effect}
use rv32i_emu.Isa.Stepped.{emu_step-effect}

-- The bytes at pc, a multiple of 4, encode an instruction.
pub record IsAt (a : Assembly) (rf : RegFile) (m : Memory) : Type 0 where
  pub aligned : rf.pc % 4 ≡ 0
  pub encoded : memory_read32 m rf.pc ≡ ok (encode a)

abbrev pub store_memory : Store → ℕ → ℕ → ℕ → RegFile → Memory → Memory
store_memory k rs1 rs2 offset rf m = record m {
  data_bytes = stored m.data_bytes ((rf.regs rs1 + offset) % 2 ^ 32) (store_width k) (rf.regs rs2);
}

-- A step of the specification from registers and a memory to registers and a memory.
pub data Step : RegFile → Memory → RegFile → Memory → Type 0 where
  compute :
      {rf : RegFile} {m : Memory} (ins : Instruction)
      → IsInstruction ins
      → IsAt (assembly ins) rf m
      → Step rf m (effect ins rf) m
  load :
      {rf : RegFile} {m : Memory} (k : Load) (rd rs1 offset : ℕ)
      → rd < 32
      → rs1 < 32
      → FitsSigned 11 offset
      → IsAt (load_assembly k rd rs1 offset) rf m
      → IsAccess m.size (load_width k) ((rf.regs rs1 + offset) % 2 ^ 32)
      → Step rf m (load_effect k rd rs1 offset m rf) m
  store :
      {rf : RegFile} {m : Memory} (k : Store) (rs1 rs2 offset : ℕ)
      → rs1 < 32
      → rs2 < 32
      → FitsSigned 11 offset
      → IsAt (store_assembly k rs1 rs2 offset) rf m
      → IsAccess m.size (store_width k) ((rf.regs rs1 + offset) % 2 ^ 32)
      → Step rf m (set_pc ((rf.pc + 4) % 2 ^ 32) rf) (store_memory k rs1 rs2 offset rf m)

-- n steps.
pub data Steps : ℕ → RegFile → Memory → RegFile → Memory → Type 0 where
  stop : {rf : RegFile} {m : Memory} → Steps zero rf m rf m
  next :
      {n : ℕ} {rf rf' rf'' : RegFile} {m m' m'' : Memory}
      → Step rf m rf' m'
      → Steps n rf' m' rf'' m''
      → Steps (suc n) rf m rf'' m''

-- Addresses are physical, the timer interrupt is off, and the emulator runs.
pub record IsQuiet (e : Emulator) : Type 0 where
  pub bare : (e.priv == priv_m || bit_and e.csr.satp satp_mode_bit == 0) ≡ true
  pub timer : bit_and e.csr.mie mie_mtie ≡ 0
  pub runs : e.state ≡ running

tick-timer : (e : Emulator) → IsQuiet e → timer_enabled (tick e) ≡ false
unfolding timer_enabled tick
tick-timer e q = let t = q.timer in ground arith

-- The emulator has the registers and the memory of the specification.
record Follows (rf : RegFile) (m : Memory) (e : Emulator) : Type 0 where
  same_rf : e.rf ≡ rf
  same_mem : e.mem ≡ m
  quiet : IsQuiet e

-- emu_step makes every step of the specification.
emu_step-Step :
    (host : HostFloat) {rf : RegFile} {m : Memory} {rf' : RegFile} {m' : Memory} (e : Emulator)
    → Step rf m rf' m'
    → e.rf ≡ rf
    → e.mem ≡ m
    → IsEmulator e
    → IsQuiet e
    → (e' : Emulator) × (emu_step host e ≡ done true e') × Follows rf' m' e'
unfolding tick
emu_step-Step host e (compute ins is at) r n inv q =
    let x =
      emu_step-effect host ins e is inv (tick-timer e q) q.bare (rw r at.aligned)
        (rw (r, n) at.encoded) in
    (
      _,
      x,
      record {
        same_rf = ap (effect ins) r;
        same_mem = n;
        quiet = record { bare = q.bare; timer = q.timer; runs = q.runs };
      },
    )
emu_step-Step host e (load k rd rs1 offset s1 s2 f at h) r n inv q =
    let x =
      emu_step-load_effect host k rd rs1 offset e s1 s2 f inv (tick-timer e q) q.bare
        (rw r at.aligned) (rw (r, n) at.encoded) (rw (r, n) h) in
    (
      _,
      x,
      record {
        same_rf = λ t. load_effect k rd rs1 offset (n t) (r t);
        same_mem = n;
        quiet = record { bare = q.bare; timer = q.timer; runs = q.runs };
      },
    )
emu_step-Step host e (store k rs1 rs2 offset s1 s2 f at h) r n inv q =
    let x =
      emu_step-store_effect host k rs1 rs2 offset e s1 s2 f inv (tick-timer e q) q.bare
        (rw r at.aligned) (rw (r, n) at.encoded) (rw (r, n) h) in
    (
      _,
      x,
      record {
        same_rf = ap (λ (t : RegFile). set_pc ((t.pc + 4) % 2 ^ 32) t) r;
        same_mem = λ t. store_memory k rs1 rs2 offset (r t) (n t);
        quiet = record { bare = q.bare; timer = q.timer; runs = q.runs };
      },
    )

module _ (host : HostFloat) (max_steps fuel steps : ℕ) (e : Emulator)
    (runs : e.state ≡ running) where
  ended :
      (ltb 0 max_steps && leb max_steps steps) ≡ true
      → emu_run_from host (suc fuel) max_steps steps e ≡ done (some steps) e
  unfolding emu_run_from
  ended c =
      rw (emu_run_from, runs, c)
        (ap (λ (s : EmuState). done (some steps) (record e { state = s })) runs)

  advanced :
      {e' : Emulator}
      → (ltb 0 max_steps && leb max_steps steps) ≡ false
      → emu_step host e ≡ done true e'
      → emu_run_from host (suc fuel) max_steps steps e
        ≡ emu_run_from host fuel max_steps (u64 (steps + 1)) e'
  unfolding emu_run_from
  advanced c k = rw (emu_run_from, runs, c, k) refl

done-IsEmulator :
    {r : Run Bool} {b : Bool} {e : Emulator} → r ≡ done b e → Ensures Anything r → IsEmulator e
done-IsEmulator h k = let k' = rw h at k in k'.outcome.1

module _ (host : HostFloat) (is_host : IsHost host) (max_steps : ℕ) (pos : 0 < max_steps)
    (fits : max_steps < 2 ^ 64) where
  runs_on :
      {n : ℕ} {rf : RegFile} {m : Memory} {rf' : RegFile} {m' : Memory}
      → Steps n rf m rf' m'
      → (fuel steps : ℕ) (e : Emulator) → n < fuel
      → steps + n ≡ max_steps
      → e.rf ≡ rf
      → e.mem ≡ m
      → IsEmulator e
      → IsQuiet e
      → (e' : Emulator) × (emu_run_from host fuel max_steps steps e ≡ done (some max_steps) e')
        × Follows rf' m' e'
  runs_on stop zero steps e h s r m inv q = absurd (omega arith)
  runs_on stop (suc fuel) steps e h s r m inv q = (
    e,
    ended host max_steps fuel steps e q.runs (ground arith)
        ∙ ap (λ (t : ℕ). done (some t) e) (omega arith),
    record { same_rf = r; same_mem = m; quiet = q },
  )
  runs_on (next p k) zero steps e h s r m inv q = absurd (omega arith)
  runs_on (next p k) (suc fuel) steps e h s r m inv q =
      let (e', x, f) = emu_step-Step host e p r m inv q in
      let inv' = done-IsEmulator x (emu_step-Ensures host is_host e inv) in
      let (e'', y, f') =
        runs_on k fuel (steps + 1) e' (omega arith) (omega arith) f.same_rf f.same_mem inv'
          f.quiet in
      (
        e'',
        advanced host max_steps fuel steps e q.runs (ground arith) x
            ∙ ap (λ (t : ℕ). emu_run_from host fuel max_steps t e') (omega arith)
            ∙ y,
        record { same_rf = f'.same_rf; same_mem = f'.same_mem; quiet = f'.quiet },
      )

-- The specification is a machine of registers and a memory of bytes that fetches from this memory, and
-- has the computing instructions, jumps, branches, loads and stores of RV32I, and the multiplications
-- and divisions of RV32M. When it makes n steps, n positive and below 2 ^ 64, from the registers and
-- the memory of a well-formed emulator that runs with physical addresses and the timer interrupt off,
-- then emu_run with the limit n carries out n instructions and ends with the registers, the pc and the
-- memory that the specification ends with.
pub emu_run-Steps :
    (host : HostFloat)
    → IsHost host
    → (n : ℕ) (e : Emulator) (rf : RegFile) (m : Memory) → 0 < n
    → n < 2 ^ 64
    → IsEmulator e
    → IsQuiet e
    → Steps n e.rf e.mem rf m
    → (e' : Emulator) × (emu_run host (n + 1) n e ≡ done (some n) e') × (e'.rf ≡ rf) × (e'.mem ≡ m)
unfolding emu_run
emu_run-Steps host is_host n e rf m pos fits inv q k =
    let (e', x, f) =
      runs_on host is_host n pos fits k (n + 1) 0 e (omega arith) (omega arith) refl refl inv q in
    (e', x, f.same_rf, f.same_mem)

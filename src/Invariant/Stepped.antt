-- ===== src/Invariant/Stepped.antt =====
-- emu_init establishes the invariant and emu_step keeps it: src/emu.c.
use rv32i_emu.Base.{
  ℕ, ◌^◌, ◌<◌, ◌≡◌, refl, arith, Bool, true, false, not, Option, some, none, ◌==◌, leb, nonzero,
  if◌then◌else◌, add32, bit_and, ◌<<<◌, List,
}
use rv32i_emu.Base.Bits.{bit_or-lt}
use rv32i_emu.Memory.{Access, ok, refused, out_of_bounds, memory_init, memory_read16, memory_read32}
use rv32i_emu.RegFile.{regfile_init}
use rv32i_emu.Csr.{csr_init}
use rv32i_emu.Csr.Constants.{exc_inst_access, exc_inst_misaligned, exc_illegal_inst}
use rv32i_emu.Decode.{Inst, decode}
use rv32i_emu.Decode.Bounds.{IsDecoded, decode-IsDecoded}
use rv32i_emu.Decode.Compressed.{expand_compressed}
use rv32i_emu.Machine.{
  Emulator, exception, return, goto_except, goto_unknown, Run, done, leave, undefined, Exec, ◌>>=◌,
  pure,
}
use rv32i_emu.Trap.{trap_init, trap_raise, trap_check_interrupt}
use rv32i_emu.Mmu.{acc_fetch, Translated, mapped, fault}
use rv32i_emu.Fpu.Host.{HostFloat}
use rv32i_emu.Emu.{
  emu_init, reject, fetched, join_halves, fetch_second, fetch_wide, expanded, fetch_at, fetch,
  decoded, counted, returned, instruction, emu_step,
}
use rv32i_emu.Invariant.State.{
  IsEmulator, exception-ne-running, Ensures, IsWord, Anything, bind-Ensures, if-Ensures,
  choose-Ensures, done-Ensures, leave-Ensures, undefined-Ensures, state-IsEmulator,
  count_cycle-IsEmulator,
}
use rv32i_emu.Invariant.CsrLaws.{csr_init-IsCsr}
use rv32i_emu.Invariant.Accesses.{memory_read16-lt, memory_read32-lt}
use rv32i_emu.Invariant.Arithmetic.{ResultFits}
use rv32i_emu.Invariant.Translation.{TranslatedFits, mmu_translate-Ensures}
use rv32i_emu.Invariant.Traps.{trap_raise-IsEmulator, trap_check_interrupt-IsEmulator}
use rv32i_emu.Invariant.Floats.{IsHost}
use rv32i_emu.Invariant.Fetched.{expand_compressed-ResultFits}
use rv32i_emu.Invariant.Executed.{execute-Ensures}

-- The state that emu_init makes satisfies the invariant, whatever was printed before.
pub emu_init-IsEmulator : (out : List ℕ) → IsEmulator (emu_init out)
unfolding emu_init memory_init regfile_init csr_init trap_init
emu_init-IsEmulator out = record {
  memory = record { bytes = λ a. omega arith; size_fits = omega arith };
  zero = refl;
  regs_fit = λ n. omega arith;
  fregs_fit = λ n. omega arith;
  pc_fits = omega arith;
  csr = csr_init-IsCsr;
  priv_fits = omega arith;
  mtime_fits = omega arith;
  mtimecmp_fits = omega arith;
}

reject-Ensures :
    {A : Type 0} {Q : A → Type 0} (cause tval pc : ℕ) (e : Emulator)
    → IsEmulator e
    → cause < 2 ^ 32
    → tval < 2 ^ 32
    → pc < 2 ^ 32
    → Ensures Q (reject cause tval pc e)
unfolding reject
reject-Ensures cause tval pc e i c t p =
    let r = trap_raise-IsEmulator e i cause tval pc c t p in
    if-Ensures (trap_raise cause tval pc e).1
      (leave-Ensures tt (count_cycle-IsEmulator (trap_raise cause tval pc e).0 r))
      (leave-Ensures exception-ne-running
        (state-IsEmulator (trap_raise cause tval pc e).0 r exception))

narrow : (c : Bool) {x y : Inst} → IsDecoded y → IsDecoded x → IsDecoded (if c then x else y)
narrow true h k = k
narrow false h k = h

-- An instruction word.
abbrev RawFits : ℕ × Bool → Type 0
RawFits f = f.0 < 2 ^ 32

module _ (pc : ℕ) (p : pc < 2 ^ 32) where
  fetched-Ensures :
      (Q : ℕ → Type 0) (r : Access ℕ) (e : Emulator)
      → IsEmulator e
      → ((v : ℕ) → r ≡ ok v → Q v)
      → Ensures Q (fetched pc r e)
  unfolding fetched
  fetched-Ensures Q (ok v) e i h = done-Ensures (h v refl) i
  fetched-Ensures Q refused e i h = reject-Ensures exc_inst_access pc pc e i (omega arith) p p
  fetched-Ensures Q out_of_bounds e i h = undefined-Ensures

  half :
      (pa : ℕ) (e : Emulator)
      → IsEmulator e
      → Ensures IsWord (fetched pc (memory_read16 e.mem pa) e)
  half pa e i =
      fetched-Ensures IsWord (memory_read16 e.mem pa) e i
        (λ v q. omega (arith, memory_read16-lt e.mem pa i.memory q))

  joined :
      (lo : ℕ) (t : Translated) (e : Emulator)
      → lo < 2 ^ 32
      → IsEmulator e
      → Ensures IsWord (elim t as (λ _. Run ℕ) [
        | mapped pa2 ↦ (fetched pc (memory_read16 e.mem pa2) >>= λ hi. pure (join_halves lo hi)) e
        | fault _ ↦ reject exc_inst_access pc pc e
      ])
  unfolding join_halves
  joined lo (mapped pa2) e h i =
      bind-Ensures (half pa2 e i)
        λ hi q e' i'. done-Ensures (bit_or-lt 32 lo (hi <<< 16) h (omega arith)) i'
  joined lo (fault c) e h i = reject-Ensures exc_inst_access pc pc e i (omega arith) p p

  fetch_wide-Ensures :
      (pa lo : ℕ) (e : Emulator)
      → IsEmulator e
      → lo < 2 ^ 32
      → Ensures IsWord (fetch_wide pc pa lo e)
  unfolding fetch_wide fetch_second
  fetch_wide-Ensures pa lo e i h =
      if-Ensures (leb (bit_and pa 0xfff) 0xffc)
        (fetched-Ensures IsWord (memory_read32 e.mem pa) e i
          (λ v q. memory_read32-lt e.mem pa i.memory q))
        (bind-Ensures (mmu_translate-Ensures (add32 pc 2) acc_fetch e i (omega arith))
          λ t _ e' i'. joined lo t e' h i')

  expanded-Ensures :
      (lo : ℕ) (o : Option ℕ) (e : Emulator)
      → IsEmulator e
      → lo < 2 ^ 32
      → ResultFits o
      → Ensures RawFits (expanded pc lo o e)
  unfolding expanded
  expanded-Ensures lo (some raw) e i h f = done-Ensures (f.fits raw refl) i
  expanded-Ensures lo none e i h f = reject-Ensures exc_illegal_inst lo pc e i (omega arith) h p

  fetch_at-Ensures : (pa : ℕ) (e : Emulator) → IsEmulator e → Ensures RawFits (fetch_at pc pa e)
  unfolding fetch_at
  fetch_at-Ensures pa e i = bind-Ensures (half pa e i) λ lo h e' i'.
      choose-Ensures (not (bit_and lo 3 == 3)) (expanded pc lo (expand_compressed lo))
        (fetch_wide pc pa lo >>= λ raw. pure (raw, false))
        (expanded-Ensures lo (expand_compressed lo) e' i' h (expand_compressed-ResultFits lo))
        (bind-Ensures (fetch_wide-Ensures pa lo e' i' h) λ raw q e2 i2. done-Ensures q i2)

  at_address :
      (t : Translated) (e : Emulator)
      → TranslatedFits t
      → IsEmulator e
      → Ensures RawFits (
          (elim t as (λ _. Exec (ℕ × Bool)) [
            | mapped pa ↦ fetch_at pc pa
            | fault cause ↦ reject cause pc pc
          ])
            e)
  at_address (mapped pa) e q i = fetch_at-Ensures pa e i
  at_address (fault cause) e q i = reject-Ensures cause pc pc e i q p p

  pub fetch-Ensures : (e : Emulator) → IsEmulator e → Ensures RawFits (fetch pc e)
  unfolding fetch
  fetch-Ensures e i =
      if-Ensures (nonzero (bit_and pc 1))
        (reject-Ensures exc_inst_misaligned pc pc e i (omega arith) p p)
        (bind-Ensures (mmu_translate-Ensures pc acc_fetch e i p) λ t q e' i'. at_address t e' q i')

  found :
      (f : ℕ × Bool) (o : Option Inst) (e : Emulator)
      → RawFits f
      → IsEmulator e
      → decode f.0 ≡ o
      → Ensures IsDecoded (elim o as (λ _. Run Inst) [
        | some i ↦ done (if f.1 then record i { len = 2 } else i) e
        | none ↦ reject exc_illegal_inst f.0 pc e
      ])
  found f (some i) e h inv q =
      let d = decode-IsDecoded f.0 h q in
      let s : IsDecoded (record i { len = 2 }) = search in done-Ensures (narrow f.1 d s) inv
  found f none e h inv q = reject-Ensures exc_illegal_inst f.0 pc e inv (omega arith) h p

  pub decoded-Ensures :
      (f : ℕ × Bool) (e : Emulator) → RawFits f → IsEmulator e → Ensures IsDecoded (decoded pc f e)
  unfolding decoded
  decoded-Ensures f e h inv = found f (decode f.0) e h inv refl

counted-Ensures : (b : Bool) (e : Emulator) → IsEmulator e → Ensures Anything (counted b e)
unfolding counted
counted-Ensures true e i = done-Ensures tt (count_cycle-IsEmulator e i)
counted-Ensures false e i = done-Ensures tt i

returned-Ensures : (r : Run Bool) → Ensures Anything r → Ensures Anything (returned r)
returned-Ensures (done b e) h = h
returned-Ensures (leave (return b) e) h = done-Ensures tt h.outcome.1
returned-Ensures (leave goto_unknown e) h = h
returned-Ensures (leave (goto_except c a) e) h = h
returned-Ensures undefined h = h

module _ (host : HostFloat) (is_host : IsHost host) where
  instruction-Ensures :
      (pc : ℕ) (e : Emulator)
      → pc < 2 ^ 32
      → IsEmulator e
      → Ensures Anything (instruction host pc e)
  unfolding instruction
  instruction-Ensures pc e p i = bind-Ensures (fetch-Ensures pc p e i) λ f h e1 i1.
      bind-Ensures (decoded-Ensures pc p f e1 h i1) λ inst d e2 i2.
        bind-Ensures (execute-Ensures host is_host inst d e2 i2)
          λ b _ e3 i3. counted-Ensures b e3 i3

-- emu_step keeps the invariant on every path: interrupt, fetch and decode failures, traps, and every
-- instruction, except where C leaves the behaviour undefined. Afterwards x0 is 0, every register and control register is a word, memory holds bytes
-- and the privilege has two bits, when the host's float results are words.
pub emu_step-Ensures :
    (host : HostFloat)
    → IsHost host
    → (e : Emulator) → IsEmulator e
    → Ensures Anything (emu_step host e)
unfolding emu_step
emu_step-Ensures host is_host e i =
    let t = trap_check_interrupt-IsEmulator e.rf.pc e i i.pc_fits in
    let e' = (trap_check_interrupt e.rf.pc e).0 in
    if-Ensures (trap_check_interrupt e.rf.pc e).1 (done-Ensures tt (count_cycle-IsEmulator e' t)) (
      returned-Ensures (instruction host e.rf.pc e')
        (instruction-Ensures host is_host e.rf.pc e' i.pc_fits t))

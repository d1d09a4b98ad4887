-- ===== src/Invariant/Ran.antt =====
-- emu_run of src/emu.c ends within its bound and keeps the invariant.
use rv32i_emu.Base.{
  ℕ, zero, suc, ◌+◌, ◌^◌, ◌<◌, ◌≤◌, ◌≡◌, ◌≢◌, ◌⊎◌, inl, inr, sym, ◌∙◌, refl, arith, Bool, true,
  false, Option, some, none, ◌&&◌, ltb, leb, u64,
}
use rv32i_emu.Machine.{EmuState, running, halted, exception, Emulator, Run, done, leave, undefined}
use rv32i_emu.Fpu.Host.{HostFloat}
use rv32i_emu.Emu.{emu_step, emu_run_from, emu_run}
use rv32i_emu.Invariant.State.{IsEmulator, Ensures, Anything}
use rv32i_emu.Invariant.Floats.{IsHost}
use rv32i_emu.Invariant.Stepped.{emu_step-Ensures}
use rv32i_emu.Invariant.Stopped.{StepEnds, emu_step-StepEnds}

-- The run gives a number of steps within the bound, at the bound or with the machine stopped, and the
-- fuel does not run out.
abbrev RunEnds : ℕ → Run (Option ℕ) → Type 0
RunEnds max_steps (done (some n) e) =
    (n ≤ max_steps) × ((n ≡ max_steps) ⊎ (e.state ≢ running)) × IsEmulator e
RunEnds max_steps (done none e) = ⊥
RunEnds max_steps (leave l e) = ⊥
RunEnds max_steps undefined = Unit

pub record Ends (max_steps : ℕ) (r : Run (Option ℕ)) : Type 0 where
  pub ends : RunEnds max_steps r

module _ (host : HostFloat) (is_host : IsHost host) (max_steps : ℕ) (pos : 0 < max_steps)
    (fits : max_steps < 2 ^ 64) where
  after :
      (fuel steps : ℕ) (r : Run Bool)
      → Ensures Anything r
      → StepEnds r
      → steps < max_steps
      → ((e : Emulator)
          → IsEmulator e
          → Ends max_steps (emu_run_from host fuel max_steps (u64 (steps + 1)) e))
      → Ends max_steps (elim r as (λ _. Run (Option ℕ)) [
        | done true e' ↦ emu_run_from host fuel max_steps (u64 (steps + 1)) e'
        | done false e' ↦ done (some steps) e'
        | leave l e' ↦ leave l e'
        | undefined ↦ undefined
      ])
  after fuel steps (done true e) q s h k = k e q.outcome.1
  after fuel steps (done false e) q s h k = record {
    ends = (omega arith, inr s.step_end, q.outcome.1);
  }
  after fuel steps (leave l e) q s h k = absurd s.step_end
  after fuel steps undefined q s h k = record { ends = tt }

  bounded :
      (fuel steps : ℕ) (r : Run Bool) (e : Emulator) (b : Bool)
      → (ltb 0 max_steps && leb max_steps steps) ≡ b
      → IsEmulator e
      → Ensures Anything r
      → StepEnds r
      → steps ≤ max_steps
      → (steps < max_steps
          → (e : Emulator) → IsEmulator e
          → Ends max_steps (emu_run_from host fuel max_steps (u64 (steps + 1)) e))
      → Ends max_steps (elim b as (λ _. Run (Option ℕ)) [
        | true ↦ done (some steps) e
        | false ↦ elim r as (λ _. Run (Option ℕ)) [
          | done true e' ↦ emu_run_from host fuel max_steps (u64 (steps + 1)) e'
          | done false e' ↦ done (some steps) e'
          | leave l e' ↦ leave l e'
          | undefined ↦ undefined
        ]
      ])
  bounded fuel steps r e true q i s t h k =
      let full : steps ≡ max_steps = ground arith in record { ends = (h, inl full, i) }
  bounded fuel steps r e false q i s t h k =
      let l : steps < max_steps = ground arith in after fuel steps r s t l (k l)

  by_state :
      (fuel steps : ℕ) (r : Run Bool) (e : Emulator) (s : EmuState)
      → e.state ≡ s
      → IsEmulator e
      → Ensures Anything r
      → StepEnds r
      → steps ≤ max_steps
      → (steps < max_steps
          → (e : Emulator) → IsEmulator e
          → Ends max_steps (emu_run_from host fuel max_steps (u64 (steps + 1)) e))
      → Ends max_steps (elim s as (λ _. Run (Option ℕ)) [
        | running ↦ elim (ltb 0 max_steps && leb max_steps steps) as (λ _. Run (Option ℕ)) [
          | true ↦ done (some steps) e
          | false ↦ elim r as (λ _. Run (Option ℕ)) [
            | done true e' ↦ emu_run_from host fuel max_steps (u64 (steps + 1)) e'
            | done false e' ↦ done (some steps) e'
            | leave l e' ↦ leave l e'
            | undefined ↦ undefined
          ]
        ]
        | halted ↦ done (some steps) e
        | exception ↦ done (some steps) e
      ])
  by_state fuel steps r e running q i s t h k =
      bounded fuel steps r e (ltb 0 max_steps && leb max_steps steps) refl i s t h k
  by_state fuel steps r e halted q i s t h k = record {
    ends = (h, inr (λ c. let d = sym q ∙ c in cc), i);
  }
  by_state fuel steps r e exception q i s t h k = record {
    ends = (h, inr (λ c. let d = sym q ∙ c in cc), i);
  }

  emu_run_from-Ends :
      (fuel steps : ℕ) (e : Emulator)
      → IsEmulator e
      → steps ≤ max_steps
      → max_steps < fuel + steps
      → Ends max_steps (emu_run_from host fuel max_steps steps e)
  unfolding emu_run_from
  emu_run_from-Ends zero steps e i h k = absurd (omega arith)
  emu_run_from-Ends (suc fuel) steps e i h k =
      by_state fuel steps (emu_step host e) e e.state refl i (emu_step-Ensures host is_host e i)
        (emu_step-StepEnds host is_host e i) h
        λ l e' i'. emu_run_from-Ends fuel (u64 (steps + 1)) e' i' (omega arith) (omega arith)

-- With a bound on the steps, emu_run ends: fuel of one more than the bound is never used up. Unless
-- it meets undefined behaviour, the run gives a number of steps that is at most the bound, and if it
-- is below the bound the machine has stopped; the state it ends in is well formed.
pub emu_run-Ends :
    (host : HostFloat)
    → IsHost host
    → (max_steps : ℕ) (e : Emulator) → 0 < max_steps
    → max_steps < 2 ^ 64
    → IsEmulator e
    → Ends max_steps (emu_run host (max_steps + 1) max_steps e)
unfolding emu_run
emu_run-Ends host is_host max_steps e p f i =
    emu_run_from-Ends host is_host max_steps p f (max_steps + 1) 0 e i (omega arith) (omega arith)

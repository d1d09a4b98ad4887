-- ===== src/Examples/Device.antt =====
-- A page fault, the breakpoint table and FMAX.S at concrete inputs.
use rv32i_emu.Base.{
  ℕ, ◌≤◌, ◌≡◌, refl, arith, false, none, [], ◌∷◌, ◌&&◌, ltb, leb, ◌==◌, if◌then◌else◌, length,
}
use rv32i_emu.Memory.{memory_read32}
use rv32i_emu.Machine.{Emulator, done}
use rv32i_emu.Mmu.{
  acc_load, fault, fault_cause, mmu_translate, first_pte, with_pte, mmu_read_pte, root_addr,
}
use rv32i_emu.Mmu.Faults.{mmu_translate_fault}
use rv32i_emu.Fpu.Host.{HostFloat, FloatResult}
use rv32i_emu.Debug.{Breakpoints, max_breakpoints, bp_find, bp_add, bp_del}
use rv32i_emu.Debug.Breakpoints.{count, bp_add-bp_del}
use rv32i_emu.Emu.{emu_init}

-- User mode with translation on, and a page table of zeros at 0.
abbrev paged : Emulator
paged = record (emu_init []) { priv = 0; csr = record (emu_init []).csr { satp = 0x8000_0000 } }

load_fault : mmu_translate 0x4000_0000 acc_load paged ≡ done (fault 13) paged
unfolding mmu_translate first_pte with_pte mmu_read_pte root_addr memory_read32 emu_init fault_cause
load_fault = refl

mmu_translate_fault_example : (paged ≡ paged) × (13 ≡ fault_cause acc_load)
mmu_translate_fault_example = mmu_translate_fault 0x4000_0000 acc_load paged load_fault

abbrev exact_zero : FloatResult
exact_zero = record {
  bits = 0;
  flags = record {
    inexact = false;
    underflow = false;
    overflow = false;
    divbyzero = false;
    invalid = false;
  };
}

-- A host that compares the patterns of positive floats.
abbrev positive_host : HostFloat
positive_host = record {
  arith = λ op rm a b. exact_zero;
  less = ltb;
  less_eq = leb;
  equal = ◌==◌;
  nearbyint = λ rm a. exact_zero;
  to_u32 = λ a. 0;
  to_s32 = λ a. 0;
  of_u32 = λ rm a. exact_zero;
  of_s32 = λ rm a. exact_zero;
}

abbrev one_breakpoint : Breakpoints
one_breakpoint = 0x1_0000 ∷ []

counted_once : (x : ℕ) → count x one_breakpoint ≤ 1
unfolding count
counted_once x = ground arith

bp_add-bp_del_example :
    ((x : ℕ)
      → count x (bp_add 0x1_0004 one_breakpoint) ≡ (
          if x == 0x1_0004 && count 0x1_0004 one_breakpoint == 0 && ltb 1 max_breakpoints
          then 1
          else count x one_breakpoint))
    × ((x : ℕ)
        → count x (bp_del 0x1_0004 one_breakpoint)
          ≡ (if x == 0x1_0004 then 0 else count x one_breakpoint))
    × ((x : ℕ) → count x (bp_add 0x1_0004 one_breakpoint) ≤ 1)
    × (length (bp_add 0x1_0004 one_breakpoint) ≤ max_breakpoints)
    × (length (bp_del 0x1_0004 one_breakpoint) ≤ max_breakpoints)
    × (bp_find 0x1_0004 (bp_del 0x1_0004 one_breakpoint) ≡ none)
bp_add-bp_del_example = bp_add-bp_del 0x1_0004 one_breakpoint counted_once (omega arith)

-- ===== src/Examples/Paged.antt =====
-- Translations through a page table with one page, in supervisor mode.
use rv32i_emu.Base.{ℕ, [], ◌≡◌, refl, arith, ◌==◌, if◌then◌else◌}
use rv32i_emu.Base.Bits.{test_bit}
use rv32i_emu.Memory.{Memory, memory_init}
use rv32i_emu.Memory.Laws.{IsMemory}
use rv32i_emu.Csr.{Csr, csr_init}
use rv32i_emu.Machine.{Emulator, done, with_mem}
use rv32i_emu.Emu.{emu_init}
use rv32i_emu.Invariant.State.{IsEmulator}
use rv32i_emu.Invariant.CsrLaws.{IsCsr}
use rv32i_emu.Mmu.{acc_store, mapped, mmu_translate}
use rv32i_emu.Mmu.Sv32.{permits_page, sv32}
use rv32i_emu.Mmu.Marked.{IsMarked}
use rv32i_emu.Mmu.Translates.{mmu_translate-sv32}
use rv32i_emu.Examples.Host.{reset, reset-IsEmulator}

-- The root table at 0x1000 has at 0x1400 a pointer to the table at 0x2000, which has at 0x2004 a
-- readable and writable page at 0x3000.
abbrev tables : ℕ → ℕ
tables a =
    if a == 0x1400
    then 0x01
    else if a == 0x1401
    then 0x08
    else if a == 0x2004
    then 0x07
    else if a == 0x2005
    then 0x0c
    else 0

abbrev paged_memory : Memory
paged_memory = record (memory_init []) { data_bytes = tables }

paged_memory-IsMemory : IsMemory paged_memory
unfolding memory_init
paged_memory-IsMemory = record { bytes = λ a. ground arith; size_fits = omega arith }

abbrev paged_csr : Csr
paged_csr = record csr_init { satp = 0x8000_0001 }

paged_csr-IsCsr : IsCsr paged_csr
unfolding csr_init
paged_csr-IsCsr = ground arith

abbrev supervisor : Emulator
supervisor = record reset { mem = paged_memory; csr = paged_csr; priv = 1 }

supervisor-IsEmulator : IsEmulator supervisor
supervisor-IsEmulator =
    let i = reset-IsEmulator in
    record {
      memory = paged_memory-IsMemory;
      zero = i.zero;
      regs_fit = i.regs_fit;
      fregs_fit = i.fregs_fit;
      pc_fits = i.pc_fits;
      csr = paged_csr-IsCsr;
      priv_fits = omega arith;
      mtime_fits = i.mtime_fits;
      mtimecmp_fits = i.mtimecmp_fits;
    }

-- A store to the page sets A and D.
mmu_translate-sv32_example :
    (m : Memory) × (mmu_translate 0x4000_1234 acc_store supervisor
      ≡ done (mapped 0x3234) (with_mem m supervisor))
    × IsMarked acc_store 0x2004 0xc07 supervisor.mem m
unfolding memory_init csr_init emu_init test_bit sv32 permits_page
mmu_translate-sv32_example =
    mmu_translate-sv32 0x4000_1234 acc_store supervisor supervisor-IsEmulator refl refl refl
      (omega arith)

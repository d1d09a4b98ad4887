-- ===== src/Mmu/Translates.antt =====
-- mmu_translate of src/mmu.c against the translation of the privileged architecture.
use rv32i_emu.Base.{ℕ, ◌^◌, ◌<◌, ◌≡◌, refl, ◌∙◌, true, false, ◌==◌}
use rv32i_emu.Base.Bits.{test_bit}
use rv32i_emu.Memory.{Memory}
use rv32i_emu.Csr.Constants.{priv_m}
use rv32i_emu.Machine.{Emulator, done, with_mem}
use rv32i_emu.Machine.Runs.{bind-done}
use rv32i_emu.Invariant.State.{IsEmulator}
use rv32i_emu.Mmu.{AccessType, mapped, mmu_translate}
use rv32i_emu.Mmu.Arithmetic.{allowed, truncated_walk, carried}
use rv32i_emu.Mmu.Refined.{mmu_translate-truncated_walk}
use rv32i_emu.Mmu.Sv32.{permits_page, translates, sv32}
use rv32i_emu.Mmu.Pages.{sv32_same}
use rv32i_emu.Mmu.Marked.{IsMarked, pte_update_ad-IsMarked}

-- Outside of M-mode and with paging on, mmu_translate carries the walk out.
module _ (va : ℕ) (acc : AccessType) (e : Emulator) (paging : (e.priv == priv_m) ≡ false)
    (on : test_bit e.csr.satp 31 ≡ true) where
  mmu_translate-carried :
      mmu_translate va acc e
      ≡ carried acc
          (truncated_walk e.mem e.csr.satp (allowed e.priv (test_bit e.csr.mstatus 18) acc) va)
          e
  mmu_translate-carried = mmu_translate-truncated_walk va acc e ∙ rw (paging, on) refl

-- Outside machine mode and with paging on, when Sv32, with MXR and MPRV clear, translates an address
-- to a physical address below 2 ^ 32 by the leaf p at the address entry, mmu_translate gives this
-- address, sets the A bit of the leaf in memory, and the D bit for a store, and changes nothing else.
pub mmu_translate-sv32 :
    (va : ℕ) (acc : AccessType) (e : Emulator) {pa entry p : ℕ}
    → IsEmulator e
    → (e.priv == priv_m) ≡ false
    → test_bit e.csr.satp 31 ≡ true
    → sv32 e.mem e.csr.satp (permits_page e.priv (test_bit e.csr.mstatus 18) acc) va
      ≡ translates pa entry p
    → pa < 2 ^ 32
    → (m : Memory) × (mmu_translate va acc e ≡ done (mapped pa) (with_mem m e))
      × IsMarked acc entry p e.mem m
unfolding carried
mmu_translate-sv32 va acc e {pa} {entry} {p} inv paging on h fits =
    let (walk, inside, word) =
      sv32_same e.mem inv.memory e.priv (test_bit e.csr.mstatus 18) acc va e.csr.satp fits h in
    let (m, updated, marked) = pte_update_ad-IsMarked acc entry p e inv.memory word inside in
    (m, mmu_translate-carried va acc e paging on ∙ rw walk (bind-done _ updated refl), marked)

-- ===== src/Mmu/Bare.antt =====
-- mmu_translate of src/mmu.c where addresses are physical.
use rv32i_emu.Base.{ℕ, ◌≡◌, true, ◌||◌, ◌==◌, bit_and}
use rv32i_emu.Csr.Constants.{priv_m, satp_mode_bit}
use rv32i_emu.Machine.{Emulator, done}
use rv32i_emu.Machine.Runs.{chosen}
use rv32i_emu.Mmu.{AccessType, mapped, mmu_translate}

-- In M-mode and in bare mode the address itself is the physical address, and nothing changes.
pub mapped_bare :
    (e : Emulator) (addr : ℕ) (acc : AccessType)
    → (e.priv == priv_m || bit_and e.csr.satp satp_mode_bit == 0) ≡ true
    → mmu_translate addr acc e ≡ done (mapped addr) e
unfolding mmu_translate
mapped_bare e addr acc h = chosen (e.priv == priv_m || bit_and e.csr.satp satp_mode_bit == 0) _ _ h

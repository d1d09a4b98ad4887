-- ===== src/Examples/Stored.antt =====
-- Concrete accesses to the memory that memory_init makes.
use rv32i_emu.Base.{ℕ, ◌+◌, ◌<◌, ◌≤◌, ◌≡◌, ◌≢◌, ◌⊎◌, refl, List, get_or, [], ◌∷◌, arith}
use rv32i_emu.Memory.{
  Memory, ok, out_of_bounds, memory_init, memory_read8, memory_read32, memory_write8,
  memory_write32, memory_load, store_word, csr_mmio_uart,
}
use rv32i_emu.Memory.Laws.{
  IsMemory, read32-write32, write32_frame, write32-IsMemory, memory_read32_lem, read8-write8,
  write32_within,
}
use rv32i_emu.Memory.Load.{memory_load_lem}

abbrev fresh : Memory
fresh = memory_init []

fresh-IsMemory : IsMemory fresh
unfolding memory_init
fresh-IsMemory = record { bytes = λ a. omega arith; size_fits = omega arith }

abbrev stored : Memory
stored = record fresh { data_bytes = store_word fresh.data_bytes 0x1000 0xdead_beef }

write_stored : memory_write32 fresh 0x1000 0xdead_beef ≡ ok stored
unfolding memory_init
write_stored = write32_within fresh 0x1000 0xdead_beef (omega arith) (omega arith)

read32-write32_example : memory_read32 stored 0x1000 ≡ ok 0xdead_beef
read32-write32_example =
    read32-write32 fresh 0x1000 0xdead_beef fresh-IsMemory (omega arith) write_stored

write32_frame_example :
    (0x1000 + 4 ≤ fresh.size)
    × (stored.size ≡ fresh.size)
    × (stored.console ≡ fresh.console)
    × ((j : ℕ) → (j < 0x1000) ⊎ (0x1000 + 4 ≤ j) → stored.data_bytes j ≡ fresh.data_bytes j)
write32_frame_example = write32_frame fresh 0x1000 0xdead_beef write_stored

write32-IsMemory_example : IsMemory stored
write32-IsMemory_example = write32-IsMemory fresh 0x1000 0xdead_beef fresh-IsMemory write_stored

memory_read32_lem_example : memory_read32 fresh 0xffff_fffe ≡ out_of_bounds
unfolding memory_init
memory_read32_lem_example = memory_read32_lem fresh 0xffff_fffe fresh-IsMemory (omega arith)

write_uart :
    memory_write8 fresh csr_mmio_uart 65 ≡ ok (record fresh { console = 65 ∷ fresh.console })
unfolding memory_write8
write_uart = refl

read8-write8_example :
    (csr_mmio_uart ≢ csr_mmio_uart
      → memory_read8 (record fresh { console = 65 ∷ fresh.console }) csr_mmio_uart ≡ ok 65)
    × (csr_mmio_uart ≡ csr_mmio_uart
        → record fresh { console = 65 ∷ fresh.console }
          ≡ record fresh { console = 65 ∷ fresh.console })
read8-write8_example = read8-write8 fresh csr_mmio_uart 65 write_uart

abbrev two_bytes : List ℕ
two_bytes = 1 ∷ 2 ∷ []

-- Two bytes at the last address of the memory, of which one fits.
memory_load_lem_example :
    (m' : Memory) × (memory_load fresh 0x0f_ffff two_bytes 2 ≡ ok (m', 1))
    × (m'.size ≡ fresh.size)
    × (m'.console ≡ fresh.console)
    × ((j : ℕ) → j < 1 → m'.data_bytes (0x0f_ffff + j) ≡ get_or two_bytes j 0)
    × ((j : ℕ) → (j < 0x0f_ffff) ⊎ (0x0f_ffff + 1 ≤ j) → m'.data_bytes j ≡ fresh.data_bytes j)
unfolding memory_init
memory_load_lem_example =
    memory_load_lem fresh 0x0f_ffff two_bytes 2 (omega arith) (omega arith) (omega arith)
      (omega arith)

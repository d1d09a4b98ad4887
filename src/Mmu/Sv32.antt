-- ===== src/Mmu/Sv32.antt =====
-- Sv32 as the privileged architecture has it: a table of two levels in physical memory, entries of
-- single bits, page numbers of 22 bits and physical addresses of 34. It is what mmu_translate of
-- src/mmu.c is compared with. The A and D bits are set by the machine, as the specification permits,
-- and mstatus.MXR and mstatus.MPRV, which the emulator does not have, are taken to be 0.
use rv32i_emu.Base.{
  ℕ, ◌+◌, ◌*◌, ◌/◌, ◌%◌, ◌^◌, Bool, false, Option, none, some, not, ◌&&◌, ◌||◌, ◌==◌, leb,
  if◌then◌else◌,
}
use rv32i_emu.Base.Bits.{test_bit}
use rv32i_emu.Memory.{Memory}
use rv32i_emu.Mmu.{AccessType, acc_fetch, acc_load, acc_store}
use rv32i_emu.Isa.Accesses.{little_endian}

-- An entry that allows writes but no reads is reserved.
abbrev pub is_valid : ℕ → Bool
is_valid p = test_bit p 0 && not (test_bit p 2 && not (test_bit p 1))

-- An entry that allows reads or execution is a leaf, any other is a pointer.
abbrev pub is_leaf : ℕ → Bool
is_leaf p = test_bit p 1 || test_bit p 3

-- The permission bit of the access.
abbrev pub grants : AccessType → ℕ → Bool
grants acc_fetch p = test_bit p 3
grants acc_load p = test_bit p 1
grants acc_store p = test_bit p 2

-- User mode (0) needs the U bit. Supervisor mode (1) must not find it, except that under SUM loads and
-- stores may.
abbrev pub reaches : ℕ → Bool → AccessType → ℕ → Bool
reaches priv sum acc_fetch p = if priv == 0 then test_bit p 4 else not (priv == 1 && test_bit p 4)
reaches priv sum _ p =
    if priv == 0 then test_bit p 4 else not (priv == 1 && test_bit p 4 && not sum)

unfoldable pub permits_page : ℕ → Bool → AccessType → ℕ → Bool
permits_page priv sum acc p = grants acc p && reaches priv sum acc p

-- The word of a table, if physical memory has it.
unfoldable pub entry_at : Memory → ℕ → Option ℕ
unfolding little_endian
entry_at m a = if leb (a + 4) m.size then some (little_endian m.data_bytes a 4) else none

-- `translates pa entry p`: to the physical address pa, by the leaf p at the address entry.
pub data Translation : Type 0 where
  translates : ℕ → ℕ → ℕ → Translation
  page_fault access_fault : Translation

-- The address of an entry of the table with the page number ppn.
abbrev pub entry_address : ℕ → ℕ → ℕ
entry_address ppn vpn = ppn % 2 ^ 22 * 2 ^ 12 + vpn % 2 ^ 10 * 4

unfoldable pub second_level : (ℕ → Bool) → ℕ → ℕ → Option ℕ → Translation
second_level permits va entry none = access_fault
second_level permits va entry (some p) =
    if is_valid p && is_leaf p && permits p
    then translates (p / 2 ^ 10 % 2 ^ 22 * 2 ^ 12 + va % 2 ^ 12) entry p
    else page_fault

-- A leaf of the first level is a page of 4 MiB, whose lower ten bits of the page number are 0.
unfoldable pub first_level : Memory → (ℕ → Bool) → ℕ → ℕ → Option ℕ → Translation
unfolding second_level entry_at
first_level m permits va entry none = access_fault
first_level m permits va entry (some p) =
    if not (is_valid p)
    then page_fault
    else if is_leaf p
    then if permits p && p / 2 ^ 10 % 2 ^ 10 == 0
      then translates (p / 2 ^ 20 % 2 ^ 12 * 2 ^ 22 + va % 2 ^ 22) entry p
      else page_fault
    else second_level permits va (entry_address (p / 2 ^ 10) (va / 2 ^ 12))
        (entry_at m (entry_address (p / 2 ^ 10) (va / 2 ^ 12)))

unfoldable pub sv32 : Memory → ℕ → (ℕ → Bool) → ℕ → Translation
unfolding first_level
sv32 m satp permits va =
    first_level m permits va (entry_address satp (va / 2 ^ 22))
      (entry_at m (entry_address satp (va / 2 ^ 22)))

-- The exception codes of page faults.
abbrev pub page_fault_code : AccessType → ℕ
page_fault_code acc_fetch = 12
page_fault_code acc_load = 13
page_fault_code acc_store = 15

-- The bit that an access sets in the leaf: A, and D for a store.
abbrev pub sets_bit : AccessType → ℕ → Bool
sets_bit acc_store i = i == 6 || i == 7
sets_bit _ i = i == 6

-- A reserved entry with V and W, and neither R nor X.
abbrev pub is_write_only : Option ℕ → Bool
is_write_only none = false
is_write_only (some p) = test_bit p 2 && not (is_leaf p)

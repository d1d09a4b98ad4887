-- ===== src/Mmu/Marked.antt =====
-- pte_update_ad of src/mmu.c, which marks the leaf of a translation.
use rv32i_emu.Base.{
  ℕ, ◌+◌, ◌^◌, ◌≤◌, ◌<◌, ◌≡◌, ◌⊎◌, refl, ◌||◌, ◌==◌, Bool-cases, inl, inr, bit_or, arith,
}
use rv32i_emu.Base.Bits.{test_bit, test_bit-set, set-lt}
use rv32i_emu.Memory.{Memory, ok, store_word, memory_read32, memory_write32}
use rv32i_emu.Memory.Laws.{IsMemory, read32-write32, write32_frame, write32_within}
use rv32i_emu.Invariant.Accesses.{memory_read32-lt}
use rv32i_emu.Machine.{Emulator, done, with_mem}
use rv32i_emu.Mmu.{AccessType, acc_fetch, acc_load, acc_store, new_pte, pte_update_ad, store_pte}
use rv32i_emu.Mmu.Sv32.{sets_bit}

new_pte-bits :
    (p : ℕ) (acc : AccessType) (i : ℕ)
    → test_bit (new_pte p acc) i ≡ (test_bit p i || sets_bit acc i)
unfolding new_pte
new_pte-bits p acc_fetch i = ground (arith, test_bit-set 6 p i)
new_pte-bits p acc_load i = ground (arith, test_bit-set 6 p i)
new_pte-bits p acc_store i = ground (arith, test_bit-set 6 p i, test_bit-set 7 (bit_or p (2 ^ 6)) i)

new_pte-lt : (p : ℕ) (acc : AccessType) → p < 2 ^ 32 → new_pte p acc < 2 ^ 32
unfolding new_pte
new_pte-lt p acc_fetch h = set-lt 6 p h (omega arith)
new_pte-lt p acc_load h = set-lt 6 p h (omega arith)
new_pte-lt p acc_store h = set-lt 7 (bit_or p (2 ^ 6)) (set-lt 6 p h (omega arith)) (omega arith)

store_pte_ok :
    (entry w : ℕ) (e : Emulator) (m : Memory)
    → memory_write32 e.mem entry w ≡ ok m
    → store_pte entry w e ≡ done tt (with_mem m e)
unfolding store_pte
store_pte_ok entry w e m x = rw (store_pte, x) refl

-- The memory m' is m but for the word at entry, which is p with the bits that the access sets.
pub record IsMarked (acc : AccessType) (entry p : ℕ) (m m' : Memory) : Type 0 where
  pub word : ℕ
  pub stored : memory_read32 m' entry ≡ ok word
  pub bits : (i : ℕ) → test_bit word i ≡ (test_bit p i || sets_bit acc i)
  pub same_size : m'.size ≡ m.size
  pub same_console : m'.console ≡ m.console
  pub same_bytes : (j : ℕ) → (j < entry) ⊎ (entry + 4 ≤ j) → m'.data_bytes j ≡ m.data_bytes j

pub pte_update_ad-IsMarked :
    (acc : AccessType) (entry p : ℕ) (e : Emulator)
    → IsMemory e.mem
    → memory_read32 e.mem entry ≡ ok p
    → entry + 4 ≤ e.mem.size
    → (m : Memory) × (pte_update_ad entry p acc e ≡ done tt (with_mem m e))
      × IsMarked acc entry p e.mem m
unfolding pte_update_ad
pte_update_ad-IsMarked acc entry p e i r fits =
    let w = new_pte p acc in
    let lt : w < 2 ^ 32 = new_pte-lt p acc (memory_read32-lt e.mem entry i r) in
    let m = record e.mem { data_bytes = store_word e.mem.data_bytes entry w } in
    let x = write32_within e.mem entry w fits i.size_fits in
    let (_, s, c, b) = write32_frame e.mem entry w x in
    elim (Bool-cases (w == p)) [
      | inl q ↦
          let same : w ≡ p = ground arith in
          (
            e.mem,
            rw q refl,
            record {
              word = p;
              stored = r;
              bits = λ k. rw (← (new_pte-bits p acc k), same) refl;
              same_size = refl;
              same_console = refl;
              same_bytes = λ j h. refl;
            },
          )
      | inr n ↦ (
        m,
        rw n (store_pte_ok entry w e m x),
        record {
          word = w;
          stored = read32-write32 e.mem entry w i lt x;
          bits = new_pte-bits p acc;
          same_size = s;
          same_console = c;
          same_bytes = b;
        },
      )
    ]

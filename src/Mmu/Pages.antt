-- ===== src/Mmu/Pages.antt =====
-- The walks of Mmu/Sv32 and Mmu/Arithmetic at both levels of a page table.
use rv32i_emu.Base.{
  ℕ, ◌+◌, ◌*◌, ◌/◌, ◌%◌, ◌^◌, ◌≤◌, ◌<◌, ◌≡◌, refl, sym, ap, ◌∙◌, Bool, Bool-cases, inl, inr, true,
  false, Option, none, some, not, ◌&&◌, ◌==◌, if◌then◌else◌, arith,
}
use rv32i_emu.Base.Bits.{test_bit}
use rv32i_emu.Memory.{Memory, ok, memory_read32}
use rv32i_emu.Memory.Laws.{IsMemory}
use rv32i_emu.Mmu.{AccessType}
use rv32i_emu.Mmu.Arithmetic.{allowed, page, no_page, small_page, large_page, truncated_walk}
use rv32i_emu.Mmu.Sv32.{
  is_valid, is_leaf, permits_page, entry_at, translates, page_fault, entry_address, second_level,
  first_level, sv32, is_write_only,
}
use rv32i_emu.Mmu.Entries.{
  read_entry, leaf_allowed, same_page, no_same_page, valid_on, leaf_tests, page_tests,
  leaf_allowed_here,
}

module _ (m : Memory) (i : IsMemory m) (priv : ℕ) (sum : Bool) (acc : AccessType) (va : ℕ) where
  abbrev permits : ℕ → Bool
  permits = permits_page priv sum acc

  abbrev allows : ℕ → Bool
  allows = allowed priv sum acc

  second_same :
      (a : ℕ) (o : Option ℕ) {pa entry p : ℕ}
      → entry_at m a ≡ o
      → pa < 2 ^ 32
      → second_level permits va a o ≡ translates pa entry p
      → (small_page va a allows (memory_read32 m a) ≡ page pa entry p)
        × (entry + 4 ≤ m.size)
        × (memory_read32 m entry ≡ ok p)
        × (a + 4 ≤ m.size)
  unfolding second_level small_page
  second_same a none q h e = cc
  second_same a (some w) {pa} {entry} {p} q h e =
      let (fits, r) = read_entry m i a w q in
      let (x, at, word) =
        same_page (test_bit w 0 && is_leaf w && allowed priv sum acc w)
          {x = w / 2 ^ 10 % 2 ^ 22 * 2 ^ 12 + va % 2 ^ 12}
          {y = w / 2 ^ 10 % 2 ^ 20 * 2 ^ 12 + va % 2 ^ 12} h (λ l. omega arith)
          (rw (← leaf_allowed priv sum acc w) e) in
      (rw r x, rw (← at) fits, rw (← at, ← word) r, fits)

  second_faults :
      (a : ℕ) (o : Option ℕ)
      → entry_at m a ≡ o
      → second_level permits va a o ≡ page_fault
      → (small_page va a allows (memory_read32 m a) ≡ no_page) × (a + 4 ≤ m.size)
  unfolding second_level small_page
  second_faults a none q e = cc
  second_faults a (some w) q e =
      let (fits, r) = read_entry m i a w q in
      (
        rw r (
            no_same_page (test_bit w 0 && is_leaf w && allowed priv sum acc w)
              (w / 2 ^ 10 % 2 ^ 22 * 2 ^ 12 + va % 2 ^ 12) _ a w
              (rw (← leaf_allowed priv sum acc w) e)),
        fits,
      )

  -- The address of the second entry, where it lies in memory.
  next_same :
      (n v a : ℕ)
      → a ≡ entry_address n v
      → a + 4 ≤ m.size
      → a ≡ n % 2 ^ 20 * 2 ^ 12 + v % 2 ^ 10 * 4
  next_same n v a q h = let s : m.size < 2 ^ 32 = i.size_fits in omega arith

  -- Both walks at a leaf of the first level, under the same test.
  leaf_test : ℕ → Bool
  leaf_test w = (test_bit w 0 && allows w) && w / 2 ^ 10 % 2 ^ 10 == 0

  first_leaf :
      (a w : ℕ)
      → is_leaf w ≡ true
      → first_level m permits va a (some w) ≡ (
          if leaf_test w
          then translates (w / 2 ^ 20 % 2 ^ 12 * 2 ^ 22 + va % 2 ^ 22) a w
          else page_fault)
  unfolding first_level leaf_test
  first_leaf a w h =
      rw (h, ← leaf_allowed_here priv sum acc w h)
        (leaf_tests (is_valid w) (permits_page priv sum acc w) (w / 2 ^ 10 % 2 ^ 10 == 0) _ _)

  large_leaf :
      (a w : ℕ)
      → is_leaf w ≡ true
      → large_page m va a allows (ok w)
        ≡ (if leaf_test w then page (w / 2 ^ 20 % 2 ^ 10 * 2 ^ 22 + va % 2 ^ 22) a w else no_page)
  unfolding large_page leaf_test
  large_leaf a w h =
      rw h (page_tests (test_bit w 0) (allowed priv sum acc w) (w / 2 ^ 10 % 2 ^ 10 == 0) _ _)

  -- Both walks at a pointer of the first level.
  first_pointer :
      (a w : ℕ)
      → is_leaf w ≡ false
      → first_level m permits va a (some w) ≡ (
          if not (is_valid w)
          then page_fault
          else second_level permits va
              (entry_address (w / 2 ^ 10) (va / 2 ^ 12))
              (entry_at m (entry_address (w / 2 ^ 10) (va / 2 ^ 12))))
  unfolding first_level
  first_pointer a w h = rw h refl

  large_pointer :
      (a w b : ℕ)
      → is_leaf w ≡ false
      → test_bit w 0 ≡ true
      → b ≡ entry_address (w / 2 ^ 10) (va / 2 ^ 12)
      → b + 4 ≤ m.size
      → large_page m va a allows (ok w) ≡ small_page va b allows (memory_read32 m b)
  unfolding large_page
  large_pointer a w b h v q fits =
      let n : b ≡ w / 2 ^ 10 % 2 ^ 20 * 2 ^ 12 + va / 2 ^ 12 % 2 ^ 10 * 4 =
        next_same (w / 2 ^ 10) (va / 2 ^ 12) b q fits in
      rw (h, v, n) refl

  large_invalid : (a w : ℕ) → test_bit w 0 ≡ false → large_page m va a allows (ok w) ≡ no_page
  unfolding large_page
  large_invalid a w h = rw h refl

  first_same :
      (a : ℕ) (o : Option ℕ) {pa entry p : ℕ}
      → entry_at m a ≡ o
      → pa < 2 ^ 32
      → first_level m permits va a o ≡ translates pa entry p
      → (large_page m va a allows (memory_read32 m a) ≡ page pa entry p)
        × (entry + 4 ≤ m.size)
        × (memory_read32 m entry ≡ ok p)
        × (a + 4 ≤ m.size)
  unfolding first_level large_page
  first_same a none q h e = cc
  first_same a (some w) {pa} {entry} {p} q h e =
      let (here, r) = read_entry m i a w q in
      let b = entry_address (w / 2 ^ 10) (va / 2 ^ 12) in
      elim (Bool-cases (is_leaf w)) [
        | inl leaf ↦
            let (x, at, word) =
              same_page (leaf_test w) {x = w / 2 ^ 20 % 2 ^ 12 * 2 ^ 22 + va % 2 ^ 22}
                {y = w / 2 ^ 20 % 2 ^ 10 * 2 ^ 22 + va % 2 ^ 22} h (λ l. omega arith)
                (sym (first_leaf a w leaf) ∙ e) in
            (rw r (large_leaf a w leaf ∙ x), rw (← at) here, rw (← at, ← word) r, here)
        | inr pointer ↦
            let (v, e') =
              valid_on w (second_level permits va b (entry_at m b))
                (sym (first_pointer a w pointer) ∙ e) in
            let (x, fits, word, near) = second_same b (entry_at m b) refl h e' in
            (rw r (large_pointer a w b pointer v refl near ∙ x), fits, word, here)
      ]

  first_faults :
      (a : ℕ) (o : Option ℕ)
      → entry_at m a ≡ o
      → is_write_only o ≡ false
      → first_level m permits va a o ≡ page_fault
      → (large_page m va a allows (memory_read32 m a) ≡ no_page) × (a + 4 ≤ m.size)
  unfolding first_level
  first_faults a none q u e = cc
  first_faults a (some w) q u e =
      let (here, r) = read_entry m i a w q in
      let b = entry_address (w / 2 ^ 10) (va / 2 ^ 12) in
      elim (Bool-cases (is_leaf w)) [
        | inl leaf ↦ (
          rw r (
              large_leaf a w leaf
              ∙ no_same_page (leaf_test w) _ _ a w (sym (first_leaf a w leaf) ∙ e)),
          here,
        )
        | inr pointer ↦ elim (Bool-cases (test_bit w 0)) [
          | inl v ↦
              let valid : is_valid w ≡ true = ground (arith, v, u, pointer) in
              let e' : second_level permits va b (entry_at m b) ≡ page_fault =
                sym (
                  first_pointer a w pointer
                  ∙ ap (λ c. if not c then page_fault else second_level permits va b (entry_at m b))
                      valid)
                ∙ e in
              let (x, near) = second_faults b (entry_at m b) refl e' in
              (rw r (large_pointer a w b pointer v refl near ∙ x), here)
          | inr n ↦ (rw r (large_invalid a w n), here)
        ]
      ]

  root_same :
      (satp : ℕ)
      → entry_address satp (va / 2 ^ 22) + 4 ≤ m.size
      → truncated_walk m satp allows va
        ≡ large_page m va
            (entry_address satp (va / 2 ^ 22))
            allows
            (memory_read32 m (entry_address satp (va / 2 ^ 22)))
  unfolding truncated_walk
  root_same satp h = rw (← (next_same satp (va / 2 ^ 22) _ refl h)) refl

  pub sv32_same :
      (satp : ℕ) {pa entry p : ℕ}
      → pa < 2 ^ 32
      → sv32 m satp permits va ≡ translates pa entry p
      → (truncated_walk m satp allows va ≡ page pa entry p)
        × (entry + 4 ≤ m.size)
        × (memory_read32 m entry ≡ ok p)
  unfolding sv32
  sv32_same satp h e =
      let a = entry_address satp (va / 2 ^ 22) in
      let (x, fits, word, here) = first_same a (entry_at m a) refl h e in
      (root_same satp here ∙ x, fits, word)

  pub sv32_faults :
      (satp : ℕ)
      → is_write_only (entry_at m (entry_address satp (va / 2 ^ 22))) ≡ false
      → sv32 m satp permits va ≡ page_fault
      → truncated_walk m satp allows va ≡ no_page
  unfolding sv32
  sv32_faults satp u e =
      let a = entry_address satp (va / 2 ^ 22) in
      let (x, here) = first_faults a (entry_at m a) refl u e in root_same satp here ∙ x

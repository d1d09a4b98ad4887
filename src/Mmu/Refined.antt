-- ===== src/Mmu/Refined.antt =====
-- mmu_translate of src/mmu.c is the walk of Mmu/Arithmetic: masks and shifts against single bits and
-- page numbers, and the two walks step by step.
use rv32i_emu.Base.{
  ℕ, ◌+◌, ◌*◌, ◌/◌, ◌%◌, ◌^◌, ◌≡◌, refl, Bool-cases, inl, inr, Bool, true, false, not, ◌&&◌, ◌||◌,
  ◌==◌, if◌then◌else◌, u32, add32, ◌>>>◌, not32, bit_and, bit_or, arith,
}
use rv32i_emu.Base.Bits.{test_bit, and_bit, and_low, and_field, or_above, and_bits_1_3}
use rv32i_emu.Memory.{Access, ok, refused, out_of_bounds, memory_read32}
use rv32i_emu.Csr.Constants.{priv_m}
use rv32i_emu.Machine.{Emulator, Run, done, undefined, Exec, pure}
use rv32i_emu.Mmu.{
  AccessType, acc_fetch, acc_load, acc_store, Translated, mapped, fault, fault_cause, permits,
  pte_allows, pte_pa, finish_walk, second_pte, with_pte, first_pte, root_addr, mmu_translate,
}
use rv32i_emu.Mmu.Arithmetic.{
  v_bit, is_leaf, allowed, Walk, page, no_page, small_page, large_page, truncated_walk, carried,
}

-- The masks of mmu.c as bits.
mask_bit : (k p : ℕ) → (bit_and p (2 ^ k) == 0) ≡ not (test_bit p k)
mask_bit k p = ground (arith, and_bit k p)

module _ (e : Emulator) (p : ℕ) where
  allows-allowed :
      (acc : AccessType) → pte_allows e p acc ≡ allowed e.priv (test_bit e.csr.mstatus 18) acc p
  unfolding pte_allows permits allowed
  allows-allowed acc_fetch = ground (
    arith,
    and_bits_1_3 p,
    mask_bit 1 p,
    mask_bit 2 p,
    mask_bit 3 p,
    mask_bit 4 p,
    mask_bit 18 e.csr.mstatus,
  )
  allows-allowed acc_load = ground (
    arith,
    and_bits_1_3 p,
    mask_bit 1 p,
    mask_bit 2 p,
    mask_bit 3 p,
    mask_bit 4 p,
    mask_bit 18 e.csr.mstatus,
  )
  allows-allowed acc_store = ground (
    arith,
    and_bits_1_3 p,
    mask_bit 1 p,
    mask_bit 2 p,
    mask_bit 3 p,
    mask_bit 4 p,
    mask_bit 18 e.csr.mstatus,
  )

root_addr_lem :
    (satp va : ℕ) → root_addr satp va ≡ satp % 2 ^ 20 * 2 ^ 12 + va / 2 ^ 22 % 2 ^ 10 * 4
unfolding root_addr
root_addr_lem satp va = ground (arith, and_low 22 satp, and_low 10 (va / 2 ^ 22))

next_addr :
    (p va : ℕ)
    → add32 (pte_pa p) (u32 (bit_and (va >>> 12) 0x3ff * 4))
      ≡ p / 2 ^ 10 % 2 ^ 20 * 2 ^ 12 + va / 2 ^ 12 % 2 ^ 10 * 4
unfolding pte_pa
next_addr p va = ground (arith, and_low 10 (va / 2 ^ 12))

small_pa :
    (p va : ℕ) → bit_or (pte_pa p) (bit_and va 0xfff) ≡ p / 2 ^ 10 % 2 ^ 20 * 2 ^ 12 + va % 2 ^ 12
unfolding pte_pa
small_pa p va =
    let a : (p / 2 ^ 10 * 2 ^ 12) % 2 ^ 32 ≡ p / 2 ^ 10 % 2 ^ 20 * 2 ^ 12 = omega arith in
    rw (a, and_low 12 va) (or_above 12 (p / 2 ^ 10 % 2 ^ 20) (va % 2 ^ 12) (omega arith))

large_pa :
    (p va : ℕ)
    → p / 2 ^ 10 % 2 ^ 10 ≡ 0
    → bit_or (pte_pa (bit_and p (not32 0x3ff))) (bit_and va 0x3f_ffff)
      ≡ p / 2 ^ 20 % 2 ^ 10 * 2 ^ 22 + va % 2 ^ 22
unfolding pte_pa
large_pa p va h =
    let m : bit_and p 0xffff_fc00 ≡ p / 2 ^ 10 % 2 ^ 22 * 2 ^ 10 = and_field 10 22 p in
    let a : (p / 2 ^ 10 % 2 ^ 22 * 2 ^ 10 / 2 ^ 10 * 2 ^ 12) % 2 ^ 32
        ≡ p / 2 ^ 20 % 2 ^ 10 * 2 ^ 22 =
      omega arith in
    rw (m, a, and_low 22 va) (or_above 22 (p / 2 ^ 20 % 2 ^ 10) (va % 2 ^ 22) (omega arith))

module _ (va : ℕ) (acc : AccessType) (e : Emulator) where
  allows : ℕ → Bool
  allows = allowed e.priv (test_bit e.csr.mstatus 18) acc

  finished :
      (entry p pa : ℕ)
      → finish_walk entry p acc pa e ≡ carried acc (if allows p then page pa entry p else no_page) e
  unfolding finish_walk carried allows
  finished entry p pa =
      rw (finish_walk, allows-allowed e p acc)
        (elim (Bool-cases (allowed e.priv (test_bit e.csr.mstatus 18) acc p)) [
          | inl h ↦ rw h refl
          | inr h ↦ rw h refl
        ])

  -- The tests of mmu.c before the common end, and those of the walk.
  guarded :
      (v l a : Bool) (w : Walk) (f : Exec Translated)
      → f e ≡ carried acc (if a then w else no_page) e
      → (if not v
            then pure (fault (fault_cause acc))
            else if not l
            then pure (fault (fault_cause acc))
            else f)
          e
        ≡ carried acc (if v && l && a then w else no_page) e
  unfolding carried
  guarded false l a w f h = refl
  guarded true false a w f h = refl
  guarded true true a w f h = h

  small-second_pte :
      (entry p : ℕ)
      → second_pte va entry p acc e ≡ carried acc (small_page va entry allows (ok p)) e
  unfolding small_page second_pte
  small-second_pte entry p =
      rw (second_pte, mask_bit 0 p, and_bits_1_3 p, small_pa p va)
        (guarded (v_bit p) (is_leaf p) (allows p)
          (page (p / 2 ^ 10 % 2 ^ 20 * 2 ^ 12 + va % 2 ^ 12) entry p)
          (finish_walk entry p acc (p / 2 ^ 10 % 2 ^ 20 * 2 ^ 12 + va % 2 ^ 12))
          (finished entry p (p / 2 ^ 10 % 2 ^ 20 * 2 ^ 12 + va % 2 ^ 12)))

  small-with_pte :
      (entry : ℕ)
      → with_pte entry acc (λ p. second_pte va entry p acc) e
        ≡ carried acc (small_page va entry allows (memory_read32 e.mem entry)) e
  unfolding with_pte small_page carried
  small-with_pte entry = read (memory_read32 e.mem entry)
    where
      read :
          (r : Access ℕ)
          → (elim r as (λ _. Run Translated) [
            | ok p ↦ second_pte va entry p acc e
            | refused ↦ done (fault (fault_cause acc)) e
            | out_of_bounds ↦ undefined
          ])
            ≡ carried acc (small_page va entry allows r) e
      read refused = refl
      read out_of_bounds = refl
      read (ok p) = small-second_pte entry p

  -- The end of a walk at the first level, where the page must be aligned.
  aligned :
      (entry p : ℕ) (c : Bool)
      → (p / 2 ^ 10 % 2 ^ 10 == 0) ≡ c
      → (if not c
            then pure (fault (fault_cause acc))
            else finish_walk entry p acc
                (bit_or (pte_pa (bit_and p (not32 0x3ff))) (bit_and va 0x3f_ffff)))
          e
        ≡ carried acc
            (if c && allows p
              then page (p / 2 ^ 20 % 2 ^ 10 * 2 ^ 22 + va % 2 ^ 22) entry p
              else no_page)
            e
  unfolding carried
  aligned entry p false q = refl
  aligned entry p true q =
      rw (large_pa p va (ground arith))
        (finished entry p (p / 2 ^ 20 % 2 ^ 10 * 2 ^ 22 + va % 2 ^ 22))

  branched :
      (v l : Bool) (f g : Exec Translated) (w1 w2 : Walk)
      → f e ≡ carried acc w1 e
      → g e ≡ carried acc w2 e
      → (if not v then pure (fault (fault_cause acc)) else if not (not l) then f else g) e
        ≡ carried acc (if not v then no_page else if l then w1 else w2) e
  unfolding carried
  branched false l f g w1 w2 h k = refl
  branched true true f g w1 w2 h k = h
  branched true false f g w1 w2 h k = k

  large-first_pte :
      (entry p : ℕ)
      → first_pte va entry p acc e ≡ carried acc (large_page e.mem va entry allows (ok p)) e
  unfolding large_page first_pte
  large-first_pte entry p =
      let next = p / 2 ^ 10 % 2 ^ 20 * 2 ^ 12 + va / 2 ^ 12 % 2 ^ 10 * 4 in
      rw (first_pte, mask_bit 0 p, and_bits_1_3 p, and_low 10 (p / 2 ^ 10), next_addr p va)
        (branched (v_bit p) (is_leaf p) _ _ _ _ (aligned entry p (p / 2 ^ 10 % 2 ^ 10 == 0) refl)
          (small-with_pte next))

  large-with_pte :
      (entry : ℕ)
      → with_pte entry acc (λ p. first_pte va entry p acc) e
        ≡ carried acc (large_page e.mem va entry allows (memory_read32 e.mem entry)) e
  unfolding with_pte large_page carried
  large-with_pte entry = read (memory_read32 e.mem entry)
    where
      read :
          (r : Access ℕ)
          → (elim r as (λ _. Run Translated) [
            | ok p ↦ first_pte va entry p acc e
            | refused ↦ done (fault (fault_cause acc)) e
            | out_of_bounds ↦ undefined
          ])
            ≡ carried acc (large_page e.mem va entry allows r) e
      read refused = refl
      read out_of_bounds = refl
      read (ok p) = large-first_pte entry p

  walked :
      (c : Bool)
      → (if c
          then done (mapped va) e
          else with_pte
              (root_addr e.csr.satp va)
              acc
              (λ p. first_pte va (root_addr e.csr.satp va) p acc)
              e)
        ≡ (if c
            then done (mapped va) e
            else carried acc (truncated_walk e.mem e.csr.satp allows va) e)
  unfolding truncated_walk
  walked true = refl
  walked false =
      rw (root_addr_lem e.csr.satp va)
        (large-with_pte (e.csr.satp % 2 ^ 20 * 2 ^ 12 + va / 2 ^ 22 % 2 ^ 10 * 4))

-- Identity in M-mode and without paging, else the walk of Mmu/Arithmetic. A page is mapped after its
-- entry is marked, no page is the fault of the access, and an entry outside the array is undefined.
pub mmu_translate-truncated_walk :
    (va : ℕ) (acc : AccessType) (e : Emulator)
    → mmu_translate va acc e ≡ (
        if e.priv == priv_m || not (test_bit e.csr.satp 31)
        then done (mapped va) e
        else carried acc
            (truncated_walk e.mem e.csr.satp (allowed e.priv (test_bit e.csr.mstatus 18) acc) va)
            e)
unfolding mmu_translate allowed allows
mmu_translate-truncated_walk va acc e =
    rw (mmu_translate, mask_bit 31 e.csr.satp)
      (walked va acc e (e.priv == priv_m || not (test_bit e.csr.satp 31)))

-- ===== src/Mmu/Entries.antt =====
-- One entry of a page table in Mmu/Sv32 and in Mmu/Arithmetic.
use rv32i_emu.Base.{
  ℕ, ◌+◌, ◌^◌, ◌≤◌, ◌<◌, ◌≡◌, ◌≢◌, refl, sym, ap, ◌∙◌, Bool, Bool-cases, inl, inr, true, false,
  some, not, ◌&&◌, if◌then◌else◌, arith,
}
use rv32i_emu.Base.Bits.{test_bit}
use rv32i_emu.Memory.{Memory, ok, memory_read32}
use rv32i_emu.Memory.Laws.{IsMemory, memory_read32_lem}
use rv32i_emu.Mmu.{AccessType, acc_fetch, acc_load, acc_store}
use rv32i_emu.Mmu.Arithmetic.{allowed, page, no_page}
use rv32i_emu.Mmu.Sv32.{
  Translation, is_valid, is_leaf, permits_page, entry_at, translates, page_fault,
}

module _ (m : Memory) (i : IsMemory m) where
  pub read_entry : (a p : ℕ) → entry_at m a ≡ some p → (a + 4 ≤ m.size) × (memory_read32 m a ≡ ok p)
  unfolding entry_at
  read_entry a p h =
      let fits : a + 4 ≤ m.size = ground arith in
      let s : m.size < 2 ^ 32 = i.size_fits in
      (fits, memory_read32_lem m a i (omega arith) ∙ ground arith)

pub leaf_allowed :
    (priv : ℕ) (sum : Bool) (acc : AccessType) (p : ℕ)
    → (is_valid p && is_leaf p && permits_page priv sum acc p)
      ≡ (test_bit p 0 && is_leaf p && allowed priv sum acc p)
unfolding permits_page allowed
leaf_allowed priv sum acc_fetch p = ground arith
leaf_allowed priv sum acc_load p = ground arith
leaf_allowed priv sum acc_store p = ground arith

-- One test before a page of either walk, whose addresses agree below 2 ^ 32.
pub same_page :
    (c : Bool) {x y a q pa entry p : ℕ}
    → pa < 2 ^ 32
    → (x < 2 ^ 32 → y ≡ x)
    → (if c then translates x a q else page_fault) ≡ translates pa entry p
    → ((if c then page y a q else no_page) ≡ page pa entry p) × (a ≡ entry) × (q ≡ p)
same_page true h k e = ground arith
same_page false h k e = cc

-- The same two outcomes for a fault.
pub no_same_page :
    (c : Bool) (x y a q : ℕ)
    → (if c then translates x a q else page_fault) ≡ page_fault
    → (if c then page y a q else no_page) ≡ no_page
no_same_page true x y a q e = cc
no_same_page false x y a q e = refl

pub translates-ne-page_fault : {pa entry q : ℕ} → translates pa entry q ≢ page_fault
translates-ne-page_fault h = cc

-- A valid entry passes the test of its V bit, and lets a walk go on.
pub valid_on :
    (p : ℕ) (t : Translation) {pa entry q : ℕ}
    → (if not (is_valid p) then page_fault else t) ≡ translates pa entry q
    → (test_bit p 0 ≡ true) × (t ≡ translates pa entry q)
valid_on p t e = elim (Bool-cases (is_valid p)) [
  | inl v ↦ (ground (arith, v), sym (ap (λ b. if not b then page_fault else t) v) ∙ e)
  | inr n ↦ absurd (translates-ne-page_fault (sym e ∙ ap (λ b. if not b then page_fault else t) n))
]

-- The tests before a large page, in the order of either walk.
pub leaf_tests :
    {A : Type 0} (valid permitted aligned : Bool) (x y : A)
    → (if not valid then y else if permitted && aligned then x else y)
      ≡ (if (valid && permitted) && aligned then x else y)
leaf_tests false permitted aligned x y = refl
leaf_tests true permitted aligned x y = refl

pub page_tests :
    {A : Type 0} (valid allowed aligned : Bool) (x y : A)
    → (if not valid then y else if aligned && allowed then x else y)
      ≡ (if (valid && allowed) && aligned then x else y)
page_tests false allowed aligned x y = refl
page_tests true true true x y = refl
page_tests true true false x y = refl
page_tests true false true x y = refl
page_tests true false false x y = refl

pub without_leaf :
    (l v g c d : Bool) → l ≡ true → (v && l && g) ≡ (c && l && d) → (v && g) ≡ (c && d)
without_leaf l v g c d h k = ground (arith, h, k)

pub leaf_allowed_here :
    (priv : ℕ) (sum : Bool) (acc : AccessType) (p : ℕ)
    → is_leaf p ≡ true
    → (is_valid p && permits_page priv sum acc p) ≡ (test_bit p 0 && allowed priv sum acc p)
leaf_allowed_here priv sum acc p h =
    without_leaf (is_leaf p) (is_valid p) (permits_page priv sum acc p) (test_bit p 0)
      (allowed priv sum acc p) h (leaf_allowed priv sum acc p)

-- ===== src/Mmu/Arithmetic.antt =====
-- The walk of src/mmu.c without its masks and shifts: entries with single bits, and addresses put
-- together from page numbers. Addresses keep 32 bits, and a first-level entry with V and W alone is
-- followed, as in the code; Mmu/Sv32 is the architecture's own walk.
use rv32i_emu.Base.{ℕ, ◌+◌, ◌*◌, ◌/◌, ◌%◌, ◌^◌, Bool, not, ◌&&◌, ◌||◌, ◌==◌, if◌then◌else◌}
use rv32i_emu.Base.Bits.{test_bit}
use rv32i_emu.Memory.{Memory, Access, ok, refused, out_of_bounds, memory_read32}
use rv32i_emu.Csr.Constants.{priv_u, priv_s}
use rv32i_emu.Machine.{done, undefined, Exec, ◌>>◌, pure}
use rv32i_emu.Mmu.{
  AccessType, acc_fetch, acc_load, acc_store, Translated, mapped, fault, fault_cause, is_fetch,
  pte_update_ad,
}

-- The bits of an entry.
abbrev pub v_bit : ℕ → Bool
v_bit p = test_bit p 0

abbrev pub r_bit : ℕ → Bool
r_bit p = test_bit p 1

abbrev pub w_bit : ℕ → Bool
w_bit p = test_bit p 2

abbrev pub x_bit : ℕ → Bool
x_bit p = test_bit p 3

abbrev pub u_bit : ℕ → Bool
u_bit p = test_bit p 4

-- The permission that an access needs.
abbrev pub granted : AccessType → ℕ → Bool
granted acc_fetch p = x_bit p
granted acc_load p = r_bit p
granted acc_store p = r_bit p && w_bit p

-- The privilege that a page asks for: user pages for user mode, and for supervisor mode only
-- loads and stores, under SUM.
abbrev pub owned : ℕ → Bool → AccessType → ℕ → Bool
owned priv sum acc p =
    not (priv == priv_u && not (u_bit p))
    && not (priv == priv_s && u_bit p && (is_fetch acc || not sum))

abbrev pub is_leaf : ℕ → Bool
is_leaf p = r_bit p || x_bit p

unfoldable pub allowed : ℕ → Bool → AccessType → ℕ → Bool
allowed priv sum acc p =
    is_leaf p && not (w_bit p && not (r_bit p)) && owned priv sum acc p && granted acc p

-- A page with its physical address, and the entry that maps it; no page; or an entry outside the array.
pub data Walk : Type 0 where
  page : ℕ → ℕ → ℕ → Walk
  no_page outside : Walk

unfoldable pub small_page : ℕ → ℕ → (ℕ → Bool) → Access ℕ → Walk
small_page va entry allows refused = no_page
small_page va entry allows out_of_bounds = outside
small_page va entry allows (ok p) =
    if v_bit p && is_leaf p && allows p
    then page (p / 2 ^ 10 % 2 ^ 20 * 2 ^ 12 + va % 2 ^ 12) entry p
    else no_page

unfoldable pub large_page : Memory → ℕ → ℕ → (ℕ → Bool) → Access ℕ → Walk
unfolding small_page
large_page m va entry allows refused = no_page
large_page m va entry allows out_of_bounds = outside
large_page m va entry allows (ok p) =
    let next = p / 2 ^ 10 % 2 ^ 20 * 2 ^ 12 + va / 2 ^ 12 % 2 ^ 10 * 4 in
    if not (v_bit p)
    then no_page
    else if is_leaf p
    then if p / 2 ^ 10 % 2 ^ 10 == 0 && allows p
      then page (p / 2 ^ 20 % 2 ^ 10 * 2 ^ 22 + va % 2 ^ 22) entry p
      else no_page
    else small_page va next allows (memory_read32 m next)

unfoldable pub truncated_walk : Memory → ℕ → (ℕ → Bool) → ℕ → Walk
unfolding large_page
truncated_walk m satp allows va =
    let root = satp % 2 ^ 20 * 2 ^ 12 + va / 2 ^ 22 % 2 ^ 10 * 4 in
    large_page m va root allows (memory_read32 m root)

-- What the code does with the outcome of a walk.
unfoldable pub carried : AccessType → Walk → Exec Translated
carried acc (page pa entry p) e = (pte_update_ad entry p acc >> pure (mapped pa)) e
carried acc no_page e = done (fault (fault_cause acc)) e
carried acc outside e = undefined

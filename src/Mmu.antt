-- ===== src/Mmu.antt =====
-- src/mmu.c and include/mmu.h: Sv32 address translation.
pub mod Bare
pub mod Faults
pub mod Arithmetic
pub mod Sv32
pub mod Entries
pub mod Pages
pub mod Marked
pub mod Translates
pub mod Refined
use rv32i_emu.Base.{
  ℕ, Bool, true, false, not, ◌&&◌, ◌||◌, ◌==◌, if◌then◌else◌, u32, add32, ◌*◌, nonzero, ◌<<<◌,
  ◌>>>◌, not32, bit_and, bit_or,
}
use rv32i_emu.Memory.{Access, ok, refused, out_of_bounds, memory_read32, memory_write32}
use rv32i_emu.Csr.Constants.{
  satp_mode_bit, satp_ppn_mask, mstatus_sum, priv_u, priv_s, priv_m, exc_inst_page_fault,
  exc_load_page_fault, exc_store_page_fault,
}
use rv32i_emu.Machine.{Emulator, done, undefined, Exec, ◌>>◌, pure, with_mem}

abbrev pub pte_v : ℕ
pte_v = 1 <<< 0

abbrev pub pte_r : ℕ
pte_r = 1 <<< 1

abbrev pub pte_w : ℕ
pte_w = 1 <<< 2

abbrev pub pte_x : ℕ
pte_x = 1 <<< 3

abbrev pub pte_u : ℕ
pte_u = 1 <<< 4

abbrev pub pte_a : ℕ
pte_a = 1 <<< 6

abbrev pub pte_d : ℕ
pte_d = 1 <<< 7

abbrev pub pte_ppn_shift : ℕ
pte_ppn_shift = 10

-- PTE_PA
unfoldable pub pte_pa : ℕ → ℕ
pte_pa pte = (pte >>> pte_ppn_shift) <<< 12

pub data AccessType : Type 0 where
  acc_fetch acc_load acc_store : AccessType

-- What mmu_translate returns: 0 with `*pa` set, or the cause of the page fault.
pub data Translated : Type 0 where
  mapped : ℕ → Translated
  fault : ℕ → Translated

unfoldable pub mmu_read_pte : Emulator → ℕ → Access ℕ
mmu_read_pte e pte_addr = memory_read32 e.mem pte_addr

unfoldable pub fault_cause : AccessType → ℕ
fault_cause acc_fetch = exc_inst_page_fault
fault_cause acc_store = exc_store_page_fault
fault_cause acc_load = exc_load_page_fault

-- The switch at the end of pte_allows.
unfoldable pub permits : ℕ → AccessType → Bool
permits pte acc_fetch = nonzero (bit_and pte pte_x)
permits pte acc_load = nonzero (bit_and pte pte_r)
permits pte acc_store = nonzero (bit_and pte pte_r) && nonzero (bit_and pte pte_w)

abbrev pub is_fetch : AccessType → Bool
is_fetch acc_fetch = true
is_fetch _ = false

abbrev pub is_store : AccessType → Bool
is_store acc_store = true
is_store _ = false

unfoldable pub pte_allows : Emulator → ℕ → AccessType → Bool
unfolding permits
pte_allows e pte acc =
    if bit_and pte (bit_or pte_r pte_x) == 0
    then false
    else if nonzero (bit_and pte pte_w) && not (nonzero (bit_and pte pte_r))
    then false
    else if e.priv == priv_u && not (nonzero (bit_and pte pte_u))
    then false
    else if e.priv == priv_s
        && nonzero (bit_and pte pte_u)
        && (is_fetch acc || not (nonzero (bit_and e.csr.mstatus mstatus_sum)))
    then false
    else permits pte acc

-- The result of memory_write32 is dropped; a refused write changes nothing.
unfoldable pub store_pte : ℕ → ℕ → Exec (Unit {0})
store_pte pte_addr pte e = elim (memory_write32 e.mem pte_addr pte) [
  | ok m ↦ done tt (with_mem m e)
  | refused ↦ done tt e
  | out_of_bounds ↦ undefined
]

unfoldable pub new_pte : ℕ → AccessType → ℕ
new_pte pte acc = let pte' = bit_or pte pte_a in if is_store acc then bit_or pte' pte_d else pte'

unfoldable pub pte_update_ad : ℕ → ℕ → AccessType → Exec (Unit {0})
unfolding new_pte store_pte
pte_update_ad pte_addr pte acc =
    if not (new_pte pte acc == pte) then store_pte pte_addr (new_pte pte acc) else pure tt

-- The common end of both levels: permission check, A and D bits, physical address.
unfoldable pub finish_walk : ℕ → ℕ → AccessType → ℕ → Exec Translated
unfolding pte_allows pte_update_ad
finish_walk pte_addr pte acc pa e =
    if pte_allows e pte acc
    then (pte_update_ad pte_addr pte acc >> pure (mapped pa)) e
    else done (fault (fault_cause acc)) e

unfoldable pub second_pte : ℕ → ℕ → ℕ → AccessType → Exec Translated
unfolding finish_walk pte_pa
second_pte va pte_addr pte acc =
    if bit_and pte pte_v == 0
    then pure (fault (fault_cause acc))
    else if bit_and pte (bit_or pte_r pte_x) == 0
    then pure (fault (fault_cause acc))
    else finish_walk pte_addr pte acc (bit_or (pte_pa pte) (bit_and va 0xfff))

-- A PTE that is read, and what follows it; an unreadable one is a page fault.
unfoldable pub with_pte : ℕ → AccessType → (ℕ → Exec Translated) → Exec Translated
unfolding mmu_read_pte
with_pte pte_addr acc k e = elim (mmu_read_pte e pte_addr) [
  | ok pte ↦ k pte e
  | refused ↦ done (fault (fault_cause acc)) e
  | out_of_bounds ↦ undefined
]

unfoldable pub first_pte : ℕ → ℕ → ℕ → AccessType → Exec Translated
unfolding second_pte with_pte
first_pte va pte_addr pte acc =
    if bit_and pte pte_v == 0
    then pure (fault (fault_cause acc))
    else if nonzero (bit_and pte (bit_or pte_r pte_x))
    then if nonzero (bit_and (pte >>> pte_ppn_shift) 0x3ff)
      then pure (fault (fault_cause acc))
      else finish_walk pte_addr pte acc
          (bit_or (pte_pa (bit_and pte (not32 0x3ff))) (bit_and va 0x3f_ffff))
    else (let pte_addr0 = add32 (pte_pa pte) (u32 (bit_and (va >>> 12) 0x3ff * 4)) in
        with_pte pte_addr0 acc (λ pte0. second_pte va pte_addr0 pte0 acc))

unfoldable pub root_addr : ℕ → ℕ → ℕ
root_addr satp va =
    let table = bit_and satp satp_ppn_mask <<< 12 in
    add32 table (u32 (bit_and (va >>> 22) 0x3ff * 4))

unfoldable pub mmu_translate : ℕ → AccessType → Exec Translated
unfolding first_pte with_pte root_addr
mmu_translate va acc e =
    if e.priv == priv_m || bit_and e.csr.satp satp_mode_bit == 0
    then done (mapped va) e
    else with_pte (root_addr e.csr.satp va) acc
        (λ pte. first_pte va (root_addr e.csr.satp va) pte acc) e

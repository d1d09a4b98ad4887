-- ===== src/Invariant/Translation.antt =====
-- mmu_translate of src/mmu.c keeps the invariant.
use rv32i_emu.Base.{ℕ, ◌*◌, ◌^◌, ◌<◌, ◌≡◌, refl, arith, bit_or, bit_and, ◌>>>◌, not32, u32, add32}
use rv32i_emu.Base.Bits.{bit_or-lt, bit_and-lt}
use rv32i_emu.Memory.{Memory, Access, ok, refused, out_of_bounds, memory_read32, memory_write32}
use rv32i_emu.Memory.Laws.{write32-IsMemory}
use rv32i_emu.Machine.{Emulator, done, undefined, Exec, ◌>>◌, pure, with_mem}
use rv32i_emu.Mmu.{
  AccessType, acc_fetch, acc_load, acc_store, Translated, mapped, fault, fault_cause, store_pte,
  pte_update_ad, new_pte, finish_walk, second_pte, first_pte, with_pte, mmu_translate, mmu_read_pte,
  pte_pa, root_addr,
}
use rv32i_emu.Invariant.State.{
  IsEmulator, Ensures, Anything, bind-Ensures, branches, done-Ensures, choose-Ensures,
  undefined-Ensures, mem-IsEmulator,
}

-- The physical address, or the cause, is a word.
abbrev pub TranslatedFits : Translated → Type 0
TranslatedFits (mapped pa) = pa < 2 ^ 32
TranslatedFits (fault cause) = cause < 2 ^ 32

fault_cause-lt : (acc : AccessType) → fault_cause acc < 2 ^ 32
unfolding fault_cause
fault_cause-lt acc_fetch = omega arith
fault_cause-lt acc_load = omega arith
fault_cause-lt acc_store = omega arith

written-Ensures :
    (e : Emulator) (a p : ℕ) (r : Access Memory)
    → IsEmulator e
    → memory_write32 e.mem a p ≡ r
    → Ensures Anything
        (elim r [ ok m ↦ done tt (with_mem m e) | refused ↦ done tt e | out_of_bounds ↦ undefined ])
written-Ensures e a p (ok m) i h =
    done-Ensures tt (mem-IsEmulator e i m (write32-IsMemory e.mem a p i.memory h))
written-Ensures e a p refused i h = done-Ensures tt i
written-Ensures e a p out_of_bounds i h = undefined-Ensures

pte_update_ad-Ensures :
    (a p : ℕ) (acc : AccessType) (e : Emulator)
    → IsEmulator e
    → Ensures Anything (pte_update_ad a p acc e)
unfolding pte_update_ad store_pte
pte_update_ad-Ensures a p acc e i =
    let w = written-Ensures e a (new_pte p acc) (memory_write32 e.mem a (new_pte p acc)) i refl in
    search (choose-Ensures, done-Ensures)

faulted :
    (acc : AccessType) (e : Emulator)
    → IsEmulator e
    → Ensures TranslatedFits (done (fault (fault_cause acc)) e)
faulted acc e i = done-Ensures (fault_cause-lt acc) i

finish_walk-Ensures :
    (a p : ℕ) (acc : AccessType) (pa : ℕ) (e : Emulator)
    → IsEmulator e
    → pa < 2 ^ 32
    → Ensures TranslatedFits (finish_walk a p acc pa e)
unfolding finish_walk
finish_walk-Ensures a p acc pa e i h =
    let f = faulted acc e i in
    let u : Ensures TranslatedFits ((pte_update_ad a p acc >> pure (mapped pa)) e) =
      bind-Ensures (pte_update_ad-Ensures a p acc e i) (λ _ _ e' i'. done-Ensures h i') in
    search branches

address-lt : (pte va k : ℕ) → va < 2 ^ 32 → bit_or (pte_pa pte) (bit_and va k) < 2 ^ 32
unfolding pte_pa
address-lt pte va k h =
    bit_or-lt 32 (pte_pa pte) (bit_and va k) (omega arith) (bit_and-lt 32 va k h)

second_pte-Ensures :
    (va a p : ℕ) (acc : AccessType) (e : Emulator)
    → IsEmulator e
    → va < 2 ^ 32
    → Ensures TranslatedFits (second_pte va a p acc e)
unfolding second_pte
second_pte-Ensures va a p acc e i h =
    let f = faulted acc e i in
    let w =
      finish_walk-Ensures a p acc (bit_or (pte_pa p) (bit_and va 0xfff)) e i
        (address-lt p va 0xfff h) in
    search branches

read-Ensures :
    (acc : AccessType) (k : ℕ → Exec Translated) (e : Emulator) (r : Access ℕ)
    → IsEmulator e
    → ((p : ℕ) → Ensures TranslatedFits (k p e))
    → Ensures TranslatedFits (elim r [
      | ok pte ↦ k pte e
      | refused ↦ done (fault (fault_cause acc)) e
      | out_of_bounds ↦ undefined
    ])
read-Ensures acc k e (ok p) i h = h p
read-Ensures acc k e refused i h = faulted acc e i
read-Ensures acc k e out_of_bounds i h = undefined-Ensures

first_pte-Ensures :
    (va a p : ℕ) (acc : AccessType) (e : Emulator)
    → IsEmulator e
    → va < 2 ^ 32
    → Ensures TranslatedFits (first_pte va a p acc e)
unfolding first_pte with_pte mmu_read_pte
first_pte-Ensures va a p acc e i h =
    let f = faulted acc e i in
    let w =
      finish_walk-Ensures a p acc (bit_or (pte_pa (bit_and p (not32 0x3ff))) (bit_and va 0x3f_ffff))
        e i (address-lt (bit_and p (not32 0x3ff)) va 0x3f_ffff h) in
    let next = add32 (pte_pa p) (u32 (bit_and (va >>> 12) 0x3ff * 4)) in
    let r =
      read-Ensures acc (λ q. second_pte va next q acc) e (memory_read32 e.mem next) i
        (λ q. second_pte-Ensures va next q acc e i h) in
    search branches

-- mmu_translate keeps the invariant, unless it reads outside the memory array: whether it maps the address or faults, and whether or not it
-- writes the A and D bits, the state stays well formed, and the physical address or the cause is a
-- word.
pub mmu_translate-Ensures :
    (va : ℕ) (acc : AccessType) (e : Emulator)
    → IsEmulator e
    → va < 2 ^ 32
    → Ensures TranslatedFits (mmu_translate va acc e)
unfolding mmu_translate with_pte mmu_read_pte
mmu_translate-Ensures va acc e i h =
    let root = root_addr e.csr.satp va in
    let r =
      read-Ensures acc (λ q. first_pte va root q acc) e (memory_read32 e.mem root) i
        (λ q. first_pte-Ensures va root q acc e i h) in
    search branches

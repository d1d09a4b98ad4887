-- ===== src/Mmu/Faults.antt =====
-- A page fault of src/mmu.c changes nothing.
use rv32i_emu.Base.{ℕ, ◌*◌, ◌≡◌, refl, Bool, true, false, bit_and, add32, u32, ◌>>>◌, if◌then◌else◌}
use rv32i_emu.Memory.{Access, ok, refused, out_of_bounds, memory_read32}
use rv32i_emu.Machine.{Emulator, Run, done, leave, undefined, Exec}
use rv32i_emu.Mmu.{
  AccessType, Translated, mapped, fault, fault_cause, pte_update_ad, finish_walk, second_pte,
  first_pte, with_pte, mmu_translate, mmu_read_pte, root_addr, pte_pa,
}

abbrev Harmless : AccessType → Emulator → Run Translated → Type 0
Harmless acc e (done (mapped pa) e') = Unit
Harmless acc e (done (fault cause) e') = (e' ≡ e) × (cause ≡ fault_cause acc)
Harmless acc e (leave l e') = Unit
Harmless acc e undefined = Unit

-- A fault has the cause of the access, and the state before it.
record FaultKeeps (acc : AccessType) (e : Emulator) (r : Run Translated) : Type 0 where
  kept : Harmless acc e r

faulted : (acc : AccessType) (e : Emulator) → FaultKeeps acc e (done (fault (fault_cause acc)) e)
faulted acc e = record { kept = (refl, refl) }

choose-FaultKeeps :
    {acc : AccessType} {e : Emulator} (c : Bool) (f g : Exec Translated)
    → FaultKeeps acc e (f e)
    → FaultKeeps acc e (g e)
    → FaultKeeps acc e ((if c then f else g) e)
choose-FaultKeeps true f g h k = h
choose-FaultKeeps false f g h k = k

if-FaultKeeps :
    {acc : AccessType} {e : Emulator} (c : Bool) {x y : Run Translated}
    → FaultKeeps acc e x
    → FaultKeeps acc e y
    → FaultKeeps acc e (if c then x else y)
if-FaultKeeps true h k = h
if-FaultKeeps false h k = k

updated :
    (acc : AccessType) (e : Emulator) (pa : ℕ) (r : Run (Unit {0}))
    → FaultKeeps acc e (elim r as (λ _. Run Translated) [
      | done _ e' ↦ done (mapped pa) e'
      | leave l e' ↦ leave l e'
      | undefined ↦ undefined
    ])
updated acc e pa (done _ e') = record { kept = tt }
updated acc e pa (leave l e') = record { kept = tt }
updated acc e pa undefined = record { kept = tt }

walked :
    (acc : AccessType) (e : Emulator) (k : ℕ → Exec Translated) (r : Access ℕ)
    → ((p : ℕ) → FaultKeeps acc e (k p e))
    → FaultKeeps acc e (elim r as (λ _. Run Translated) [
      | ok p ↦ k p e
      | refused ↦ done (fault (fault_cause acc)) e
      | out_of_bounds ↦ undefined
    ])
walked acc e k (ok p) h = h p
walked acc e k refused h = faulted acc e
walked acc e k out_of_bounds h = record { kept = tt }

ruleset walks = (faulted, choose-FaultKeeps, if-FaultKeeps)

module _ (acc : AccessType) (e : Emulator) where
  finish_walk-FaultKeeps : (a p pa : ℕ) → FaultKeeps acc e (finish_walk a p acc pa e)
  unfolding finish_walk
  finish_walk-FaultKeeps a p pa = let u = updated acc e pa (pte_update_ad a p acc e) in search walks

  second_pte-FaultKeeps : (va a p : ℕ) → FaultKeeps acc e (second_pte va a p acc e)
  unfolding second_pte
  second_pte-FaultKeeps va a p = search (walks, finish_walk-FaultKeeps)

  first_pte-FaultKeeps : (va a p : ℕ) → FaultKeeps acc e (first_pte va a p acc e)
  unfolding first_pte with_pte mmu_read_pte
  first_pte-FaultKeeps va a p =
      let next = add32 (pte_pa p) (u32 (bit_and (va >>> 12) 0x3ff * 4)) in
      let w =
        walked acc e (λ q. second_pte va next q acc) (memory_read32 e.mem next)
          (second_pte-FaultKeeps va next) in
      search (walks, finish_walk-FaultKeeps)

  mapped-FaultKeeps : (va : ℕ) → FaultKeeps acc e (done (mapped va) e)
  mapped-FaultKeeps va = record { kept = tt }

  mmu_translate-FaultKeeps : (va : ℕ) → FaultKeeps acc e (mmu_translate va acc e)
  unfolding mmu_translate with_pte mmu_read_pte
  mmu_translate-FaultKeeps va =
      let root = root_addr e.csr.satp va in
      let w =
        walked acc e (λ q. first_pte va root q acc) (memory_read32 e.mem root)
          (first_pte-FaultKeeps va root) in
      search (walks, mapped-FaultKeeps)

kept_by :
    (acc : AccessType) (e e' : Emulator) (cause : ℕ) (r : Run Translated)
    → FaultKeeps acc e r
    → r ≡ done (fault cause) e'
    → Harmless acc e (done (fault cause) e')
kept_by acc e e' cause r f q =
    let g : FaultKeeps acc e (done (fault cause) e') = rw (← q) f in g.kept

-- A page fault changes nothing: when mmu_translate faults, at whichever level of the walk, the state
-- is the one before, with no A or D bit set, and the cause is that of the access: 12, 13 or 15.
pub mmu_translate_fault :
    (va : ℕ) (acc : AccessType) (e : Emulator) {e' : Emulator} {cause : ℕ}
    → mmu_translate va acc e ≡ done (fault cause) e'
    → (e' ≡ e) × (cause ≡ fault_cause acc)
mmu_translate_fault va acc e {e'} {cause} q =
    kept_by acc e e' cause (mmu_translate va acc e) (mmu_translate-FaultKeeps acc e va) q

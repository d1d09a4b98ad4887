-- ===== src/Invariant/Returned.antt =====
-- How emu_step of src/emu.c ends: with a result, and with `false` only when the machine has stopped.
use rv32i_emu.Base.{
  ℕ, Bool, true, false, Option, none, some, if◌then◌else◌, not, ◌==◌, leb, bit_and, nonzero, add32,
  ◌*◌, u32, ◌>>>◌,
}
use rv32i_emu.Memory.{
  Access, ok, refused, out_of_bounds, memory_read16, memory_read32, memory_write32,
}
use rv32i_emu.Csr.Constants.{exc_illegal_inst, exc_inst_misaligned, exc_inst_access}
use rv32i_emu.Decode.{Inst, decode}
use rv32i_emu.Decode.Compressed.{expand_compressed}
use rv32i_emu.Machine.{
  Emulator, goto_except, goto_unknown, return, Run, done, leave, undefined, Exec, ◌>>=◌, pure,
  with_mem,
}
use rv32i_emu.Trap.{trap_raise}
use rv32i_emu.Mmu.{
  AccessType, acc_fetch, Translated, mapped, fault, mmu_translate, with_pte, first_pte, second_pte,
  finish_walk, mmu_read_pte, pte_update_ad, store_pte, pte_pa, root_addr, fault_cause,
}
use rv32i_emu.Emu.{
  reject, fetched, join_halves, fetch_second, fetch_wide, expanded, fetch_at, fetch, decoded,
}

abbrev LeavesBy : {A : Type 0} → Run A → Type 0
LeavesBy (done a e) = Unit
LeavesBy (leave (return b) e) = Unit
LeavesBy (leave (goto_except c a) e) = ⊥
LeavesBy (leave goto_unknown e) = ⊥
LeavesBy undefined = Unit

-- A run that leaves, if at all, by a `return`.
pub record Returning {A : Type 0} (r : Run A) : Type 0 where
  pub by_return : LeavesBy r

module _ {A : Type 0} where
  done-Returning : {a : A} {e : Emulator} → Returning (done a e)
  done-Returning = record { by_return = tt }

  undefined-Returning : Returning {A = A} undefined
  undefined-Returning = record { by_return = tt }

  leave-Returning : {b : Bool} {e : Emulator} → Returning {A = A} (leave (return b) e)
  leave-Returning = record { by_return = tt }

  if-Returning :
      (c : Bool) {x y : Run A} → Returning x → Returning y → Returning (if c then x else y)
  if-Returning true h k = h
  if-Returning false h k = k

  choose-Returning :
      (c : Bool) (f g : Exec A) {e : Emulator}
      → Returning (f e)
      → Returning (g e)
      → Returning ((if c then f else g) e)
  choose-Returning true f g h k = h
  choose-Returning false f g h k = k

  bind-Returning :
      {B : Type 0} (r : Run A) (f : A → Exec B)
      → Returning r
      → ((a : A) (e : Emulator) → Returning (f a e))
      → Returning (elim r as (λ _. Run B) [
        | done a e' ↦ f a e'
        | leave l e' ↦ leave l e'
        | undefined ↦ undefined
      ])
  bind-Returning (done a e) f h k = k a e
  bind-Returning (leave (return b) e) f h k = record { by_return = tt }
  bind-Returning (leave (goto_except c a) e) f h k = absurd h.by_return
  bind-Returning (leave goto_unknown e) f h k = absurd h.by_return
  bind-Returning undefined f h k = record { by_return = tt }

  reject-Returning : (cause tval pc : ℕ) (e : Emulator) → Returning {A = A} (reject cause tval pc e)
  unfolding reject
  reject-Returning cause tval pc e =
      if-Returning (trap_raise cause tval pc e).1 leave-Returning leave-Returning

  fetched-Returning : (pc : ℕ) (r : Access A) (e : Emulator) → Returning (fetched pc r e)
  unfolding fetched
  fetched-Returning pc (ok a) e = done-Returning
  fetched-Returning pc refused e = reject-Returning exc_inst_access pc pc e
  fetched-Returning pc out_of_bounds e = undefined-Returning

ruleset returns =
    (done-Returning, undefined-Returning, leave-Returning, if-Returning, choose-Returning)

updated :
    (pa : ℕ) (r : Run (Unit {0}))
    → Returning r
    → Returning (elim r as (λ _. Run Translated) [
      | done _ e' ↦ done (mapped pa) e'
      | leave l e' ↦ leave l e'
      | undefined ↦ undefined
    ])
updated pa r h = bind-Returning r (λ _. pure (mapped pa)) h λ a e. done-Returning

walked :
    (acc : AccessType) (e : Emulator) (k : ℕ → Exec Translated) (r : Access ℕ)
    → ((p : ℕ) → Returning (k p e))
    → Returning (elim r as (λ _. Run Translated) [
      | ok p ↦ k p e
      | refused ↦ done (fault (fault_cause acc)) e
      | out_of_bounds ↦ undefined
    ])
walked acc e k (ok p) h = h p
walked acc e k refused h = done-Returning
walked acc e k out_of_bounds h = undefined-Returning

module _ (acc : AccessType) (e : Emulator) where
  store_pte-Returning : (a p : ℕ) → Returning (store_pte a p e)
  unfolding store_pte
  store_pte-Returning a p =
      elim (memory_write32 e.mem a p)
        as (λ r. Returning (elim r as (λ _. Run (Unit {0})) [
          | ok m ↦ done tt (with_mem m e)
          | refused ↦ done tt e
          | out_of_bounds ↦ undefined
        ])) [
          | ok m ↦ done-Returning
          | refused ↦ done-Returning
          | out_of_bounds ↦ undefined-Returning
        ]

  pte_update_ad-Returning : (a p : ℕ) → Returning (pte_update_ad a p acc e)
  unfolding pte_update_ad
  pte_update_ad-Returning a p = search (returns, store_pte-Returning)

  finish_walk-Returning : (a p pa : ℕ) → Returning (finish_walk a p acc pa e)
  unfolding finish_walk
  finish_walk-Returning a p pa =
      let u = updated pa (pte_update_ad a p acc e) (pte_update_ad-Returning a p) in search returns

  second_pte-Returning : (va a p : ℕ) → Returning (second_pte va a p acc e)
  unfolding second_pte
  second_pte-Returning va a p = search (returns, finish_walk-Returning)

  first_pte-Returning : (va a p : ℕ) → Returning (first_pte va a p acc e)
  unfolding first_pte with_pte mmu_read_pte
  first_pte-Returning va a p =
      let next = add32 (pte_pa p) (u32 (bit_and (va >>> 12) 0x3ff * 4)) in
      let w =
        walked acc e (λ q. second_pte va next q acc) (memory_read32 e.mem next)
          (second_pte-Returning va next) in
      search (returns, finish_walk-Returning)

  mmu_translate-Returning : (va : ℕ) → Returning (mmu_translate va acc e)
  unfolding mmu_translate with_pte mmu_read_pte
  mmu_translate-Returning va =
      let root = root_addr e.csr.satp va in
      let w =
        walked acc e (λ q. first_pte va root q acc) (memory_read32 e.mem root)
          (first_pte-Returning va root) in
      search returns

module _ (pc : ℕ) where
  second_half :
      (lo : ℕ) (t : Translated) (e : Emulator)
      → Returning (elim t as (λ _. Run ℕ) [
        | mapped pa2 ↦ (fetched pc (memory_read16 e.mem pa2) >>= λ hi. pure (join_halves lo hi)) e
        | fault c ↦ reject exc_inst_access pc pc e
      ])
  second_half lo (mapped pa2) e =
      bind-Returning _ _ (fetched-Returning pc (memory_read16 e.mem pa2) e) λ hi e'. done-Returning
  second_half lo (fault c) e = reject-Returning exc_inst_access pc pc e

  fetch_second-Returning : (lo : ℕ) (e : Emulator) → Returning (fetch_second pc lo e)
  unfolding fetch_second
  fetch_second-Returning lo e =
      bind-Returning _ _ (mmu_translate-Returning acc_fetch e (add32 pc 2)) (second_half lo)

  fetch_wide-Returning : (pa lo : ℕ) (e : Emulator) → Returning (fetch_wide pc pa lo e)
  unfolding fetch_wide
  fetch_wide-Returning pa lo e =
      if-Returning (leb (bit_and pa 0xfff) 0xffc) (fetched-Returning pc (memory_read32 e.mem pa) e)
        (fetch_second-Returning lo e)

  expanded-Returning : (lo : ℕ) (o : Option ℕ) (e : Emulator) → Returning (expanded pc lo o e)
  unfolding expanded
  expanded-Returning lo (some raw) e = done-Returning
  expanded-Returning lo none e = reject-Returning exc_illegal_inst lo pc e

  fetch_at-Returning : (pa : ℕ) (e : Emulator) → Returning (fetch_at pc pa e)
  unfolding fetch_at
  fetch_at-Returning pa e =
      bind-Returning _ _ (fetched-Returning pc (memory_read16 e.mem pa) e) λ lo e'.
        choose-Returning (not (bit_and lo 3 == 3)) (expanded pc lo (expand_compressed lo))
          (fetch_wide pc pa lo >>= λ raw. pure (raw, false))
          (expanded-Returning lo (expand_compressed lo) e')
          (bind-Returning _ _ (fetch_wide-Returning pa lo e') λ raw e2. done-Returning)

  at_address :
      (t : Translated) (e : Emulator)
      → Returning (
          (elim t as (λ _. Exec (ℕ × Bool)) [
            | mapped pa ↦ fetch_at pc pa
            | fault cause ↦ reject cause pc pc
          ])
            e)
  at_address (mapped pa) e = fetch_at-Returning pa e
  at_address (fault cause) e = reject-Returning cause pc pc e

  pub fetch-Returning : (e : Emulator) → Returning (fetch pc e)
  unfolding fetch
  fetch-Returning e =
      if-Returning (nonzero (bit_and pc 1)) (reject-Returning exc_inst_misaligned pc pc e)
        (bind-Returning _ _ (mmu_translate-Returning acc_fetch e pc) at_address)

  pub decoded-Returning : (f : ℕ × Bool) (e : Emulator) → Returning (decoded pc f e)
  unfolding decoded
  decoded-Returning f e =
      elim (decode f.0)
        as (λ o. Returning (elim o as (λ _. Run Inst) [
          | some i ↦ done (if f.1 then record i { len = 2 } else i) e
          | none ↦ reject exc_illegal_inst f.0 pc e
        ])) [ some i ↦ done-Returning | none ↦ reject-Returning exc_illegal_inst f.0 pc e ]

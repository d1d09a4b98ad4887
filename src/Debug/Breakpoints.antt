-- ===== src/Debug/Breakpoints.antt =====
-- The breakpoint table of src/debug.c as a set of addresses.
use rv32i_emu.Base.{
  ℕ, suc, ◌+◌, ◌-◌, ◌≤◌, ◌<◌, ◌≡◌, refl, ap, arith, Bool, true, false, Option, none, some, [], ◌∷◌,
  ◌++◌, ◌&&◌, ltb, leb, ◌==◌, if◌then◌else◌, length,
}
use mathlib.Core.Option
use rv32i_emu.Debug.{Breakpoints, max_breakpoints, bp_find, bp_add, bp_del, remove_at}

-- How often the address stands in the table.
unfoldable pub count : ℕ → Breakpoints → ℕ
count a [] = 0
count a (b ∷ bs) = (if b == a then 1 else 0) + count a bs

count-append :
    (a b : ℕ) (bs : Breakpoints) → count a (bs ++ b ∷ []) ≡ count a bs + (if b == a then 1 else 0)
unfolding count
count-append a b [] = omega arith
count-append a b (x ∷ bs) = omega (arith, count-append a b bs)

length-append_one : (b : ℕ) (bs : Breakpoints) → length (bs ++ b ∷ []) ≡ length bs + 1
length-append_one b [] = omega arith
length-append_one b (x ∷ bs) = omega (arith, length-append_one b bs)

-- bp_find fails exactly on the addresses that are not in the table.
data Searched (a : ℕ) (bs : Breakpoints) : Option ℕ → Type 0 where
  absent : count a bs ≡ 0 → Searched a bs none
  present :
      (i : ℕ)
      → 0 < count a bs
      → ((x : ℕ) → count x (remove_at i bs) ≡ count x bs - (if x == a then 1 else 0))
      → suc (length (remove_at i bs)) ≡ length bs
      → Searched a bs (some i)

next :
    (a b : ℕ) (bs : Breakpoints) (c : Bool)
    → (b == a) ≡ c
    → {o : Option ℕ} → Searched a bs o
    → Searched a (b ∷ bs) (if c then some 0 else Option.map suc o)
unfolding count remove_at
next a b bs true e s = present 0 (ground arith) (λ x. ground arith) refl
next a b bs false e (absent h) = absent (ground arith)
next a b bs false e (present i p r l) =
    present (suc i) (ground arith) (λ x. ground (arith, r x)) (omega (arith, l))

searched : (a : ℕ) (bs : Breakpoints) → Searched a bs (bp_find a bs)
unfolding bp_find count
searched a [] = absent refl
searched a (b ∷ bs) = next a b bs (b == a) refl (searched a bs)

same_count : (x a : ℕ) (bs : Breakpoints) → x ≡ a → count x bs ≡ count a bs
same_count x a bs e = ap (λ (t : ℕ). count t bs) e

missing_at : (a : ℕ) (bs : Breakpoints) (o : Option ℕ) → Searched a bs o → count a bs ≡ 0 → o ≡ none
missing_at a bs none s h = refl
missing_at a bs (some j) (present i p r l) h = absurd (omega arith)

missing : (a : ℕ) (bs : Breakpoints) → count a bs ≡ 0 → bp_find a bs ≡ none
missing a bs h = missing_at a bs (bp_find a bs) (searched a bs) h

deleted :
    (a : ℕ) (bs : Breakpoints) (o : Option ℕ)
    → Searched a bs o
    → (x : ℕ)
    → count x (elim o as (λ _. Breakpoints) [ some i ↦ remove_at i bs | none ↦ bs ])
      ≡ count x bs - (if x == a then 1 else 0)
deleted a bs none (absent h) x = ground (arith, same_count x a bs)
deleted a bs (some j) (present i p r l) x = r x

shorter :
    (a : ℕ) (bs : Breakpoints) (o : Option ℕ)
    → Searched a bs o
    → length (elim o as (λ _. Breakpoints) [ some i ↦ remove_at i bs | none ↦ bs ]) ≤ length bs
shorter a bs none s = omega arith
shorter a bs (some j) (present i p r l) = omega (arith, l)

added :
    (a : ℕ) (bs : Breakpoints) (o : Option ℕ)
    → Searched a bs o
    → (x : ℕ)
    → count x (elim o as (λ _. Breakpoints) [
      | some i ↦ bs
      | none ↦ if leb max_breakpoints (length bs) then bs else bs ++ a ∷ []
    ])
      ≡ (if x == a && count a bs == 0 && ltb (length bs) max_breakpoints then 1 else count x bs)
added a bs (some j) (present i p r l) x = ground arith
added a bs none (absent h) x = ground (arith, same_count x a bs, count-append x a bs)

longer :
    (a : ℕ) (bs : Breakpoints) (o : Option ℕ)
    → length bs ≤ max_breakpoints
    → length (elim o as (λ _. Breakpoints) [
      | some i ↦ bs
      | none ↦ if leb max_breakpoints (length bs) then bs else bs ++ a ∷ []
    ])
      ≤ max_breakpoints
longer a bs (some i) h = h
longer a bs none h = ground (arith, length-append_one a bs)

-- bp_add puts the address into the table once, when it is not there and there is room, and bp_del
-- takes one occurrence of it out; both leave every other address as it was. So from a table without
-- duplicates and of at most 32 entries, both give such a table again, in which bp_del has left no
-- breakpoint at its address.
pub bp_add-bp_del :
    (a : ℕ) (bs : Breakpoints)
    → ((x : ℕ) → count x bs ≤ 1)
    → length bs ≤ max_breakpoints
    → ((x : ℕ)
        → count x (bp_add a bs) ≡ (
            if x == a && count a bs == 0 && ltb (length bs) max_breakpoints then 1 else count x bs))
      × ((x : ℕ) → count x (bp_del a bs) ≡ (if x == a then 0 else count x bs))
      × ((x : ℕ) → count x (bp_add a bs) ≤ 1)
      × (length (bp_add a bs) ≤ max_breakpoints)
      × (length (bp_del a bs) ≤ max_breakpoints)
      × (bp_find a (bp_del a bs) ≡ none)
unfolding bp_add bp_del
bp_add-bp_del a bs once room =
    let s = searched a bs in
    let o = bp_find a bs in
    (
      added a bs o s,
      λ x. ground (arith, deleted a bs o s x, once x),
      λ x. ground (arith, added a bs o s x, once x),
      longer a bs o room,
      omega (arith, shorter a bs o s),
      missing a (bp_del a bs) (ground (arith, deleted a bs o s a, once a)),
    )

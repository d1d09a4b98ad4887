-- ===== src/Memory/Load.antt =====
-- memory_load of src/memory.c, which elf_load calls for each segment.
use rv32i_emu.Base.{
  ℕ, ◌+◌, ◌-◌, ◌^◌, ◌≤◌, ◌<◌, ◌≡◌, ◌⊎◌, inl, inr, refl, true, false, Bool-cases, arith, ltb, leb,
  ◌==◌, ◌&&◌, if◌then◌else◌, List, length, get_or,
}
use rv32i_emu.Memory.{Memory, ok, out_of_bounds, load_length, blit, memory_load}

-- The number of bytes that a load of len bytes at addr copies into a memory of that size.
abbrev pub copied : ℕ → ℕ → ℕ → ℕ
copied size addr len =
    if leb (addr + len) size then len else if ltb addr size then size - addr else 0

-- What memory_load gives: whether the copy leaves the array, and else the memory it makes.
abbrev Loads : Memory → ℕ → List ℕ → ℕ → Memory → Type 0
Loads m addr src len m' = memory_load m addr src len ≡ (
    if ltb 0 len && leb (2 ^ 32) (addr + len) && leb (addr + len - 2 ^ 32) m.size
    then out_of_bounds
    else ok (m', copied m.size addr len))

module _ (m : Memory) (addr : ℕ) (src : List ℕ) (len : ℕ) (h : addr < 2 ^ 32) (s : m.size < 2 ^ 32)
    (has : len ≤ length src) (fits : len < 2 ^ 32) where
  nothing : (copied m.size addr len == 0) ≡ true → Loads m addr src len m
  unfolding memory_load load_length
  nothing z = ground arith

  something :
      (copied m.size addr len == 0) ≡ false
      → Loads m addr src len
          (record m { data_bytes = blit m.data_bytes addr src (copied m.size addr len) })
  unfolding memory_load load_length
  something z = ground arith

none_copied : {n j : ℕ} → (n == 0) ≡ true → j < n → ⊥
none_copied z l = ground arith

module _ (bytes : ℕ → ℕ) (addr : ℕ) (src : List ℕ) (n : ℕ) where
  inside : (j : ℕ) → j < n → blit bytes addr src n (addr + j) ≡ get_or src j 0
  unfolding blit
  inside j l = let back : addr + j - addr ≡ j = omega arith in ground (arith, back)

  outside : (j : ℕ) → (j < addr) ⊎ (addr + n ≤ j) → blit bytes addr src n j ≡ bytes j
  unfolding blit
  outside j far = ground (arith, far)

-- memory_load of the first len bytes that the pointer src has: it copies those that fit into the
-- array, each to its place, and changes no other byte, not the size and not the console. A range of at
-- least one byte is an access outside the array, when its end passes the last 32-bit address and wraps
-- to an address inside.
pub memory_load_lem :
    (m : Memory) (addr : ℕ) (src : List ℕ) (len : ℕ)
    → addr < 2 ^ 32
    → m.size < 2 ^ 32
    → len ≤ length src
    → len < 2 ^ 32
    → (m' : Memory) × (memory_load m addr src len ≡ (
        if ltb 0 len && leb (2 ^ 32) (addr + len) && leb (addr + len - 2 ^ 32) m.size
        then out_of_bounds
        else ok (m', copied m.size addr len)))
      × (m'.size ≡ m.size)
      × (m'.console ≡ m.console)
      × ((j : ℕ) → j < copied m.size addr len → m'.data_bytes (addr + j) ≡ get_or src j 0)
      × ((j : ℕ)
          → (j < addr) ⊎ (addr + copied m.size addr len ≤ j)
          → m'.data_bytes j ≡ m.data_bytes j)
memory_load_lem m addr src len h s has fits = elim (Bool-cases (copied m.size addr len == 0)) [
  | inl z ↦ (
    m,
    nothing m addr src len h s has fits z,
    refl,
    refl,
    λ j l. absurd (none_copied z l),
    λ j l. refl,
  )
  | inr n ↦ (
    record m { data_bytes = blit m.data_bytes addr src (copied m.size addr len) },
    something m addr src len h s has fits n,
    refl,
    refl,
    inside m.data_bytes addr src (copied m.size addr len),
    outside m.data_bytes addr src (copied m.size addr len),
  )
]

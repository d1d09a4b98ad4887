-- ===== src/Dump/Bounds.antt =====
-- The bytes that memory_dump of src/memory.c reads.
use rv32i_emu.Base.{
  ℕ, [], ◌++◌, ◌↔◌, zero, suc, ◌+◌, ◌^◌, ◌<◌, ◌≤◌, ◌≡◌, ◌≢◌, ◌⊎◌, inl, inr, refl, Option, none,
  some, ltb, leb, add32, arith, Bool-cases, true, false,
}
use native.Mathlib.Decide.{dec_lt}
use mathlib.Core.Option
use rv32i_emu.Memory.{Memory}
use rv32i_emu.Base.Text.{Text}
use rv32i_emu.Dump.{dump_byte, dump_bytes, dump_length, memory_dump}

map-ne-none : (f : Text → Text) (o : Option Text) → o ≢ none → Option.map f o ≢ none
map-ne-none f none h q = h refl
map-ne-none f (some t) h q = cc

module _ (m : Memory) (start : ℕ) (fits : m.size < 2 ^ 32) where
  inside : (left i : ℕ) → start + i + left ≤ m.size → dump_bytes m start left i ≢ none
  unfolding dump_bytes
  inside zero i h = λ q. cc
  inside (suc left) i h =
      let l : ltb (add32 start i) m.size ≡ true = ground arith in
      rw (dump_bytes, l)
        (map-ne-none (λ t. dump_byte m.data_bytes start i ++ t) (dump_bytes m start left (i + 1))
          (inside left (i + 1) (omega arith)))

  outside :
      (left i : ℕ)
      → start + i ≤ m.size
      → m.size < start + i + left
      → dump_bytes m start left i ≡ none
  unfolding dump_bytes
  outside zero i h g = absurd (omega arith)
  outside (suc left) i h g = elim (Bool-cases (ltb (add32 start i) m.size)) [
    | inl l ↦ rw (dump_bytes, l, outside left (i + 1) (ground arith) (omega arith)) refl
    | inr l ↦ rw (dump_bytes, l) refl
  ]

module _ (m : Memory) (start len : ℕ) (fits : m.size < 2 ^ 32) (len_fits : len < 2 ^ 32)
    (h : start < m.size) where
  clipped : start + len < 2 ^ 32 → start + 0 + dump_length m start len ≤ m.size
  unfolding dump_length
  clipped p = ground arith

  unclipped : 2 ^ 32 ≤ start + len → dump_length m start len ≡ len
  unfolding dump_length
  unclipped p = ground arith

  within : leb m.size start ≡ false
  within = ground arith

  dumps : start + len < 2 ^ 32 → memory_dump m start len ≢ none
  unfolding memory_dump
  dumps p =
      rw (memory_dump, within)
        (map-ne-none _ (dump_bytes m start (dump_length m start len) 0)
          (inside m start fits (dump_length m start len) 0 (clipped p)))

  overruns : 2 ^ 32 ≤ start + len → memory_dump m start len ≡ none
  unfolding memory_dump
  overruns p =
      rw (memory_dump, within, unclipped p, outside m start fits len 0 (omega arith) (omega arith))
        refl

  shown : memory_dump m start len ≢ none → start + len < 2 ^ 32
  shown q = elim (dec_lt (start + len) (2 ^ 32)) [
    | yes p ↦ p
    | no p ↦ absurd (q (overruns (omega arith)))
  ]

past : (m : Memory) (start len : ℕ) → m.size ≤ start → memory_dump m start len ≡ some []
unfolding memory_dump
past m start len h = let b : leb m.size start ≡ true = ground arith in rw (memory_dump, b) refl

-- memory_dump prints nothing from an address past the memory, and else reads inside the array exactly
-- when start + len is below 2 ^ 32: a sum that wraps is not clipped.
pub memory_dump_lem :
    (m : Memory) (start len : ℕ)
    → m.size < 2 ^ 32
    → len < 2 ^ 32
    → ((m.size ≤ start) × (memory_dump m start len ≡ some []))
      ⊎ ((start < m.size) × ((memory_dump m start len ≢ none) ↔ (start + len < 2 ^ 32)))
memory_dump_lem m start len fits lf = elim (dec_lt start m.size) [
  | no h ↦ inl (omega arith, past m start len (omega arith))
  | yes h ↦ inr (h, (shown m start len fits lf h, dumps m start len fits lf h))
]

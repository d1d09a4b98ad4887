-- ===== src/Alu/Division.antt =====
-- DIV and REM of src/execute.c against the division of whole numbers.
use rv32i_emu.Base.{
  ℕ, zero, suc, ◌+◌, ◌-◌, ◌*◌, ◌/◌, ◌%◌, ◌^◌, ◌≤◌, ◌<◌, ◌≡◌, ◌≢◌, ◌⊎◌, inl, inr, refl, ap, ltb,
  if◌then◌else◌, u32, arith,
}
use native.Mathlib.Decide.{dec_lt, ℕ_discrete}
use rv32i_emu.Base.Int.{to_u32, neg_ℕ}
use native.Mathlib.Nat.{mod-add-div', mod-lt, div-le_self}
use rv32i_emu.Alu.{rv_div, rv_rem}

-- The magnitude of the signed number that a word stands for.
abbrev pub magnitude : ℕ → ℕ
magnitude a = if ltb a (2 ^ 31) then a else 2 ^ 32 - a

-- The word of the negated number.
abbrev pub negated : ℕ → ℕ
negated m = u32 (2 ^ 32 - m)

to_u32-neg_ℕ : (m : ℕ) → m ≤ 2 ^ 32 → to_u32 (neg_ℕ m) ≡ negated m
to_u32-neg_ℕ zero h = refl
to_u32-neg_ℕ (suc m) h = omega arith

module _ (a b : ℕ) (nz : b ≢ 0) where
  pub both_positive : a < 2 ^ 31 → b < 2 ^ 31 → (rv_div a b ≡ a / b) × (rv_rem a b ≡ a % b)
  unfolding rv_div rv_rem
  both_positive ha hb = ground (arith, div-le_self a b, mod-lt a {m = b})

  pub negative_divisor :
      a < 2 ^ 31
      → 2 ^ 31 ≤ b
      → b < 2 ^ 32
      → (rv_div a b ≡ negated (a / (2 ^ 32 - b))) × (rv_rem a b ≡ a % (2 ^ 32 - b))
  unfolding rv_div rv_rem
  negative_divisor ha hb lb = ground (
    arith,
    div-le_self a (2 ^ 32 - b),
    mod-lt a {m = 2 ^ 32 - b},
    to_u32-neg_ℕ (a / (2 ^ 32 - b)),
  )

  pub negative_dividend :
      2 ^ 31 ≤ a
      → a < 2 ^ 32
      → b < 2 ^ 31
      → (rv_div a b ≡ negated ((2 ^ 32 - a) / b)) × (rv_rem a b ≡ negated ((2 ^ 32 - a) % b))
  unfolding rv_div rv_rem
  negative_dividend ha la hb = ground (
    arith,
    div-le_self (2 ^ 32 - a) b,
    mod-lt (2 ^ 32 - a) {m = b},
    to_u32-neg_ℕ ((2 ^ 32 - a) / b),
    to_u32-neg_ℕ ((2 ^ 32 - a) % b),
  )

  pub both_negative :
      2 ^ 31 ≤ a
      → a < 2 ^ 32
      → 2 ^ 31 ≤ b
      → b < 2 ^ 32
      → (rv_div a b ≡ (2 ^ 32 - a) / (2 ^ 32 - b))
        × (rv_rem a b ≡ negated ((2 ^ 32 - a) % (2 ^ 32 - b)))
  unfolding rv_div rv_rem
  both_negative ha la hb lb = ground (
    arith,
    div-le_self (2 ^ 32 - a) (2 ^ 32 - b),
    mod-lt (2 ^ 32 - a) {m = 2 ^ 32 - b},
    to_u32-neg_ℕ ((2 ^ 32 - a) % (2 ^ 32 - b)),
  )

-- Products in which a factor is counted down from 2 ^ 32.
pub times_less : (x y : ℕ) → x ≤ 2 ^ 32 → (2 ^ 32 - x) * y + x * y ≡ 2 ^ 32 * y
times_less x y h =
    let e : (2 ^ 32 - x) + x ≡ 2 ^ 32 = omega arith in omega (arith, ap (λ (t : ℕ). t * y) e)

-- q * b + r = a, on words.
abbrev Divides : ℕ → ℕ → Type 0
Divides a b = u32 (rv_div a b * b + rv_rem a b) ≡ a

-- Magnitudes divide as whole numbers do.
abbrev Truncates : ℕ → ℕ → Type 0
Truncates a b =
    (magnitude (rv_div a b) ≡ magnitude a / magnitude b)
    × (magnitude (rv_rem a b) ≡ magnitude a % magnitude b)

module _ (a b : ℕ) (la : a < 2 ^ 32) (lb : b < 2 ^ 32) (nz : b ≢ 0) where
  positive-Divides : a < 2 ^ 31 → b < 2 ^ 31 → Divides a b × Truncates a b
  positive-Divides ha hb =
      let (q, r) = both_positive a b nz ha hb in
      rw (q, r) (ground (arith, mod-add-div' a b, div-le_self a b, mod-lt a {m = b}))

  negative_divisor-Divides : a < 2 ^ 31 → 2 ^ 31 ≤ b → Divides a b × Truncates a b
  negative_divisor-Divides ha hb =
      let (q, r) = negative_divisor a b nz ha hb lb in
      rw (q, r)
        (ground (
          arith,
          mod-add-div' a (2 ^ 32 - b),
          div-le_self a (2 ^ 32 - b),
          mod-lt a {m = 2 ^ 32 - b},
          times_less (a / (2 ^ 32 - b)) b,
          times_less b (a / (2 ^ 32 - b)),
        ))

  negative_dividend-Divides : 2 ^ 31 ≤ a → b < 2 ^ 31 → Divides a b × Truncates a b
  negative_dividend-Divides ha hb =
      let (q, r) = negative_dividend a b nz ha la hb in
      rw (q, r)
        (ground (
          arith,
          mod-add-div' (2 ^ 32 - a) b,
          div-le_self (2 ^ 32 - a) b,
          mod-lt (2 ^ 32 - a) {m = b},
          times_less ((2 ^ 32 - a) / b) b,
        ))

  negative-Divides : 2 ^ 31 ≤ a → 2 ^ 31 ≤ b → Divides a b × Truncates a b
  negative-Divides ha hb =
      let (q, r) = both_negative a b nz ha la hb lb in
      rw (q, r)
        (ground (
          arith,
          mod-add-div' (2 ^ 32 - a) (2 ^ 32 - b),
          div-le_self (2 ^ 32 - a) (2 ^ 32 - b),
          mod-lt (2 ^ 32 - a) {m = 2 ^ 32 - b},
          times_less b ((2 ^ 32 - a) / (2 ^ 32 - b)),
        ))

  nonzero-Divides : Divides a b × Truncates a b
  nonzero-Divides = elim (dec_lt a (2 ^ 31)) [
    | yes ha ↦ elim (dec_lt b (2 ^ 31)) [
      | yes hb ↦ positive-Divides ha hb
      | no hb ↦ negative_divisor-Divides ha (omega arith)
    ]
    | no ha ↦ elim (dec_lt b (2 ^ 31)) [
      | yes hb ↦ negative_dividend-Divides (omega arith) hb
      | no hb ↦ negative-Divides (omega arith) (omega arith)
    ]
  ]

zero-Divides : (a : ℕ) → a < 2 ^ 32 → Divides a 0 × (rv_div a 0 ≡ 0xffff_ffff)
unfolding rv_div rv_rem
zero-Divides a h = ground arith

-- DIV and REM: for all words, quotient times divisor plus remainder is the dividend, modulo 2 ^ 32. By
-- zero the quotient is all ones; else the magnitudes of quotient and remainder are those of the
-- division of the magnitudes, rounded toward zero, in the overflowing case too.
pub rv_div-rv_rem :
    (a b : ℕ)
    → a < 2 ^ 32
    → b < 2 ^ 32
    → (u32 (rv_div a b * b + rv_rem a b) ≡ a)
      × (((b ≡ 0) × (rv_div a b ≡ 0xffff_ffff))
          ⊎ ((magnitude (rv_div a b) ≡ magnitude a / magnitude b)
              × (magnitude (rv_rem a b) ≡ magnitude a % magnitude b)))
rv_div-rv_rem a b la lb = elim (ℕ_discrete b 0) [
  | yes z ↦ let (d, q) = zero-Divides a la in rw z (d, inl (refl, q))
  | no nz ↦ let (d, m) = nonzero-Divides a b la lb nz in (d, inr m)
]

-- ===== src/Alu/Product.antt =====
-- MULH, MULHSU and MULHU of src/execute.c: the upper half of the 64-bit product.
use rv32i_emu.Base.{ℕ, zero, suc, ◌+◌, ◌-◌, ◌*◌, ◌^◌, ◌≤◌, ◌<◌, ◌≡◌, refl, ap, u32, u64, arith}
use native.Mathlib.Decide.{dec_lt}
use rv32i_emu.Base.Int.{ℤ, pos, negsuc, ◌*ℤ◌, neg_ℕ, shr_ℤ, s32, to_u32}
use rv32i_emu.Alu.Division.{times_less}
use rv32i_emu.Alu.{mulh, mulhsu, mulhu}

-- The 64-bit pattern of a whole number.
abbrev pub to_u64 : ℤ → ℕ
to_u64 (pos n) = u64 n
to_u64 (negsuc n) = 2 ^ 64 - 1 - u64 n

halves : (z : ℤ) → to_u64 z ≡ to_u32 (shr_ℤ z 32) * 2 ^ 32 + to_u32 z
halves (pos n) = omega arith
halves (negsuc n) = omega arith

to_u32-neg_ℕ : (m : ℕ) → to_u32 (neg_ℕ m) ≡ u32 (2 ^ 32 - u32 m)
to_u32-neg_ℕ zero = refl
to_u32-neg_ℕ (suc m) = omega arith

suc_less : (a : ℕ) → a < 2 ^ 32 → suc (2 ^ 32 - 1 - a) ≡ 2 ^ 32 - a
suc_less a h = omega arith

s32_below : (a : ℕ) → a < 2 ^ 31 → s32 a ≡ pos a
s32_below a h = ground arith

s32_above : (a : ℕ) → 2 ^ 31 ≤ a → s32 a ≡ negsuc (2 ^ 32 - 1 - a)
s32_above a h = ground arith

-- (u32)((s64)x * y) is the product of the words.
low_signed : (a b : ℕ) → a < 2 ^ 32 → b < 2 ^ 32 → to_u32 (s32 a *ℤ s32 b) ≡ u32 (a * b)
low_signed a b la lb = elim (dec_lt a (2 ^ 31)) [
  | yes ha ↦ elim (dec_lt b (2 ^ 31)) [
    | yes hb ↦ rw (s32_below a ha, s32_below b hb) refl
    | no hb ↦
        rw (s32_below a ha, s32_above b (omega arith))
          (omega (
            arith,
            to_u32-neg_ℕ (a * suc (2 ^ 32 - 1 - b)),
            times_less b a (omega arith),
            ap (λ (t : ℕ). a * t) (suc_less b lb),
          ))
  ]
  | no ha ↦ elim (dec_lt b (2 ^ 31)) [
    | yes hb ↦
        rw (s32_above a (omega arith), s32_below b hb)
          (omega (
            arith,
            to_u32-neg_ℕ (suc (2 ^ 32 - 1 - a) * b),
            times_less a b (omega arith),
            ap (λ (t : ℕ). t * b) (suc_less a la),
          ))
    | no hb ↦
        rw (s32_above a (omega arith), s32_above b (omega arith))
          (omega (
            arith,
            times_less a b (omega arith),
            times_less b (2 ^ 32 - a) (omega arith),
            ap (λ (t : ℕ). t * suc (2 ^ 32 - 1 - b)) (suc_less a la),
            ap (λ (t : ℕ). (2 ^ 32 - a) * t) (suc_less b lb),
          ))
  ]
]

low_mixed : (a b : ℕ) → a < 2 ^ 32 → b < 2 ^ 32 → to_u32 (s32 a *ℤ pos b) ≡ u32 (a * b)
low_mixed a b la lb = elim (dec_lt a (2 ^ 31)) [
  | yes ha ↦ rw (s32_below a ha) refl
  | no ha ↦ rw (s32_above a (omega arith)) (
      omega (
        arith,
        to_u32-neg_ℕ (suc (2 ^ 32 - 1 - a) * b),
        times_less a b (omega arith),
        ap (λ (t : ℕ). t * b) (suc_less a la),
      ))
]

-- MULH, MULHSU and MULHU, each above MUL, are the 64-bit pattern of the full product: of two signed
-- words, of a signed and an unsigned word, of two unsigned words.
pub mulh-mulhsu-mulhu :
    (a b : ℕ)
    → a < 2 ^ 32
    → b < 2 ^ 32
    → (mulh a b * 2 ^ 32 + u32 (a * b) ≡ to_u64 (s32 a *ℤ s32 b))
      × (mulhsu a b * 2 ^ 32 + u32 (a * b) ≡ to_u64 (s32 a *ℤ pos b))
      × (mulhu a b * 2 ^ 32 + u32 (a * b) ≡ a * b)
unfolding mulh mulhsu mulhu
mulh-mulhsu-mulhu a b la lb = (
  omega (arith, low_signed a b la lb, halves (s32 a *ℤ s32 b)),
  omega (arith, low_mixed a b la lb, halves (s32 a *ℤ pos b)),
  omega (arith, times_less a b (omega arith)),
)

-- ===== src/Isa/Products.antt =====
-- The multiplications and divisions of src/execute.c against the M extension of the specification.
use rv32i_emu.Base.{ℕ, ◌+◌, ◌*◌, ◌/◌, ◌^◌, ◌<◌, ◌≡◌, refl, ap, arith, some, u32}
use native.Mathlib.Decide.{dec_lt, ℕ_discrete}
use rv32i_emu.Alu.{rv_div, rv_rem, mulh, mulhsu, mulhu, muldiv_result}
use rv32i_emu.Alu.Division.{both_positive, negative_divisor, negative_dividend, both_negative}
use rv32i_emu.Alu.Product.{mulh-mulhsu-mulhu}
use rv32i_emu.Isa.{Multiplication, multiplication_funct3, multiplied}

-- The upper half of a number that is given by its halves.
upper_half : (h l t : ℕ) → l < 2 ^ 32 → h * 2 ^ 32 + l ≡ t → h ≡ t / 2 ^ 32
upper_half h l t k e = omega arith

rv_div-multiplied :
    (a b : ℕ)
    → a < 2 ^ 32
    → b < 2 ^ 32
    → (rv_div a b ≡ multiplied Multiplication.div a b)
      × (rv_rem a b ≡ multiplied Multiplication.rem a b)
unfolding multiplied rv_div rv_rem
rv_div-multiplied a b la lb = elim (ℕ_discrete b 0) [
  | yes z ↦ rw z (refl, refl)
  | no nz ↦ elim (dec_lt a (2 ^ 31)) [
    | yes ha ↦ elim (dec_lt b (2 ^ 31)) [
      | yes hb ↦ ground (arith, both_positive a b nz ha hb)
      | no hb ↦ ground (arith, negative_divisor a b nz ha (omega arith) lb)
    ]
    | no ha ↦ elim (dec_lt b (2 ^ 31)) [
      | yes hb ↦ ground (arith, negative_dividend a b nz (omega arith) la hb)
      | no hb ↦ ground (arith, both_negative a b nz (omega arith) la (omega arith) lb)
    ]
  ]
]

pub muldiv_result_lem :
    (op : Multiplication) (a b : ℕ)
    → a < 2 ^ 32
    → b < 2 ^ 32
    → muldiv_result (multiplication_funct3 op) a b ≡ some (multiplied op a b)
unfolding muldiv_result multiplied
muldiv_result_lem Multiplication.mul a b h k = refl
muldiv_result_lem Multiplication.mulh a b h k =
    ap some (upper_half (mulh a b) (u32 (a * b)) _ (omega arith) (mulh-mulhsu-mulhu a b h k).0)
muldiv_result_lem Multiplication.mulhsu a b h k =
    ap some (upper_half (mulhsu a b) (u32 (a * b)) _ (omega arith) (mulh-mulhsu-mulhu a b h k).1)
muldiv_result_lem Multiplication.mulhu a b h k =
    ap some (upper_half (mulhu a b) (u32 (a * b)) _ (omega arith) (mulh-mulhsu-mulhu a b h k).2)
muldiv_result_lem Multiplication.div a b h k = ap some (rv_div-multiplied a b h k).0
muldiv_result_lem Multiplication.divu a b h k = refl
muldiv_result_lem Multiplication.rem a b h k = ap some (rv_div-multiplied a b h k).1
muldiv_result_lem Multiplication.remu a b h k = refl

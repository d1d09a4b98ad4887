-- ===== src/Invariant/Arithmetic.antt =====
-- Every result of the arithmetic in src/execute.c is a word.
use rv32i_emu.Base.{
  ℕ, ◌^◌, ◌%◌, ◌/◌, ◌<◌, ◌≡◌, arith, Bool, true, false, Option, some, none, if◌then◌else◌, ◌&&◌,
  ◌==◌, bit_and, ◌>>>◌, u32,
}
use rv32i_emu.Base.Int.{ℤ, pos, negsuc, to_u32}
use rv32i_emu.Base.Bits.{bit_and-lt, bit_or-lt, bit_xor-lt}
use native.Mathlib.Nat.{div-le_self, mod-add-div'}
use rv32i_emu.Alu.{
  sext8, sext16, rv_div, rv_divu, rv_rem, rv_remu, mulh, mulhsu, mulhu, slt, sltu, sra,
  muldiv_result, alu_result, alui_result, amo_result,
}

-- The result, if there is one, is a word.
pub record ResultFits (o : Option ℕ) : Type 0 where
  pub fits : (r : ℕ) → o ≡ some r → r < 2 ^ 32

pub some-ResultFits : {r : ℕ} → r < 2 ^ 32 → ResultFits (some r)
some-ResultFits {r} h = record { fits = λ s e. ground (arith, e) }

pub none-ResultFits : ResultFits none
none-ResultFits = record { fits = λ s e. cc }

pub choice-ResultFits :
    (c : Bool) {x y : Option ℕ} → ResultFits x → ResultFits y → ResultFits (if c then x else y)
choice-ResultFits true h k = h
choice-ResultFits false h k = k

pub if-lt : (c : Bool) {x y : ℕ} → x < 2 ^ 32 → y < 2 ^ 32 → (if c then x else y) < 2 ^ 32
if-lt true h k = h
if-lt false h k = k

pub u32-lt : (n : ℕ) → u32 n < 2 ^ 32
u32-lt n = omega arith

pub to_u32-lt : (z : ℤ) → to_u32 z < 2 ^ 32
to_u32-lt (pos n) = omega arith
to_u32-lt (negsuc n) = omega arith

shift-lt : (a k : ℕ) → a < 2 ^ 32 → a >>> k < 2 ^ 32
shift-lt a k h = omega (arith, div-le_self a (2 ^ k))

small : {n : ℕ} → n < 2 → n < 2 ^ 32
small h = omega arith

div-lt : (a b : ℕ) → a < 2 ^ 32 → a / b < 2 ^ 32
div-lt a b h = omega (arith, div-le_self a b)

mod-lt_word : (a b : ℕ) → a < 2 ^ 32 → a % b < 2 ^ 32
mod-lt_word a b h = omega (arith, mod-add-div' a b)

pub ruleset results = (some-ResultFits, none-ResultFits, choice-ResultFits, u32-lt, to_u32-lt)

module _ (a b : ℕ) (ha : a < 2 ^ 32) (hb : b < 2 ^ 32) where
  rv_div-lt : rv_div a b < 2 ^ 32
  unfolding rv_div
  rv_div-lt =
      if-lt (b == 0) (omega arith)
        (if-lt (a == 0x8000_0000 && b == 0xffff_ffff) (omega arith) (to_u32-lt _))

  rv_rem-lt : rv_rem a b < 2 ^ 32
  unfolding rv_rem
  rv_rem-lt =
      if-lt (b == 0) ha (if-lt (a == 0x8000_0000 && b == 0xffff_ffff) (omega arith) (to_u32-lt _))

  rv_divu-lt : rv_divu a b < 2 ^ 32
  unfolding rv_divu
  rv_divu-lt = if-lt (b == 0) (omega arith) (div-lt a b ha)

  rv_remu-lt : rv_remu a b < 2 ^ 32
  unfolding rv_remu
  rv_remu-lt = if-lt (b == 0) ha (mod-lt_word a b ha)

  pub muldiv_result-ResultFits : (f3 : ℕ) → ResultFits (muldiv_result f3 a b)
  unfolding muldiv_result mulh mulhsu mulhu
  muldiv_result-ResultFits f3 =
      let d = rv_div-lt in
      let r = rv_rem-lt in let du = rv_divu-lt in let ru = rv_remu-lt in search results depth 14

  one_bit : (c : Bool) → (if c then 1 else 0) < 2 ^ 32
  one_bit c = if-lt c (omega arith) (omega arith)

  pub alu_result-ResultFits : (f3 f7 : ℕ) → ResultFits (alu_result f3 f7 a b)
  unfolding alu_result slt sltu sra
  alu_result-ResultFits f3 f7 =
      let s = shift-lt a (bit_and b 0x1f) ha in
      let x = bit_xor-lt 32 a b ha hb in
      let o = bit_or-lt 32 a b ha hb in
      let n = bit_and-lt 32 a b ha in search (results, one_bit, if-lt) depth 14

  pub alui_result-ResultFits : (f3 f7 : ℕ) → ResultFits (alui_result f3 f7 a b)
  unfolding alui_result slt sltu sra
  alui_result-ResultFits f3 f7 =
      let s = shift-lt a (bit_and b 0x1f) ha in
      let x = bit_xor-lt 32 a b ha hb in
      let o = bit_or-lt 32 a b ha hb in
      let n = bit_and-lt 32 a b ha in search (results, one_bit, if-lt) depth 14

  pub amo_result-ResultFits : (f5 : ℕ) → ResultFits (amo_result f5 a b)
  unfolding amo_result
  amo_result-ResultFits f5 =
      let x = bit_xor-lt 32 a b ha hb in
      let o = bit_or-lt 32 a b ha hb in
      let n = bit_and-lt 32 a b ha in search (results, if-lt) depth 14

pub sext8-lt : (v : ℕ) → v < 256 → sext8 v < 2 ^ 32
unfolding sext8
sext8-lt v h = ground (arith, bit_or-lt 32 v 0xffff_ff00 (omega arith) (omega arith))

pub sext16-lt : (v : ℕ) → v < 2 ^ 16 → sext16 v < 2 ^ 32
unfolding sext16
sext16-lt v h = ground (arith, bit_or-lt 32 v 0xffff_0000 (omega arith) (omega arith))

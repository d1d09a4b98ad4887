-- ===== src/Disasm/Length.antt =====
-- The texts of the disassembler of src/decode.c fit the buffers of 128 characters that its callers have.
use Prim.Native.String.{String}
use rv32i_emu.Base.{
  ℕ, zero, suc, ◌+◌, ◌/◌, ◌%◌, ◌≤◌, ◌≡◌, refl, arith, Option, none, some, Bool, true, false, List,
  [], ◌∷◌, ◌++◌, ltb, leb, if◌then◌else◌, length, get_or, Bool-cases, inl, inr,
}
use rv32i_emu.Base.Int.{ℤ, pos, negsuc}
use rv32i_emu.Base.Text.{Text, codes, joined, digit, digits_from, decimal, hex, signed, plus_signed}
use rv32i_emu.Disasm.Names.{
  Names, rn, reg_name, base_names, alt_names, m_names, alui_names, load_names, store_names,
  branch_names, csr_names, alu_name, alui_name, load_name, store_name, branch_name, csr_mnemonic,
  amo_name,
}
use rv32i_emu.Disasm.{fn}

pub length-append : (s t : Text) → length (s ++ t) ≡ length s + length t
length-append [] t = omega arith
length-append (c ∷ s) t = omega (arith, length-append s t)

-- The characters of all pieces.
abbrev pub total : List Text → ℕ
total [] = 0
total (t ∷ ts) = length t + total ts

pub length-joined : (ts : List Text) → length (joined ts) ≡ total ts
length-joined [] = refl
length-joined (t ∷ []) = omega arith
length-joined (t ∷ u ∷ ts) =
    omega (arith, length-append t (joined (u ∷ ts)), length-joined (u ∷ ts))

length-digits_from : (base places n : ℕ) → length (digits_from base places n) ≤ places
unfolding digits_from
length-digits_from base zero n = omega arith
length-digits_from base (suc places) n = elim (Bool-cases (ltb n base)) [
  | inl h ↦ rw (digits_from, h) (omega arith)
  | inr h ↦
      rw (digits_from, h)
        (omega (
          arith,
          length-append (digits_from base places (n / base)) (digit (n % base) ∷ []),
          length-digits_from base places (n / base),
        ))
]

pub length-decimal : (n : ℕ) → length (decimal n) ≤ 20
unfolding decimal
length-decimal n = length-digits_from 10 20 n

pub length-hex : (n : ℕ) → length (hex n) ≤ 16
unfolding hex
length-hex n = length-digits_from 16 16 n

pub length-signed : (z : ℤ) → length (signed z) ≤ 21
unfolding signed
length-signed (pos n) = omega (arith, length-decimal n)
length-signed (negsuc n) = omega (arith, length-decimal (suc n))

pub length-plus_signed : (z : ℤ) → length (plus_signed z) ≤ 21
unfolding plus_signed
length-plus_signed (pos n) = omega (arith, length-decimal n)
length-plus_signed (negsuc n) = omega (arith, length-decimal (suc n))

pub length-fn : (n : ℕ) → length (fn n) ≤ 21
unfolding fn
length-fn n = omega (arith, length-decimal n)

-- A table whose names have at most n characters.
abbrev Within : ℕ → List String → Type 0
Within n [] = Unit
Within n (s ∷ ss) = (length (codes s) ≤ n) × Within n ss

length-get_or :
    (n : ℕ) (ss : List String) (i : ℕ) (d : String)
    → Within n ss
    → length (codes d) ≤ n
    → length (codes (get_or ss i d)) ≤ n
length-get_or n [] i d w h = h
length-get_or n (s ∷ ss) zero d w h = w.0
length-get_or n (s ∷ ss) (suc i) d w h = length-get_or n ss i d w.1 h

reg_name-Within : Within 4 reg_name
reg_name-Within = omega arith

pub length-rn : (i : ℕ) → length (rn i) ≤ 4
unfolding rn
length-rn i = elim (Bool-cases (ltb i 32)) [
  | inl h ↦ rw h (length-get_or 4 reg_name i "?" reg_name-Within (omega arith))
  | inr h ↦ rw h (omega arith)
]

abbrev pub name_length : Option String → ℕ
name_length none = 0
name_length (some s) = length (codes s)

-- A mnemonic of at most 9 characters.
pub record IsShort (m : Option String) : Type 0 where
  pub at_most : name_length m ≤ 9

pub none-IsShort : IsShort none
none-IsShort = record { at_most = omega arith }

pub if-IsShort :
    (c : Bool) {x y : Option String} → IsShort x → IsShort y → IsShort (if c then x else y)
if-IsShort true h k = h
if-IsShort false h k = k

abbrev WithinNames : Names → Type 0
WithinNames [] = Unit
WithinNames (m ∷ ms) = (name_length m ≤ 9) × WithinNames ms

entry-IsShort : (ms : Names) (i : ℕ) → WithinNames ms → IsShort (get_or ms i none)
entry-IsShort [] i w = none-IsShort
entry-IsShort (m ∷ ms) zero w = record { at_most = w.0 }
entry-IsShort (m ∷ ms) (suc i) w = entry-IsShort ms i w.1

pub base_names-IsShort : (i : ℕ) → IsShort (get_or base_names i none)
base_names-IsShort i = entry-IsShort base_names i (omega arith)

pub alt_names-IsShort : (i : ℕ) → IsShort (get_or alt_names i none)
alt_names-IsShort i = entry-IsShort alt_names i (omega arith)

pub m_names-IsShort : (i : ℕ) → IsShort (get_or m_names i none)
m_names-IsShort i = entry-IsShort m_names i (omega arith)

pub alui_names-IsShort : (i : ℕ) → IsShort (get_or alui_names i none)
alui_names-IsShort i = entry-IsShort alui_names i (omega arith)

pub name-IsShort : (s : String) → leb (length (codes s)) 9 ≡ true → IsShort (some s)
name-IsShort s h = record { at_most = ground arith }

pub ruleset short = (
  name-IsShort, none-IsShort, if-IsShort, base_names-IsShort, alt_names-IsShort, m_names-IsShort,
  alui_names-IsShort,
)

pub alu_name-IsShort : (f3 f7 : ℕ) → IsShort (alu_name f3 f7)
unfolding alu_name
alu_name-IsShort f3 f7 = search short

pub alui_name-IsShort : (f3 f7 : ℕ) → IsShort (alui_name f3 f7)
unfolding alui_name
alui_name-IsShort f3 f7 = search short depth 10

pub load_name-IsShort : (f3 : ℕ) → IsShort (load_name f3)
unfolding load_name
load_name-IsShort f3 =
    if-IsShort (ltb f3 8) (entry-IsShort load_names f3 (omega arith)) none-IsShort

pub store_name-IsShort : (f3 : ℕ) → IsShort (store_name f3)
unfolding store_name
store_name-IsShort f3 =
    if-IsShort (ltb f3 8) (entry-IsShort store_names f3 (omega arith)) none-IsShort

pub branch_name-IsShort : (f3 : ℕ) → IsShort (branch_name f3)
unfolding branch_name
branch_name-IsShort f3 =
    if-IsShort (ltb f3 8) (entry-IsShort branch_names f3 (omega arith)) none-IsShort

pub csr_mnemonic-IsShort : (f3 : ℕ) → IsShort (csr_mnemonic f3)
unfolding csr_mnemonic
csr_mnemonic-IsShort f3 =
    if-IsShort (ltb f3 8) (entry-IsShort csr_names f3 (omega arith)) none-IsShort

pub amo_name-IsShort : (f5 : ℕ) → IsShort (amo_name f5)
unfolding amo_name
amo_name-IsShort f5 = search short depth 20

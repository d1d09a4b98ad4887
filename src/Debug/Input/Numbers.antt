-- ===== src/Debug/Input/Numbers.antt =====
-- Numbers that src/debug.c prints are read back by its next_u32.
use rv32i_emu.Base.{
  ℕ, zero, suc, ◌+◌, ◌-◌, ◌*◌, ◌/◌, ◌%◌, ◌^◌, ◌<◌, ◌≤◌, ◌≡◌, refl, ap, ◌∙◌, some, true, false, [],
  ◌∷◌, ◌++◌, ltb, arith, Bool-cases, length, inl, inr,
}
use rv32i_emu.Base.Text.{Text, digit, digits_from, word_hex, hex, repeat}
use rv32i_emu.Debug.Input.{
  digit_value, read_digits, starts_digit, prefix, clamped, unsigned_number, next_u32,
}
use native.Mathlib.Nat.{mod-add-div', mod-lt, pow-suc, pow-zero, div-lt_iff_lt-mul}
use mathlib.Core.List.{append_assoc}

digit_value-digit : (d : ℕ) → d < 16 → digit_value (digit d) ≡ d
unfolding digit digit_value
digit_value-digit d h = ground arith

read_digits_step :
    (base acc d : ℕ) (rest : Text)
    → d < base
    → base ≤ 16
    → read_digits base acc (digit d ∷ rest) ≡ read_digits base (acc * base + d) rest
unfolding read_digits
read_digits_step base acc d rest h hi =
    let v = digit_value-digit d (omega arith) in
    let l : ltb (digit_value (digit d)) base ≡ true = rw v (ground arith) in
    rw (read_digits, l, v) refl

last_digit :
    (base places n : ℕ) → ltb n base ≡ true → digits_from base (suc places) n ≡ digit n ∷ []
unfolding digits_from
last_digit base places n h = rw (digits_from, h) refl

more_digits :
    (base places n : ℕ)
    → ltb n base ≡ false
    → digits_from base (suc places) n ≡ digits_from base places (n / base) ++ digit (n % base) ∷ []
unfolding digits_from
more_digits base places n h = rw (digits_from, h) refl

quotient_fits : (base places n : ℕ) → 2 ≤ base → n < base ^ suc places → n / base < base ^ places
quotient_fits base places n lo h =
    (div-lt_iff_lt-mul (omega arith)).1 (omega (arith, pow-suc base places))

-- Reading what was printed in a base.
read_digits-digits_from :
    (base places n : ℕ) (rest : Text)
    → 2 ≤ base
    → base ≤ 16
    → n < base ^ places
    → read_digits base 0 (digits_from base places n ++ rest) ≡ read_digits base n rest
unfolding digits_from
read_digits-digits_from base zero n rest lo hi h =
    ap (λ (t : ℕ). read_digits base t rest) (omega (arith, pow-zero base))
read_digits-digits_from base (suc places) n rest lo hi h = elim (Bool-cases (ltb n base)) [
  | inl small ↦ rw (last_digit base places n small) (
      read_digits_step base 0 n rest (ground arith) hi
      ∙ ap (λ (t : ℕ). read_digits base t rest) (omega arith))
  | inr large ↦
      rw (more_digits base places n large, append_assoc)
        (read_digits-digits_from base places (n / base) (digit (n % base) ∷ rest) lo hi
            (quotient_fits base places n lo h)
          ∙ read_digits_step base (n / base) (n % base) rest (mod-lt n (omega arith)) hi
          ∙ ap (λ (t : ℕ). read_digits base t rest) (omega (arith, mod-add-div' n base)))
]

zeros : (k : ℕ) (t : Text) → read_digits 16 0 (repeat b'0' k ++ t) ≡ read_digits 16 0 t
unfolding read_digits digit_value
zeros zero t = refl
zeros (suc k) t = zeros k t

starts_step : (d : ℕ) (t : Text) → d < 16 → starts_digit 16 (digit d ∷ t) ≡ true
unfolding starts_digit
starts_step d t h = rw (digit_value-digit d h) (ground arith)

starts_digits :
    (places n d : ℕ) (t : Text)
    → d < 16
    → starts_digit 16 (digits_from 16 places n ++ digit d ∷ t) ≡ true
unfolding digits_from
starts_digits zero n d t h = starts_step d t h
starts_digits (suc places) n d t h = elim (Bool-cases (ltb n 16)) [
  | inl small ↦ rw (last_digit 16 places n small) (starts_step n (digit d ∷ t) (ground arith))
  | inr large ↦
      rw (more_digits 16 places n large, append_assoc)
        (starts_digits places (n / 16) (n % 16) (digit d ∷ t) (omega arith))
]

starts_hex : (n : ℕ) (t : Text) → starts_digit 16 (hex n ++ t) ≡ true
unfolding hex
starts_hex n t = elim (Bool-cases (ltb n 16)) [
  | inl small ↦ rw (last_digit 16 15 n small) (starts_step n t (ground arith))
  | inr large ↦
      rw (more_digits 16 15 n large, append_assoc)
        (starts_digits 15 (n / 16) (n % 16) t (omega arith))
]

starts_zeros : (k n : ℕ) (t : Text) → starts_digit 16 (repeat b'0' k ++ (hex n ++ t)) ≡ true
unfolding starts_digit digit_value
starts_zeros zero n t = starts_hex n t
starts_zeros (suc k) n t = refl

stops : (n : ℕ) (rest : Text) → starts_digit 16 rest ≡ false → read_digits 16 n rest ≡ (n, rest)
unfolding starts_digit read_digits
stops n [] h = refl
stops n (c ∷ rest) h = rw (read_digits, h) refl

prefixed : (t : Text) → starts_digit 16 t ≡ true → prefix (b'0' ∷ b'x' ∷ t) ≡ (16, t)
unfolding prefix
prefixed t d = rw (prefix, d) refl

clamped_word : (n : ℕ) → n < 2 ^ 32 → clamped false n ≡ n
unfolding clamped
clamped_word n h = ground arith

unsigned :
    (n : ℕ) (t rest : Text)
    → n < 2 ^ 32
    → starts_digit 16 t ≡ true
    → read_digits 16 0 t ≡ (n, rest)
    → unsigned_number false (b'0' ∷ b'x' ∷ t) ≡ some (n, rest)
unfolding unsigned_number
unsigned n t rest h d r = rw (unsigned_number, prefixed t d, r, d, clamped_word n h) refl

after_prefix :
    (n : ℕ) (t rest : Text)
    → n < 2 ^ 32
    → starts_digit 16 t ≡ true
    → read_digits 16 0 t ≡ (n, rest)
    → next_u32 (b'0' ∷ b'x' ∷ t) ≡ some (n, rest)
unfolding next_u32
after_prefix n t rest h d r = rw (next_u32, unsigned n t rest h d r) (ground arith)

word_hex-zeros :
    (n : ℕ) (rest : Text) → word_hex n ++ rest ≡ repeat b'0' (8 - length (hex n)) ++ (hex n ++ rest)
unfolding word_hex
word_hex-zeros n rest = append_assoc (repeat b'0' (8 - length (hex n))) (hex n) rest

read_digits-hex :
    (n : ℕ) (rest : Text) → n < 2 ^ 32 → read_digits 16 0 (hex n ++ rest) ≡ read_digits 16 n rest
unfolding hex
read_digits-hex n rest h =
    read_digits-digits_from 16 16 n rest (omega arith) (omega arith) (omega arith)

-- An address typed as the debugger prints it, 0x and eight digits, is read as itself, up to the first
-- character that is no hexadecimal digit.
pub next_u32-word_hex :
    (n : ℕ) (rest : Text)
    → n < 2 ^ 32
    → starts_digit 16 rest ≡ false
    → next_u32 (b'0' ∷ b'x' ∷ (word_hex n ++ rest)) ≡ some (n, rest)
next_u32-word_hex n rest h stop =
    let k = 8 - length (hex n) in
    rw (word_hex-zeros n rest) (
      after_prefix n (repeat b'0' k ++ (hex n ++ rest)) rest h (starts_zeros k n rest)
        (zeros k (hex n ++ rest) ∙ read_digits-hex n rest h ∙ stops n rest stop))

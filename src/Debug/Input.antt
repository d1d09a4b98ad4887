-- ===== src/Debug/Input.antt =====
-- src/debug.c: the reading of command lines. A text is without its final 0. `strtoul`, `fgets` and
-- `sscanf` are the functions of the C library, as far as the debugger uses them; a long has 64 bits.
pub mod Numbers
use rv32i_emu.Base.{
  ℕ, zero, suc, ◌+◌, ◌-◌, ◌*◌, ◌^◌, Option, none, some, Bool, true, false, List, [], ◌∷◌, ◌++◌,
  ◌||◌, ◌&&◌, not, ltb, leb, ◌==◌, if◌then◌else◌, u32, u64,
}
use rv32i_emu.Base.Text.{Text, codes}

abbrev pub is_blank : ℕ → Bool
is_blank c = c == b' ' || c == 9

-- isspace
abbrev pub is_space : ℕ → Bool
is_space c = c == b' ' || leb 9 c && leb c 13

-- The text from its first character that fails the test.
abbrev pub skip_while : (ℕ → Bool) → Text → Text
skip_while test [] = []
skip_while test (c ∷ s) = elim (test c) [ true ↦ skip_while test s | false ↦ c ∷ s ]

-- The value of a digit or a letter; 99 for any other character.
unfoldable pub digit_value : ℕ → ℕ
digit_value c =
    if leb b'0' c && leb c b'9'
    then c - b'0'
    else if leb b'a' c && leb c b'z'
    then c - b'a' + 10
    else if leb b'A' c && leb c b'Z'
    then c - b'A' + 10
    else 99

-- The number that the digits of a base continue, and the text after them.
unfoldable pub read_digits : ℕ → ℕ → Text → ℕ × Text
unfolding digit_value
read_digits base acc [] = (acc, [])
read_digits base acc (c ∷ s) = elim (ltb (digit_value c) base) [
  | true ↦ read_digits base (acc * base + digit_value c) s
  | false ↦ (acc, c ∷ s)
]

unfoldable pub starts_digit : ℕ → Text → Bool
unfolding digit_value
starts_digit base [] = false
starts_digit base (c ∷ s) = ltb (digit_value c) base

-- Base 0: `0x` before a digit is hexadecimal, `0` octal, and all else decimal.
unfoldable pub prefix : Text → ℕ × Text
unfolding starts_digit
prefix [] = (10, [])
prefix (c ∷ []) = (if c == b'0' then 8 else 10, c ∷ [])
prefix (c ∷ d ∷ s) =
    if c == b'0' && (d == b'x' || d == b'X') && starts_digit 16 s
    then (16, s)
    else (if c == b'0' then 8 else 10, c ∷ d ∷ s)

-- Too large a number is ULONG_MAX; a minus sign negates modulo 2 ^ 64.
unfoldable pub clamped : Bool → ℕ → ℕ
clamped minus n = if leb (2 ^ 64) n then 2 ^ 64 - 1 else if minus then u64 (2 ^ 64 - n) else n

unfoldable pub unsigned_number : Bool → Text → Option (ℕ × Text)
unfolding prefix starts_digit read_digits clamped
unsigned_number minus t =
    let (base, s) = prefix t in
    let (n, end) = read_digits base 0 s in
    if starts_digit base s then some (clamped minus n, end) else none

-- strtoul(s, &end, 0): the value and the text from `end`; `none` if `end` is `s`.
unfoldable pub strtoul : Text → Option (ℕ × Text)
unfolding unsigned_number
strtoul s = elim (skip_while is_space s) [
  | [] ↦ none
  | c ∷ t ↦
      if c == b'-'
      then unsigned_number true t
      else if c == b'+'
      then unsigned_number false t
      else unsigned_number false (c ∷ t)
]

-- The number and the text after it, or 0 and the text unchanged.
unfoldable pub next_u32 : Text → Option (ℕ × Text)
unfolding strtoul
next_u32 s = elim (strtoul (skip_while is_blank s)) [
  | some (v, end) ↦ some (u32 v, end)
  | none ↦ none
]

-- A call whose result is dropped: the variable keeps its value.
unfoldable pub number_or : ℕ → Text → ℕ × Text
unfolding next_u32
number_or n args = elim (next_u32 args) [ some r ↦ r | none ↦ (n, args) ]

-- fgets into a buffer of 128: at most 127 characters, up to and with a newline. `room` is what the
-- buffer has left, `line` what it holds.
unfoldable pub split_lines : ℕ → Text → Text → List Text
split_lines room line [] = elim line [ [] ↦ [] | c ∷ s ↦ (c ∷ s) ∷ [] ]
split_lines room line (c ∷ input) =
    let line' = line ++ c ∷ [] in
    let full = c == 10 || room == 1 in
    let rest = split_lines (if full then 127 else room - 1) (if full then [] else line') input in
    if full then line' ∷ rest else rest

-- What strlen and all else see of a line: the text before the first 0.
abbrev pub until_zero : Text → Text
until_zero [] = []
until_zero (zero ∷ s) = []
until_zero (suc c ∷ s) = suc c ∷ until_zero s

-- The newlines and carriage returns at the end of a line are taken off.
unfoldable pub trimmed : Text → Text
trimmed [] = []
trimmed (c ∷ s) = elim (trimmed s) [
  | [] ↦ if c == 10 || c == 13 then [] else c ∷ []
  | d ∷ t ↦ c ∷ d ∷ t
]

-- At most n characters that are no space.
unfoldable pub word : ℕ → Text → Text
word zero s = []
word (suc n) [] = []
word (suc n) (c ∷ s) = elim (is_space c) [ true ↦ [] | false ↦ c ∷ word n s ]

-- sscanf(line, "%15s", cmd)
unfoldable pub scan_command : Text → Text
unfolding word
scan_command line = word 15 (skip_while is_space line)

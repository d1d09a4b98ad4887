-- ===== src/Base/Text.antt =====
-- C strings as lists of code points, and the conversions of printf that the program uses.
use Prim.Native.Nat.{ℕ, zero, suc, ◌+◌, ◌/◌, ◌%◌, ◌-◌}
use Prim.Native.Char.{code}
use Prim.Native.String.{String}
use mathlib.Core.Bool.{Bool, true, false, ◌&&◌}
use mathlib.Core.List.{List, [], ◌∷◌, ◌++◌}
use rv32i_emu.Base.Tests.{ltb, ◌==◌, if◌then◌else◌}
use rv32i_emu.Base.Lists.{length}
use rv32i_emu.Base.Int.{ℤ, pos, negsuc}

abbrev pub Text : Type 0
Text = List ℕ

-- The code points of a literal.
abbrev pub codes : String → Text
codes String.[] = []
codes (String.◌∷◌ c s) = code c ∷ codes s

-- The pieces of a formatted text, in order.
abbrev pub joined : List Text → Text
joined [] = []
joined (t ∷ []) = t
joined (t ∷ ts) = t ++ joined ts

-- strcmp(s, t) == 0
abbrev pub text_eq : Text → Text → Bool
text_eq [] [] = true
text_eq (c ∷ s) (d ∷ t) = c == d && text_eq s t
text_eq _ _ = false

-- A digit below 16, in capitals as %X has it.
unfoldable pub digit : ℕ → ℕ
digit d = if ltb d 10 then b'0' + d else b'A' + (d - 10)

-- The digits of n in a base, at most `places` of them.
unfoldable pub digits_from : ℕ → ℕ → ℕ → Text
unfolding digit
digits_from base zero n = []
digits_from base (suc places) n = elim (ltb n base) [
  | true ↦ digit n ∷ []
  | false ↦ digits_from base places (n / base) ++ digit (n % base) ∷ []
]

-- %u and %llu: a 64-bit number has at most 20 digits.
unfoldable pub decimal : ℕ → Text
unfolding digits_from
decimal n = digits_from 10 20 n

-- %X
unfoldable pub hex : ℕ → Text
unfolding digits_from
hex n = digits_from 16 16 n

-- %d and %+d
unfoldable pub signed : ℤ → Text
unfolding decimal
signed (pos n) = decimal n
signed (negsuc n) = b'-' ∷ decimal (suc n)

unfoldable pub plus_signed : ℤ → Text
unfolding decimal
plus_signed (pos n) = b'+' ∷ decimal n
plus_signed (negsuc n) = b'-' ∷ decimal (suc n)

abbrev pub repeat : ℕ → ℕ → Text
repeat c zero = []
repeat c (suc n) = c ∷ repeat c n

-- %08X and %02X: zeros in front, up to the width.
unfoldable pub padded_hex : ℕ → ℕ → Text
unfolding hex
padded_hex width n = repeat b'0' (width - length (hex n)) ++ hex n

unfoldable pub word_hex : ℕ → Text
unfolding padded_hex
word_hex n = padded_hex 8 n

-- The first n characters.
abbrev pub take : ℕ → Text → Text
take zero t = []
take (suc n) [] = []
take (suc n) (c ∷ t) = c ∷ take n t

abbrev pub drop : ℕ → Text → Text
drop zero t = t
drop (suc n) [] = []
drop (suc n) (c ∷ t) = drop n t

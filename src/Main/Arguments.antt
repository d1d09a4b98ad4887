-- ===== src/Main/Arguments.antt =====
-- The numbers of the command line of src/main.c fit a u64.
use rv32i_emu.Base.{
  ℕ, ◌^◌, ◌<◌, ◌≡◌, arith, Option, none, some, Bool, true, false, List, [], ◌∷◌, ◌==◌,
  if◌then◌else◌,
}
use mathlib.Core.Path.{subst}
use rv32i_emu.Base.Text.{Text}
use rv32i_emu.Debug.Input.{
  is_space, skip_while, prefix, read_digits, starts_digit, clamped, unsigned_number, strtoul,
}
use rv32i_emu.Main.{
  Options, Parsed, options, help, unknown_option, selftest_option, debug_option, steps_option,
  help_option, unknown, path_argument, argument, steps_of, parse_args, no_options,
}

abbrev NumberFits : Option (ℕ × Text) → Type 0
NumberFits none = Unit
NumberFits (some r) = r.0 < 2 ^ 64

record Fits (o : Option (ℕ × Text)) : Type 0 where
  fits : NumberFits o

if-Fits : (c : Bool) {x y : Option (ℕ × Text)} → Fits x → Fits y → Fits (if c then x else y)
if-Fits true h k = h
if-Fits false h k = k

clamped-lt : (minus : Bool) (n : ℕ) → clamped minus n < 2 ^ 64
unfolding clamped
clamped-lt minus n = ground arith

unsigned_number-Fits : (minus : Bool) (t : Text) → Fits (unsigned_number minus t)
unfolding unsigned_number
unsigned_number-Fits minus t =
    let b = prefix t in
    let r = read_digits b.0 0 b.1 in
    if-Fits (starts_digit b.0 b.1) (record { fits = clamped-lt minus r.0 }) (record { fits = tt })

strtoul-Fits : (s : Text) → Fits (strtoul s)
unfolding strtoul
strtoul-Fits s =
    elim (skip_while is_space s)
      as (λ t. Fits (elim t as (λ _. Option (ℕ × Text)) [
        | [] ↦ none
        | c ∷ t ↦
            if c == b'-'
            then unsigned_number true t
            else if c == b'+'
            then unsigned_number false t
            else unsigned_number false (c ∷ t)
      ])) [
        | [] ↦ record { fits = tt }
        | c ∷ t ↦ if-Fits (c == b'-') (unsigned_number-Fits true t) (
            if-Fits (c == b'+') (unsigned_number-Fits false t) (unsigned_number-Fits false (c ∷ t)))
      ]

steps_of-lt : (arg : Text) → steps_of arg < 2 ^ 64
unfolding steps_of
steps_of-lt arg = read (strtoul arg) (strtoul-Fits arg)
  where
    read :
        (o : Option (ℕ × Text)) → Fits o → (elim o as (λ _. ℕ) [ some r ↦ r.0 | none ↦ 0 ]) < 2 ^ 64
    read none f = omega arith
    read (some r) f = f.fits

abbrev StepsFit : Parsed → Type 0
StepsFit (options o) = o.max_steps < 2 ^ 64
StepsFit help = Unit
StepsFit (unknown_option arg) = Unit

parse_args-StepsFit :
    (args : List Text) (o : Options) → o.max_steps < 2 ^ 64 → StepsFit (parse_args args o)
unfolding parse_args
parse_args-StepsFit [] o h = h
parse_args-StepsFit (arg ∷ []) o h =
    elim (argument arg true)
      as (λ a. StepsFit (elim a as (λ _. Parsed) [
        | selftest_option ↦ options (record o { selftest = true })
        | debug_option ↦ options (record o { debug = true })
        | steps_option ↦ options o
        | help_option ↦ help
        | unknown ↦ unknown_option arg
        | path_argument ↦ options (record o { path = some arg })
      ])) [
        | selftest_option ↦ h
        | debug_option ↦ h
        | steps_option ↦ h
        | help_option ↦ tt
        | unknown ↦ tt
        | path_argument ↦ h
      ]
parse_args-StepsFit (arg ∷ next ∷ rest) o h =
    elim (argument arg false)
      as (λ a. StepsFit (elim a as (λ _. Parsed) [
        | selftest_option ↦ parse_args (next ∷ rest) (record o { selftest = true })
        | debug_option ↦ parse_args (next ∷ rest) (record o { debug = true })
        | steps_option ↦ parse_args rest (record o { max_steps = steps_of next })
        | help_option ↦ help
        | unknown ↦ unknown_option arg
        | path_argument ↦ parse_args (next ∷ rest) (record o { path = some arg })
      ])) [
        | selftest_option ↦ parse_args-StepsFit (next ∷ rest) (record o { selftest = true }) h
        | debug_option ↦ parse_args-StepsFit (next ∷ rest) (record o { debug = true }) h
        | steps_option ↦
            parse_args-StepsFit rest (record o { max_steps = steps_of next }) (steps_of-lt next)
        | help_option ↦ tt
        | unknown ↦ tt
        | path_argument ↦ parse_args-StepsFit (next ∷ rest) (record o { path = some arg }) h
      ]

pub max_steps-lt :
    (args : List Text) {o : Options} → parse_args args no_options ≡ options o → o.max_steps < 2 ^ 64
max_steps-lt args {o} q =
    subst (λ p. StepsFit p) q (parse_args-StepsFit args no_options (omega arith))

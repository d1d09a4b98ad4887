-- ===== src/Base/Lists.antt =====
-- Lists measured and indexed by native numbers, and functions changed at one point.
use Prim.Native.Nat.{ℕ, zero, suc}
use mathlib.Core.List.{List, [], ◌∷◌}
use rv32i_emu.Base.Tests.{◌==◌, if◌then◌else◌}

module _ {ℓ} {A : Type ℓ} where
  abbrev pub length : List A → ℕ
  length [] = 0
  length (x ∷ xs) = suc (length xs)

  abbrev pub get_or : List A → ℕ → A → A
  get_or [] i d = d
  get_or (x ∷ xs) zero d = x
  get_or (x ∷ xs) (suc i) d = get_or xs i d

  -- An array with one element written.
  abbrev pub update : (ℕ → A) → ℕ → A → ℕ → A
  update f k v j = if j == k then v else f j

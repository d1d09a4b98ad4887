-- ===== src/Machine/Runs.antt =====
-- Runs of the monad of Machine of which a step is known to be done, and tests of which the value is.
use rv32i_emu.Base.{◌≡◌, refl, Bool, true, false, if◌then◌else◌}
use rv32i_emu.Memory.{Access, ok}
use rv32i_emu.Machine.{Leave, Emulator, access, Run, done, leave, undefined, Exec}

pub bind-done :
    {A B : Type 0} {r : Run A} {a : A} {e : Emulator} {s : Run B} (f : A → Exec B)
    → r ≡ done a e
    → f a e ≡ s
    → elim r as (λ _. Run B) [
      | done a' e' ↦ f a' e'
      | leave l e' ↦ leave l e'
      | undefined ↦ undefined
    ]
      ≡ s
bind-done f h k = rw h k

pub bind-leave :
    {A B : Type 0} {r : Run A} {l : Leave} {e : Emulator} (f : A → Exec B)
    → r ≡ leave l e
    → elim r as (λ _. Run B) [
      | done a' e' ↦ f a' e'
      | leave l' e' ↦ leave l' e'
      | undefined ↦ undefined
    ]
      ≡ leave l e
bind-leave f h = rw h refl

pub accessed :
    {A : Type 0} {r : Access A} {e : Emulator} {a : A} (l : Leave)
    → r ≡ ok a
    → access r l e ≡ done a e
accessed l h = rw h refl

pub chosen : {A : Type 0} (b : Bool) (x y : A) → b ≡ true → (if b then x else y) ≡ x
chosen true x y h = refl
chosen false x y h = absurd (cc h)

pub other : {A : Type 0} (b : Bool) (x y : A) → b ≡ false → (if b then x else y) ≡ y
other true x y h = absurd (cc h)
other false x y h = refl

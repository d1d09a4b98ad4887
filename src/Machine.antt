-- ===== src/Machine.antt =====
-- include/emu.h: the emulator's state, and the way in which its functions run over it.
pub mod Runs
use rv32i_emu.Base.{ℕ, Bool, if◌then◌else◌, u64, ◌+◌}
use rv32i_emu.Memory.{Memory, Access, ok, refused, out_of_bounds}
use rv32i_emu.RegFile.{RegFile}
use rv32i_emu.Csr.{Csr}

pub data EmuState : Type 0 where
  running halted exception : EmuState

pub record Emulator : Type 0 where
  pub mem : Memory
  pub rf : RegFile
  pub csr : Csr
  pub mtime : ℕ
  pub mtimecmp : ℕ
  pub priv : ℕ
  pub reservation_valid : ℕ
  pub reservation_addr : ℕ
  pub state : EmuState
  pub entry : ℕ
  pub exit_code : ℕ

-- The ways out of a function before its end: `goto except` with the cause and the address,
-- `goto unknown`, and `return b`.
pub data Leave : Type 0 where
  goto_except : ℕ → ℕ → Leave
  goto_unknown : Leave
  return : Bool → Leave

-- `undefined` is behaviour that C leaves undefined; no state follows it.
pub data Run (A : Type 0) : Type 0 where
  done : A → Emulator → Run A
  leave : Leave → Emulator → Run A
  undefined : Run A

abbrev pub Exec : Type 0 → Type 0
Exec A = Emulator → Run A

infixl 5 ◌>>=◌ ◌>>◌
abbrev pub ◌>>=◌ : {A B : Type 0} → Exec A → (A → Exec B) → Exec B
◌>>=◌ m f e = elim (m e) [ done a e' ↦ f a e' | leave l e' ↦ leave l e' | undefined ↦ undefined ]

abbrev pub ◌>>◌ : {A B : Type 0} → Exec A → Exec B → Exec B
m >> k = m >>= λ _. k

abbrev pub pure : {A : Type 0} → A → Exec A
pure a e = done a e

abbrev pub exit : {A : Type 0} → Leave → Exec A
exit l e = leave l e

abbrev pub gets : {A : Type 0} → (Emulator → A) → Exec A
gets f e = done (f e) e

abbrev pub modify : (Emulator → Emulator) → Exec (Unit {0})
modify f e = done tt (f e)

-- A condition that leaves when it holds.
abbrev pub leave_if : Bool → Leave → Exec (Unit {0})
leave_if c l e = if c then leave l e else done tt e

-- A checked access that leaves when it is refused.
abbrev pub access : {A : Type 0} → Access A → Leave → Exec A
access (ok a) l e = done a e
access refused l e = leave l e
access out_of_bounds l e = undefined

abbrev pub with_csr : (Csr → Csr) → Emulator → Emulator
with_csr f e = record e { csr = f e.csr }

abbrev pub with_rf : (RegFile → RegFile) → Emulator → Emulator
with_rf f e = record e { rf = f e.rf }

abbrev pub with_pc : ℕ → Emulator → Emulator
with_pc pc e = record e { rf = record e.rf { pc = pc } }

abbrev pub with_mem : Memory → Emulator → Emulator
with_mem m e = record e { mem = m }

abbrev pub with_state : EmuState → Emulator → Emulator
with_state s e = record e { state = s }

-- csr.mcycle++, a 64-bit counter
abbrev pub count_cycle : Emulator → Emulator
count_cycle e = record e { csr = record e.csr { mcycle = u64 (e.csr.mcycle + 1) } }

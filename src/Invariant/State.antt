-- ===== src/Invariant/State.antt =====
-- The invariant of emulator_t, and its rules for the monad of the model.
use rv32i_emu.Base.{
  ℕ, ◌+◌, ◌^◌, ◌<◌, ◌≡◌, ◌≢◌, refl, Bool, true, false, arith, if◌then◌else◌, update, u64,
}
use rv32i_emu.Memory.{Memory, Access, ok, refused, out_of_bounds}
use rv32i_emu.Memory.Laws.{IsMemory}
use rv32i_emu.RegFile.{reg_read, reg_write}
use rv32i_emu.Csr.{Csr}
use rv32i_emu.Invariant.CsrLaws.{IsCsr}
use rv32i_emu.Machine.{
  EmuState, running, exception, Emulator, Leave, goto_except, goto_unknown, return, Run, done,
  leave, undefined, Exec, access, leave_if, with_pc, with_state, with_mem, count_cycle,
}

-- Words are words, x0 is 0, the memory's bytes are bytes, and the privilege has two bits.
pub record IsEmulator (e : Emulator) : Type 0 where
  pub memory : IsMemory e.mem
  pub zero : e.rf.regs 0 ≡ 0
  pub regs_fit : (n : ℕ) → e.rf.regs n < 2 ^ 32
  pub fregs_fit : (n : ℕ) → e.rf.fregs n < 2 ^ 32
  pub pc_fits : e.rf.pc < 2 ^ 32
  pub csr : IsCsr e.csr
  pub priv_fits : e.priv < 4
  pub mtime_fits : e.mtime < 2 ^ 64
  pub mtimecmp_fits : e.mtimecmp < 2 ^ 64

pub exception-ne-running : ◌≢◌ {A = EmuState} exception running
exception-ne-running h = cc

-- The cause and the address of an exception are words, and `return false` is a machine that stopped.
abbrev pub LeaveFits : Leave → Emulator → Type 0
LeaveFits (goto_except cause addr) e = (cause < 2 ^ 32) × (addr < 2 ^ 32)
LeaveFits goto_unknown e = Unit
LeaveFits (return true) e = Unit
LeaveFits (return false) e = e.state ≢ running

abbrev Outcome : {A : Type 0} → (A → Type 0) → Run A → Type 0
Outcome Q (done a e) = Q a × IsEmulator e
Outcome Q (leave l e) = LeaveFits l e × IsEmulator e
Outcome Q undefined = Unit

-- Whatever way the code ends, the state satisfies the invariant, and its value, if any, Q.
pub record Ensures {A : Type 0} (Q : A → Type 0) (r : Run A) : Type 0 where
  pub outcome : Outcome Q r

abbrev pub IsWord : ℕ → Type 0
IsWord n = n < 2 ^ 32

abbrev pub Anything : {A : Type 0} → A → Type 0
Anything a = Unit

pub done-Ensures :
    {A : Type 0} {Q : A → Type 0} {a : A} {e : Emulator} → Q a → IsEmulator e → Ensures Q (done a e)
done-Ensures h i = record { outcome = (h, i) }

pub leave-Ensures :
    {A : Type 0} {Q : A → Type 0} {l : Leave} {e : Emulator}
    → LeaveFits l e
    → IsEmulator e
    → Ensures Q (leave l e)
leave-Ensures h i = record { outcome = (h, i) }

pub undefined-Ensures : {A : Type 0} {Q : A → Type 0} → Ensures Q undefined
undefined-Ensures = record { outcome = tt }

pub bind-Ensures :
    {A B : Type 0} {Q : A → Type 0} {R : B → Type 0} {r : Run A} {f : A → Exec B}
    → Ensures Q r
    → ((a : A) → Q a → (e : Emulator) → IsEmulator e → Ensures R (f a e))
    → Ensures R (elim r [ done a e' ↦ f a e' | leave l e' ↦ leave l e' | undefined ↦ undefined ])
bind-Ensures {r = done a e} h k = k a h.outcome.0 e h.outcome.1
bind-Ensures {r = leave l e} h k = record { outcome = h.outcome }
bind-Ensures {r = undefined} h k = undefined-Ensures

pub if-IsEmulator :
    {B : Type 0} (c : Bool) (x y : Emulator × B)
    → IsEmulator x.0
    → IsEmulator y.0
    → IsEmulator (if c then x else y).0
if-IsEmulator true x y h k = h
if-IsEmulator false x y h k = k

-- Both branches of a test.
pub if-Ensures :
    {A : Type 0} {Q : A → Type 0} (c : Bool) {x y : Run A}
    → Ensures Q x
    → Ensures Q y
    → Ensures Q (if c then x else y)
if-Ensures true h k = h
if-Ensures false h k = k

pub choose-Ensures :
    {A : Type 0} {Q : A → Type 0} (c : Bool) (f g : Exec A) {e : Emulator}
    → Ensures Q (f e)
    → Ensures Q (g e)
    → Ensures Q ((if c then f else g) e)
choose-Ensures true f g h k = h
choose-Ensures false f g h k = k

pub ruleset branches = (if-Ensures, choose-Ensures, done-Ensures, leave-Ensures, undefined-Ensures)

pub access-Ensures :
    {A : Type 0} {Q : A → Type 0} (r : Access A) (l : Leave) {e : Emulator}
    → IsEmulator e
    → LeaveFits l e
    → ((a : A) → r ≡ ok a → Q a)
    → Ensures Q (access r l e)
access-Ensures (ok a) l i f h = done-Ensures (h a refl) i
access-Ensures refused l i f h = leave-Ensures f i
access-Ensures out_of_bounds l i f h = undefined-Ensures

pub leave_if-Ensures :
    (c : Bool) (l : Leave) {e : Emulator}
    → IsEmulator e
    → LeaveFits l e
    → Ensures Anything (leave_if c l e)
leave_if-Ensures c l i f = search branches

pub reg_read-lt : (e : Emulator) (n : ℕ) → IsEmulator e → reg_read e.rf n < 2 ^ 32
unfolding reg_read
reg_read-lt e n i = ground (arith, i.regs_fit n)

pub reg_write-IsEmulator :
    (e : Emulator) (n val : ℕ)
    → IsEmulator e
    → val < 2 ^ 32
    → IsEmulator (record e { rf = reg_write e.rf n val })
unfolding reg_write
reg_write-IsEmulator e n val i h = record {
  memory = i.memory;
  zero = ground (arith, i.zero);
  regs_fit = λ k. ground (arith, i.regs_fit k);
  fregs_fit = λ k. ground (arith, i.fregs_fit k);
  pc_fits = ground (arith, i.pc_fits);
  csr = i.csr;
  priv_fits = i.priv_fits;
  mtime_fits = i.mtime_fits;
  mtimecmp_fits = i.mtimecmp_fits;
}

pub freg_write-IsEmulator :
    (e : Emulator) (n val : ℕ)
    → IsEmulator e
    → val < 2 ^ 32
    → IsEmulator (record e { rf = record e.rf { fregs = update e.rf.fregs n val } })
freg_write-IsEmulator e n val i h = record {
  memory = i.memory;
  zero = i.zero;
  regs_fit = i.regs_fit;
  fregs_fit = λ k. ground (arith, i.fregs_fit k);
  pc_fits = i.pc_fits;
  csr = i.csr;
  priv_fits = i.priv_fits;
  mtime_fits = i.mtime_fits;
  mtimecmp_fits = i.mtimecmp_fits;
}

module _ (e : Emulator) (i : IsEmulator e) where
  pub pc-IsEmulator : (pc : ℕ) → pc < 2 ^ 32 → IsEmulator (with_pc pc e)
  pc-IsEmulator pc h = search

  pub state-IsEmulator : (s : EmuState) → IsEmulator (with_state s e)
  state-IsEmulator s = search

  pub mem-IsEmulator : (m : Memory) → IsMemory m → IsEmulator (with_mem m e)
  mem-IsEmulator m h = search

  pub csr-IsEmulator : (c : Csr) → IsCsr c → IsEmulator (record e { csr = c })
  csr-IsEmulator c h = search

  cycle-IsCsr : IsCsr (record e.csr { mcycle = u64 (e.csr.mcycle + 1) })
  cycle-IsCsr = let k = i.csr in ground arith

  pub count_cycle-IsEmulator : IsEmulator (count_cycle e)
  count_cycle-IsEmulator = csr-IsEmulator _ cycle-IsCsr

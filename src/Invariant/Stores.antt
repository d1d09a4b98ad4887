-- ===== src/Invariant/Stores.antt =====
-- The stores and the atomic instructions of src/execute.c keep the invariant.
use rv32i_emu.Base.{
  ℕ, ◌^◌, ◌<◌, ◌≡◌, arith, Bool, true, false, not, Option, some, none, ◌==◌, ◌&&◌, nonzero,
  if◌then◌else◌, add32, bit_and, bit_or, u8, u16,
}
use rv32i_emu.Base.Bits.{bit_and-lt, bit_or-lt}
use rv32i_emu.Memory.{Memory, Access, ok, memory_write8, memory_write16, memory_write32}
use rv32i_emu.Memory.Laws.{IsMemory, write32-IsMemory}
use rv32i_emu.RegFile.{reg_read}
use rv32i_emu.Csr.Constants.{exc_store_access, exc_store_misaligned}
use rv32i_emu.Decode.{Inst}
use rv32i_emu.Machine.{Emulator, goto_except, goto_unknown, done, with_mem}
use rv32i_emu.Mmu.{acc_store}
use rv32i_emu.Execute.Access.{
  break_reservation, store_value, finish_store, store_or_mtimecmp, exec_store, exec_store_fp,
}
use rv32i_emu.Invariant.State.{
  IsEmulator, Ensures, IsWord, Anything, bind-Ensures, branches, done-Ensures, leave-Ensures,
  access-Ensures, leave_if-Ensures, reg_read-lt, mem-IsEmulator,
}
use rv32i_emu.Invariant.Accesses.{memory_write8-IsMemory, memory_write16-IsMemory}
use rv32i_emu.Invariant.Loads.{translate-Ensures}

pub either :
    (c : Bool) {x y : Emulator} → IsEmulator x → IsEmulator y → IsEmulator (if c then x else y)
either true h k = h
either false h k = k

module _ (e : Emulator) (i : IsEmulator e) where
  pub unreserved : IsEmulator (record e { reservation_valid = 0 })
  unreserved = search

  pub reserved : (pa : ℕ) → IsEmulator (record e { reservation_valid = 1; reservation_addr = pa })
  reserved pa = search

  timed : (t : ℕ) → t < 2 ^ 64 → IsEmulator (record e { mtimecmp = t })
  timed t h = search

  pub break_reservation-IsEmulator : (pa : ℕ) → IsEmulator (break_reservation pa e)
  unfolding break_reservation
  break_reservation-IsEmulator pa =
      either (nonzero e.reservation_valid && e.reservation_addr == pa) unreserved i

-- Whatever a store has written is a memory.
abbrev StoreFits : Option (Access Memory) → Type 0
StoreFits none = Unit
StoreFits (some w) = (m : Memory) → w ≡ ok m → IsMemory m

record Stored (o : Option (Access Memory)) : Type 0 where
  fits : StoreFits o

some-Stored : {w : Access Memory} → ((m : Memory) → w ≡ ok m → IsMemory m) → Stored (some w)
some-Stored h = record { fits = h }

choice-Stored :
    (c : Bool) {x y : Option (Access Memory)} → Stored x → Stored y → Stored (if c then x else y)
choice-Stored true h k = h
choice-Stored false h k = k

store_value-Stored : (f3 pa v : ℕ) (m : Memory) → IsMemory m → Stored (store_value f3 pa v m)
unfolding store_value
store_value-Stored f3 pa v m i =
    let b : Stored (some (memory_write8 m pa (u8 (bit_and v 0xff)))) =
      some-Stored (λ m' e. memory_write8-IsMemory m pa i (u8 (bit_and v 0xff)) (omega arith) e) in
    let h : Stored (some (memory_write16 m pa (u16 (bit_and v 0xffff)))) =
      some-Stored (λ m' e. memory_write16-IsMemory m pa i (u16 (bit_and v 0xffff)) e) in
    let w : Stored (some (memory_write32 m pa v)) =
      some-Stored (λ m' e. write32-IsMemory m pa v i e) in
    let n : Stored none = record { fits = tt } in search choice-Stored depth 10

pub refusal : (addr : ℕ) → addr < 2 ^ 32 → (exc_store_access < 2 ^ 32) × (addr < 2 ^ 32)
refusal addr h = (omega arith, h)

misaligned : (addr : ℕ) → addr < 2 ^ 32 → (exc_store_misaligned < 2 ^ 32) × (addr < 2 ^ 32)
misaligned addr h = (omega arith, h)

finish_store-Ensures :
    (addr pa : ℕ) (o : Option (Access Memory)) (e : Emulator)
    → IsEmulator e
    → addr < 2 ^ 32
    → Stored o
    → Ensures Anything (finish_store addr pa o e)
unfolding finish_store
finish_store-Ensures addr pa none e i h s = leave-Ensures tt i
finish_store-Ensures addr pa (some w) e i h s =
    bind-Ensures (access-Ensures w (goto_except exc_store_access addr) i (refusal addr h) s.fits)
      λ m q e1 i1.
        done-Ensures tt (break_reservation-IsEmulator (with_mem m e1) (mem-IsEmulator e1 i1 m q) pa)

store_or_mtimecmp-Ensures :
    (f3 addr pa v : ℕ) (e : Emulator)
    → IsEmulator e
    → addr < 2 ^ 32
    → v < 2 ^ 32
    → Ensures Anything (store_or_mtimecmp f3 addr pa v e)
unfolding store_or_mtimecmp
store_or_mtimecmp-Ensures f3 addr pa v e i h k =
    let s =
      finish_store-Ensures addr pa (store_value f3 pa v e.mem) e i h
        (store_value-Stored f3 pa v e.mem i.memory) in
    let t = bit_or (bit_and e.mtimecmp 0xffff_ffff_0000_0000) v in
    let b : t < 2 ^ 64 =
      bit_or-lt 64 (bit_and e.mtimecmp 0xffff_ffff_0000_0000) v
        (bit_and-lt 64 e.mtimecmp 0xffff_ffff_0000_0000 i.mtimecmp_fits) (omega arith) in
    let d : IsEmulator (record e { mtimecmp = t }) = timed e i t b in
    let u : Ensures Anything (done tt (record e { mtimecmp = t })) = done-Ensures tt d in
    search branches

module _ (next : ℕ) (i : Inst) (e : Emulator) (inv : IsEmulator e) (n : next < 2 ^ 32) where
  pub exec_store-Ensures : Ensures IsWord (exec_store next i e)
  unfolding exec_store
  exec_store-Ensures =
      let addr = add32 (reg_read e.rf i.rs1) i.imm in
      let v = reg_read e.rf i.rs2 in
      let h : addr < 2 ^ 32 = omega arith in
      bind-Ensures
        (leave_if-Ensures (i.funct3 == 1 && nonzero (bit_and addr 1))
          (goto_except exc_store_misaligned addr) inv (misaligned addr h))
        λ _ _ e1 i1.
          bind-Ensures
            (leave_if-Ensures (i.funct3 == 2 && nonzero (bit_and addr 3))
              (goto_except exc_store_misaligned addr) i1 (misaligned addr h))
            λ _ _ e2 i2. bind-Ensures (translate-Ensures addr acc_store e2 i2 h) λ pa _ e3 i3.
              bind-Ensures
                (store_or_mtimecmp-Ensures i.funct3 addr pa v e3 i3 h (reg_read-lt e i.rs2 inv))
                λ _ _ e4 i4. done-Ensures n i4

  pub exec_store_fp-Ensures : Ensures IsWord (exec_store_fp next i e)
  unfolding exec_store_fp
  exec_store_fp-Ensures =
      bind-Ensures (leave_if-Ensures (not (i.funct3 == 2)) goto_unknown inv tt) λ _ _ e0 i0.
        let addr = add32 (reg_read e0.rf i.rs1) i.imm in
        let h : addr < 2 ^ 32 = omega arith in
        bind-Ensures
          (leave_if-Ensures (nonzero (bit_and addr 3)) (goto_except exc_store_misaligned addr) i0
            (misaligned addr h))
          λ _ _ e1 i1. bind-Ensures (translate-Ensures addr acc_store e1 i1 h) λ pa _ e2 i2.
            bind-Ensures
              (finish_store-Ensures addr pa (some (memory_write32 e2.mem pa (e2.rf.fregs i.rs2))) e2
                i2 h
                (some-Stored (λ m q. write32-IsMemory e2.mem pa (e2.rf.fregs i.rs2) i2.memory q)))
              λ _ _ e3 i3. done-Ensures n i3

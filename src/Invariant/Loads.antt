-- ===== src/Invariant/Loads.antt =====
-- Translation and loads of src/execute.c keep the invariant.
use rv32i_emu.Base.{ℕ, ◌^◌, ◌<◌, arith, not, ◌==◌, ◌&&◌, ◌||◌, nonzero, add32, bit_and}
use rv32i_emu.Base.Bits.{and_low}
use rv32i_emu.Memory.{memory_read8, memory_read16, memory_read32}
use rv32i_emu.RegFile.{reg_read}
use rv32i_emu.Csr.Constants.{exc_load_access, exc_load_misaligned}
use rv32i_emu.Decode.{Inst}
use rv32i_emu.Machine.{Emulator, goto_except, goto_unknown, ◌>>=◌, pure, access}
use rv32i_emu.Mmu.{AccessType, acc_load, Translated, mapped, fault}
use rv32i_emu.Alu.{sext8, sext16}
use rv32i_emu.Execute.Access.{
  translated, translate, load_value, load_or_mtime, exec_load, exec_load_fp,
}
use rv32i_emu.Invariant.State.{
  IsEmulator, Ensures, IsWord, bind-Ensures, branches, done-Ensures, leave-Ensures, access-Ensures,
  leave_if-Ensures, reg_write-IsEmulator, freg_write-IsEmulator,
}
use rv32i_emu.Invariant.Accesses.{memory_read8-lt, memory_read16-lt, memory_read32-lt}
use rv32i_emu.Invariant.Arithmetic.{sext8-lt, sext16-lt}
use rv32i_emu.Invariant.Translation.{TranslatedFits, mmu_translate-Ensures}

translated-Ensures :
    (addr : ℕ) (t : Translated) (e : Emulator)
    → TranslatedFits t
    → IsEmulator e
    → addr < 2 ^ 32
    → Ensures IsWord (translated addr t e)
unfolding translated
translated-Ensures addr (mapped pa) e q i h = done-Ensures q i
translated-Ensures addr (fault cause) e q i h = leave-Ensures (q, h) i

pub translate-Ensures :
    (addr : ℕ) (acc : AccessType) (e : Emulator)
    → IsEmulator e
    → addr < 2 ^ 32
    → Ensures IsWord (translate addr acc e)
unfolding translate
translate-Ensures addr acc e i h =
    bind-Ensures (mmu_translate-Ensures addr acc e i h)
      λ t q e' i'. translated-Ensures addr t e' q i' h

module _ (addr pa : ℕ) (e : Emulator) (i : IsEmulator e) (h : addr < 2 ^ 32) where
  refusal : (exc_load_access < 2 ^ 32) × (addr < 2 ^ 32)
  refusal = (omega arith, h)

  byte :
      Ensures (λ b. b < 256) (access (memory_read8 e.mem pa) (goto_except exc_load_access addr) e)
  byte =
      access-Ensures (memory_read8 e.mem pa) (goto_except exc_load_access addr) i refusal
        (λ v q. memory_read8-lt e.mem pa i.memory q)

  half :
      Ensures
        (λ b. b < 2 ^ 16)
        (access (memory_read16 e.mem pa) (goto_except exc_load_access addr) e)
  half =
      access-Ensures (memory_read16 e.mem pa) (goto_except exc_load_access addr) i refusal
        (λ v q. memory_read16-lt e.mem pa i.memory q)

  pub read_result :
      Ensures IsWord (access (memory_read32 e.mem pa) (goto_except exc_load_access addr) e)
  read_result =
      access-Ensures (memory_read32 e.mem pa) (goto_except exc_load_access addr) i refusal
        (λ v q. memory_read32-lt e.mem pa i.memory q)

  load_value-Ensures : (f3 : ℕ) → Ensures IsWord (load_value f3 addr pa e)
  unfolding load_value
  load_value-Ensures f3 =
      let b : Ensures IsWord (
          (access (memory_read8 e.mem pa) (goto_except exc_load_access addr) >>= λ b.
          pure (sext8 b))
            e) =
        bind-Ensures byte (λ v q e' i'. done-Ensures (sext8-lt v q) i') in
      let hw : Ensures IsWord (
          (access (memory_read16 e.mem pa) (goto_except exc_load_access addr) >>= λ b.
          pure (sext16 b))
            e) =
        bind-Ensures half (λ v q e' i'. done-Ensures (sext16-lt v q) i') in
      let w = read_result in
      let bu : Ensures IsWord
          (access (memory_read8 e.mem pa) (goto_except exc_load_access addr) e) =
        access-Ensures (memory_read8 e.mem pa) (goto_except exc_load_access addr) i refusal
          (λ v q. omega (arith, memory_read8-lt e.mem pa i.memory q)) in
      let hu : Ensures IsWord
          (access (memory_read16 e.mem pa) (goto_except exc_load_access addr) e) =
        access-Ensures (memory_read16 e.mem pa) (goto_except exc_load_access addr) i refusal
          (λ v q. omega (arith, memory_read16-lt e.mem pa i.memory q)) in
      let u : Unit {0} = tt in search branches depth 12

  load_or_mtime-Ensures : (f3 : ℕ) → Ensures IsWord (load_or_mtime f3 addr pa e)
  unfolding load_or_mtime
  load_or_mtime-Ensures f3 =
      let l = load_value-Ensures f3 in
      let m : bit_and e.mtime 0xffff_ffff < 2 ^ 32 = omega (arith, and_low 32 e.mtime) in
      search branches

misaligned : (addr : ℕ) → addr < 2 ^ 32 → (exc_load_misaligned < 2 ^ 32) × (addr < 2 ^ 32)
misaligned addr h = (omega arith, h)

module _ (next : ℕ) (i : Inst) (e : Emulator) (inv : IsEmulator e) (n : next < 2 ^ 32) where
  pub exec_load-Ensures : Ensures IsWord (exec_load next i e)
  unfolding exec_load
  exec_load-Ensures =
      let addr = add32 (reg_read e.rf i.rs1) i.imm in
      let h : addr < 2 ^ 32 = omega arith in
      bind-Ensures
        (leave_if-Ensures ((i.funct3 == 1 || i.funct3 == 5) && nonzero (bit_and addr 1))
          (goto_except exc_load_misaligned addr) inv (misaligned addr h))
        λ _ _ e1 i1.
          bind-Ensures
            (leave_if-Ensures (i.funct3 == 2 && nonzero (bit_and addr 3))
              (goto_except exc_load_misaligned addr) i1 (misaligned addr h))
            λ _ _ e2 i2. bind-Ensures (translate-Ensures addr acc_load e2 i2 h) λ pa _ e3 i3.
              bind-Ensures (load_or_mtime-Ensures addr pa e3 i3 h i.funct3)
                λ r q e4 i4. done-Ensures n (reg_write-IsEmulator e4 i.rd r i4 q)

  pub exec_load_fp-Ensures : Ensures IsWord (exec_load_fp next i e)
  unfolding exec_load_fp
  exec_load_fp-Ensures =
      bind-Ensures (leave_if-Ensures (not (i.funct3 == 2)) goto_unknown inv tt) λ _ _ e0 i0.
        let addr = add32 (reg_read e0.rf i.rs1) i.imm in
        let h : addr < 2 ^ 32 = omega arith in
        bind-Ensures
          (leave_if-Ensures (nonzero (bit_and addr 3)) (goto_except exc_load_misaligned addr) i0
            (misaligned addr h))
          λ _ _ e1 i1. bind-Ensures (translate-Ensures addr acc_load e1 i1 h) λ pa _ e2 i2.
            bind-Ensures (read_result addr pa e2 i2 h)
              λ w q e3 i3. done-Ensures n (freg_write-IsEmulator e3 i.rd w i3 q)

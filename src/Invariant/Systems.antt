-- ===== src/Invariant/Systems.antt =====
-- The SYSTEM instructions of src/execute.c keep the invariant.
use rv32i_emu.Base.{
  ℕ, zero, suc, ◌+◌, ◌^◌, ◌<◌, ◌≤◌, refl, arith, not, Option, some, none, ◌==◌, ◌||◌, nonzero,
  if◌then◌else◌, add32, not32, ltb, ◌∷◌,
}
use rv32i_emu.Base.Bits.{bit_and-lt, bit_or-lt}
use rv32i_emu.Memory.{Memory, Access, ok, refused, out_of_bounds, memory_read8}
use rv32i_emu.Memory.Laws.{IsMemory}
use rv32i_emu.RegFile.{reg_read, reg_write}
use rv32i_emu.Csr.{csr_read, csr_write}
use rv32i_emu.Csr.Constants.{
  exc_illegal_inst, exc_breakpoint, exc_ecall_u, exc_ecall_s, exc_ecall_m, priv_m, priv_s,
}
use rv32i_emu.Decode.{Inst}
use rv32i_emu.Machine.{Emulator, EmuState, halted, exception, with_mem}
use rv32i_emu.Trap.{trap_raise}
use rv32i_emu.Execute.System.{
  exec_mret, exec_sret, exec_sfence, raise_and_return, write_loop, syscall, exec_ecall, exec_ebreak,
  csr_wdata, write_csr, exec_csr, exec_system,
}
use rv32i_emu.Invariant.State.{
  IsEmulator, exception-ne-running, Ensures, IsWord, if-Ensures, branches, done-Ensures,
  leave-Ensures, reg_write-IsEmulator, reg_read-lt, mem-IsEmulator, csr-IsEmulator,
  state-IsEmulator,
}
use rv32i_emu.Invariant.CsrLaws.{csr_read-lt, csr_write-IsCsr}
use rv32i_emu.Invariant.Arithmetic.{ResultFits, results}
use rv32i_emu.Invariant.Traps.{trap_raise-IsEmulator, trap_mret-IsEmulator, trap_sret-IsEmulator}
use rv32i_emu.Invariant.Stores.{either}

refuse : (exc_illegal_inst < 2 ^ 32) × (0 < 2 ^ 32)
refuse = (omega arith, omega arith)

write_loop-IsMemory :
    (left n buf : ℕ) (m : Memory) → IsMemory m → IsMemory (write_loop left n buf m).0
unfolding write_loop
write_loop-IsMemory zero n buf m i = i
write_loop-IsMemory (suc left) n buf m i =
    elim (memory_read8 m (add32 buf n))
      as (λ (r : Access ℕ).
        IsMemory
          (elim r as (λ _. Memory × ℕ) [
            | ok ch ↦ write_loop left (n + 1) buf (record m { console = ch ∷ m.console })
            | refused ↦ (m, n)
            | out_of_bounds ↦ (m, n)
          ]).0) [
            | ok ch ↦
                write_loop-IsMemory left (n + 1) buf (record m { console = ch ∷ m.console })
                  (record { bytes = i.bytes; size_fits = i.size_fits })
            | refused ↦ i
            | out_of_bounds ↦ i
          ]

write_loop_count : (left n buf : ℕ) (m : Memory) → (write_loop left n buf m).1 ≤ n + left
unfolding write_loop
write_loop_count zero n buf m = omega arith
write_loop_count (suc left) n buf m =
    elim (memory_read8 m (add32 buf n))
      as (λ (r : Access ℕ).
        (elim r as (λ _. Memory × ℕ) [
          | ok ch ↦ write_loop left (n + 1) buf (record m { console = ch ∷ m.console })
          | refused ↦ (m, n)
          | out_of_bounds ↦ (m, n)
        ]).1
        ≤ n + suc left) [
          | ok ch ↦
              omega
                (arith, write_loop_count left (n + 1) buf (record m { console = ch ∷ m.console }))
          | refused ↦ omega arith
          | out_of_bounds ↦ omega arith
        ]

csr_wdata-ResultFits :
    (f3 old v u : ℕ) → old < 2 ^ 32 → v < 2 ^ 32 → u < 2 ^ 32 → ResultFits (csr_wdata f3 old v u)
unfolding csr_wdata
csr_wdata-ResultFits f3 old v u ho hv hu =
    let a = bit_or-lt 32 old v ho hv in
    let b = bit_and-lt 32 old (not32 v) ho in
    let c = bit_or-lt 32 old u ho hu in
    let d = bit_and-lt 32 old (not32 u) ho in search results depth 12

module _ (e : Emulator) (inv : IsEmulator e) where
  exec_mret-Ensures : Ensures IsWord (exec_mret e)
  unfolding exec_mret
  exec_mret-Ensures =
      let (a, b) = trap_mret-IsEmulator e inv in
      if-Ensures (not (e.priv == priv_m)) (leave-Ensures refuse inv) (done-Ensures b a)

  exec_sret-Ensures : Ensures IsWord (exec_sret e)
  unfolding exec_sret
  exec_sret-Ensures =
      let (a, b) = trap_sret-IsEmulator e inv in
      if-Ensures (ltb e.priv priv_s) (leave-Ensures refuse inv) (done-Ensures b a)

  raise_and_return-Ensures :
      (cause : ℕ) → cause < 2 ^ 32 → Ensures IsWord (raise_and_return cause e)
  unfolding raise_and_return
  raise_and_return-Ensures cause h =
      let r = trap_raise-IsEmulator e inv cause 0 e.rf.pc h (omega arith) inv.pc_fits in
      if-Ensures (trap_raise cause 0 e.rf.pc e).1 (leave-Ensures tt r) (
        leave-Ensures exception-ne-running
          (state-IsEmulator (trap_raise cause 0 e.rf.pc e).0 r exception))

  stopped : (s : EmuState) (code : ℕ) → IsEmulator (record e { state = s; exit_code = code })
  stopped s code = search

  written :
      (m : Memory) (n : ℕ)
      → IsMemory m
      → n < 2 ^ 32
      → IsEmulator (record e { mem = m; rf = reg_write e.rf 10 n })
  written m n h k = reg_write-IsEmulator (with_mem m e) 10 n (mem-IsEmulator e inv m h) k

  syscall-IsEmulator : (a7 : ℕ) → IsEmulator (syscall a7 e)
  unfolding syscall
  syscall-IsEmulator a7 =
      let a2 = reg_read e.rf 12 in
      let left = (if ltb 8192 a2 then 8192 else a2) in
      let b : left < 2 ^ 32 = ground (arith, reg_read-lt e 12 inv) in
      either (a7 == 0 || a7 == 93) (stopped halted (reg_read e.rf 10)) (
        either (a7 == 64)
          (written (write_loop left 0 (reg_read e.rf 11) e.mem).0
            (write_loop left 0 (reg_read e.rf 11) e.mem).1
            (write_loop-IsMemory left 0 (reg_read e.rf 11) e.mem inv.memory)
            (omega (arith, write_loop_count left 0 (reg_read e.rf 11) e.mem)))
          (state-IsEmulator e inv exception))

  module _ (next : ℕ) (n : next < 2 ^ 32) where
    exec_ecall-Ensures : Ensures IsWord (exec_ecall next e)
    unfolding exec_ecall
    exec_ecall-Ensures =
        let cause =
          (if e.priv == priv_m
            then exc_ecall_m
            else if e.priv == priv_s
            then exc_ecall_s
            else exc_ecall_u) in
        let c : cause < 2 ^ 32 = ground arith in
        if-Ensures (nonzero e.csr.mtvec || nonzero e.csr.stvec) (raise_and_return-Ensures cause c) (
          if-Ensures (not (e.priv == priv_m))
            (leave-Ensures exception-ne-running (state-IsEmulator e inv exception))
            (done-Ensures n (syscall-IsEmulator (reg_read e.rf 17))))

    exec_ebreak-Ensures : Ensures IsWord (exec_ebreak next e)
    unfolding exec_ebreak
    exec_ebreak-Ensures =
        if-Ensures (nonzero e.csr.mtvec) (raise_and_return-Ensures exc_breakpoint (omega arith))
          (done-Ensures n (stopped halted 0))

    exec_sfence-Ensures : Ensures IsWord (exec_sfence next e)
    unfolding exec_sfence
    exec_sfence-Ensures =
        if-Ensures (ltb e.priv priv_s) (leave-Ensures refuse inv) (done-Ensures n inv)

    write_csr-Ensures :
        (i : Inst) (old : ℕ) (o : Option ℕ)
        → old < 2 ^ 32
        → ResultFits o
        → Ensures IsWord (write_csr next i old o e)
    unfolding write_csr
    write_csr-Ensures i old none h f = leave-Ensures tt inv
    write_csr-Ensures i old (some w) h f =
        let c = csr_write e.csr i.imm w in
        let k = csr-IsEmulator e inv c.0 (csr_write-IsCsr e.csr i.imm w inv.csr (f.fits w refl)) in
        if-Ensures (not c.1) (leave-Ensures refuse k) (
          if-Ensures (nonzero i.rd)
            (done-Ensures n (reg_write-IsEmulator (record e { csr = c.0 }) i.rd old k h))
            (done-Ensures n k))

    module _ (i : Inst) (u : i.rs1 < 2 ^ 32) where
      exec_csr-Ensures : Ensures IsWord (exec_csr next i e)
      unfolding exec_csr
      exec_csr-Ensures =
          let old = (csr_read e.csr i.imm).0 in
          let v = reg_read e.rf i.rs1 in
          let ho : old < 2 ^ 32 = csr_read-lt e.csr i.imm inv.csr in
          let w =
            write_csr-Ensures i old (csr_wdata i.funct3 old v i.rs1) ho
              (csr_wdata-ResultFits i.funct3 old v i.rs1 ho (reg_read-lt e i.rs1 inv) u) in
          let r = refuse in search branches depth 10

      pub exec_system-Ensures : Ensures IsWord (exec_system next i e)
      unfolding exec_system
      exec_system-Ensures =
          let m = exec_mret-Ensures in
          let s = exec_sret-Ensures in
          let f = exec_sfence-Ensures in
          let c = exec_ecall-Ensures in
          let b = exec_ebreak-Ensures in let r = exec_csr-Ensures in search branches depth 10

-- ===== src/Execute/System.antt =====
-- src/execute.c: SYSTEM. mret, sret, sfence.vma, ecall, ebreak and the CSR instructions.
use rv32i_emu.Base.{
  ℕ, zero, suc, ◌+◌, true, false, Option, none, some, ◌&&◌, ◌||◌, not, ◌∷◌, ltb, ◌==◌,
  if◌then◌else◌, add32, nonzero, not32, bit_and, bit_or,
}
use rv32i_emu.Memory.{Memory, ok, refused, out_of_bounds, memory_read8}
use rv32i_emu.RegFile.{reg_read, reg_write}
use rv32i_emu.Csr.{csr_read, csr_write, csr_priv_ok, csr_writable}
use rv32i_emu.Csr.Constants.{
  priv_s, priv_m, exc_illegal_inst, exc_breakpoint, exc_ecall_u, exc_ecall_s, exc_ecall_m,
}
use rv32i_emu.Decode.{Inst}
use rv32i_emu.Machine.{
  halted, exception, Emulator, Leave, goto_except, goto_unknown, return, done, leave, Exec, with_rf,
  with_csr, with_state,
}
use rv32i_emu.Trap.{trap_raise, trap_mret, trap_sret}

-- `goto except` with cause 2; mtval is then the instruction.
abbrev pub illegal : Leave
illegal = goto_except exc_illegal_inst 0

unfoldable pub exec_mret : Exec ℕ
exec_mret e =
    if not (e.priv == priv_m)
    then leave illegal e
    else (let (e', next) = trap_mret e in done next e')

unfoldable pub exec_sret : Exec ℕ
exec_sret e =
    if ltb e.priv priv_s then leave illegal e else (let (e', next) = trap_sret e in done next e')

unfoldable pub exec_sfence : ℕ → Exec ℕ
exec_sfence next e = if ltb e.priv priv_s then leave illegal e else done next e

-- A trap from inside the switch: `return true`, or stop with `return false`.
unfoldable pub raise_and_return : ℕ → Exec ℕ
raise_and_return cause e =
    let (e', entered) = trap_raise cause 0 e.rf.pc e in
    if entered then leave (return true) e' else leave (return false) (with_state exception e')

-- The loop of the write call: `left` rounds remain, `i` bytes are out.
unfoldable pub write_loop : ℕ → ℕ → ℕ → Memory → Memory × ℕ
write_loop zero i buf m = (m, i)
write_loop (suc left) i buf m = elim (memory_read8 m (add32 buf i)) [
  | ok ch ↦ write_loop left (i + 1) buf (record m { console = ch ∷ m.console })
  | refused ↦ (m, i)
  | out_of_bounds ↦ (m, i)
]

-- The host system calls: exit, write, and any other.
unfoldable pub syscall : ℕ → Emulator → Emulator
unfolding write_loop
syscall a7 e =
    let a0 = reg_read e.rf 10 in
    let a1 = reg_read e.rf 11 in
    let a2 = reg_read e.rf 12 in
    if a7 == 0 || a7 == 93
    then record e { state = halted; exit_code = a0 }
    else if a7 == 64
    then (let (m, count) = write_loop (if ltb 8192 a2 then 8192 else a2) 0 a1 e.mem in
        record e { mem = m; rf = reg_write e.rf 10 count })
    else with_state exception e

unfoldable pub exec_ecall : ℕ → Exec ℕ
unfolding raise_and_return syscall
exec_ecall next e =
    if nonzero e.csr.mtvec || nonzero e.csr.stvec
    then raise_and_return
        (if e.priv == priv_m
          then exc_ecall_m
          else if e.priv == priv_s
          then exc_ecall_s
          else exc_ecall_u)
        e
    else if not (e.priv == priv_m)
    then leave (return false) (with_state exception e)
    else done next (syscall (reg_read e.rf 17) e)

unfoldable pub exec_ebreak : ℕ → Exec ℕ
unfolding raise_and_return
exec_ebreak next e =
    if nonzero e.csr.mtvec
    then raise_and_return exc_breakpoint e
    else done next (record e { state = halted; exit_code = 0 })

-- The new value of the CSR; `none` is `goto unknown`.
unfoldable pub csr_wdata : ℕ → ℕ → ℕ → ℕ → Option ℕ
csr_wdata funct3 old rs1_val uimm =
    if funct3 == 1
    then some rs1_val
    else if funct3 == 2
    then some (bit_or old rs1_val)
    else if funct3 == 3
    then some (bit_and old (not32 rs1_val))
    else if funct3 == 5
    then some uimm
    else if funct3 == 6
    then some (bit_or old uimm)
    else if funct3 == 7
    then some (bit_and old (not32 uimm))
    else none

unfoldable pub write_csr : ℕ → Inst → ℕ → Option ℕ → Exec ℕ
write_csr next i old none e = leave goto_unknown e
write_csr next i old (some wdata) e =
    let (c, good) = csr_write e.csr i.imm wdata in
    let e' = with_csr (λ _. c) e in
    if not good
    then leave illegal e'
    else if nonzero i.rd
    then done next (with_rf (λ rf. reg_write rf i.rd old) e')
    else done next e'

unfoldable pub exec_csr : ℕ → Inst → Exec ℕ
unfolding csr_wdata write_csr
exec_csr next i e =
    let rs1_val = reg_read e.rf i.rs1 in
    let (old, good) = csr_read e.csr i.imm in
    if not (csr_priv_ok e.priv i.imm)
    then leave illegal e
    else if not (csr_writable i.imm) && (i.funct3 == 1 || i.funct3 == 5 || nonzero rs1_val)
    then leave illegal e
    else if not good
    then leave illegal e
    else write_csr next i old (csr_wdata i.funct3 old rs1_val i.rs1) e

unfoldable pub exec_system : ℕ → Inst → Exec ℕ
unfolding exec_mret exec_sret exec_sfence exec_ecall exec_ebreak exec_csr
exec_system next i e =
    if i.raw == 0x3020_0073
    then exec_mret e
    else if i.raw == 0x1020_0073
    then exec_sret e
    else if bit_and i.raw 0xfe00_7fff == 0x1200_0073
    then exec_sfence next e
    else if i.raw == 0x0000_0073
    then exec_ecall next e
    else if i.raw == 0x0010_0073
    then exec_ebreak next e
    else exec_csr next i e

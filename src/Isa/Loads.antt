-- ===== src/Isa/Loads.antt =====
-- emu_step of src/emu.c on a load.
use rv32i_emu.Base.{
  ℕ, ◌+◌, ◌-◌, ◌%◌, ◌^◌, ◌<◌, ◌≤◌, ◌≡◌, refl, ap, ◌∙◌, arith, true, false, some, ltb, ◌==◌, ◌||◌,
  ◌&&◌, if◌then◌else◌, nonzero, bit_and, add32,
}
use rv32i_emu.Base.Bits.{and_low, and_field, or_below, join_two, join_bytes}
use rv32i_emu.Memory.{Memory, ok, memory_read8, memory_read16, memory_read32}
use rv32i_emu.Memory.Laws.{IsMemory, checked_within}
use rv32i_emu.RegFile.{RegFile}
use rv32i_emu.Csr.Constants.{priv_m, satp_mode_bit, clint_mtime_lo}
use rv32i_emu.Decode.{Inst, get_fmt, decode}
use rv32i_emu.Decode.Encoded.{enc_i_lem}
use rv32i_emu.Decode.RoundTrip.{Carries, IsEncodable, FitsSigned, encode, decode-encode}
use rv32i_emu.Mmu.{acc_load}
use rv32i_emu.Alu.{sext8, sext16}
use rv32i_emu.Machine.{Emulator, done, count_cycle}
use rv32i_emu.Machine.Runs.{bind-done, accessed, other}
use rv32i_emu.Execute.Access.{load_value, load_or_mtime, exec_load}
use rv32i_emu.Execute.Reservation.{translate_bare}
use rv32i_emu.Execute.{inst_length, exec_opcode, execute}
use rv32i_emu.Fpu.Host.{HostFloat}
use rv32i_emu.Trap.{tick, timer_enabled}
use rv32i_emu.Emu.{emu_step}
use rv32i_emu.Invariant.State.{IsEmulator}
use rv32i_emu.Isa.{set_register, set_pc}
use rv32i_emu.Isa.Stepped.{emu_step-execute}
use rv32i_emu.Isa.Executed.{reg_read_lem, reg_write_lem, sequel, concluded}
use rv32i_emu.Isa.Accesses.{
  load_assembly, Load, little_endian, load_width, load_funct3, loaded, IsAccess,
}

sext8_lem : (v : ℕ) → v < 256 → sext8 v ≡ (if ltb v 0x80 then v else v + 2 ^ 32 - 2 ^ 8)
unfolding sext8
sext8_lem v h = ground (arith, and_field 7 1 v, or_below 8 0xff_ffff v)

sext16_lem : (v : ℕ) → v < 2 ^ 16 → sext16 v ≡ (if ltb v 0x8000 then v else v + 2 ^ 32 - 2 ^ 16)
unfolding sext16
sext16_lem v h = ground (arith, and_field 15 1 v, or_below 16 0xffff v)

module _ (m : Memory) (i : IsMemory m) (a : ℕ) where
  read8_bytes : a + 1 ≤ m.size → memory_read8 m a ≡ ok (little_endian m.data_bytes a 1)
  unfolding memory_read8 little_endian
  read8_bytes h = ground arith

  read16_bytes : a + 2 ≤ m.size → memory_read16 m a ≡ ok (little_endian m.data_bytes a 2)
  unfolding memory_read16 little_endian
  read16_bytes h =
      let b0 = m.data_bytes a in
      let b1 = m.data_bytes (a + 1) in
      checked_within m a 2 _ h i.size_fits
      ∙ ap ok
          (omega (arith, join_two b0 b1 (i.bytes a) (i.bytes (a + 1)), i.bytes a, i.bytes (a + 1)))

  read32_bytes : a + 4 ≤ m.size → memory_read32 m a ≡ ok (little_endian m.data_bytes a 4)
  unfolding memory_read32 little_endian
  read32_bytes h =
      let h0 = i.bytes a in
      let h1 = i.bytes (a + 1) in
      let h2 = i.bytes (a + 1 + 1) in
      let h3 = i.bytes (a + 1 + 1 + 1) in
      let b0 = m.data_bytes a in
      let b1 = m.data_bytes (a + 1) in
      let b2 = m.data_bytes (a + 1 + 1) in
      let b3 = m.data_bytes (a + 1 + 1 + 1) in
      let e2 : m.data_bytes (a + 2) ≡ b2 = ap m.data_bytes (omega arith) in
      let e3 : m.data_bytes (a + 3) ≡ b3 = ap m.data_bytes (omega arith) in
      checked_within m a 4 _ h i.size_fits
      ∙ ap ok (rw (e2, e3) (omega (arith, join_bytes b0 b1 b2 b3 h0 h1 h2 h3)))

module _ (e : Emulator) (i : IsMemory e.mem) (a : ℕ) where
  byte : little_endian e.mem.data_bytes a 1 < 256
  unfolding little_endian
  byte = omega (arith, i.bytes a)

  half : little_endian e.mem.data_bytes a 2 < 2 ^ 16
  unfolding little_endian
  half = omega (arith, i.bytes a, i.bytes (a + 1))

  -- LW of the address of mtime aside, which is outside a memory of this size.
  load_or_mtime_lem :
      (k : Load)
      → IsAccess e.mem.size (load_width k) a
      → load_or_mtime (load_funct3 k) a a e ≡ done (loaded k e.mem.data_bytes a) e
  unfolding load_or_mtime load_value loaded
  load_or_mtime_lem Load.lb h =
      bind-done _ (accessed _ (read8_bytes e.mem i a h.within))
        (ap (λ (v : ℕ). done v e) (sext8_lem (little_endian e.mem.data_bytes a 1) byte))
  load_or_mtime_lem Load.lh h =
      bind-done _ (accessed _ (read16_bytes e.mem i a h.within))
        (ap (λ (v : ℕ). done v e) (sext16_lem (little_endian e.mem.data_bytes a 2) half))
  load_or_mtime_lem Load.lw h =
      other (a == clint_mtime_lo) _ _ (ground (arith, h.within, h.small))
      ∙ accessed _ (read32_bytes e.mem i a h.within)
  load_or_mtime_lem Load.lbu h = accessed _ (read8_bytes e.mem i a h.within)
  load_or_mtime_lem Load.lhu h = accessed _ (read16_bytes e.mem i a h.within)

module _ (e : Emulator) (mem : IsMemory e.mem) (i : Inst) (k : Load) (rd rs1 offset : ℕ)
    (small_rd : rd < 32) (small_rs1 : rs1 < 32) (c : Carries (load_assembly k rd rs1 offset) i)
    (bare : (e.priv == priv_m || bit_and e.csr.satp satp_mode_bit == 0) ≡ true)
    (h : IsAccess e.mem.size (load_width k) ((e.rf.regs rs1 + offset) % 2 ^ 32)) where
  half_aligned :
      ((load_funct3 k == 1 || load_funct3 k == 5)
        && nonzero (bit_and ((e.rf.regs rs1 + offset) % 2 ^ 32) 1))
      ≡ false
  half_aligned = ground (arith, h.aligned, and_low 1 ((e.rf.regs rs1 + offset) % 2 ^ 32))

  word_aligned :
      (load_funct3 k == 2 && nonzero (bit_and ((e.rf.regs rs1 + offset) % 2 ^ 32) 3)) ≡ false
  word_aligned = ground (arith, h.aligned, and_low 2 ((e.rf.regs rs1 + offset) % 2 ^ 32))

  exec_load_lem :
      (next : ℕ)
      → exec_load next i e
        ≡ done next (record e {
          rf = set_register rd (loaded k e.mem.data_bytes ((e.rf.regs rs1 + offset) % 2 ^ 32)) e.rf;
        })
  unfolding exec_load
  exec_load_lem next =
      let a = (e.rf.regs rs1 + offset) % 2 ^ 32 in
      rw (exec_load, c.2, c.3, c.4, c.5, reg_read_lem e.rf rs1 small_rs1)
        (bind-done _ (other _ _ _ half_aligned) (
          bind-done _ (other _ _ _ word_aligned) (
            bind-done _ (translate_bare e a acc_load bare) (
              bind-done _ (load_or_mtime_lem e mem a k h) (
                ap (λ (rf : RegFile). done next (record e { rf = rf }))
                  (reg_write_lem e.rf rd (loaded k e.mem.data_bytes a) small_rd))))))

load-IsEncodable :
    (k : Load) (rd rs1 offset : ℕ)
    → rd < 32
    → rs1 < 32
    → FitsSigned 11 offset
    → IsEncodable (load_assembly k rd rs1 offset)
unfolding get_fmt
load-IsEncodable k rd rs1 offset h h' f = (f, h', ground arith, h, omega arith, refl)

opcode_load :
    (host : HostFloat) (i : Inst) (e : Emulator)
    → i.opcode ≡ 0x03
    → exec_opcode host i e ≡ exec_load (add32 e.rf.pc (inst_length i)) i e
unfolding exec_opcode
opcode_load host i e h = rw h refl

-- The registers and pc after a load.
abbrev pub load_effect : Load → ℕ → ℕ → ℕ → Memory → RegFile → RegFile
load_effect k rd rs1 offset m rf =
    set_pc ((rf.pc + 4) % 2 ^ 32)
      (set_register rd (loaded k m.data_bytes ((rf.regs rs1 + offset) % 2 ^ 32)) rf)

module _ (host : HostFloat) (e : Emulator) (words : (n : ℕ) → e.rf.regs n < 2 ^ 32)
    (mem : IsMemory e.mem) (k : Load) (rd rs1 offset : ℕ) (small_rd : rd < 32)
    (small_rs1 : rs1 < 32) (fits : FitsSigned 11 offset)
    (bare : (e.priv == priv_m || bit_and e.csr.satp satp_mode_bit == 0) ≡ true)
    (h : IsAccess e.mem.size (load_width k) ((e.rf.regs rs1 + offset) % 2 ^ 32)) where
  execute_load :
      (i : Inst) × (decode (encode (load_assembly k rd rs1 offset)) ≡ some i)
      × (execute host i e ≡ done true (record e { rf = load_effect k rd rs1 offset e.mem e.rf }))
  execute_load =
      let (i, d, raw, len, c) =
        decode-encode (load_assembly k rd rs1 offset)
          (load-IsEncodable k rd rs1 offset small_rd small_rs1 fits) in
      let v = loaded k e.mem.data_bytes ((e.rf.regs rs1 + offset) % 2 ^ 32) in
      let x : exec_load (add32 e.rf.pc (inst_length i)) i e
          ≡ done ((e.rf.pc + 4) % 2 ^ 32) (record e { rf = set_register rd v e.rf }) =
        rw (sequel i e words len) (
          exec_load_lem e mem i k rd rs1 offset small_rd small_rs1 c bare h
            ((e.rf.pc + 4) % 2 ^ 32)) in
      (i, d, concluded host i e (opcode_load host i e c.1) x)

-- When the word at pc, a multiple of 4 at a physical address, is the encoding of a load, no timer
-- interrupt is due, and the loaded bytes lie in a memory of at most 1 MiB at a multiple of the width,
-- emu_step loads them, the lowest first, LB and LH with their sign: rd and pc change, mcycle and the
-- timer advance, and nothing else changes.
pub emu_step-load_effect :
    (host : HostFloat) (k : Load) (rd rs1 offset : ℕ) (e : Emulator)
    → rd < 32
    → rs1 < 32
    → FitsSigned 11 offset
    → IsEmulator e
    → timer_enabled (tick e) ≡ false
    → (e.priv == priv_m || bit_and e.csr.satp satp_mode_bit == 0) ≡ true
    → e.rf.pc % 4 ≡ 0
    → memory_read32 e.mem e.rf.pc ≡ ok (encode (load_assembly k rd rs1 offset))
    → IsAccess e.mem.size (load_width k) ((e.rf.regs rs1 + offset) % 2 ^ 32)
    → emu_step host e
      ≡ done true (count_cycle (record (tick e) { rf = load_effect k rd rs1 offset e.mem e.rf }))
unfolding tick encode
emu_step-load_effect host k rd rs1 offset e small_rd small_rs1 fits inv quiet bare aligned there h =
    let (i, d, x) =
      execute_load host (tick e) inv.regs_fit inv.memory k rd rs1 offset small_rd small_rs1 fits
        bare h in
    emu_step-execute host e (encode (load_assembly k rd rs1 offset)) inv quiet bare aligned there
      (omega (arith, enc_i_lem offset rs1 (load_funct3 k) rd 0x03)) d x

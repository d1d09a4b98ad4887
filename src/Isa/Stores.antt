-- ===== src/Isa/Stores.antt =====
-- emu_step of src/emu.c on a store.
use rv32i_emu.Base.{
  ℕ, ◌+◌, ◌/◌, ◌%◌, ◌^◌, ◌<◌, ◌≡◌, refl, ap, ◌∙◌, arith, true, false, some, leb, ◌==◌, ◌||◌, ◌&&◌,
  if◌then◌else◌, nonzero, bit_and, u8, u16, ◌>>>◌, add32, update,
}
use mathlib.Core.Path.{fun_ext}
use rv32i_emu.Base.Bits.{and_low, low_byte}
use rv32i_emu.Memory.{
  Memory, ok, csr_mmio_uart, memory_read32, memory_write8, memory_write16, memory_write32,
  store_word,
}
use rv32i_emu.Memory.Laws.{IsMemory, checked_within, store_word_at}
use rv32i_emu.Csr.Constants.{priv_m, satp_mode_bit, clint_mtimecmp_lo}
use rv32i_emu.Decode.{Inst, get_fmt, decode}
use rv32i_emu.Decode.Encoded.{enc_s_lem}
use rv32i_emu.Decode.RoundTrip.{Carries, IsEncodable, FitsSigned, encode, decode-encode}
use rv32i_emu.Mmu.{acc_store}
use rv32i_emu.Machine.{Emulator, done, count_cycle, with_mem, with_pc}
use rv32i_emu.Machine.Runs.{bind-done, other}
use rv32i_emu.Execute.{inst_length, exec_opcode, execute}
use rv32i_emu.Execute.Access.{
  store_value, break_reservation, finish_store, store_or_mtimecmp, exec_store,
}
use rv32i_emu.Execute.Reservation.{translate_bare}
use rv32i_emu.Fpu.Host.{HostFloat}
use rv32i_emu.Trap.{tick, timer_enabled}
use rv32i_emu.Emu.{emu_step}
use rv32i_emu.Invariant.State.{IsEmulator}
use rv32i_emu.Isa.Stepped.{emu_step-execute}
use rv32i_emu.Isa.Executed.{reg_read_lem, sequel, concluded}
use rv32i_emu.Isa.Accesses.{Store, store_assembly, store_width, store_funct3, stored, IsAccess}

module _ (m : Memory) (i : IsMemory m) (a v : ℕ) where
  half_bytes :
      (j : ℕ)
      → update
          (update m.data_bytes a (u8 (bit_and (u16 (bit_and v 0xffff)) 0xff)))
          (a + 1)
          (u8 (bit_and (u16 (bit_and v 0xffff) >>> 8) 0xff))
          j
        ≡ stored m.data_bytes a 2 v j
  unfolding stored
  half_bytes j =
      let w = u16 (bit_and v 0xffff) in
      ground (arith, and_low 16 v, low_byte w, low_byte (w / 2 ^ 8))

  word_bytes : (j : ℕ) → store_word m.data_bytes a v j ≡ stored m.data_bytes a 4 v j
  unfolding stored
  word_bytes j = ground (arith, store_word_at m.data_bytes a v j)

  store_value_lem :
      (k : Store)
      → IsAccess m.size (store_width k) a
      → store_value (store_funct3 k) a v m
        ≡ some (ok (record m { data_bytes = stored m.data_bytes a (store_width k) v }))
  unfolding store_value memory_write8 memory_write16 memory_write32 stored
  store_value_lem Store.sb h = ap some (
      other (a == csr_mmio_uart) _ _ (ground (arith, h.within, h.small))
      ∙ other (leb m.size a) _ _ (ground (arith, h.within))
      ∙ ap (λ (d : ℕ → ℕ). ok (record m { data_bytes = d }))
          (ap (update m.data_bytes a) (omega (arith, low_byte v))))
  store_value_lem Store.sh h = ap some (
      checked_within m a 2 _ h.within i.size_fits
      ∙ ap (λ (d : ℕ → ℕ). ok (record m { data_bytes = d })) (fun_ext half_bytes))
  store_value_lem Store.sw h = ap some (
      checked_within m a 4 _ h.within i.size_fits
      ∙ ap (λ (d : ℕ → ℕ). ok (record m { data_bytes = d })) (fun_ext word_bytes))

break_lem :
    (a : ℕ) (e : Emulator)
    → break_reservation a e
      ≡ record e { reservation_valid = if e.reservation_addr == a then 0 else e.reservation_valid }
unfolding break_reservation
break_lem a e = ground arith

-- The state after a store, but for pc: the bytes, and the end of a reservation of the address.
abbrev pub store_effect : Store → ℕ → ℕ → Emulator → Emulator
store_effect k a v e = record e {
  mem = record e.mem { data_bytes = stored e.mem.data_bytes a (store_width k) v };
  reservation_valid = if e.reservation_addr == a then 0 else e.reservation_valid;
}

module _ (e : Emulator) (mem : IsMemory e.mem) (i : Inst) (k : Store) (rs1 rs2 offset : ℕ)
    (small_rs1 : rs1 < 32) (small_rs2 : rs2 < 32) (c : Carries (store_assembly k rs1 rs2 offset) i)
    (bare : (e.priv == priv_m || bit_and e.csr.satp satp_mode_bit == 0) ≡ true)
    (h : IsAccess e.mem.size (store_width k) ((e.rf.regs rs1 + offset) % 2 ^ 32)) where
  half_aligned :
      (store_funct3 k == 1 && nonzero (bit_and ((e.rf.regs rs1 + offset) % 2 ^ 32) 1)) ≡ false
  half_aligned = ground (arith, h.aligned, and_low 1 ((e.rf.regs rs1 + offset) % 2 ^ 32))

  word_aligned :
      (store_funct3 k == 2 && nonzero (bit_and ((e.rf.regs rs1 + offset) % 2 ^ 32) 3)) ≡ false
  word_aligned = ground (arith, h.aligned, and_low 2 ((e.rf.regs rs1 + offset) % 2 ^ 32))

  not_mtimecmp :
      (store_funct3 k == 2 && (e.rf.regs rs1 + offset) % 2 ^ 32 == clint_mtimecmp_lo) ≡ false
  not_mtimecmp = ground (arith, h.within, h.small)

  written :
      store_or_mtimecmp
        (store_funct3 k)
        ((e.rf.regs rs1 + offset) % 2 ^ 32)
        ((e.rf.regs rs1 + offset) % 2 ^ 32)
        (e.rf.regs rs2)
        e
      ≡ done tt (store_effect k ((e.rf.regs rs1 + offset) % 2 ^ 32) (e.rf.regs rs2) e)
  unfolding store_or_mtimecmp finish_store
  written =
      let a = (e.rf.regs rs1 + offset) % 2 ^ 32 in
      other _ _ _ not_mtimecmp
      ∙ rw (store_value_lem e.mem mem a (e.rf.regs rs2) k h) (
          ap (done tt) (
            break_lem a (
              with_mem
                (record e.mem {
                  data_bytes = stored e.mem.data_bytes a (store_width k) (e.rf.regs rs2);
                })
                e)))

  exec_store_lem :
      (next : ℕ)
      → exec_store next i e
        ≡ done next (store_effect k ((e.rf.regs rs1 + offset) % 2 ^ 32) (e.rf.regs rs2) e)
  unfolding exec_store
  exec_store_lem next =
      let a = (e.rf.regs rs1 + offset) % 2 ^ 32 in
      rw
        (
          exec_store,
          c.2,
          c.3,
          c.4,
          c.5,
          reg_read_lem e.rf rs1 small_rs1,
          reg_read_lem e.rf rs2 small_rs2,
        )
        (bind-done _ (other _ _ _ half_aligned) (
          bind-done _ (other _ _ _ word_aligned)
            (bind-done _ (translate_bare e a acc_store bare) (bind-done _ written refl))))

store-IsEncodable :
    (k : Store) (rs1 rs2 offset : ℕ)
    → rs1 < 32
    → rs2 < 32
    → FitsSigned 11 offset
    → IsEncodable (store_assembly k rs1 rs2 offset)
unfolding get_fmt
store-IsEncodable k rs1 rs2 offset h h' f = (f, h', h, ground arith, omega arith, refl)

opcode_store :
    (host : HostFloat) (i : Inst) (e : Emulator)
    → i.opcode ≡ 0x23
    → exec_opcode host i e ≡ exec_store (add32 e.rf.pc (inst_length i)) i e
unfolding exec_opcode
opcode_store host i e h = rw h refl

module _ (host : HostFloat) (e : Emulator) (words : (n : ℕ) → e.rf.regs n < 2 ^ 32)
    (mem : IsMemory e.mem) (k : Store) (rs1 rs2 offset : ℕ) (small_rs1 : rs1 < 32)
    (small_rs2 : rs2 < 32) (fits : FitsSigned 11 offset)
    (bare : (e.priv == priv_m || bit_and e.csr.satp satp_mode_bit == 0) ≡ true)
    (h : IsAccess e.mem.size (store_width k) ((e.rf.regs rs1 + offset) % 2 ^ 32)) where
  execute_store :
      (i : Inst) × (decode (encode (store_assembly k rs1 rs2 offset)) ≡ some i)
      × (execute host i e
          ≡ done true (
              with_pc
                ((e.rf.pc + 4) % 2 ^ 32)
                (store_effect k ((e.rf.regs rs1 + offset) % 2 ^ 32) (e.rf.regs rs2) e)))
  execute_store =
      let (i, d, raw, len, c) =
        decode-encode (store_assembly k rs1 rs2 offset)
          (store-IsEncodable k rs1 rs2 offset small_rs1 small_rs2 fits) in
      let x : exec_store (add32 e.rf.pc (inst_length i)) i e
          ≡ done ((e.rf.pc + 4) % 2 ^ 32)
              (store_effect k ((e.rf.regs rs1 + offset) % 2 ^ 32) (e.rf.regs rs2) e) =
        rw (sequel i e words len) (
          exec_store_lem e mem i k rs1 rs2 offset small_rs1 small_rs2 c bare h
            ((e.rf.pc + 4) % 2 ^ 32)) in
      (i, d, concluded host i e (opcode_store host i e c.1) x)

-- When the word at pc, a multiple of 4 at a physical address, is the encoding of a store, no timer
-- interrupt is due, and the bytes to write lie in a memory of at most 1 MiB at a multiple of the width,
-- emu_step writes the lowest bytes of rs2 there, the lowest first. A reservation of the address ends, pc,
-- mcycle and the timer advance, and nothing else changes.
pub emu_step-store_effect :
    (host : HostFloat) (k : Store) (rs1 rs2 offset : ℕ) (e : Emulator)
    → rs1 < 32
    → rs2 < 32
    → FitsSigned 11 offset
    → IsEmulator e
    → timer_enabled (tick e) ≡ false
    → (e.priv == priv_m || bit_and e.csr.satp satp_mode_bit == 0) ≡ true
    → e.rf.pc % 4 ≡ 0
    → memory_read32 e.mem e.rf.pc ≡ ok (encode (store_assembly k rs1 rs2 offset))
    → IsAccess e.mem.size (store_width k) ((e.rf.regs rs1 + offset) % 2 ^ 32)
    → emu_step host e
      ≡ done true (
          count_cycle (
            with_pc
              ((e.rf.pc + 4) % 2 ^ 32)
              (store_effect k ((e.rf.regs rs1 + offset) % 2 ^ 32) (e.rf.regs rs2) (tick e))))
unfolding tick encode
emu_step-store_effect host k rs1 rs2 offset e s1 s2 fits inv quiet bare aligned there h =
    let (i, d, x) =
      execute_store host (tick e) inv.regs_fit inv.memory k rs1 rs2 offset s1 s2 fits bare h in
    emu_step-execute host e (encode (store_assembly k rs1 rs2 offset)) inv quiet bare aligned there
      (omega (arith, enc_s_lem offset rs2 rs1 (store_funct3 k) 0x23)) d x

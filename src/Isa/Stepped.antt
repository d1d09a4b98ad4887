-- ===== src/Isa/Stepped.antt =====
-- emu_step of src/emu.c on the instructions of the specification: the fetch of a word at a multiple
-- of 4, decode() and execute().
use rv32i_emu.Base.{
  ℕ, ◌+◌, ◌%◌, ◌^◌, ◌≡◌, refl, ap, ◌∙◌, arith, Bool, true, false, not, some, leb, ◌==◌, ◌||◌,
  nonzero, bit_and, bit_or, ◌<<<◌,
}
use rv32i_emu.Base.Bits.{and_low, join_bytes, join_two}
use rv32i_emu.Memory.{Memory, Access, ok, memory_read16, memory_read32}
use rv32i_emu.Memory.Laws.{IsMemory, checked_ok, checked_within}
use rv32i_emu.Csr.Constants.{priv_m, satp_mode_bit}
use rv32i_emu.Decode.{Inst, decode}
use rv32i_emu.Decode.Encoded.{enc_r_lem, enc_i_lem, enc_b_lem, enc_u_lem, enc_j_lem}
use rv32i_emu.Decode.RoundTrip.{encode}
use rv32i_emu.Machine.{Emulator, done, Exec, count_cycle}
use rv32i_emu.Machine.Runs.{bind-done, chosen, other}
use rv32i_emu.Mmu.{acc_fetch}
use rv32i_emu.Mmu.Bare.{mapped_bare}
use rv32i_emu.Fpu.Host.{HostFloat}
use rv32i_emu.Trap.{tick, timer_enabled, trap_check_interrupt}
use rv32i_emu.Execute.{execute}
use rv32i_emu.Emu.{fetched, fetch_wide, fetch_at, fetch, decoded, counted, instruction, emu_step}
use rv32i_emu.Invariant.State.{IsEmulator}
use rv32i_emu.Isa.{
  Instruction, register, multiply, immediate, multiplication_funct3, lui, auipc, jal, jalr, branch,
  assembly, operation_funct3, operation_funct7, condition_funct3, immediate_field, IsInstruction,
  effect,
}
use rv32i_emu.Isa.Executed.{execute-effect}

-- The low halfword of a word in memory is there as well, and ends in the same two bits.
low_half :
    (m : Memory) (addr w : ℕ)
    → IsMemory m
    → memory_read32 m addr ≡ ok w
    → (h : ℕ) × (memory_read16 m addr ≡ ok h) × (h % 4 ≡ w % 4)
unfolding memory_read32 memory_read16
low_half m addr w i e =
    let b0 = m.data_bytes addr in
    let b1 = m.data_bytes (addr + 1) in
    let b2 = m.data_bytes (addr + 2) in
    let b3 = m.data_bytes (addr + 3) in
    let h0 = i.bytes addr in
    let h1 = i.bytes (addr + 1) in
    let h2 = i.bytes (addr + 2) in
    let h3 = i.bytes (addr + 3) in
    let (fits, same) =
      checked_ok m addr 4 (bit_or (bit_or (bit_or b0 (b1 <<< 8)) (b2 <<< 16)) (b3 <<< 24)) e in
    (
      bit_or b0 (b1 <<< 8) % 2 ^ 16,
      checked_within m addr 2 _ (omega arith) i.size_fits,
      omega (arith, same, join_two b0 b1 h0 h1, join_bytes b0 b1 b2 b3 h0 h1 h2 h3),
    )

fetched_ok :
    {A : Type 0} {r : Access A} {a : A} (pc : ℕ) (e : Emulator)
    → r ≡ ok a
    → fetched pc r e ≡ done a e
unfolding fetched
fetched_ok pc e h = rw h refl

module _ (e : Emulator) (pc w : ℕ) (i : IsMemory e.mem) (aligned : pc % 4 ≡ 0) (wide : w % 4 ≡ 3)
    (r : memory_read32 e.mem pc ≡ ok w) where
  fetch_wide_word : (lo : ℕ) → fetch_wide pc pc lo e ≡ done w e
  unfolding fetch_wide
  fetch_wide_word lo =
      chosen (leb (bit_and pc 0xfff) 0xffc) _ _ (ground (arith, and_low 12 pc)) ∙ fetched_ok pc e r

  fetch_at_word : fetch_at pc pc e ≡ done (w, false) e
  unfolding fetch_at
  fetch_at_word =
      let (lo, half, same) = low_half e.mem pc w i r in
      bind-done _ (fetched_ok pc e half) (
        ap (λ (x : Exec (ℕ × Bool)). x e)
          (other (not (bit_and lo 3 == 3)) _ _ (ground (arith, and_low 2 lo)))
        ∙ bind-done _ (fetch_wide_word lo) refl)

  -- A word that ends in 11 at a multiple of 4 is fetched whole.
  pub fetch_word :
      (e.priv == priv_m || bit_and e.csr.satp satp_mode_bit == 0) ≡ true
      → fetch pc e ≡ done (w, false) e
  unfolding fetch
  fetch_word bare =
      other (nonzero (bit_and pc 1)) _ _ (ground (arith, and_low 1 pc))
      ∙ bind-done _ (mapped_bare e pc acc_fetch bare) fetch_at_word

-- The encodings of the specification end in 11.
wide_encoding : (ins : Instruction) → encode (assembly ins) % 4 ≡ 3
unfolding encode assembly
wide_encoding (register op rd rs1 rs2) =
    omega (arith, enc_r_lem (operation_funct7 op) rs2 rs1 (operation_funct3 op) rd 0x33)
wide_encoding (immediate op rd rs1 imm) =
    omega (arith, enc_i_lem (immediate_field op imm) rs1 (operation_funct3 op) rd 0x13)
wide_encoding (multiply op rd rs1 rs2) =
    omega (arith, enc_r_lem 0x01 rs2 rs1 (multiplication_funct3 op) rd 0x33)
wide_encoding (lui rd imm) = omega (arith, enc_u_lem imm rd 0x37)
wide_encoding (auipc rd imm) = omega (arith, enc_u_lem imm rd 0x17)
wide_encoding (jal rd offset) = omega (arith, enc_j_lem offset rd 0x6f)
wide_encoding (jalr rd rs1 offset) = omega (arith, enc_i_lem offset rs1 0 rd 0x67)
wide_encoding (branch c rs1 rs2 offset) =
    omega (arith, enc_b_lem offset rs2 rs1 (condition_funct3 c) 0x63)

decoded_word :
    (pc w : ℕ) (e : Emulator) {i : Inst} → decode w ≡ some i → decoded pc (w, false) e ≡ done i e
unfolding decoded
decoded_word pc w e d = rw (decoded, d) refl

-- An instruction word at pc, a multiple of 4 at a physical address, when no timer interrupt is due: a
-- step is its execution.
pub emu_step-execute :
    (host : HostFloat) (e : Emulator) (w : ℕ) {i : Inst} {e' : Emulator}
    → IsEmulator e
    → timer_enabled (tick e) ≡ false
    → (e.priv == priv_m || bit_and e.csr.satp satp_mode_bit == 0) ≡ true
    → e.rf.pc % 4 ≡ 0
    → memory_read32 e.mem e.rf.pc ≡ ok w
    → w % 4 ≡ 3
    → decode w ≡ some i
    → execute host i (tick e) ≡ done true e'
    → emu_step host e ≡ done true (count_cycle e')
unfolding emu_step trap_check_interrupt tick instruction counted
emu_step-execute host e w inv quiet bare aligned there wide d x =
    let q : trap_check_interrupt e.rf.pc e ≡ (tick e, false) =
      other (timer_enabled (tick e)) _ _ quiet in
    let r : instruction host e.rf.pc (tick e) ≡ done true (count_cycle _) =
      bind-done _ (fetch_word (tick e) e.rf.pc w inv.memory aligned wide there bare)
        (bind-done _ (decoded_word e.rf.pc w (tick e) d) (bind-done _ x refl)) in
    rw (q, r) refl

-- When the word at pc, a multiple of 4 at a physical address, is the encoding of a computing
-- instruction, a jump or a branch of RV32I, or of an instruction of RV32M, and no timer interrupt is
-- due, emu_step executes it: the registers and pc become what the specification says, mcycle and the
-- timer advance, and nothing else changes.
pub emu_step-effect :
    (host : HostFloat) (ins : Instruction) (e : Emulator)
    → IsInstruction ins
    → IsEmulator e
    → timer_enabled (tick e) ≡ false
    → (e.priv == priv_m || bit_and e.csr.satp satp_mode_bit == 0) ≡ true
    → e.rf.pc % 4 ≡ 0
    → memory_read32 e.mem e.rf.pc ≡ ok (encode (assembly ins))
    → emu_step host e ≡ done true (count_cycle (record (tick e) { rf = effect ins e.rf }))
unfolding tick
emu_step-effect host ins e h inv quiet bare aligned there =
    let (i, d, len, x) = execute-effect host ins (tick e) inv.regs_fit h in
    emu_step-execute host e (encode (assembly ins)) inv quiet bare aligned there (wide_encoding ins)
      d x

-- ===== src/Isa/Executed.antt =====
-- decode() and execute() of src/decode.c and src/execute.c on the instructions of the specification.
use rv32i_emu.Base.{
  ℕ, ◌+◌, ◌*◌, ◌/◌, ◌%◌, ◌^◌, ◌<◌, ◌≡◌, refl, ◌∙◌, arith, true, false, some, ◌==◌, if◌then◌else◌,
  add32, not32, bit_and,
}
use rv32i_emu.Base.Bits.{and_field}
use rv32i_emu.RegFile.{RegFile, reg_read, reg_write}
use rv32i_emu.Decode.{
  Format, Inst, fmt_r, fmt_i, fmt_s, fmt_b, fmt_u, fmt_j, fmt_unknown, get_fmt, get_opcode,
  get_funct7, fields, decode_as, decode,
}
use rv32i_emu.Decode.Encode.{enc_i}
use rv32i_emu.Decode.Encoded.{enc_i_lem}
use rv32i_emu.Decode.Fields.{get_funct7_lem}
use rv32i_emu.Decode.RoundTrip.{encode, IsEncodable, FitsSigned, Carries, decode-encode}
use rv32i_emu.Machine.{Emulator, Run, done, with_pc}
use rv32i_emu.Alu.{branch_taken}
use rv32i_emu.Fpu.Host.{HostFloat}
use rv32i_emu.Execute.{
  inst_length, finish_alu, exec_alu, exec_alui, exec_branch, exec_jal, exec_jalr, exec_lui,
  exec_auipc, exec_opcode, conclude, execute,
}
use rv32i_emu.Isa.{
  Operation, Multiplication, Condition, Instruction, register, multiply, immediate,
  multiplication_funct3, multiplied, lui, auipc, jal, jalr, branch, assembly, operation_funct3,
  operation_funct7, condition_funct3, immediate_field, FitsImmediate, IsInstruction, result, holds,
  set_register, effect,
}
use rv32i_emu.Isa.Products.{muldiv_result_lem}
use rv32i_emu.Isa.Results.{alu_result_lem, alui_result_lem, branch_taken_lem}

immediate_field-FitsSigned :
    (op : Operation) (imm : ℕ) → FitsImmediate op imm → FitsSigned 11 (immediate_field op imm)
immediate_field-FitsSigned Operation.add imm h = h
immediate_field-FitsSigned Operation.sub imm h = absurd h
immediate_field-FitsSigned Operation.sll imm h = ground arith
immediate_field-FitsSigned Operation.slt imm h = h
immediate_field-FitsSigned Operation.sltu imm h = h
immediate_field-FitsSigned Operation.xor imm h = h
immediate_field-FitsSigned Operation.srl imm h = ground arith
immediate_field-FitsSigned Operation.sra imm h = ground arith
immediate_field-FitsSigned Operation.or imm h = h
immediate_field-FitsSigned Operation.and imm h = h

funct3-lt : (op : Operation) → operation_funct3 op < 8
funct3-lt op = ground arith

funct7-lt : (op : Operation) → operation_funct7 op < 128
funct7-lt op = ground arith

multiplication-lt : (op : Multiplication) → multiplication_funct3 op < 8
multiplication-lt op = ground arith

condition-lt : (c : Condition) → condition_funct3 c < 8
condition-lt c = ground arith

pub assembly-IsEncodable : (ins : Instruction) → IsInstruction ins → IsEncodable (assembly ins)
unfolding assembly get_fmt
assembly-IsEncodable (register op rd rs1 rs2) h =
    (funct7-lt op, h.2, h.1, funct3-lt op, h.0, omega arith, refl)
assembly-IsEncodable (multiply op rd rs1 rs2) h =
    (omega arith, h.2, h.1, multiplication-lt op, h.0, omega arith, refl)
assembly-IsEncodable (immediate op rd rs1 imm) h =
    (immediate_field-FitsSigned op imm h.2, h.1, funct3-lt op, h.0, omega arith, refl)
assembly-IsEncodable (lui rd imm) h = (h.1, h.2, h.0, omega arith, refl)
assembly-IsEncodable (auipc rd imm) h = (h.1, h.2, h.0, omega arith, refl)
assembly-IsEncodable (jal rd offset) h = (h.1, h.2, h.0, omega arith, refl)
assembly-IsEncodable (jalr rd rs1 offset) h = (h.2, h.1, omega arith, h.0, omega arith, refl)
assembly-IsEncodable (branch c rs1 rs2 offset) h =
    (h.2, h.3, h.1, h.0, condition-lt c, omega arith, refl)

pub reg_write_lem : (rf : RegFile) (rd v : ℕ) → rd < 32 → reg_write rf rd v ≡ set_register rd v rf
unfolding reg_write
reg_write_lem rf rd v h = ground arith

pub reg_read_lem : (rf : RegFile) (n : ℕ) → n < 32 → reg_read rf n ≡ rf.regs n
unfolding reg_read
reg_read_lem rf n h = ground arith

-- x & ~1
clear_bit0 : (x : ℕ) → x < 2 ^ 32 → bit_and x (not32 1) ≡ x / 2 * 2
clear_bit0 x h = ground (arith, and_field 1 31 x)

not_muldiv : (op : Operation) → (operation_funct7 op == 0x01) ≡ false
not_muldiv op = ground arith

module _ (i : Inst) (e : Emulator) (words : (n : ℕ) → e.rf.regs n < 2 ^ 32) (len : i.len ≡ 4) where
  pub sequel : add32 e.rf.pc (inst_length i) ≡ (e.rf.pc + 4) % 2 ^ 32
  unfolding inst_length
  sequel = ground (arith, len)

  finish_alu_lem :
      (rd v : ℕ)
      → rd < 32
      → i.rd ≡ rd
      → finish_alu i (some v) e
        ≡ done ((e.rf.pc + 4) % 2 ^ 32) (record e { rf = set_register rd v e.rf })
  unfolding finish_alu
  finish_alu_lem rd v h d = ground (arith, sequel, reg_write_lem e.rf rd v h)

  exec_alu_lem :
      (op : Operation) (rd rs1 rs2 : ℕ)
      → IsInstruction (register op rd rs1 rs2)
      → Carries (assembly (register op rd rs1 rs2)) i
      → exec_alu i e
        ≡ done
            ((e.rf.pc + 4) % 2 ^ 32)
            (record e { rf = set_register rd (result op (e.rf.regs rs1) (e.rf.regs rs2)) e.rf })
  unfolding exec_alu assembly
  exec_alu_lem op rd rs1 rs2 h c =
      rw
        (
          exec_alu,
          c.2,
          c.5,
          c.3,
          c.4,
          not_muldiv op,
          reg_read_lem e.rf rs1 h.1,
          reg_read_lem e.rf rs2 h.2,
          alu_result_lem op (e.rf.regs rs1) (e.rf.regs rs2) (words rs1) (words rs2),
        )
        (finish_alu_lem rd (result op (e.rf.regs rs1) (e.rf.regs rs2)) h.0 c.6)

  exec_multiply_lem :
      (op : Multiplication) (rd rs1 rs2 : ℕ)
      → IsInstruction (multiply op rd rs1 rs2)
      → Carries (assembly (multiply op rd rs1 rs2)) i
      → exec_alu i e
        ≡ done
            ((e.rf.pc + 4) % 2 ^ 32)
            (record e { rf = set_register rd (multiplied op (e.rf.regs rs1) (e.rf.regs rs2)) e.rf })
  unfolding exec_alu assembly
  exec_multiply_lem op rd rs1 rs2 h c =
      rw
        (
          exec_alu,
          c.2,
          c.5,
          c.3,
          c.4,
          reg_read_lem e.rf rs1 h.1,
          reg_read_lem e.rf rs2 h.2,
          muldiv_result_lem op (e.rf.regs rs1) (e.rf.regs rs2) (words rs1) (words rs2),
        )
        (finish_alu_lem rd (multiplied op (e.rf.regs rs1) (e.rf.regs rs2)) h.0 c.6)

  exec_branch_lem :
      (c : Condition) (rs1 rs2 offset : ℕ)
      → IsInstruction (branch c rs1 rs2 offset)
      → Carries (assembly (branch c rs1 rs2 offset)) i
      → exec_branch i e
        ≡ done
            (if holds c (e.rf.regs rs1) (e.rf.regs rs2)
              then (e.rf.pc + offset) % 2 ^ 32
              else (e.rf.pc + 4) % 2 ^ 32)
            e
  unfolding exec_branch assembly
  exec_branch_lem c rs1 rs2 offset h k =
      let t : branch_taken i.funct3 (reg_read e.rf i.rs1) (reg_read e.rf i.rs2)
          ≡ some (holds c (e.rf.regs rs1) (e.rf.regs rs2)) =
        rw (k.3, k.4, k.5, reg_read_lem e.rf rs1 h.0, reg_read_lem e.rf rs2 h.1)
          (branch_taken_lem c (e.rf.regs rs1) (e.rf.regs rs2) (words rs1) (words rs2)) in
      let imm : i.imm ≡ offset = k.2 in rw (exec_branch, t) (ground (arith, sequel, imm))

  exec_alui_lem :
      (op : Operation) (rd rs1 imm : ℕ)
      → IsInstruction (immediate op rd rs1 imm)
      → Carries (assembly (immediate op rd rs1 imm)) i
      → i.funct7 ≡ immediate_field op imm % 2 ^ 12 / 2 ^ 5
      → exec_alui i e
        ≡ done
            ((e.rf.pc + 4) % 2 ^ 32)
            (record e { rf = set_register rd (result op (e.rf.regs rs1) imm) e.rf })
  unfolding exec_alui assembly
  exec_alui_lem op rd rs1 imm h c f =
      rw
        (
          exec_alui,
          f,
          c.2,
          c.3,
          c.4,
          reg_read_lem e.rf rs1 h.1,
          alui_result_lem op (e.rf.regs rs1) imm (words rs1) h.2,
        )
        (finish_alu_lem rd (result op (e.rf.regs rs1) imm) h.0 c.5)

  exec_lui_lem :
      (rd imm : ℕ)
      → IsInstruction (lui rd imm)
      → Carries (assembly (lui rd imm)) i
      → exec_lui i e ≡ done ((e.rf.pc + 4) % 2 ^ 32) (record e { rf = set_register rd imm e.rf })
  unfolding exec_lui assembly
  exec_lui_lem rd imm h c = rw (exec_lui, c.2, c.3, reg_write_lem e.rf rd imm h.0, sequel) refl

  exec_auipc_lem :
      (rd imm : ℕ)
      → IsInstruction (auipc rd imm)
      → Carries (assembly (auipc rd imm)) i
      → exec_auipc i e
        ≡ done
            ((e.rf.pc + 4) % 2 ^ 32)
            (record e { rf = set_register rd ((e.rf.pc + imm) % 2 ^ 32) e.rf })
  unfolding exec_auipc assembly
  exec_auipc_lem rd imm h c =
      rw (exec_auipc, c.2, c.3, reg_write_lem e.rf rd ((e.rf.pc + imm) % 2 ^ 32) h.0, sequel) refl

  exec_jal_lem :
      (rd offset : ℕ)
      → IsInstruction (jal rd offset)
      → Carries (assembly (jal rd offset)) i
      → exec_jal i e
        ≡ done
            ((e.rf.pc + offset) % 2 ^ 32)
            (record e { rf = set_register rd ((e.rf.pc + 4) % 2 ^ 32) e.rf })
  unfolding exec_jal assembly
  exec_jal_lem rd offset h c =
      rw (exec_jal, c.2, c.3, sequel, reg_write_lem e.rf rd ((e.rf.pc + 4) % 2 ^ 32) h.0) refl

  exec_jalr_lem :
      (rd rs1 offset : ℕ)
      → IsInstruction (jalr rd rs1 offset)
      → Carries (assembly (jalr rd rs1 offset)) i
      → exec_jalr i e
        ≡ done
            ((e.rf.regs rs1 + offset) % 2 ^ 32 / 2 * 2)
            (record e { rf = set_register rd ((e.rf.pc + 4) % 2 ^ 32) e.rf })
  unfolding exec_jalr assembly
  exec_jalr_lem rd rs1 offset h c =
      rw
        (
          exec_jalr,
          c.2,
          c.3,
          c.5,
          sequel,
          reg_write_lem e.rf rd ((e.rf.pc + 4) % 2 ^ 32) h.0,
          reg_read_lem e.rf rs1 h.1,
          clear_bit0 ((e.rf.regs rs1 + offset) % 2 ^ 32) (omega arith),
        )
        refl

module _ (host : HostFloat) (i : Inst) (e : Emulator) where
  opcode_alu : i.opcode ≡ 0x33 → exec_opcode host i e ≡ exec_alu i e
  unfolding exec_opcode
  opcode_alu h = rw h refl

  opcode_alui : i.opcode ≡ 0x13 → exec_opcode host i e ≡ exec_alui i e
  unfolding exec_opcode
  opcode_alui h = rw h refl

  opcode_branch : i.opcode ≡ 0x63 → exec_opcode host i e ≡ exec_branch i e
  unfolding exec_opcode
  opcode_branch h = rw h refl

  opcode_jal : i.opcode ≡ 0x6f → exec_opcode host i e ≡ exec_jal i e
  unfolding exec_opcode
  opcode_jal h = rw h refl

  opcode_jalr : i.opcode ≡ 0x67 → exec_opcode host i e ≡ exec_jalr i e
  unfolding exec_opcode
  opcode_jalr h = rw h refl

  opcode_lui : i.opcode ≡ 0x37 → exec_opcode host i e ≡ exec_lui i e
  unfolding exec_opcode
  opcode_lui h = rw h refl

  opcode_auipc : i.opcode ≡ 0x17 → exec_opcode host i e ≡ exec_auipc i e
  unfolding exec_opcode
  opcode_auipc h = rw h refl

  pub concluded :
      {next : ℕ} {e' : Emulator} {r : Run ℕ}
      → exec_opcode host i e ≡ r
      → r ≡ done next e'
      → execute host i e ≡ done true (with_pc next e')
  unfolding execute conclude
  concluded h k = rw (h, k) refl

decode_as-funct7 :
    (raw : ℕ) (fmt : Format) {i : Inst} → decode_as raw fmt ≡ some i → i.funct7 ≡ get_funct7 raw
unfolding decode_as fields
decode_as-funct7 raw fmt_unknown h = cc
decode_as-funct7 raw fmt_r h = ground (arith, h)
decode_as-funct7 raw fmt_i h = ground (arith, h)
decode_as-funct7 raw fmt_s h = ground (arith, h)
decode_as-funct7 raw fmt_b h = ground (arith, h)
decode_as-funct7 raw fmt_u h = ground (arith, h)
decode_as-funct7 raw fmt_j h = ground (arith, h)

-- funct7 of an immediate instruction lies in its immediate field.
immediate-funct7 :
    (op : Operation) (rd rs1 imm : ℕ) {i : Inst}
    → decode (encode (assembly (immediate op rd rs1 imm))) ≡ some i
    → i.funct7 ≡ immediate_field op imm % 2 ^ 12 / 2 ^ 5
unfolding decode encode assembly
immediate-funct7 op rd rs1 imm h =
    let w = enc_i (immediate_field op imm) rs1 (operation_funct3 op) rd 0x13 in
    decode_as-funct7 w (get_fmt (get_opcode w)) h
    ∙ ground (
      arith,
      get_funct7_lem w,
      enc_i_lem (immediate_field op imm) rs1 (operation_funct3 op) rd 0x13,
    )

module _ (host : HostFloat) (e : Emulator) (words : (n : ℕ) → e.rf.regs n < 2 ^ 32) (i : Inst)
    (len : i.len ≡ 4) where
  executed :
      (ins : Instruction)
      → IsInstruction ins
      → decode (encode (assembly ins)) ≡ some i
      → Carries (assembly ins) i
      → execute host i e ≡ done true (record e { rf = effect ins e.rf })
  unfolding effect assembly
  executed (register op rd rs1 rs2) h d c =
      concluded host i e (opcode_alu host i e c.1) (exec_alu_lem i e words len op rd rs1 rs2 h c)
  executed (multiply op rd rs1 rs2) h d c =
      concluded host i e (opcode_alu host i e c.1)
        (exec_multiply_lem i e words len op rd rs1 rs2 h c)
  executed (immediate op rd rs1 imm) h d c =
      concluded host i e (opcode_alui host i e c.1)
        (exec_alui_lem i e words len op rd rs1 imm h c (immediate-funct7 op rd rs1 imm d))
  executed (lui rd imm) h d c =
      concluded host i e (opcode_lui host i e c.1) (exec_lui_lem i e words len rd imm h c)
  executed (auipc rd imm) h d c =
      concluded host i e (opcode_auipc host i e c.1) (exec_auipc_lem i e words len rd imm h c)
  executed (jal rd offset) h d c =
      concluded host i e (opcode_jal host i e c.1) (exec_jal_lem i e words len rd offset h c)
  executed (jalr rd rs1 offset) h d c =
      concluded host i e (opcode_jalr host i e c.1) (exec_jalr_lem i e words len rd rs1 offset h c)
  executed (branch k rs1 rs2 offset) h d c =
      concluded host i e (opcode_branch host i e c.1)
        (exec_branch_lem i e words len k rs1 rs2 offset h c)

-- decode() knows the encoding of an instruction, and execute() does to the registers and to pc what
-- the specification says, and nothing else.
pub execute-effect :
    (host : HostFloat) (ins : Instruction) (e : Emulator)
    → ((n : ℕ) → e.rf.regs n < 2 ^ 32)
    → IsInstruction ins
    → (i : Inst) × (decode (encode (assembly ins)) ≡ some i)
      × (i.len ≡ 4)
      × (execute host i e ≡ done true (record e { rf = effect ins e.rf }))
execute-effect host ins e words h =
    let (i, d, raw, len, c) = decode-encode (assembly ins) (assembly-IsEncodable ins h) in
    (i, d, len, executed host e words i len ins h d c)

-- ===== src/Disasm.antt =====
-- src/decode.c: the disassembler, decode_disasm. `none` and the empty text stand for a buffer that
-- its switch leaves empty. Disasm/Names has the tables.
pub mod Names
pub mod Length
pub mod Fits
use Prim.Native.String.{String}
use rv32i_emu.Base.{
  ℕ, zero, suc, ◌-◌, Option, none, some, Bool, List, [], ◌∷◌, ◌||◌, ◌&&◌, not, ltb, leb, ◌==◌,
  if◌then◌else◌, ◌>>>◌, bit_and,
}
use rv32i_emu.Base.Int.{s32}
use rv32i_emu.Base.Text.{Text, codes, joined, decimal, hex, signed, plus_signed, word_hex, take}
use rv32i_emu.Decode.{
  Inst, op_lui, op_auipc, op_jal, op_jalr, op_branch, op_load, op_store, op_load_fp, op_store_fp,
  op_alui, op_alu, op_fence, op_amo, op_fp, op_system,
}
use rv32i_emu.Disasm.Names.{
  rn, alu_name, alui_name, load_name, store_name, amo_name, branch_name, csr_mnemonic,
}

-- A mnemonic and its operands, if there is one.
unfoldable pub line : Option String → List Text → Text
line none operands = []
line (some mn) operands = joined (codes mn ∷ codes " " ∷ operands)

abbrev pub comma : Text
comma = codes ", "

-- f%u
unfoldable pub fn : ℕ → Text
unfolding decimal
fn idx = b'f' ∷ decimal idx

-- %d(%s)
unfoldable pub at_base : ℕ → ℕ → Text
unfolding signed rn
at_base imm base = joined (signed (s32 imm) ∷ codes "(" ∷ rn base ∷ codes ")" ∷ [])

unfoldable pub disasm_alui : Inst → Text
unfolding alui_name rn decimal signed
disasm_alui i = line (alui_name i.funct3 i.funct7) (
    rn i.rd
    ∷ comma
    ∷ rn i.rs1
    ∷ comma
    ∷ (if i.funct3 == 1 || i.funct3 == 5 then decimal (bit_and i.imm 0x1f) else signed (s32 i.imm))
    ∷ [])

unfoldable pub disasm_system : Inst → Text
unfolding csr_mnemonic rn hex decimal
disasm_system i =
    if i.raw == 0x0000_0073
    then codes "ecall"
    else if i.raw == 0x0010_0073
    then codes "ebreak"
    else if i.raw == 0x3020_0073
    then codes "mret"
    else line (csr_mnemonic i.funct3) (
        rn i.rd
        ∷ comma
        ∷ codes "0x"
        ∷ hex i.imm
        ∷ comma
        ∷ (if leb 5 i.funct3 then decimal i.rs1 else rn i.rs1)
        ∷ [])

-- The name for an f7 that has one by funct3 or rs2; `none` is NULL.
unfoldable pub choose_name : ℕ → List String → Option String
choose_name k [] = none
choose_name zero (n ∷ ns) = some n
choose_name (suc k) (n ∷ ns) = choose_name k ns

-- n for the four arithmetic operations.
unfoldable pub arith_name : ℕ → Option String
arith_name f7 =
    if f7 == 0x00
    then some "fadd.s"
    else if f7 == 0x04
    then some "fsub.s"
    else if f7 == 0x08
    then some "fmul.s"
    else some "fdiv.s"

unfoldable pub disasm_fp : Inst → Text
unfolding arith_name choose_name fn rn
disasm_fp i =
    let f7 = i.funct7 in
    let three = fn i.rd ∷ comma ∷ fn i.rs1 ∷ comma ∷ fn i.rs2 ∷ [] in
    if f7 == 0x00 || f7 == 0x04 || f7 == 0x08 || f7 == 0x0c
    then line (arith_name f7) three
    else if f7 == 0x2c
    then line (some "fsqrt.s") (fn i.rd ∷ comma ∷ fn i.rs1 ∷ [])
    else if f7 == 0x10
    then line (choose_name i.funct3 ("fsgnj.s" ∷ "fsgnjn.s" ∷ "fsgnjx.s" ∷ [])) three
    else if f7 == 0x14
    then line (choose_name i.funct3 ("fmin.s" ∷ "fmax.s" ∷ [])) three
    else if f7 == 0x50
    then line (choose_name i.funct3 ("fle.s" ∷ "flt.s" ∷ "feq.s" ∷ []))
        (rn i.rd ∷ comma ∷ fn i.rs1 ∷ comma ∷ fn i.rs2 ∷ [])
    else if f7 == 0x60
    then line (choose_name i.rs2 ("fcvt.w.s" ∷ "fcvt.wu.s" ∷ [])) (rn i.rd ∷ comma ∷ fn i.rs1 ∷ [])
    else if f7 == 0x68
    then line (choose_name i.rs2 ("fcvt.s.w" ∷ "fcvt.s.wu" ∷ [])) (fn i.rd ∷ comma ∷ rn i.rs1 ∷ [])
    else if f7 == 0x70
    then line (choose_name i.funct3 ("fmv.x.w" ∷ "fclass.s" ∷ [])) (rn i.rd ∷ comma ∷ fn i.rs1 ∷ [])
    else if f7 == 0x78
    then line (some "fmv.w.x") (fn i.rd ∷ comma ∷ rn i.rs1 ∷ [])
    else []

unfoldable pub disasm_amo : Inst → Text
unfolding amo_name rn
disasm_amo i =
    let f5 = i.funct7 >>> 2 in
    let base = codes "(" ∷ rn i.rs1 ∷ codes ")" ∷ [] in
    if i.funct3 == 2
    then line (amo_name f5)
        (rn i.rd ∷ comma ∷ (if f5 == 0x02 then base else rn i.rs2 ∷ comma ∷ base))
    else []

-- What the switch prints.
unfoldable pub disasm_text : Inst → Text
unfolding alu_name disasm_alui load_name store_name branch_name disasm_system disasm_fp disasm_amo
    at_base plus_signed rn hex fn
disasm_text i =
    if i.opcode == op_alu
    then line (alu_name i.funct3 i.funct7) (rn i.rd ∷ comma ∷ rn i.rs1 ∷ comma ∷ rn i.rs2 ∷ [])
    else if i.opcode == op_alui
    then disasm_alui i
    else if i.opcode == op_load
    then line (load_name i.funct3) (rn i.rd ∷ comma ∷ at_base i.imm i.rs1 ∷ [])
    else if i.opcode == op_store
    then line (store_name i.funct3) (rn i.rs2 ∷ comma ∷ at_base i.imm i.rs1 ∷ [])
    else if i.opcode == op_branch
    then line (branch_name i.funct3)
        (rn i.rs1 ∷ comma ∷ rn i.rs2 ∷ comma ∷ plus_signed (s32 i.imm) ∷ [])
    else if i.opcode == op_jal
    then line (some "jal") (rn i.rd ∷ comma ∷ plus_signed (s32 i.imm) ∷ [])
    else if i.opcode == op_jalr
    then line (some "jalr") (rn i.rd ∷ comma ∷ at_base i.imm i.rs1 ∷ [])
    else if i.opcode == op_lui
    then line (some "lui") (rn i.rd ∷ comma ∷ codes "0x" ∷ hex (i.imm >>> 12) ∷ [])
    else if i.opcode == op_auipc
    then line (some "auipc") (rn i.rd ∷ comma ∷ codes "0x" ∷ hex (i.imm >>> 12) ∷ [])
    else if i.opcode == op_system
    then disasm_system i
    else if i.opcode == op_fence
    then codes "fence"
    else if i.opcode == op_load_fp
    then if i.funct3 == 2
      then line (some "flw") (fn i.rd ∷ comma ∷ at_base i.imm i.rs1 ∷ [])
      else []
    else if i.opcode == op_store_fp
    then if i.funct3 == 2
      then line (some "fsw") (fn i.rs2 ∷ comma ∷ at_base i.imm i.rs1 ∷ [])
      else []
    else if i.opcode == op_fp
    then disasm_fp i
    else if i.opcode == op_amo
    then disasm_amo i
    else []

-- snprintf: the text in a buffer of a size above 0, cut to leave room for the final 0.
abbrev pub snprintf : ℕ → Text → Text
snprintf buf_size t = take (buf_size - 1) t

-- The raw word, where the buffer is still empty.
unfoldable pub or_raw : ℕ → Inst → Text → Text
unfolding word_hex
or_raw buf_size i [] = snprintf buf_size (joined (codes ".word 0x" ∷ word_hex i.raw ∷ []))
or_raw buf_size i (c ∷ t) = c ∷ t

-- The text that is left in the buffer. With no buffer or no room the function returns at once.
unfoldable pub decode_disasm : Inst → Option Text → ℕ → Option Text
unfolding disasm_text or_raw
decode_disasm i none buf_size = none
decode_disasm i (some old) buf_size =
    if buf_size == 0 then some old else some (or_raw buf_size i (snprintf buf_size (disasm_text i)))

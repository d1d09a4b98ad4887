-- ===== src/Disasm/Names.antt =====
-- src/decode.c: the tables of names of the disassembler.
use Prim.Native.String.{String}
use rv32i_emu.Base.{
  ℕ, Option, none, some, List, [], ◌∷◌, ◌&&◌, not, ltb, leb, ◌==◌, if◌then◌else◌, get_or,
}
use rv32i_emu.Base.Text.{Text, codes}

abbrev pub reg_name : List String
reg_name =
    "zero" ∷ "ra" ∷ "sp" ∷ "gp" ∷ "tp" ∷ "t0" ∷ "t1" ∷ "t2" ∷ "s0" ∷ "s1" ∷ "a0" ∷ "a1" ∷ "a2"
    ∷ "a3" ∷ "a4" ∷ "a5" ∷ "a6" ∷ "a7" ∷ "s2" ∷ "s3" ∷ "s4" ∷ "s5" ∷ "s6" ∷ "s7" ∷ "s8" ∷ "s9"
    ∷ "s10" ∷ "s11" ∷ "t3" ∷ "t4" ∷ "t5" ∷ "t6" ∷ []

unfoldable pub rn : ℕ → Text
rn idx = codes (if ltb idx 32 then get_or reg_name idx "?" else "?")

-- A table of names; `none` is NULL.
abbrev pub Names : Type 0
Names = List (Option String)

abbrev pub base_names : Names
base_names =
    some "add"
    ∷ some "sll"
    ∷ some "slt"
    ∷ some "sltu"
    ∷ some "xor"
    ∷ some "srl"
    ∷ some "or"
    ∷ some "and"
    ∷ []

abbrev pub alt_names : Names
alt_names = some "sub" ∷ none ∷ none ∷ none ∷ none ∷ some "sra" ∷ none ∷ none ∷ []

abbrev pub m_names : Names
m_names =
    some "mul"
    ∷ some "mulh"
    ∷ some "mulhsu"
    ∷ some "mulhu"
    ∷ some "div"
    ∷ some "divu"
    ∷ some "rem"
    ∷ some "remu"
    ∷ []

unfoldable pub alu_name : ℕ → ℕ → Option String
alu_name f3 f7 =
    if leb 8 f3
    then none
    else if f7 == 0x01
    then get_or m_names f3 none
    else if f7 == 0x20
    then get_or alt_names f3 none
    else if f7 == 0x00
    then get_or base_names f3 none
    else none

abbrev pub alui_names : Names
alui_names =
    some "addi"
    ∷ some "slli"
    ∷ some "slti"
    ∷ some "sltiu"
    ∷ some "xori"
    ∷ some "srli"
    ∷ some "ori"
    ∷ some "andi"
    ∷ []

unfoldable pub alui_name : ℕ → ℕ → Option String
alui_name f3 f7 =
    if leb 8 f3
    then none
    else if f3 == 5 && f7 == 0x20
    then some "srai"
    else if f3 == 1 && not (f7 == 0x00)
    then none
    else if f3 == 5 && not (f7 == 0x00) && not (f7 == 0x20)
    then none
    else get_or alui_names f3 none

abbrev pub load_names : Names
load_names = some "lb" ∷ some "lh" ∷ some "lw" ∷ none ∷ some "lbu" ∷ some "lhu" ∷ none ∷ none ∷ []

unfoldable pub load_name : ℕ → Option String
load_name f3 = if ltb f3 8 then get_or load_names f3 none else none

abbrev pub store_names : Names
store_names = some "sb" ∷ some "sh" ∷ some "sw" ∷ none ∷ none ∷ none ∷ none ∷ none ∷ []

unfoldable pub store_name : ℕ → Option String
store_name f3 = if ltb f3 8 then get_or store_names f3 none else none

unfoldable pub amo_name : ℕ → Option String
amo_name f5 =
    if f5 == 0x02
    then some "lr.w"
    else if f5 == 0x03
    then some "sc.w"
    else if f5 == 0x00
    then some "amoadd.w"
    else if f5 == 0x01
    then some "amoswap.w"
    else if f5 == 0x04
    then some "amoxor.w"
    else if f5 == 0x08
    then some "amoor.w"
    else if f5 == 0x0c
    then some "amoand.w"
    else if f5 == 0x10
    then some "amomin.w"
    else if f5 == 0x14
    then some "amomax.w"
    else if f5 == 0x18
    then some "amominu.w"
    else if f5 == 0x1c
    then some "amomaxu.w"
    else none

abbrev pub branch_names : Names
branch_names =
    some "beq" ∷ some "bne" ∷ none ∷ none ∷ some "blt" ∷ some "bge" ∷ some "bltu" ∷ some "bgeu" ∷ []

unfoldable pub branch_name : ℕ → Option String
branch_name f3 = if ltb f3 8 then get_or branch_names f3 none else none

-- csr_name of decode.c: the mnemonic of a CSR instruction.
abbrev pub csr_names : Names
csr_names =
    none
    ∷ some "csrrw"
    ∷ some "csrrs"
    ∷ some "csrrc"
    ∷ none
    ∷ some "csrrwi"
    ∷ some "csrrsi"
    ∷ some "csrrci"
    ∷ []

unfoldable pub csr_mnemonic : ℕ → Option String
csr_mnemonic f3 = if ltb f3 8 then get_or csr_names f3 none else none

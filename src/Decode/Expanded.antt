-- ===== src/Decode/Expanded.antt =====
-- What decode of src/decode.c makes of the words that expand_compressed gives: the two meet in
-- emu_step, which decodes every expanded instruction.
use rv32i_emu.Base.{
  ℕ, ◌%◌, ◌≡◌, ◌≢◌, refl, Option, none, some, Bool, true, false, if◌then◌else◌, arith,
}
use rv32i_emu.Decode.{fmt_unknown, get_opcode, get_fmt, fields, decode}
use rv32i_emu.Decode.Encode.{enc_r, enc_i, enc_s, enc_b, enc_u, enc_j}
use rv32i_emu.Decode.Encoded.{enc_r_lem, enc_i_lem, enc_s_lem, enc_b_lem, enc_u_lem, enc_j_lem}
use rv32i_emu.Decode.Fields.{get_opcode_lem}
use rv32i_emu.Decode.RoundTrip.{decode_known}
use rv32i_emu.Decode.Compressed.{
  expand_q0, expand_lui, expand_alu, expand_q1, expand_jump, expand_q2, expand_compressed,
}

-- The opcodes that decode knows.
record IsKnown (op : ℕ) : Type 0 where
  known : get_fmt (op % 128) ≢ fmt_unknown

-- A word whose opcode decode knows, if there is one.
record Known (o : Option ℕ) : Type 0 where
  decodes : (w : ℕ) → o ≡ some w → get_fmt (get_opcode w) ≢ fmt_unknown

none-Known : Known none
none-Known = record { decodes = λ w e. cc }

choice-Known : (b : Bool) {x y : Option ℕ} → Known x → Known y → Known (if b then x else y)
choice-Known true h k = h
choice-Known false h k = k

word-Known : (w op : ℕ) → get_opcode w ≡ op % 128 → IsKnown op → Known (some w)
word-Known w op e k = record { decodes = λ w' e' u. k.known (cc (e, e', u)) }

enc_r-Known : (f7 rs2 rs1 f3 rd op : ℕ) → IsKnown op → Known (some (enc_r f7 rs2 rs1 f3 rd op))
enc_r-Known f7 rs2 rs1 f3 rd op k =
    let w = enc_r f7 rs2 rs1 f3 rd op in
    word-Known w op (ground (arith, get_opcode_lem w, enc_r_lem f7 rs2 rs1 f3 rd op)) k

enc_i-Known : (imm rs1 f3 rd op : ℕ) → IsKnown op → Known (some (enc_i imm rs1 f3 rd op))
enc_i-Known imm rs1 f3 rd op k =
    let w = enc_i imm rs1 f3 rd op in
    word-Known w op (ground (arith, get_opcode_lem w, enc_i_lem imm rs1 f3 rd op)) k

enc_s-Known : (imm rs2 rs1 f3 op : ℕ) → IsKnown op → Known (some (enc_s imm rs2 rs1 f3 op))
enc_s-Known imm rs2 rs1 f3 op k =
    let w = enc_s imm rs2 rs1 f3 op in
    word-Known w op (ground (arith, get_opcode_lem w, enc_s_lem imm rs2 rs1 f3 op)) k

enc_b-Known : (imm rs2 rs1 f3 op : ℕ) → IsKnown op → Known (some (enc_b imm rs2 rs1 f3 op))
enc_b-Known imm rs2 rs1 f3 op k =
    let w = enc_b imm rs2 rs1 f3 op in
    word-Known w op (ground (arith, get_opcode_lem w, enc_b_lem imm rs2 rs1 f3 op)) k

enc_u-Known : (imm rd op : ℕ) → IsKnown op → Known (some (enc_u imm rd op))
enc_u-Known imm rd op k =
    let w = enc_u imm rd op in
    word-Known w op (ground (arith, get_opcode_lem w, enc_u_lem imm rd op)) k

enc_j-Known : (imm rd op : ℕ) → IsKnown op → Known (some (enc_j imm rd op))
enc_j-Known imm rd op k =
    let w = enc_j imm rd op in
    word-Known w op (ground (arith, get_opcode_lem w, enc_j_lem imm rd op)) k

load-IsKnown : IsKnown 0x03
unfolding get_fmt
load-IsKnown = record { known = cc }

alui-IsKnown : IsKnown 0x13
unfolding get_fmt
alui-IsKnown = record { known = cc }

store-IsKnown : IsKnown 0x23
unfolding get_fmt
store-IsKnown = record { known = cc }

alu-IsKnown : IsKnown 0x33
unfolding get_fmt
alu-IsKnown = record { known = cc }

lui-IsKnown : IsKnown 0x37
unfolding get_fmt
lui-IsKnown = record { known = cc }

branch-IsKnown : IsKnown 0x63
unfolding get_fmt
branch-IsKnown = record { known = cc }

jalr-IsKnown : IsKnown 0x67
unfolding get_fmt
jalr-IsKnown = record { known = cc }

jal-IsKnown : IsKnown 0x6f
unfolding get_fmt
jal-IsKnown = record { known = cc }

ebreak-Known : Known (some 0x0010_0073)
unfolding get_fmt get_opcode
ebreak-Known = record { decodes = λ w e. cc e }

ruleset expansions = (
  none-Known, choice-Known, enc_r-Known, enc_i-Known, enc_s-Known, enc_b-Known, enc_u-Known,
  enc_j-Known, load-IsKnown, alui-IsKnown, store-IsKnown, alu-IsKnown, lui-IsKnown, branch-IsKnown,
  jalr-IsKnown, jal-IsKnown, ebreak-Known,
)

expand_alu-Known : (c : ℕ) → Known (expand_alu c)
unfolding expand_alu
expand_alu-Known c = search expansions depth 14

expand_lui-Known : (rd c : ℕ) → Known (expand_lui rd c)
unfolding expand_lui
expand_lui-Known rd c = search expansions depth 14

expand_jump-Known : (rd rs2 c : ℕ) → Known (expand_jump rd rs2 c)
unfolding expand_jump
expand_jump-Known rd rs2 c = search expansions depth 14

expand_compressed-Known : (c : ℕ) → Known (expand_compressed c)
unfolding expand_compressed expand_q0 expand_q1 expand_q2
expand_compressed-Known c =
    search (expansions, expand_alu-Known, expand_lui-Known, expand_jump-Known) depth 20

-- Every word that expand_compressed gives is decoded: an instruction that the expansion accepts is
-- never refused afterwards as illegal by decode.
pub expand_compressed-decode :
    (c w : ℕ) → expand_compressed c ≡ some w → decode w ≡ some (fields w (get_fmt (get_opcode w)))
expand_compressed-decode c w e =
    decode_known w (get_fmt (get_opcode w)) refl ((expand_compressed-Known c).decodes w e)

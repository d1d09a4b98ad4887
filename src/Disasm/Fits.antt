-- ===== src/Disasm/Fits.antt =====
-- decode_disasm of src/decode.c is never cut: each text fits the buffers of its callers.
use Prim.Native.String.{String}
use rv32i_emu.Base.{
  ℕ, zero, suc, ◌-◌, ◌≤◌, ◌≡◌, ◌≢◌, refl, ap, arith, Option, none, some, Bool, true, false, List,
  [], ◌∷◌, ◌||◌, leb, ◌==◌, if◌then◌else◌, length, ◌>>>◌, bit_and,
}
use rv32i_emu.Base.Int.{s32}
use rv32i_emu.Base.Text.{
  Text, codes, joined, decimal, hex, signed, plus_signed, word_hex, repeat, take,
}
use rv32i_emu.Decode.{Inst}
use rv32i_emu.Disasm.Names.{
  rn, alu_name, alui_name, load_name, store_name, branch_name, csr_mnemonic, amo_name,
}
use rv32i_emu.Disasm.{
  line, comma, fn, at_base, disasm_alui, disasm_system, choose_name, arith_name, disasm_fp,
  disasm_amo, disasm_text, or_raw, decode_disasm,
}
use rv32i_emu.Disasm.Length.{
  length-append, total, length-joined, length-decimal, length-hex, length-signed,
  length-plus_signed, length-fn, length-rn, IsShort, name-IsShort, none-IsShort, short,
  alu_name-IsShort, alui_name-IsShort, load_name-IsShort, store_name-IsShort, branch_name-IsShort,
  csr_mnemonic-IsShort, amo_name-IsShort,
}

-- A text of at most 127 characters.
record Fits (t : Text) : Type 0 where
  fits : length t ≤ 127

nil-Fits : Fits []
nil-Fits = record { fits = omega arith }

if-Fits : (c : Bool) {x y : Text} → Fits x → Fits y → Fits (if c then x else y)
if-Fits true h k = h
if-Fits false h k = k

line-Fits : (m : Option String) (ops : List Text) → IsShort m → total ops ≤ 100 → Fits (line m ops)
unfolding line
line-Fits none ops h k = nil-Fits
line-Fits (some s) ops h k = record {
  fits = omega (arith, h.at_most, length-joined (codes s ∷ codes " " ∷ ops));
}

length-at_base : (imm base : ℕ) → length (at_base imm base) ≤ 27
unfolding at_base
length-at_base imm base = omega (
  arith,
  length-joined (signed (s32 imm) ∷ codes "(" ∷ rn base ∷ codes ")" ∷ []),
  length-signed (s32 imm),
  length-rn base,
)

length-choose :
    (c : Bool) (s t : Text) (n : ℕ) → length s ≤ n → length t ≤ n → length (if c then s else t) ≤ n
length-choose true s t n h k = h
length-choose false s t n h k = k

disasm_alui-Fits : (i : Inst) → Fits (disasm_alui i)
unfolding disasm_alui
disasm_alui-Fits i =
    line-Fits (alui_name i.funct3 i.funct7) _ (alui_name-IsShort i.funct3 i.funct7) (
      omega (
        arith,
        length-rn i.rd,
        length-rn i.rs1,
        length-choose (i.funct3 == 1 || i.funct3 == 5) (decimal (bit_and i.imm 0x1f))
            (signed (s32 i.imm)) 21 (omega (arith, length-decimal (bit_and i.imm 0x1f)))
            (length-signed (s32 i.imm)),
      ))

disasm_system-Fits : (i : Inst) → Fits (disasm_system i)
unfolding disasm_system
disasm_system-Fits i =
    let a : Fits (codes "ecall") = record { fits = omega arith } in
    let b : Fits (codes "ebreak") = record { fits = omega arith } in
    let c : Fits (codes "mret") = record { fits = omega arith } in
    let d =
      length-choose (leb 5 i.funct3) (decimal i.rs1) (rn i.rs1) 20 (length-decimal i.rs1)
        (omega (arith, length-rn i.rs1)) in
    let l =
      line-Fits (csr_mnemonic i.funct3)
        (rn i.rd
          ∷ comma
          ∷ codes "0x"
          ∷ hex i.imm
          ∷ comma
          ∷ (if leb 5 i.funct3 then decimal i.rs1 else rn i.rs1)
          ∷ [])
        (csr_mnemonic-IsShort i.funct3) (omega (arith, length-rn i.rd, length-hex i.imm, d)) in
    if-Fits (i.raw == 0x0000_0073) a
      (if-Fits (i.raw == 0x0010_0073) b (if-Fits (i.raw == 0x3020_0073) c l))

-- Names of at most 9 characters.
abbrev AllShort : List String → Type 0
AllShort [] = Unit
AllShort (s ∷ ss) = (length (codes s) ≤ 9) × AllShort ss

choose_name-IsShort : (k : ℕ) (ss : List String) → AllShort ss → IsShort (choose_name k ss)
unfolding choose_name
choose_name-IsShort k [] w = none-IsShort
choose_name-IsShort zero (s ∷ ss) w = record { at_most = w.0 }
choose_name-IsShort (suc k) (s ∷ ss) w = choose_name-IsShort k ss w.1

module _ (i : Inst) where
  -- The operands of the floating-point instructions: three, or two of either file.
  three_floats : (a b c : ℕ) → total (fn a ∷ comma ∷ fn b ∷ comma ∷ fn c ∷ []) ≤ 100
  three_floats a b c = omega (arith, length-fn a, length-fn b, length-fn c)

  two_floats : (a b : ℕ) → total (fn a ∷ comma ∷ fn b ∷ []) ≤ 100
  two_floats a b = omega (arith, length-fn a, length-fn b)

  to_integer : (a b : ℕ) → total (rn a ∷ comma ∷ fn b ∷ []) ≤ 100
  to_integer a b = omega (arith, length-rn a, length-fn b)

  from_integer : (a b : ℕ) → total (fn a ∷ comma ∷ rn b ∷ []) ≤ 100
  from_integer a b = omega (arith, length-fn a, length-rn b)

  compared : (a b c : ℕ) → total (rn a ∷ comma ∷ fn b ∷ comma ∷ fn c ∷ []) ≤ 100
  compared a b c = omega (arith, length-rn a, length-fn b, length-fn c)

  arith_name-IsShort : (f7 : ℕ) → IsShort (arith_name f7)
  unfolding arith_name
  arith_name-IsShort f7 = search short depth 10

  -- A line whose name is chosen by a field.
  chosen :
      (k : ℕ) (ss : List String) (ops : List Text)
      → AllShort ss
      → total ops ≤ 100
      → Fits (line (choose_name k ss) ops)
  chosen k ss ops w h = line-Fits (choose_name k ss) ops (choose_name-IsShort k ss w) h

  disasm_fp-Fits : Fits (disasm_fp i)
  unfolding disasm_fp
  disasm_fp-Fits =
      let three = fn i.rd ∷ comma ∷ fn i.rs1 ∷ comma ∷ fn i.rs2 ∷ [] in
      let t = three_floats i.rd i.rs1 i.rs2 in
      let l1 = line-Fits (arith_name i.funct7) three (arith_name-IsShort i.funct7) t in
      let l2 =
        line-Fits (some "fsqrt.s") (fn i.rd ∷ comma ∷ fn i.rs1 ∷ []) (name-IsShort "fsqrt.s" refl)
          (two_floats i.rd i.rs1) in
      let l3 = chosen i.funct3 ("fsgnj.s" ∷ "fsgnjn.s" ∷ "fsgnjx.s" ∷ []) three (omega arith) t in
      let l4 = chosen i.funct3 ("fmin.s" ∷ "fmax.s" ∷ []) three (omega arith) t in
      let l5 =
        chosen i.funct3 ("fle.s" ∷ "flt.s" ∷ "feq.s" ∷ [])
          (rn i.rd ∷ comma ∷ fn i.rs1 ∷ comma ∷ fn i.rs2 ∷ []) (omega arith)
          (compared i.rd i.rs1 i.rs2) in
      let l6 =
        chosen i.rs2 ("fcvt.w.s" ∷ "fcvt.wu.s" ∷ []) (rn i.rd ∷ comma ∷ fn i.rs1 ∷ []) (omega arith)
          (to_integer i.rd i.rs1) in
      let l7 =
        chosen i.rs2 ("fcvt.s.w" ∷ "fcvt.s.wu" ∷ []) (fn i.rd ∷ comma ∷ rn i.rs1 ∷ []) (omega arith)
          (from_integer i.rd i.rs1) in
      let l8 =
        chosen i.funct3 ("fmv.x.w" ∷ "fclass.s" ∷ []) (rn i.rd ∷ comma ∷ fn i.rs1 ∷ [])
          (omega arith) (to_integer i.rd i.rs1) in
      let l9 =
        line-Fits (some "fmv.w.x") (fn i.rd ∷ comma ∷ rn i.rs1 ∷ []) (name-IsShort "fmv.w.x" refl)
          (from_integer i.rd i.rs1) in
      search (if-Fits, nil-Fits) depth 20

  disasm_amo-Fits : Fits (disasm_amo i)
  unfolding disasm_amo
  disasm_amo-Fits =
      let f5 = i.funct7 >>> 2 in
      let base = codes "(" ∷ rn i.rs1 ∷ codes ")" ∷ [] in
      let ops = rn i.rd ∷ comma ∷ (if f5 == 0x02 then base else rn i.rs2 ∷ comma ∷ base) in
      let l = line-Fits (amo_name f5) ops (amo_name-IsShort f5) (operands (f5 == 0x02)) in
      search (if-Fits, nil-Fits)
    where
      operands :
          (c : Bool)
          → total (
              rn i.rd
              ∷ comma
              ∷ (if c
                  then codes "(" ∷ rn i.rs1 ∷ codes ")" ∷ []
                  else rn i.rs2 ∷ comma ∷ codes "(" ∷ rn i.rs1 ∷ codes ")" ∷ []))
            ≤ 100
      operands true = omega (arith, length-rn i.rd, length-rn i.rs1)
      operands false = omega (arith, length-rn i.rd, length-rn i.rs1, length-rn i.rs2)

  -- The lines with an offset, a register and a base, or an upper immediate.
  based :
      (m : Option String) (r imm b : ℕ)
      → IsShort m
      → Fits (line m (rn r ∷ comma ∷ at_base imm b ∷ []))
  based m r imm b h = line-Fits m _ h (omega (arith, length-rn r, length-at_base imm b))

  float_based :
      (m : Option String) (r imm b : ℕ)
      → IsShort m
      → Fits (line m (fn r ∷ comma ∷ at_base imm b ∷ []))
  float_based m r imm b h = line-Fits m _ h (omega (arith, length-fn r, length-at_base imm b))

  upper :
      (m : Option String) (r n : ℕ)
      → IsShort m
      → Fits (line m (rn r ∷ comma ∷ codes "0x" ∷ hex n ∷ []))
  upper m r n h = line-Fits m _ h (omega (arith, length-rn r, length-hex n))

  disasm_text-Fits : Fits (disasm_text i)
  unfolding disasm_text
  disasm_text-Fits =
      let l1 =
        line-Fits (alu_name i.funct3 i.funct7) (rn i.rd ∷ comma ∷ rn i.rs1 ∷ comma ∷ rn i.rs2 ∷ [])
          (alu_name-IsShort i.funct3 i.funct7)
          (omega (arith, length-rn i.rd, length-rn i.rs1, length-rn i.rs2)) in
      let l2 = disasm_alui-Fits i in
      let l3 = based (load_name i.funct3) i.rd i.imm i.rs1 (load_name-IsShort i.funct3) in
      let l4 = based (store_name i.funct3) i.rs2 i.imm i.rs1 (store_name-IsShort i.funct3) in
      let l5 =
        line-Fits (branch_name i.funct3)
          (rn i.rs1 ∷ comma ∷ rn i.rs2 ∷ comma ∷ plus_signed (s32 i.imm) ∷ [])
          (branch_name-IsShort i.funct3)
          (omega (arith, length-rn i.rs1, length-rn i.rs2, length-plus_signed (s32 i.imm))) in
      let l6 =
        line-Fits (some "jal") (rn i.rd ∷ comma ∷ plus_signed (s32 i.imm) ∷ [])
          (name-IsShort "jal" refl)
          (omega (arith, length-rn i.rd, length-plus_signed (s32 i.imm))) in
      let l7 = based (some "jalr") i.rd i.imm i.rs1 (name-IsShort "jalr" refl) in
      let l8 = upper (some "lui") i.rd (i.imm >>> 12) (name-IsShort "lui" refl) in
      let l9 = upper (some "auipc") i.rd (i.imm >>> 12) (name-IsShort "auipc" refl) in
      let l10 = disasm_system-Fits i in
      let l11 : Fits (codes "fence") = record { fits = omega arith } in
      let l12 = float_based (some "flw") i.rd i.imm i.rs1 (name-IsShort "flw" refl) in
      let l13 = float_based (some "fsw") i.rs2 i.imm i.rs1 (name-IsShort "fsw" refl) in
      let l14 = disasm_fp-Fits in let l15 = disasm_amo-Fits in search (if-Fits, nil-Fits) depth 24

-- The text of an instruction that has no other.
unfoldable pub raw_text : Inst → Text
raw_text i = joined (codes ".word 0x" ∷ word_hex i.raw ∷ [])

-- What the disassembler prints, in a buffer without end.
abbrev pub whole_text : Inst → Text → Text
whole_text i [] = raw_text i
whole_text i (c ∷ t) = c ∷ t

take_all : (n : ℕ) (t : Text) → length t ≤ n → take n t ≡ t
take_all zero [] h = refl
take_all zero (c ∷ t) h = absurd (omega arith)
take_all (suc n) [] h = refl
take_all (suc n) (c ∷ t) h = ap (λ (s : Text). c ∷ s) (take_all n t (omega arith))

length-repeat : (c n : ℕ) → length (repeat c n) ≡ n
length-repeat c zero = refl
length-repeat c (suc n) = omega (arith, length-repeat c n)

length-word_hex : (n : ℕ) → length (word_hex n) ≤ 16
unfolding word_hex
length-word_hex n = omega (
  arith,
  length-append (repeat b'0' (8 - length (hex n))) (hex n),
  length-hex n,
  length-repeat b'0' (8 - length (hex n)),
)

raw-Fits : (i : Inst) → Fits (raw_text i)
unfolding raw_text
raw-Fits i = record {
  fits =
      omega (arith, length-joined (codes ".word 0x" ∷ word_hex i.raw ∷ []), length-word_hex i.raw);
}

uncut : (size : ℕ) (i : Inst) (t : Text) → 128 ≤ size → or_raw size i t ≡ whole_text i t
unfolding or_raw raw_text
uncut size i [] h = take_all (size - 1) (raw_text i) (let f = raw-Fits i in omega (arith, f.fits))
uncut size i (c ∷ t) h = refl

whole_text-Fits : (i : Inst) (t : Text) → Fits t → Fits (whole_text i t)
whole_text-Fits i [] f = raw-Fits i
whole_text-Fits i (c ∷ t) f = f

whole_text-ne-nil : (i : Inst) (t : Text) → whole_text i t ≢ []
unfolding raw_text
whole_text-ne-nil i [] h = cc
whole_text-ne-nil i (c ∷ t) h = cc

disassembled :
    (i : Inst) (old : Text) (size : ℕ)
    → 128 ≤ size
    → decode_disasm i (some old) size ≡ some (whole_text i (disasm_text i))
unfolding decode_disasm
disassembled i old size h =
    let f = disasm_text-Fits i in
    let z : (size == 0) ≡ false = ground arith in
    rw (decode_disasm, z, take_all (size - 1) (disasm_text i) (omega (arith, f.fits)))
      (ap (λ (t : Text). some t) (uncut size i (disasm_text i) h))

-- In a buffer of at least 128 characters, as the debugger's are, decode_disasm leaves the whole text of
-- every instruction, uncut, of at most 127 characters and not empty: the raw word where the
-- instruction has no text of its own.
pub decode_disasm-whole_text :
    (i : Inst) (old : Text) (size : ℕ)
    → 128 ≤ size
    → (decode_disasm i (some old) size ≡ some (whole_text i (disasm_text i)))
      × (length (whole_text i (disasm_text i)) ≤ 127)
      × (whole_text i (disasm_text i) ≢ [])
decode_disasm-whole_text i old size h =
    let f = whole_text-Fits i (disasm_text i) (disasm_text-Fits i) in
    (disassembled i old size h, f.fits, whole_text-ne-nil i (disasm_text i))

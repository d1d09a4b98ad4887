-- ===== src/Fpu/Execute.antt =====
-- src/fpu.c: fpu_execute, the dispatch on funct7. `none` is the result false.
use rv32i_emu.Base.{ℕ, Option, none, some, ltb, ◌==◌, ◌||◌, if◌then◌else◌, nonzero}
use rv32i_emu.RegFile.{reg_read}
use rv32i_emu.Decode.{Inst}
use rv32i_emu.Machine.{Emulator}
use rv32i_emu.Fpu.Host.{add, sub, mul, div, sqrt, HostFloat}
use rv32i_emu.Fpu.{
  set_freg, set_reg, sign_injected, fp_classify, fp_arith, fp_minmax, fp_compare, fp_float_to_int,
  fp_int_to_float,
}

module _ (host : HostFloat) where
  -- FMV.X.W and FCLASS.S
  unfoldable pub move_or_classify : Inst → ℕ → Emulator → Option Emulator
  unfolding fp_classify
  move_or_classify i a e =
      if nonzero i.rs2
      then none
      else if i.funct3 == 0
      then set_reg host i.rd (e.csr, a) e
      else if i.funct3 == 1
      then set_reg host i.rd (e.csr, fp_classify a) e
      else none

  unfoldable pub inject_sign : Inst → ℕ → ℕ → Emulator → Option Emulator
  unfolding sign_injected
  inject_sign i a b e = elim (sign_injected i.funct3 a b) [
    | some out ↦ set_freg host i.rd (e.csr, out) e
    | none ↦ none
  ]

  unfoldable pub fpu_execute : Inst → Emulator → Option Emulator
  unfolding move_or_classify inject_sign fp_arith fp_minmax fp_compare fp_float_to_int
      fp_int_to_float
  fpu_execute i e =
      let f3 = i.funct3 in
      let f7 = i.funct7 in
      let a = e.rf.fregs i.rs1 in
      let b = e.rf.fregs i.rs2 in
      if f7 == 0x00
      then set_freg host i.rd (fp_arith host e.csr f3 add a b) e
      else if f7 == 0x04
      then set_freg host i.rd (fp_arith host e.csr f3 sub a b) e
      else if f7 == 0x08
      then set_freg host i.rd (fp_arith host e.csr f3 mul a b) e
      else if f7 == 0x0c
      then set_freg host i.rd (fp_arith host e.csr f3 div a b) e
      else if f7 == 0x2c
      then if nonzero i.rs2 then none else set_freg host i.rd (fp_arith host e.csr f3 sqrt a 0) e
      else if f7 == 0x10
      then inject_sign i a b e
      else if f7 == 0x14
      then if ltb 1 f3 then none else set_freg host i.rd (fp_minmax host e.csr a b (f3 == 1)) e
      else if f7 == 0x50
      then if ltb 2 f3 then none else set_reg host i.rd (fp_compare host e.csr f3 a b) e
      else if f7 == 0x60
      then if ltb 1 i.rs2
        then none
        else set_reg host i.rd (fp_float_to_int host e.csr f3 a (i.rs2 == 1)) e
      else if f7 == 0x68
      then if ltb 1 i.rs2
        then none
        else set_freg host i.rd (fp_int_to_float host e.csr f3 (reg_read e.rf i.rs1) (i.rs2 == 1)) e
      else if f7 == 0x70
      then move_or_classify i a e
      else if f7 == 0x78
      then if nonzero i.rs2 || nonzero f3
        then none
        else set_freg host i.rd (e.csr, reg_read e.rf i.rs1) e
      else none

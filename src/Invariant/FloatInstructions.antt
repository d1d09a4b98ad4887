-- ===== src/Invariant/FloatInstructions.antt =====
-- fpu_execute of src/fpu.c keeps the invariant, when the host's results are words.
use rv32i_emu.Base.{
  ℕ, ◌^◌, ◌<◌, refl, arith, Bool, true, false, Option, some, none, ◌==◌, if◌then◌else◌, bit_and,
  bit_xor, not32,
}
use rv32i_emu.Base.Bits.{bit_and-lt, bit_or-lt, and_field}
use rv32i_emu.Csr.{Csr}
use rv32i_emu.RegFile.{reg_read}
use rv32i_emu.Decode.{Inst}
use rv32i_emu.Machine.{Emulator}
use rv32i_emu.Fpu.Host.{HostFloat, FpOp, add, sub, mul, div, sqrt}
use rv32i_emu.Fpu.{
  set_freg, set_reg, sign_injected, fp_classify, fp_arith, fp_minmax, fp_compare, fp_float_to_int,
  fp_int_to_float,
}
use rv32i_emu.Fpu.Execute.{move_or_classify, inject_sign, fpu_execute}
use rv32i_emu.Invariant.Arithmetic.{ResultFits, results}
use rv32i_emu.Invariant.State.{
  IsEmulator, csr-IsEmulator, reg_write-IsEmulator, freg_write-IsEmulator, reg_read-lt,
}
use rv32i_emu.Invariant.Floats.{
  IsHost, FloatFits, pair-FloatFits, fp_classify-lt, fp_arith-FloatFits, fp_int_to_float-FloatFits,
  fp_compare-FloatFits, fp_minmax-FloatFits, fp_float_to_int-FloatFits,
}

abbrev pub StateIs : Option Emulator → Type 0
StateIs none = Unit
StateIs (some e) = IsEmulator e

-- The state after a floating-point instruction, if it has one.
pub record StateFits (o : Option Emulator) : Type 0 where
  pub fits : StateIs o

none-StateFits : StateFits none
none-StateFits = record { fits = tt }

choice-StateFits :
    (c : Bool) {x y : Option Emulator} → StateFits x → StateFits y → StateFits (if c then x else y)
choice-StateFits true h k = h
choice-StateFits false h k = k

present : {a : Emulator} → IsEmulator a → StateFits (some a)
present h = record { fits = h }

module _ (host : HostFloat) (is_host : IsHost host) (i : Inst) (e : Emulator)
    (inv : IsEmulator e) where
  set_freg-StateFits : (r : Csr × ℕ) → FloatFits r → StateFits (set_freg host i.rd r e)
  set_freg-StateFits r f = present (
      freg_write-IsEmulator (record e { csr = r.0 }) i.rd r.1 (csr-IsEmulator e inv r.0 f.csr)
        f.bits)

  set_reg-StateFits : (r : Csr × ℕ) → FloatFits r → StateFits (set_reg host i.rd r e)
  set_reg-StateFits r f = present (
      reg_write-IsEmulator (record e { csr = r.0 }) i.rd r.1 (csr-IsEmulator e inv r.0 f.csr)
        f.bits)

  kept : (n : ℕ) → n < 2 ^ 32 → FloatFits (e.csr, n)
  kept n h = pair-FloatFits inv.csr h

  move_or_classify-StateFits : (a : ℕ) → a < 2 ^ 32 → StateFits (move_or_classify host i a e)
  unfolding move_or_classify
  move_or_classify-StateFits a h =
      let m = set_reg-StateFits (e.csr, a) (kept a h) in
      let k = set_reg-StateFits (e.csr, fp_classify a) (kept (fp_classify a) (fp_classify-lt a)) in
      search (choice-StateFits, none-StateFits)

  injected :
      (o : Option ℕ)
      → ResultFits o
      → StateFits (elim o as (λ _. Option Emulator) [
        | some out ↦ set_freg host i.rd (e.csr, out) e
        | none ↦ none
      ])
  injected (some out) f = set_freg-StateFits (e.csr, out) (kept out (f.fits out refl))
  injected none f = none-StateFits

  inject_sign-StateFits : (a b : ℕ) → a < 2 ^ 32 → b < 2 ^ 32 → StateFits (inject_sign host i a b e)
  unfolding inject_sign sign_injected
  inject_sign-StateFits a b ha hb =
      let low = bit_and-lt 32 a 0x7fff_ffff ha in
      let bit : (x : ℕ) → bit_and x 0x8000_0000 < 2 ^ 32 = λ x. omega (arith, and_field 31 1 x) in
      let r1 = bit_or-lt 32 (bit_and a 0x7fff_ffff) (bit_and b 0x8000_0000) low (bit b) in
      let r2 =
        bit_or-lt 32 (bit_and a 0x7fff_ffff) (bit_and (not32 b) 0x8000_0000) low (bit (not32 b)) in
      let r3 =
        bit_or-lt 32 (bit_and a 0x7fff_ffff) (bit_and (bit_xor a b) 0x8000_0000) low
          (bit (bit_xor a b)) in
      injected (sign_injected i.funct3 a b) (search results depth 8)

  pub fpu_execute-StateFits : StateFits (fpu_execute host i e)
  unfolding fpu_execute
  fpu_execute-StateFits =
      let a = e.rf.fregs i.rs1 in
      let b = e.rf.fregs i.rs2 in
      let ha = inv.fregs_fit i.rs1 in
      let hb = inv.fregs_fit i.rs2 in
      let f3 = i.funct3 in
      let arith_fits : (op : FpOp) (y : ℕ)
          → StateFits (set_freg host i.rd (fp_arith host e.csr f3 op a y) e) =
        λ op y.
          set_freg-StateFits (fp_arith host e.csr f3 op a y)
            (fp_arith-FloatFits host is_host e.csr inv.csr f3 a y op) in
      let o1 = arith_fits add b in
      let o2 = arith_fits sub b in
      let o3 = arith_fits mul b in
      let o4 = arith_fits div b in
      let o5 = arith_fits sqrt 0 in
      let o6 = inject_sign-StateFits a b ha hb in
      let o7 =
        set_freg-StateFits (fp_minmax host e.csr a b (f3 == 1))
          (fp_minmax-FloatFits host is_host e.csr inv.csr a b (f3 == 1) ha hb) in
      let o8 =
        set_reg-StateFits (fp_compare host e.csr f3 a b)
          (fp_compare-FloatFits host is_host e.csr inv.csr f3 a b) in
      let o9 =
        set_reg-StateFits (fp_float_to_int host e.csr f3 a (i.rs2 == 1))
          (fp_float_to_int-FloatFits host is_host e.csr inv.csr f3 a (i.rs2 == 1)) in
      let o10 =
        set_freg-StateFits (fp_int_to_float host e.csr f3 (reg_read e.rf i.rs1) (i.rs2 == 1)) (
          fp_int_to_float-FloatFits host is_host e.csr inv.csr f3 (reg_read e.rf i.rs1)
            (i.rs2 == 1)) in
      let o11 = move_or_classify-StateFits a ha in
      let o12 =
        set_freg-StateFits (e.csr, reg_read e.rf i.rs1)
          (kept (reg_read e.rf i.rs1) (reg_read-lt e i.rs1 inv)) in
      search (choice-StateFits, none-StateFits) depth 18

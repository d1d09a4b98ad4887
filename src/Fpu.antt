-- ===== src/Fpu.antt =====
-- src/fpu.c: RV32F. The host's float arithmetic is the parameter `host`; what the code itself does
-- with bit patterns, flags and special cases is written out.
pub mod Host
pub mod Execute
pub mod MinMax
use rv32i_emu.Base.{
  ℕ, Bool, true, false, not, ◌&&◌, ◌||◌, Option, none, some, ltb, ◌==◌, if◌then◌else◌, update,
  nonzero, ◌<<<◌, ◌>>>◌, not32, bit_and, bit_or, bit_xor,
}
use rv32i_emu.RegFile.{RegFile, reg_read, reg_write}
use rv32i_emu.Csr.{Csr}
use rv32i_emu.Decode.{Inst}
use rv32i_emu.Machine.{Emulator, with_rf}
use Host.{
  FpOp, add, sub, mul, div, sqrt, Rounding, to_nearest, toward_zero, downward, upward, Exceptions,
  HostFloat, zero_float, two_pow_32, two_pow_31, minus_two_pow_31,
}

abbrev pub fp_nx : ℕ
fp_nx = 0x01

abbrev pub fp_uf : ℕ
fp_uf = 0x02

abbrev pub fp_of : ℕ
fp_of = 0x04

abbrev pub fp_dz : ℕ
fp_dz = 0x08

abbrev pub fp_nv : ℕ
fp_nv = 0x10

abbrev pub fp_canon_nan : ℕ
fp_canon_nan = 0x7fc0_0000

unfoldable pub bits_is_nan : ℕ → Bool
bits_is_nan bits = bit_and bits 0x7f80_0000 == 0x7f80_0000 && nonzero (bit_and bits 0x007f_ffff)

unfoldable pub bits_is_snan : ℕ → Bool
bits_is_snan bits = bits_is_nan bits && bit_and bits 0x0040_0000 == 0

unfoldable pub host_rounding : ℕ → ℕ → Rounding
host_rounding rm frm =
    let rm' = (if rm == 7 then frm else rm) in
    if rm' == 0
    then to_nearest
    else if rm' == 1
    then toward_zero
    else if rm' == 2
    then downward
    else if rm' == 3
    then upward
    else to_nearest

-- csr.fflags |= flags
abbrev pub raise_flags : ℕ → Csr → Csr
raise_flags flags c = record c { fflags = bit_or c.fflags flags }

unfoldable pub collected : Exceptions → ℕ
collected x =
    let f : ℕ = if x.inexact then fp_nx else 0 in
    let f = (if x.underflow then bit_or f fp_uf else f) in
    let f = (if x.overflow then bit_or f fp_of else f) in
    let f = (if x.divbyzero then bit_or f fp_dz else f) in if x.invalid then bit_or f fp_nv else f

unfoldable pub fp_collect_flags : Exceptions → Csr → Csr
unfolding collected
fp_collect_flags x = raise_flags (collected x)

-- A NaN result becomes the canonical one.
unfoldable pub canonical : ℕ → ℕ
unfolding bits_is_nan
canonical bits = if bits_is_nan bits then fp_canon_nan else bits

unfoldable pub fp_classify : ℕ → ℕ
fp_classify bits =
    let sign = nonzero (bits >>> 31) in
    let exp = bit_and (bits >>> 23) 0xff in
    let frac = bit_and bits 0x007f_ffff in
    if exp == 0xff
    then if frac == 0
      then (if sign then 1 <<< 0 else 1 <<< 7)
      else if nonzero (bit_and frac 0x0040_0000)
      then 1 <<< 9
      else 1 <<< 8
    else if exp == 0
    then if frac == 0
      then (if sign then 1 <<< 3 else 1 <<< 4)
      else if sign
      then 1 <<< 2
      else 1 <<< 5
    else if sign
    then 1 <<< 1
    else 1 <<< 6

-- FSGNJ, FSGNJN, FSGNJX
unfoldable pub sign_injected : ℕ → ℕ → ℕ → Option ℕ
sign_injected funct3 a b =
    if funct3 == 0
    then some (bit_or (bit_and a 0x7fff_ffff) (bit_and b 0x8000_0000))
    else if funct3 == 1
    then some (bit_or (bit_and a 0x7fff_ffff) (bit_and (not32 b) 0x8000_0000))
    else if funct3 == 2
    then some (bit_or (bit_and a 0x7fff_ffff) (bit_and (bit_xor a b) 0x8000_0000))
    else none

module _ (host : HostFloat) where
  unfoldable pub fp_arith : Csr → ℕ → FpOp → ℕ → ℕ → Csr × ℕ
  unfolding host_rounding fp_collect_flags canonical
  fp_arith c rm op abits bbits =
      let r = host.arith op (host_rounding rm c.frm) abits bbits in
      (fp_collect_flags r.flags c, canonical r.bits)

  unfoldable pub fp_minmax : Csr → ℕ → ℕ → Bool → Csr × ℕ
  unfolding bits_is_nan bits_is_snan
  fp_minmax c abits bbits is_max =
      if bits_is_nan abits && bits_is_nan bbits
      then (c, fp_canon_nan)
      else if bits_is_nan abits
      then (if bits_is_snan abits then raise_flags fp_nv c else c, bbits)
      else if bits_is_nan bbits
      then (if bits_is_snan bbits then raise_flags fp_nv c else c, abits)
      else if host.less abits bbits
      then (c, abits)
      else if host.less bbits abits
      then (c, bbits)
      else (let sign =
            (if is_max
              then bit_and (bit_and abits bbits) 0x8000_0000
              else bit_and (bit_or abits bbits) 0x8000_0000) in
          (c, bit_or sign (bit_and abits 0x7fff_ffff)))

  unfoldable pub fp_compare : Csr → ℕ → ℕ → ℕ → Csr × ℕ
  unfolding bits_is_nan bits_is_snan
  fp_compare c funct3 abits bbits =
      if bits_is_nan abits || bits_is_nan bbits
      then if funct3 == 2
        then (if bits_is_snan abits || bits_is_snan bbits then raise_flags fp_nv c else c, 0)
        else (raise_flags fp_nv c, 0)
      else if funct3 == 0
      then (c, if host.less_eq abits bbits then 1 else 0)
      else if funct3 == 1
      then (c, if host.less abits bbits then 1 else 0)
      else (c, if host.equal abits bbits then 1 else 0)

  -- The range tests that come before the rounding: the flags and the result of an early return.
  unfoldable pub out_of_range : ℕ → Bool → Option (ℕ × ℕ)
  unfolding bits_is_nan
  out_of_range abits is_unsigned =
      if bits_is_nan abits
      then some (fp_nv, if is_unsigned then 0xffff_ffff else 0x7fff_ffff)
      else if is_unsigned
      then if not (host.less zero_float abits)
        then (if host.less abits zero_float then some (fp_nv, 0) else some (0, 0))
        else if host.less_eq two_pow_32 abits
        then some (fp_nv, 0xffff_ffff)
        else none
      else if host.less_eq two_pow_31 abits
      then some (fp_nv, 0x7fff_ffff)
      else if host.less abits minus_two_pow_31
      then some (fp_nv, 0x8000_0000)
      else none

  unfoldable pub fp_float_to_int : Csr → ℕ → ℕ → Bool → Csr × ℕ
  unfolding out_of_range host_rounding fp_collect_flags
  fp_float_to_int c rm abits is_unsigned = elim (out_of_range abits is_unsigned) [
    | some (flags, result) ↦ (if flags == 0 then c else raise_flags flags c, result)
    | none ↦
        let r = host.nearbyint (host_rounding rm c.frm) abits in
        let c1 = fp_collect_flags r.flags c in
        (
          if host.equal r.bits abits then c1 else raise_flags fp_nx c1,
          if is_unsigned then host.to_u32 r.bits else host.to_s32 r.bits,
        )
  ]

  unfoldable pub fp_int_to_float : Csr → ℕ → ℕ → Bool → Csr × ℕ
  unfolding host_rounding fp_collect_flags canonical
  fp_int_to_float c rm value is_unsigned =
      let r =
        (if is_unsigned
          then host.of_u32 (host_rounding rm c.frm) value
          else host.of_s32 (host_rounding rm c.frm) value) in
      (fp_collect_flags r.flags c, canonical r.bits)

  -- `emu->rf.fregs[rd] = ...` and `reg_write(&emu->rf, rd, ...)` with the flags of the call.
  abbrev pub set_freg : ℕ → Csr × ℕ → Emulator → Option Emulator
  set_freg rd r e =
      some (record e { csr = r.0; rf = record e.rf { fregs = update e.rf.fregs rd r.1 } })

  abbrev pub set_reg : ℕ → Csr × ℕ → Emulator → Option Emulator
  set_reg rd r e = some (record e { csr = r.0; rf = reg_write e.rf rd r.1 })

-- ===== src/Invariant/Floats.antt =====
-- The functions of src/fpu.c give words and keep the control registers, when the host's results are
-- words.
use rv32i_emu.Base.{
  ℕ, ◌^◌, ◌<◌, ◌≡◌, refl, arith, Bool, true, false, Option, some, none, ◌==◌, if◌then◌else◌,
  bit_and, bit_or,
}
use rv32i_emu.Base.Bits.{bit_and-lt, bit_or-lt}
use rv32i_emu.Csr.{Csr}
use rv32i_emu.Fpu.Host.{HostFloat, FpOp, Rounding, Exceptions}
use rv32i_emu.Fpu.{
  fp_classify, fp_arith, fp_minmax, fp_compare, fp_float_to_int, fp_int_to_float, raise_flags,
  collected, canonical, fp_collect_flags, out_of_range, host_rounding, fp_nv, fp_nx, bits_is_nan,
}
use rv32i_emu.Invariant.CsrLaws.{IsCsr}
use rv32i_emu.Invariant.Arithmetic.{if-lt, u32-lt}

-- The host's bit patterns and integers have 32 bits.
pub record IsHost (host : HostFloat) : Type 0 where
  pub arith_fits : (op : FpOp) (rm : Rounding) (a b : ℕ) → (host.arith op rm a b).bits < 2 ^ 32
  pub to_u32_fits : (a : ℕ) → host.to_u32 a < 2 ^ 32
  pub to_s32_fits : (a : ℕ) → host.to_s32 a < 2 ^ 32
  pub of_u32_fits : (rm : Rounding) (a : ℕ) → (host.of_u32 rm a).bits < 2 ^ 32
  pub of_s32_fits : (rm : Rounding) (a : ℕ) → (host.of_s32 rm a).bits < 2 ^ 32

pub record FloatFits (r : Csr × ℕ) : Type 0 where
  pub csr : IsCsr r.0
  pub bits : r.1 < 2 ^ 32

choice-FloatFits :
    (c : Bool) {x y : Csr × ℕ} → FloatFits x → FloatFits y → FloatFits (if c then x else y)
choice-FloatFits true h k = h
choice-FloatFits false h k = k

pub pair-FloatFits : {c : Csr} {n : ℕ} → IsCsr c → n < 2 ^ 32 → FloatFits (c, n)
pair-FloatFits h k = record { csr = h; bits = k }

either_csr : (c : Bool) {x y : Csr} → IsCsr x → IsCsr y → IsCsr (if c then x else y)
either_csr true h k = h
either_csr false h k = k

raise_flags-IsCsr : (n : ℕ) (c : Csr) → n < 2 ^ 32 → IsCsr c → IsCsr (raise_flags n c)
raise_flags-IsCsr n c h i =
    let b : bit_or c.fflags n < 2 ^ 32 = bit_or-lt 32 c.fflags n i.fflags_fits h in search

flag : (c : Bool) {f : ℕ} (k : ℕ) → f < 2 ^ 32 → k < 2 ^ 32 → (if c then bit_or f k else f) < 2 ^ 32
flag true {f} k h j = bit_or-lt 32 f k h j
flag false k h j = h

collected-lt : (x : Exceptions) → collected x < 2 ^ 32
unfolding collected
collected-lt x =
    flag x.invalid fp_nv
      (flag x.divbyzero 8
        (flag x.overflow 4
          (flag x.underflow 2 (if-lt x.inexact (omega arith) (omega arith)) (omega arith))
          (omega arith))
        (omega arith))
      (omega arith)

fp_collect_flags-IsCsr : (x : Exceptions) (c : Csr) → IsCsr c → IsCsr (fp_collect_flags x c)
unfolding fp_collect_flags
fp_collect_flags-IsCsr x c i = raise_flags-IsCsr (collected x) c (collected-lt x) i

canonical-lt : (b : ℕ) → b < 2 ^ 32 → canonical b < 2 ^ 32
unfolding canonical
canonical-lt b h = if-lt (bits_is_nan b) (omega arith) h

pub fp_classify-lt : (b : ℕ) → fp_classify b < 2 ^ 32
unfolding fp_classify
fp_classify-lt b = search (if-lt, u32-lt) depth 12

module _ (host : HostFloat) (is_host : IsHost host) (c : Csr) (i : IsCsr c) where
  pub fp_arith-FloatFits : (rm a b : ℕ) (op : FpOp) → FloatFits (fp_arith host c rm op a b)
  unfolding fp_arith
  fp_arith-FloatFits rm a b op =
      pair-FloatFits (fp_collect_flags-IsCsr (host.arith op (host_rounding rm c.frm) a b).flags c i)
        (canonical-lt _ (is_host.arith_fits op (host_rounding rm c.frm) a b))

  pub fp_int_to_float-FloatFits : (rm v : ℕ) (u : Bool) → FloatFits (fp_int_to_float host c rm v u)
  unfolding fp_int_to_float
  fp_int_to_float-FloatFits rm v true =
      pair-FloatFits (fp_collect_flags-IsCsr (host.of_u32 (host_rounding rm c.frm) v).flags c i)
        (canonical-lt _ (is_host.of_u32_fits (host_rounding rm c.frm) v))
  fp_int_to_float-FloatFits rm v false =
      pair-FloatFits (fp_collect_flags-IsCsr (host.of_s32 (host_rounding rm c.frm) v).flags c i)
        (canonical-lt _ (is_host.of_s32_fits (host_rounding rm c.frm) v))

  flagged : (b : Bool) → IsCsr (if b then raise_flags fp_nv c else c)
  flagged b = either_csr b (raise_flags-IsCsr fp_nv c (omega arith) i) i

  pub fp_compare-FloatFits : (f3 a b : ℕ) → FloatFits (fp_compare host c f3 a b)
  unfolding fp_compare
  fp_compare-FloatFits f3 a b =
      let one : 1 < 2 ^ 32 = omega arith in
      let zero : 0 < 2 ^ 32 = omega arith in
      let r = raise_flags-IsCsr fp_nv c (omega arith) i in
      search (choice-FloatFits, pair-FloatFits, flagged, if-lt) depth 10

  pub fp_minmax-FloatFits :
      (a b : ℕ) (m : Bool) → a < 2 ^ 32 → b < 2 ^ 32 → FloatFits (fp_minmax host c a b m)
  unfolding fp_minmax
  fp_minmax-FloatFits a b m ha hb =
      let n : 0x7fc0_0000 < 2 ^ 32 = omega arith in
      let s : (if m then bit_and (bit_and a b) 0x8000_0000 else bit_and (bit_or a b) 0x8000_0000)
          < 2 ^ 32 =
        if-lt m (bit_and-lt 32 (bit_and a b) 0x8000_0000 (bit_and-lt 32 a b ha))
          (bit_and-lt 32 (bit_or a b) 0x8000_0000 (bit_or-lt 32 a b ha hb)) in
      let z =
        bit_or-lt 32
          (if m then bit_and (bit_and a b) 0x8000_0000 else bit_and (bit_or a b) 0x8000_0000)
          (bit_and a 0x7fff_ffff) s (bit_and-lt 32 a 0x7fff_ffff ha) in
      search (choice-FloatFits, pair-FloatFits, flagged) depth 10

  -- What an early return of fp_float_to_int gives.
  record EarlyFits (o : Option (ℕ × ℕ)) : Type 0 where
    flags : (r : ℕ × ℕ) → o ≡ some r → r.0 < 2 ^ 32
    result : (r : ℕ × ℕ) → o ≡ some r → r.1 < 2 ^ 32

  early : (f r : ℕ) → f < 2 ^ 32 → r < 2 ^ 32 → EarlyFits (some (f, r))
  early f r h k = record { flags = λ s e. ground (arith, e); result = λ s e. ground (arith, e) }

  late : EarlyFits none
  late = record { flags = λ s e. cc; result = λ s e. cc }

  choice :
      (b : Bool) {x y : Option (ℕ × ℕ)} → EarlyFits x → EarlyFits y → EarlyFits (if b then x else y)
  choice true h k = h
  choice false h k = k

  out_of_range-EarlyFits : (a : ℕ) (u : Bool) → EarlyFits (out_of_range host a u)
  unfolding out_of_range
  out_of_range-EarlyFits a u =
      let n : (if u then 0xffff_ffff else 0x7fff_ffff) < 2 ^ 32 =
        if-lt u (omega arith) (omega arith) in
      let e1 = early fp_nv (if u then 0xffff_ffff else 0x7fff_ffff) (omega arith) n in
      let e2 = early fp_nv 0 (omega arith) (omega arith) in
      let e3 = early 0 0 (omega arith) (omega arith) in
      let e4 = early fp_nv 0xffff_ffff (omega arith) (omega arith) in
      let e5 = early fp_nv 0x7fff_ffff (omega arith) (omega arith) in
      let e6 = early fp_nv 0x8000_0000 (omega arith) (omega arith) in
      let l = late in search choice depth 10

  rounded : (rm a : ℕ) (u : Bool) → Csr × ℕ
  rounded rm a u =
      let r = host.nearbyint (host_rounding rm c.frm) a in
      let c1 = fp_collect_flags r.flags c in
      (
        if host.equal r.bits a then c1 else raise_flags fp_nx c1,
        if u then host.to_u32 r.bits else host.to_s32 r.bits,
      )

  rounded-FloatFits : (rm a : ℕ) (u : Bool) → FloatFits (rounded rm a u)
  unfolding rounded
  rounded-FloatFits rm a u =
      let r = host.nearbyint (host_rounding rm c.frm) a in
      let c1 = fp_collect_flags-IsCsr r.flags c i in
      pair-FloatFits
        (either_csr (host.equal r.bits a) c1
          (raise_flags-IsCsr fp_nx (fp_collect_flags r.flags c) (omega arith) c1))
        (if-lt u (is_host.to_u32_fits r.bits) (is_host.to_s32_fits r.bits))

  converted :
      (o : Option (ℕ × ℕ)) (r : Csr × ℕ)
      → EarlyFits o
      → FloatFits r
      → FloatFits (elim o as (λ _. Csr × ℕ) [
        | some x ↦ (if x.0 == 0 then c else raise_flags x.0 c, x.1)
        | none ↦ r
      ])
  converted (some x) r o f =
      pair-FloatFits (either_csr (x.0 == 0) i (raise_flags-IsCsr x.0 c (o.flags x refl) i))
        (o.result x refl)
  converted none r o f = f

  pub fp_float_to_int-FloatFits : (rm a : ℕ) (u : Bool) → FloatFits (fp_float_to_int host c rm a u)
  unfolding fp_float_to_int rounded
  fp_float_to_int-FloatFits rm a u =
      converted (out_of_range host a u) (rounded rm a u) (out_of_range-EarlyFits a u)
        (rounded-FloatFits rm a u)

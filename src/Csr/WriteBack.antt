-- ===== src/Csr/WriteBack.antt =====
-- Registers of src/csr.c that are written back with the value that they read as.
use rv32i_emu.Base.{
  ℕ, zero, suc, ◌+◌, ◌*◌, ◌/◌, ◌%◌, ◌^◌, ◌<◌, ◌≡◌, refl, ap, true, false, Option, none, some, arith,
  not32, u32, bit_and, bit_or, ◌<<<◌, ◌>>>◌,
}
use mathlib.Core.Bool.{xor}
use native.Mathlib.Nat.{pow-suc}
use rv32i_emu.Base.Bits.{
  test_bit, test_bit-and, test_bit-or, test_bit-not32, test_bit_above, bit_and-lt, bit_or-lt,
  and_low, and_field, or_above,
}
use rv32i_emu.Csr.Constants.{sstatus_mask}
use rv32i_emu.Csr.{Csr, CsrName, csr_name, read_named, csr_read, satp_value, write_named, csr_write}
use rv32i_emu.Invariant.CsrLaws.{IsCsr}

-- Numbers with the same digits are equal.
digits_equal : (w a b : ℕ) → a < 2 ^ w → b < 2 ^ w → ((i : ℕ) → test_bit a i ≡ test_bit b i) → a ≡ b
unfolding test_bit
digits_equal zero a b h k e = omega arith
digits_equal (suc w) a b h k e =
    let r : a / 2 ≡ b / 2 =
      digits_equal w (a / 2) (b / 2) (omega (arith, pow-suc 2 w)) (omega (arith, pow-suc 2 w))
        (λ i. e (suc i)) in
    ground (arith, e 0)

and_again : (v m : ℕ) → v < 2 ^ 32 → bit_and (bit_and v m) m ≡ bit_and v m
and_again v m h =
    let k = bit_and-lt 32 v m h in
    digits_equal 32 (bit_and (bit_and v m) m) (bit_and v m) (bit_and-lt 32 (bit_and v m) m k) k
      (λ i. ground (arith, test_bit-and (bit_and v m) m i, test_bit-and v m i))

and_self : (v : ℕ) → v < 2 ^ 32 → bit_and v v ≡ v
and_self v h =
    digits_equal 32 (bit_and v v) v (bit_and-lt 32 v v h) h
      (λ i. ground (arith, test_bit-and v v i))

-- The bits outside the mask from the register, those inside from the same register.
merge_same : (s m : ℕ) → s < 2 ^ 32 → bit_or (bit_and s (not32 m)) (bit_and (bit_and s m) m) ≡ s
unfolding xor
merge_same s m h =
    let k = bit_and-lt 32 s (not32 m) h in
    let l = bit_and-lt 32 s m h in
    let r = bit_or (bit_and s (not32 m)) (bit_and s m) in
    rw (and_again s m h) (
      digits_equal 32 r s (bit_or-lt 32 (bit_and s (not32 m)) (bit_and s m) k l) h (λ i. ground (
        arith,
        test_bit-or (bit_and s (not32 m)) (bit_and s m) i,
        test_bit-and s (not32 m) i,
        test_bit-and s m i,
        test_bit-not32 m i,
        test_bit_above 32 s i h,
      )))

satp_again : (v : ℕ) → v < 2 ^ 32 → satp_value (satp_value v) ≡ satp_value v
unfolding satp_value
satp_again v h =
    let k : bit_and v 0xffff_ffff ≡ v = ground (arith, and_low 32 v) in rw k (ground (arith, k))

mcycle_parts :
    (c v : ℕ)
    → v < 2 ^ 32
    → bit_or (bit_and c 0xffff_ffff_0000_0000) v ≡ c / 2 ^ 32 % 2 ^ 32 * 2 ^ 32 + v
mcycle_parts c v h = ground (arith, and_field 32 32 c, or_above 32 (c / 2 ^ 32 % 2 ^ 32) v h)

fcsr_parts :
    (r f : ℕ) → r < 8 → f < 32 → bit_or (bit_and r 0x7 <<< 5) (bit_and f 0x1f) ≡ r * 2 ^ 5 + f
fcsr_parts r f h k = ground (arith, and_low 3 r, and_low 5 f, or_above 5 r f k)

module _ (v : ℕ) where
  -- What fcsr reads as after a write.
  fcsr_again :
      bit_or (bit_and (bit_and (v >>> 5) 0x7) 0x7 <<< 5) (bit_and (bit_and v 0x1f) 0x1f)
      ≡ bit_and (v >>> 5) 0x7 * 2 ^ 5 + bit_and v 0x1f
  fcsr_again =
      fcsr_parts (bit_and (v >>> 5) 0x7) (bit_and v 0x1f) (ground (arith, and_low 3 (v >>> 5)))
        (ground (arith, and_low 5 v))

  flags_again :
      bit_and
        (bit_or (bit_and (bit_and (v >>> 5) 0x7) 0x7 <<< 5) (bit_and (bit_and v 0x1f) 0x1f))
        0x1f
      ≡ bit_and v 0x1f
  flags_again =
      rw fcsr_again
        (ground (arith, and_low 5 v, and_low 5 (bit_and (v >>> 5) 0x7 * 2 ^ 5 + bit_and v 0x1f)))

  rounding_again :
      bit_and
        (bit_or (bit_and (bit_and (v >>> 5) 0x7) 0x7 <<< 5) (bit_and (bit_and v 0x1f) 0x1f) >>> 5)
        0x7
      ≡ bit_and (v >>> 5) 0x7
  rounding_again = rw fcsr_again (
      ground (
        arith,
        and_low 5 v,
        and_low 3 (v >>> 5),
        and_low 3 ((bit_and (v >>> 5) 0x7 * 2 ^ 5 + bit_and v 0x1f) >>> 5),
      ))

-- mcycle: the upper half of the register and the value.
mcycle_again :
    (c v : ℕ)
    → v < 2 ^ 32
    → bit_or
        (bit_and (bit_or (bit_and c 0xffff_ffff_0000_0000) v) 0xffff_ffff_0000_0000)
        (u32 (bit_and (bit_or (bit_and c 0xffff_ffff_0000_0000) v) 0xffff_ffff))
      ≡ bit_or (bit_and c 0xffff_ffff_0000_0000) v
mcycle_again c v h =
    let s : ℕ = c / 2 ^ 32 % 2 ^ 32 * 2 ^ 32 + v in
    let l : u32 (bit_and s 0xffff_ffff) ≡ v = ground (arith, and_low 32 s) in
    rw (mcycle_parts c v h, l) (ground (arith, mcycle_parts s v h))

named_again :
    (c : Csr) (n : CsrName) (v : ℕ)
    → IsCsr c
    → v < 2 ^ 32
    → write_named (write_named c n v) n (read_named (write_named c n v) n) ≡ write_named c n v
unfolding write_named read_named
named_again c CsrName.sstatus v i h =
    let k = bit_and-lt 32 c.mstatus (not32 sstatus_mask) i.mstatus_fits in
    let s = bit_or (bit_and c.mstatus (not32 sstatus_mask)) (bit_and v sstatus_mask) in
    let l : s < 2 ^ 32 =
      bit_or-lt 32 (bit_and c.mstatus (not32 sstatus_mask)) (bit_and v sstatus_mask) k
        (bit_and-lt 32 v sstatus_mask h) in
    ap (λ (x : ℕ). record c { mstatus = x }) (merge_same s sstatus_mask l)
named_again c CsrName.sie v i h = refl
named_again c CsrName.stvec v i h = ap (λ (x : ℕ). record c { stvec = x }) (and_again v (not32 3) h)
named_again c CsrName.sscratch v i h = refl
named_again c CsrName.sepc v i h = ap (λ (x : ℕ). record c { sepc = x }) (and_again v (not32 3) h)
named_again c CsrName.scause v i h = refl
named_again c CsrName.stval v i h = refl
named_again c CsrName.sip v i h =
    ap (λ (x : ℕ). record c { sip = x })
      (and_self (bit_and c.sip v) (bit_and-lt 32 c.sip v i.sip_fits))
named_again c CsrName.satp v i h = ap (λ (x : ℕ). record c { satp = x }) (satp_again v h)
named_again c CsrName.fflags v i h =
    ap (λ (x : ℕ). record c { fflags = x }) (ground (arith, and_again v 0x1f h))
named_again c CsrName.frm v i h =
    ap (λ (x : ℕ). record c { frm = x }) (ground (arith, and_again v 0x7 h))
named_again c CsrName.fcsr v i h = rw (flags_again v, rounding_again v) refl
named_again c CsrName.mstatus v i h = refl
named_again c CsrName.medeleg v i h =
    ap (λ (x : ℕ). record c { medeleg = x }) (and_again v 0xffff h)
named_again c CsrName.mideleg v i h =
    ap (λ (x : ℕ). record c { mideleg = x }) (and_again v 0xffff h)
named_again c CsrName.mie v i h = refl
named_again c CsrName.mtvec v i h = ap (λ (x : ℕ). record c { mtvec = x }) (and_again v (not32 3) h)
named_again c CsrName.mscratch v i h = refl
named_again c CsrName.mepc v i h = ap (λ (x : ℕ). record c { mepc = x }) (and_again v (not32 3) h)
named_again c CsrName.mcause v i h = refl
named_again c CsrName.mtval v i h = refl
named_again c CsrName.mip v i h =
    ap (λ (x : ℕ). record c { mip = x })
      (and_self (bit_and c.mip v) (bit_and-lt 32 c.mip v i.mip_fits))
named_again c CsrName.mcycle v i h =
    ap (λ (x : ℕ). record c { mcycle = x }) (mcycle_again c.mcycle v h)

by_name :
    (c : Csr) (addr v : ℕ) (o : Option CsrName)
    → csr_name addr ≡ o
    → IsCsr c
    → v < 2 ^ 32
    → csr_write (csr_write c addr v).0 addr (csr_read (csr_write c addr v).0 addr).0
      ≡ csr_write c addr v
unfolding csr_write csr_read
by_name c addr v (some n) e i h =
    let c' = write_named c n v in
    let w : csr_write c addr v ≡ (c', true) = rw (csr_write, e) refl in
    let r : csr_read c' addr ≡ (read_named c' n, true) = rw (csr_read, e) refl in
    let w' : csr_write c' addr (read_named c' n) ≡ (write_named c' n (read_named c' n), true) =
      rw (csr_write, e) refl in
    rw (w, r, w') (ap (λ (x : Csr). (x, true)) (named_again c n v i h))
by_name c addr v none e i h =
    let w : csr_write c addr v ≡ (c, false) = rw (csr_write, e) refl in
    let w' : csr_write c addr (csr_read c addr).0 ≡ (c, false) = rw (csr_write, e) refl in
    rw (w, w') refl

-- A value that a register reads as after a write can be written back: the second write succeeds and
-- fails as the first, and changes no register, whatever bits of the value the first write dropped.
pub csr_write-csr_read :
    (c : Csr) (addr v : ℕ)
    → IsCsr c
    → v < 2 ^ 32
    → csr_write (csr_write c addr v).0 addr (csr_read (csr_write c addr v).0 addr).0
      ≡ csr_write c addr v
csr_write-csr_read c addr v i h = by_name c addr v (csr_name addr) refl i h

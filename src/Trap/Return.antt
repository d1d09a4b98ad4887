-- ===== src/Trap/Return.antt =====
-- mret and sret of src/trap.c against the trap entries they return from.
use rv32i_emu.Base.{
  ℕ, ◌*◌, ◌/◌, ◌%◌, ◌^◌, ◌<◌, ◌≡◌, ◌∙◌, ap, true, false, not, ◌&&◌, ◌||◌, arith, ◌==◌,
  if◌then◌else◌, nonzero, not32, bit_and, bit_or,
}
use rv32i_emu.Base.Bits.{
  test_bit, and_field, and_bit, test_bit-set, test_bit-clear, bit_or-zero, set-lt,
}
use rv32i_emu.Machine.{Emulator}
use rv32i_emu.Trap.{
  copy_bit, enter_m, enter_s, enter_s_mstatus, enter_m_mstatus, trap_raise, trap_mret, trap_sret,
  is_delegated,
}
use rv32i_emu.Trap.Mstatus.{
  copy_bit-at, copy_bit-lt, clear_mpp-at, enter_m_mstatus-at, enter_s_mstatus-at,
  enter_m_mstatus-lt, enter_s_mstatus-lt, mpp_of_bits,
}

-- What mret makes of mstatus: MIE takes MPIE, MPIE becomes 1, MPP becomes 0, and every other bit
-- stays.
pub trap_mret_mstatus :
    (e : Emulator) (i : ℕ)
    → e.csr.mstatus < 2 ^ 32
    → test_bit ((trap_mret e).0.csr.mstatus) i ≡ (
        if 3 == i
        then test_bit e.csr.mstatus 7
        else if 7 == i
        then true
        else if 11 == i || 12 == i
        then false
        else test_bit e.csr.mstatus i)
unfolding trap_mret
trap_mret_mstatus e i h =
    let m = e.csr.mstatus in
    let m1 = copy_bit 128 8 m in
    let m2 = bit_or m1 128 in
    let b1 : m1 < 2 ^ 32 = copy_bit-lt 7 3 m h (omega arith) in
    let b2 : m2 < 2 ^ 32 = set-lt 7 m1 b1 (omega arith) in
    let e1 : test_bit m1 i ≡ (if 3 == i then test_bit m 7 else test_bit m i) =
      copy_bit-at 7 3 m i h (omega arith) in
    let e2 : test_bit m2 i ≡ (test_bit m1 i || 7 == i) = test_bit-set 7 m1 i in
    ap (λ (t : ℕ). test_bit t i) (bit_or-zero (bit_and m2 (not32 6144)))
    ∙ clear_mpp-at m2 i b2
    ∙ ground (arith, e1, e2)

-- The privilege mret goes to is the field MPP, whatever it holds.
pub trap_mret_priv :
    (e : Emulator) → e.csr.mstatus < 2 ^ 32 → (trap_mret e).0.priv ≡ e.csr.mstatus / 2 ^ 11 % 4
unfolding trap_mret
trap_mret_priv e h =
    let m = e.csr.mstatus in
    let m1 = copy_bit 128 8 m in
    let m2 = bit_or m1 128 in
    let at : (i : ℕ) → test_bit m2 i ≡ ((if 3 == i then test_bit m 7 else test_bit m i) || 7 == i) =
      λ i. test_bit-set 7 m1 i ∙ ap (λ b. b || 7 == i) (copy_bit-at 7 3 m i h (omega arith)) in
    let f : bit_and m2 6144 ≡ m2 / 2 ^ 11 % 4 * 2 ^ 11 = and_field 11 2 m2 in
    let a11 : test_bit m2 11 ≡ test_bit m 11 = at 11 ∙ ground arith in
    let a12 : test_bit m2 12 ≡ test_bit m 12 = at 12 ∙ ground arith in
    let q : m2 / 2 ^ 11 % 4 ≡ m / 2 ^ 11 % 4 =
      ground (arith, mpp_of_bits m2, mpp_of_bits m, a11, a12) in
    ground (arith, f, q)

-- The trap vector's alignment mask, `& ~3`.
align4 : (x : ℕ) → x < 2 ^ 32 → bit_and x (not32 3) ≡ x / 4 * 4
align4 x h = and_field 2 30 x ∙ omega arith

module _ (cause tval epc : ℕ) (e : Emulator) (priv_fits : e.priv < 4) (epc_fits : epc < 2 ^ 32)
    (fits : e.csr.mstatus < 2 ^ 32) where
  enter_m-mret_priv : (trap_mret (enter_m cause tval epc e)).0.priv ≡ e.priv
  unfolding enter_m test_bit
  enter_m-mret_priv =
      let m = enter_m_mstatus e.priv e.csr.mstatus in
      let a11 : test_bit m 11 ≡ test_bit e.priv 0 =
        enter_m_mstatus-at e.priv e.csr.mstatus 11 priv_fits fits in
      let a12 : test_bit m 12 ≡ test_bit e.priv 1 =
        enter_m_mstatus-at e.priv e.csr.mstatus 12 priv_fits fits in
      trap_mret_priv (enter_m cause tval epc e) (enter_m_mstatus-lt e.priv e.csr.mstatus fits)
      ∙ ground (arith, mpp_of_bits m, a11, a12)

  enter_m-mret_mstatus :
      (i : ℕ)
      → test_bit (trap_mret (enter_m cause tval epc e)).0.csr.mstatus i
        ≡ (if 7 == i then true else if 11 == i || 12 == i then false else test_bit e.csr.mstatus i)
  unfolding enter_m
  enter_m-mret_mstatus i =
      let at : (j : ℕ)
          → test_bit (enter_m_mstatus e.priv e.csr.mstatus) j ≡ (
              if 3 == j
              then false
              else if 7 == j
              then test_bit e.csr.mstatus 3
              else if 11 == j
              then test_bit e.priv 0
              else if 12 == j
              then test_bit e.priv 1
              else test_bit e.csr.mstatus j) =
        λ j. enter_m_mstatus-at e.priv e.csr.mstatus j priv_fits fits in
      trap_mret_mstatus (enter_m cause tval epc e) i (enter_m_mstatus-lt e.priv e.csr.mstatus fits)
      ∙ ground (arith, at 7, at i)

  enter_m-mret_pc : (trap_mret (enter_m cause tval epc e)).1 ≡ epc / 4 * 4
  unfolding enter_m trap_mret
  enter_m-mret_pc = align4 epc epc_fits

-- A trap into M-mode, then mret: the privilege is the one before the trap, MIE is what it was, MPIE
-- is 1 and MPP is 0, every other bit of mstatus stays, and execution goes on at the trapped pc
-- rounded down to a multiple of 4.
pub trap_raise-trap_mret :
    (cause tval epc : ℕ) (e : Emulator) {e' : Emulator}
    → e.priv < 4
    → epc < 2 ^ 32
    → e.csr.mstatus < 2 ^ 32
    → is_delegated cause e ≡ false
    → trap_raise cause tval epc e ≡ (e', true)
    → ((trap_mret e').0.priv ≡ e.priv)
      × ((trap_mret e').1 ≡ epc / 4 * 4)
      × ((i : ℕ)
          → test_bit (trap_mret e').0.csr.mstatus i ≡ (
              if 7 == i
              then true
              else if 11 == i || 12 == i
              then false
              else test_bit e.csr.mstatus i))
unfolding trap_raise
trap_raise-trap_mret cause tval epc e {e'} p q m d r =
    let same : enter_m cause tval epc e ≡ e' = ground (arith, d, r) in
    rw (← same) (
      enter_m-mret_priv cause tval epc e p q m,
      enter_m-mret_pc cause tval epc e p q m,
      enter_m-mret_mstatus cause tval epc e p q m,
    )

pub trap_sret_mstatus :
    (e : Emulator) (i : ℕ)
    → e.csr.mstatus < 2 ^ 32
    → test_bit ((trap_sret e).0.csr.mstatus) i ≡ (
        if 1 == i
        then test_bit e.csr.mstatus 5
        else if 5 == i
        then true
        else if 8 == i
        then false
        else test_bit e.csr.mstatus i)
unfolding trap_sret
trap_sret_mstatus e i h =
    let m = e.csr.mstatus in
    let m1 = copy_bit 32 2 m in
    let m2 = bit_or m1 32 in
    let b1 : m1 < 2 ^ 32 = copy_bit-lt 5 1 m h (omega arith) in
    let b2 : m2 < 2 ^ 32 = set-lt 5 m1 b1 (omega arith) in
    let e1 : test_bit m1 i ≡ (if 1 == i then test_bit m 5 else test_bit m i) =
      copy_bit-at 5 1 m i h (omega arith) in
    let e2 : test_bit m2 i ≡ (test_bit m1 i || 5 == i) = test_bit-set 5 m1 i in
    let e3 : test_bit (bit_and m2 (not32 256)) i ≡ (test_bit m2 i && not (8 == i)) =
      test_bit-clear 8 m2 i b2 (omega arith) in
    ground (arith, e1, e2, e3)

pub trap_sret_priv :
    (e : Emulator)
    → e.csr.mstatus < 2 ^ 32
    → (trap_sret e).0.priv ≡ (if test_bit e.csr.mstatus 8 then 1 else 0)
unfolding trap_sret
trap_sret_priv e h =
    let m = e.csr.mstatus in
    let m1 = copy_bit 32 2 m in
    let m2 = bit_or m1 32 in
    let e1 : test_bit m1 8 ≡ test_bit m 8 = copy_bit-at 5 1 m 8 h (omega arith) in
    let e2 : test_bit m2 8 ≡ (test_bit m1 8 || 5 == 8) = test_bit-set 5 m1 8 in
    let e3 : nonzero (bit_and m2 256) ≡ test_bit m2 8 = and_bit 8 m2 in ground (arith, e1, e2, e3)

-- A trap into S-mode, then sret: the privilege is the one before the trap, SIE is what it was, SPIE
-- is 1 and SPP is 0, every other bit of mstatus stays, and execution goes on at the trapped pc
-- rounded down to a multiple of 4.
pub trap_raise-trap_sret :
    (cause tval epc : ℕ) (e : Emulator) {e' : Emulator}
    → epc < 2 ^ 32
    → e.csr.mstatus < 2 ^ 32
    → is_delegated cause e ≡ true
    → trap_raise cause tval epc e ≡ (e', true)
    → ((trap_sret e').0.priv ≡ e.priv)
      × ((trap_sret e').1 ≡ epc / 4 * 4)
      × ((i : ℕ)
          → test_bit (trap_sret e').0.csr.mstatus i
            ≡ (if 5 == i then true else if 8 == i then false else test_bit e.csr.mstatus i))
unfolding trap_raise is_delegated enter_s trap_sret
trap_raise-trap_sret cause tval epc e {e'} q h d r =
    let same : enter_s cause tval epc e ≡ e' = ground (arith, d, r) in
    let low : e.priv < 2 = ground arith in
    let m = enter_s_mstatus e.priv e.csr.mstatus in
    let at : (j : ℕ)
        → test_bit m j ≡ (
            if 1 == j
            then false
            else if 5 == j
            then test_bit e.csr.mstatus 1
            else if 8 == j
            then e.priv == 1
            else test_bit e.csr.mstatus j) =
      λ j. enter_s_mstatus-at e.priv e.csr.mstatus j low h in
    let b = enter_s_mstatus-lt e.priv e.csr.mstatus h in
    rw (← same) (
      trap_sret_priv (enter_s cause tval epc e) b ∙ ground (arith, at 8),
      align4 epc q,
      λ i. trap_sret_mstatus (enter_s cause tval epc e) i b ∙ ground (arith, at 5, at i),
    )

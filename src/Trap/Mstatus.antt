-- ===== src/Trap/Mstatus.antt =====
-- The bits of mstatus under the traps and returns of src/trap.c.
use rv32i_emu.Base.{
  ℕ, zero, suc, ◌+◌, ◌/◌, ◌%◌, ◌^◌, ◌<◌, ◌≡◌, refl, ◌∙◌, false, not, ◌&&◌, ◌||◌, arith, ◌==◌,
  if◌then◌else◌, not32, bit_and, bit_or, ◌<<<◌,
}
use mathlib.Core.Bool.{xor}
use rv32i_emu.Base.Bits.{
  test_bit, test_bit-zero, test_bit-and, test_bit-or, test_bit-pow, and_bit, test_bit-set,
  test_bit-clear, test_bit-not32, test_bit_above, bit_and-lt, bit_or-lt, clear-lt, set-lt,
}
use rv32i_emu.Trap.{copy_bit, enter_s_mstatus, enter_m_mstatus}

pub copy_bit-at :
    (j k m i : ℕ)
    → m < 2 ^ 32
    → k < 32
    → test_bit (copy_bit (2 ^ j) (2 ^ k) m) i ≡ (if k == i then test_bit m j else test_bit m i)
copy_bit-at j k m i h hk =
    ground (arith, and_bit j m, test_bit-set k m i, test_bit-clear k m i h hk)

pub copy_bit-lt : (j k m : ℕ) → m < 2 ^ 32 → k < 32 → copy_bit (2 ^ j) (2 ^ k) m < 2 ^ 32
copy_bit-lt j k m h hk = ground (arith, set-lt k m h hk, clear-lt k m h)

pub test_bit-mpp_mask : (i : ℕ) → test_bit 6144 i ≡ (11 == i || 12 == i)
test_bit-mpp_mask i =
    test_bit-or (2 ^ 11) (2 ^ 12) i ∙ rw (test_bit-pow 11 i, test_bit-pow 12 i) refl

mpp_bits :
    (p i : ℕ)
    → p < 4
    → test_bit (bit_and p 3 <<< 11) i
      ≡ (if 11 == i then test_bit p 0 else if 12 == i then test_bit p 1 else false)
unfolding test_bit
mpp_bits zero i h = test_bit-zero i ∙ ground arith
mpp_bits (suc zero) i h = test_bit-pow 11 i ∙ ground arith
mpp_bits (suc (suc zero)) i h = test_bit-pow 12 i ∙ ground arith
mpp_bits (suc (suc (suc zero))) i h = test_bit-mpp_mask i ∙ ground arith
mpp_bits (suc (suc (suc (suc p)))) i h = absurd (omega arith)

pub clear_mpp-at :
    (m i : ℕ)
    → m < 2 ^ 32
    → test_bit (bit_and m (not32 6144)) i ≡ (test_bit m i && not (11 == i) && not (12 == i))
unfolding xor
clear_mpp-at m i h = ground (
  arith,
  test_bit-and m (not32 6144) i,
  test_bit-not32 6144 i,
  test_bit-mpp_mask i,
  test_bit_above 32 m i,
)

pub enter_m_mstatus-at :
    (p m i : ℕ)
    → p < 4
    → m < 2 ^ 32
    → test_bit (enter_m_mstatus p m) i ≡ (
        if 3 == i
        then false
        else if 7 == i
        then test_bit m 3
        else if 11 == i
        then test_bit p 0
        else if 12 == i
        then test_bit p 1
        else test_bit m i)
unfolding enter_m_mstatus
enter_m_mstatus-at p m i hp h =
    let m1 = copy_bit 8 128 m in
    let m2 = bit_and m1 (not32 8) in
    let b1 : m1 < 2 ^ 32 = copy_bit-lt 3 7 m h (omega arith) in
    let b2 : m2 < 2 ^ 32 = clear-lt 3 m1 b1 in
    let e1 : test_bit m1 i ≡ (if 7 == i then test_bit m 3 else test_bit m i) =
      copy_bit-at 3 7 m i h (omega arith) in
    let e2 : test_bit m2 i ≡ (test_bit m1 i && not (3 == i)) =
      test_bit-clear 3 m1 i b1 (omega arith) in
    test_bit-or (bit_and m2 (not32 6144)) (bit_and p 3 <<< 11) i
    ∙ rw (clear_mpp-at m2 i b2, mpp_bits p i hp, e2, e1) (ground arith)

pub enter_m_mstatus-lt : (p m : ℕ) → m < 2 ^ 32 → enter_m_mstatus p m < 2 ^ 32
unfolding enter_m_mstatus
enter_m_mstatus-lt p m h =
    bit_or-lt 32 _ _
      (bit_and-lt 32 _ _ (clear-lt 3 (copy_bit 8 128 m) (copy_bit-lt 3 7 m h (omega arith))))
      (omega arith)

pub enter_s_mstatus-at :
    (p m i : ℕ)
    → p < 2
    → m < 2 ^ 32
    → test_bit (enter_s_mstatus p m) i ≡ (
        if 1 == i
        then false
        else if 5 == i
        then test_bit m 1
        else if 8 == i
        then p == 1
        else test_bit m i)
unfolding enter_s_mstatus
enter_s_mstatus-at p m i hp h =
    let m1 = copy_bit 2 32 m in
    let m2 = bit_and m1 (not32 2) in
    let b1 : m1 < 2 ^ 32 = copy_bit-lt 1 5 m h (omega arith) in
    let b2 : m2 < 2 ^ 32 = clear-lt 1 m1 b1 in
    let e1 : test_bit m1 i ≡ (if 5 == i then test_bit m 1 else test_bit m i) =
      copy_bit-at 1 5 m i h (omega arith) in
    let e2 : test_bit m2 i ≡ (test_bit m1 i && not (1 == i)) =
      test_bit-clear 1 m1 i b1 (omega arith) in
    let s : test_bit (bit_or m2 256) i ≡ (test_bit m2 i || 8 == i) = test_bit-set 8 m2 i in
    let c : test_bit (bit_and m2 (not32 256)) i ≡ (test_bit m2 i && not (8 == i)) =
      test_bit-clear 8 m2 i b2 (omega arith) in
    ground (arith, e1, e2, s, c)

pub enter_s_mstatus-lt : (p m : ℕ) → m < 2 ^ 32 → enter_s_mstatus p m < 2 ^ 32
unfolding enter_s_mstatus
enter_s_mstatus-lt p m h =
    let m2 = bit_and (copy_bit 2 32 m) (not32 2) in
    let b2 : m2 < 2 ^ 32 = clear-lt 1 (copy_bit 2 32 m) (copy_bit-lt 1 5 m h (omega arith)) in
    let s : bit_or m2 256 < 2 ^ 32 = set-lt 8 m2 b2 (omega arith) in
    let c : bit_and m2 (not32 256) < 2 ^ 32 = clear-lt 8 m2 b2 in ground (arith, s, c)

-- The field MPP from its two bits.
pub mpp_of_bits :
    (m : ℕ) → m / 2 ^ 11 % 4 ≡ (if test_bit m 11 then 1 else 0) + (if test_bit m 12 then 2 else 0)
unfolding test_bit
mpp_of_bits m = ground arith

-- ===== src/Base/Bits/Bytes.antt =====
-- Little-endian words of bytes.
use Prim.Native.Nat.{ℕ, ◌+◌, ◌*◌, ◌%◌, ◌<◌, bit_and, bit_or}
use mathlib.Core.Path.{◌≡◌}
use native.Mathlib.Omega.{arith}
use rv32i_emu.Base.Word.{u8, ◌<<<◌}
use rv32i_emu.Base.Bits.Fields.{or_below, and_low}

pub join_bytes :
    (b0 b1 b2 b3 : ℕ)
    → b0 < 256
    → b1 < 256
    → b2 < 256
    → b3 < 256
    → bit_or (bit_or (bit_or b0 (b1 <<< 8)) (b2 <<< 16)) (b3 <<< 24)
      ≡ b3 * 0x100_0000 + b2 * 0x1_0000 + b1 * 0x100 + b0
join_bytes b0 b1 b2 b3 h0 h1 h2 h3 = ground (
  arith,
  or_below 8 b1 b0 (omega arith),
  or_below 16 b2 (b1 * 0x100 + b0) (omega arith),
  or_below 24 b3 (b2 * 0x1_0000 + (b1 * 0x100 + b0)) (omega arith),
)

pub join_two : (b0 b1 : ℕ) → b0 < 256 → b1 < 256 → bit_or b0 (b1 <<< 8) ≡ b1 * 0x100 + b0
join_two b0 b1 h0 h1 = ground (arith, or_below 8 b1 b0 (omega arith))

-- Byte k of a word, as a store computes it.
pub low_byte : (x : ℕ) → u8 (bit_and x 0xff) ≡ x % 256
low_byte x = omega (arith, and_low 8 x)

-- ===== src/Invariant/Accesses.antt =====
-- The values read from memory are bytes, halfwords and words, and writes keep bytes bytes:
-- src/memory.c.
use rv32i_emu.Base.{ℕ, ◌+◌, ◌^◌, ◌<◌, ◌≡◌, arith, update, bit_or, bit_and, ◌<<<◌, ◌>>>◌, u16, u8}
use rv32i_emu.Base.Bits.{bit_or-lt}
use rv32i_emu.Memory.{
  Memory, ok, memory_read8, memory_read16, memory_read32, memory_write8, memory_write16,
}
use rv32i_emu.Memory.Laws.{IsMemory, checked_ok}

module _ (m : Memory) (addr : ℕ) (i : IsMemory m) where
  pub memory_read8-lt : {v : ℕ} → memory_read8 m addr ≡ ok v → v < 256
  unfolding memory_read8
  memory_read8-lt {v} h = ground (arith, i.bytes addr)

  pub memory_read16-lt : {v : ℕ} → memory_read16 m addr ≡ ok v → v < 2 ^ 16
  unfolding memory_read16
  memory_read16-lt {v} h =
      let e =
        (checked_ok m addr 2 (u16 (bit_or (m.data_bytes addr) (m.data_bytes (addr + 1) <<< 8)))
          h).1 in
      omega (arith, e)

  pub memory_read32-lt : {v : ℕ} → memory_read32 m addr ≡ ok v → v < 2 ^ 32
  unfolding memory_read32
  memory_read32-lt {v} h =
      let b = i.bytes in
      let w0 = m.data_bytes addr in
      let w1 = m.data_bytes (addr + 1) <<< 8 in
      let w2 = m.data_bytes (addr + 2) <<< 16 in
      let w3 = m.data_bytes (addr + 3) <<< 24 in
      let e = (checked_ok m addr 4 (bit_or (bit_or (bit_or w0 w1) w2) w3) h).1 in
      let l : bit_or (bit_or (bit_or w0 w1) w2) w3 < 2 ^ 32 =
        bit_or-lt 32 (bit_or (bit_or w0 w1) w2) w3
          (bit_or-lt 32 (bit_or w0 w1) w2 (bit_or-lt 32 w0 w1 (omega (arith, b addr)) (omega arith))
            (omega arith))
          (omega arith) in
      omega (arith, e, l)

  pub memory_write8-IsMemory :
      (v : ℕ) {m' : Memory} → v < 256 → memory_write8 m addr v ≡ ok m' → IsMemory m'
  unfolding memory_write8
  memory_write8-IsMemory v {m'} h e = record {
    bytes = λ a. ground (arith, i.bytes a);
    size_fits = ground (arith, i.size_fits);
  }

  pub memory_write16-IsMemory :
      (v : ℕ) {m' : Memory} → memory_write16 m addr v ≡ ok m' → IsMemory m'
  unfolding memory_write16
  memory_write16-IsMemory v {m'} e =
      let bytes =
        update (update m.data_bytes addr (u8 (bit_and v 0xff))) (addr + 1)
          (u8 (bit_and (v >>> 8) 0xff)) in
      let same = (checked_ok m addr 2 (record m { data_bytes = bytes }) e).1 in
      rw (← same) (record { bytes = λ a. ground (arith, i.bytes a); size_fits = i.size_fits })

-- ===== src/Memory/Laws.antt =====
-- The reads and writes of src/memory.c against each other.
use rv32i_emu.Base.{
  ℕ, ◌+◌, ◌-◌, ◌*◌, ◌/◌, ◌%◌, ◌^◌, ◌≤◌, ◌<◌, ◌≡◌, ◌≢◌, ◌⊎◌, refl, ◌∙◌, ap, ◌&&◌, arith, leb, ◌==◌,
  if◌then◌else◌, bit_or, ◌<<<◌, ◌∷◌,
}
use rv32i_emu.Base.Bits.{join_bytes, low_byte}
use rv32i_emu.Memory.{
  Memory, ok, refused, out_of_bounds, csr_mmio_uart, checked, store_word, memory_read8,
  memory_read32, memory_write8, memory_write32,
}

-- What memory_init and every write establish: bytes are bytes, and the size is a u32.
pub record IsMemory (m : Memory) : Type 0 where
  pub bytes : (a : ℕ) → m.data_bytes a < 256
  pub size_fits : m.size < 2 ^ 32

-- A checked access is carried out exactly when all of its bytes exist. It is refused when the
-- range passes the end and the sum does not wrap; a range past the last address is not caught.
pub checked_iff :
    {A : Type 0} (m : Memory) (addr width : ℕ) (a : A)
    → addr < 2 ^ 32
    → width ≤ 4
    → m.size < 2 ^ 32
    → checked m addr width a ≡ (
        if leb (addr + width) m.size
        then ok a
        else if leb (2 ^ 32) (addr + width) && leb (addr + width - 2 ^ 32) m.size
        then out_of_bounds
        else refused)
unfolding checked
checked_iff m addr width a h w s = ground arith

pub checked_ok :
    {A : Type 0} (m : Memory) (addr width : ℕ) (a : A) {b : A}
    → checked m addr width a ≡ ok b
    → (addr + width ≤ m.size) × (a ≡ b)
unfolding checked
checked_ok m addr width a h = ground arith

pub checked_within :
    {A : Type 0} (m : Memory) (addr width : ℕ) (a : A)
    → addr + width ≤ m.size
    → m.size < 2 ^ 32
    → checked m addr width a ≡ ok a
unfolding checked
checked_within m addr width a h s = ground arith

-- Where each byte of a stored word lies.
pub store_word_at :
    (d : ℕ → ℕ) (addr v j : ℕ)
    → store_word d addr v j ≡ (
        if j == addr
        then v % 256
        else if j == addr + 1
        then v / 2 ^ 8 % 256
        else if j == addr + 2
        then v / 2 ^ 16 % 256
        else if j == addr + 3
        then v / 2 ^ 24 % 256
        else d j)
unfolding store_word
store_word_at d addr v j =
    ground (arith, low_byte v, low_byte (v / 2 ^ 8), low_byte (v / 2 ^ 16), low_byte (v / 2 ^ 24))

module _ (m : Memory) (addr v : ℕ) (i : IsMemory m) (v_fits : v < 2 ^ 32) where
  stored_word : Memory
  stored_word = record m { data_bytes = store_word m.data_bytes addr v }

  read32_stored : addr + 4 ≤ m.size → memory_read32 stored_word addr ≡ ok v
  unfolding stored_word memory_read32
  read32_stored h =
      checked_within stored_word addr 4 _ h i.size_fits
      ∙ ap ok (
          ground (
            arith,
            store_word_at m.data_bytes addr v addr,
            store_word_at m.data_bytes addr v (addr + 1),
            store_word_at m.data_bytes addr v (addr + 2),
            store_word_at m.data_bytes addr v (addr + 3),
            join_bytes (v % 256) (v / 2 ^ 8 % 256) (v / 2 ^ 16 % 256) (v / 2 ^ 24 % 256)
                (omega arith) (omega arith) (omega arith) (omega arith),
          ))

-- A 32-bit word that memory_write32 has stored is read back by memory_read32, from the same address.
pub read32-write32 :
    (m : Memory) (addr v : ℕ) {m' : Memory}
    → IsMemory m
    → v < 2 ^ 32
    → memory_write32 m addr v ≡ ok m'
    → memory_read32 m' addr ≡ ok v
unfolding memory_write32 stored_word
read32-write32 m addr v {m'} i h e =
    let (fits, same) = checked_ok m addr 4 (stored_word m addr v i h) e in
    rw (← same) (read32_stored m addr v i h fits)

-- memory_write32 succeeds only inside the array, and then changes the four bytes from addr on and
-- nothing else: no other byte, not the size, not the console.
pub write32_frame :
    (m : Memory) (addr v : ℕ) {m' : Memory}
    → memory_write32 m addr v ≡ ok m'
    → (addr + 4 ≤ m.size)
      × (m'.size ≡ m.size)
      × (m'.console ≡ m.console)
      × ((j : ℕ) → (j < addr) ⊎ (addr + 4 ≤ j) → m'.data_bytes j ≡ m.data_bytes j)
unfolding memory_write32
write32_frame m addr v {m'} e =
    let (fits, same) =
      checked_ok m addr 4 (record m { data_bytes = store_word m.data_bytes addr v }) e in
    (
      fits,
      rw (← same) refl,
      rw (← same) refl,
      λ j far. rw (← same) (ground (arith, store_word_at m.data_bytes addr v j)),
    )

-- A write keeps bytes bytes.
pub write32-IsMemory :
    (m : Memory) (addr v : ℕ) {m' : Memory}
    → IsMemory m
    → memory_write32 m addr v ≡ ok m'
    → IsMemory m'
unfolding memory_write32
write32-IsMemory m addr v i e =
    let (fits, same) =
      checked_ok m addr 4 (record m { data_bytes = store_word m.data_bytes addr v }) e in
    rw (← same) (record {
      bytes = λ a. ground (arith, i.bytes a, store_word_at m.data_bytes addr v a);
      size_fits = i.size_fits;
    })

-- Within the array a 32-bit write always succeeds.
pub write32_within :
    (m : Memory) (addr v : ℕ)
    → addr + 4 ≤ m.size
    → m.size < 2 ^ 32
    → memory_write32 m addr v ≡ ok (record m { data_bytes = store_word m.data_bytes addr v })
unfolding memory_write32
write32_within m addr v h s = checked_within m addr 4 _ h s

-- memory_read32 returns the little-endian word exactly when its four bytes lie in the array. A range
-- that passes the end is refused, but one that passes the last 32-bit address wraps in the check
-- `addr + 4 > size` and is read outside the array.
pub memory_read32_lem :
    (m : Memory) (addr : ℕ)
    → IsMemory m
    → addr < 2 ^ 32
    → memory_read32 m addr ≡ (
        if leb (addr + 4) m.size
        then ok (
            m.data_bytes (addr + 3) * 0x100_0000
            + m.data_bytes (addr + 2) * 0x1_0000
            + m.data_bytes (addr + 1) * 0x100
            + m.data_bytes addr)
        else if leb (2 ^ 32) (addr + 4) && leb (addr + 4 - 2 ^ 32) m.size
        then out_of_bounds
        else refused)
unfolding memory_read32
memory_read32_lem m addr i h = ground (
  arith,
  checked_iff m addr 4 (
      bit_or
        (bit_or (bit_or (m.data_bytes addr) (m.data_bytes (addr + 1) <<< 8))
          (m.data_bytes (addr + 2) <<< 16))
        (m.data_bytes (addr + 3) <<< 24)),
  i.bytes addr,
  i.bytes (addr + 1),
  i.bytes (addr + 2),
  i.bytes (addr + 3),
  join_bytes (m.data_bytes addr) (m.data_bytes (addr + 1)) (m.data_bytes (addr + 2))
      (m.data_bytes (addr + 3)),
)

-- Bytes: memory_write8 then memory_read8, anywhere but at the UART, and the UART write, which
-- reaches the console and no memory.
pub read8-write8 :
    (m : Memory) (addr v : ℕ) {m' : Memory}
    → memory_write8 m addr v ≡ ok m'
    → (addr ≢ csr_mmio_uart → memory_read8 m' addr ≡ ok v)
      × (addr ≡ csr_mmio_uart → m' ≡ record m { console = v ∷ m.console })
unfolding memory_write8 memory_read8
read8-write8 m addr v e = (λ ne. ground arith, λ eq. ground arith)

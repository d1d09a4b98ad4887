-- ===== src/Memory.antt =====
-- src/memory.c and include/memory.h: the flat byte array, its checked reads and writes, and the
-- console behind the UART address.
pub mod Laws
pub mod Load
use rv32i_emu.Base.{
  ℕ, ◌+◌, ◌-◌, ◌*◌, ◌&&◌, List, ◌∷◌, ltb, leb, ◌==◌, if◌then◌else◌, u8, u16, add32, ◌<<<◌, ◌>>>◌,
  bit_and, bit_or, length, get_or, update,
}

-- How a call ends: with a value, with `false` (the bounds check refused it), or with an access
-- outside the array that the check let through, which C leaves undefined.
pub data Access {ℓ} (A : Type ℓ) : Type ℓ where
  ok : A → Access A
  refused out_of_bounds : Access A

-- `console` holds the bytes given to putchar, the last one first.
pub record Memory : Type 0 where
  pub data_bytes : ℕ → ℕ
  pub size : ℕ
  pub console : List ℕ

abbrev pub mem_size : ℕ
mem_size = 1024 * 1024

-- CSR_MMIO_UART of include/csr.h
abbrev pub csr_mmio_uart : ℕ
csr_mmio_uart = 0x2000_0000

unfoldable pub memory_init : List ℕ → Memory
memory_init out = record { data_bytes = λ _. 0; size = mem_size; console = out }

unfoldable pub memory_free : Memory → Memory
memory_free m = record m { data_bytes = λ _. 0; size = 0 }

-- The number of bytes that `memory_load` copies: `addr + len` wraps at 2 ^ 32.
unfoldable pub load_length : Memory → ℕ → ℕ → ℕ
load_length m addr len =
    if ltb m.size (add32 addr len) then (if ltb addr m.size then m.size - addr else 0) else len

-- `memcpy`: the bytes of src at addr, addr + 1, ...
unfoldable pub blit : (ℕ → ℕ) → ℕ → List ℕ → ℕ → ℕ → ℕ
blit bytes addr src len j =
    if leb addr j && ltb j (addr + len) then get_or src (j - addr) 0 else bytes j

-- The file's bytes from the pointer on are `src`; a copy of no byte touches nothing.
unfoldable pub memory_load : Memory → ℕ → List ℕ → ℕ → Access (Memory × ℕ)
unfolding load_length blit
memory_load m addr src len =
    let n = load_length m addr len in
    if n == 0
    then ok (m, 0)
    else if leb (addr + n) m.size && leb n (length src)
    then ok (record m { data_bytes = blit m.data_bytes addr src n }, n)
    else out_of_bounds

-- The check `addr + width > mem->size` as C computes it, then whether the bytes exist.
unfoldable pub checked {ℓ} : {A : Type ℓ} → Memory → ℕ → ℕ → A → Access A
checked m addr width a =
    if ltb m.size (add32 addr width)
    then refused
    else if leb (addr + width) m.size
    then ok a
    else out_of_bounds

unfoldable pub memory_read8 : Memory → ℕ → Access ℕ
memory_read8 m addr = if leb m.size addr then refused else ok (m.data_bytes addr)

unfoldable pub memory_read16 : Memory → ℕ → Access ℕ
unfolding checked
memory_read16 m addr =
    checked m addr 2 (u16 (bit_or (m.data_bytes addr) (m.data_bytes (addr + 1) <<< 8)))

unfoldable pub memory_read32 : Memory → ℕ → Access ℕ
unfolding checked
memory_read32 m addr = checked m addr 4 (
    bit_or
      (bit_or (bit_or (m.data_bytes addr) (m.data_bytes (addr + 1) <<< 8))
        (m.data_bytes (addr + 2) <<< 16))
      (m.data_bytes (addr + 3) <<< 24))

unfoldable pub memory_write8 : Memory → ℕ → ℕ → Access Memory
memory_write8 m addr val =
    if addr == csr_mmio_uart
    then ok (record m { console = val ∷ m.console })
    else if leb m.size addr
    then refused
    else ok (record m { data_bytes = update m.data_bytes addr val })

unfoldable pub memory_write16 : Memory → ℕ → ℕ → Access Memory
unfolding checked
memory_write16 m addr val = checked m addr 2 (record m {
  data_bytes =
      update (update m.data_bytes addr (u8 (bit_and val 0xff))) (addr + 1)
        (u8 (bit_and (val >>> 8) 0xff));
})

-- The four assignments of a 32-bit write.
unfoldable pub store_word : (ℕ → ℕ) → ℕ → ℕ → ℕ → ℕ
store_word bytes addr val =
    update
      (update
        (update (update bytes addr (u8 (bit_and val 0xff))) (addr + 1)
          (u8 (bit_and (val >>> 8) 0xff)))
        (addr + 2) (u8 (bit_and (val >>> 16) 0xff)))
      (addr + 3) (u8 (bit_and (val >>> 24) 0xff))

unfoldable pub memory_write32 : Memory → ℕ → ℕ → Access Memory
unfolding checked store_word
memory_write32 m addr val =
    checked m addr 4 (record m { data_bytes = store_word m.data_bytes addr val })

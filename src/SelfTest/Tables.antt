-- ===== src/SelfTest/Tables.antt =====
-- The page table of mmu_selftest of src/mmu.c.
pub mod Cleared
use rv32i_emu.Base.{ℕ, zero, suc, ◌+◌, ◌*◌, [], bit_and, bit_or, ◌<<<◌, ◌>>>◌}
use rv32i_emu.Memory.{ok, refused, out_of_bounds, memory_read32}
use rv32i_emu.Csr.Constants.{priv_u, satp_mode_bit}
use rv32i_emu.Machine.{
  running, done, undefined, Exec, ◌>>=◌, ◌>>◌, pure, modify, with_csr, with_state,
}
use rv32i_emu.Mmu.{pte_v, pte_r, pte_w, pte_x, pte_u, pte_ppn_shift}
use rv32i_emu.Emu.{emu_init}
use rv32i_emu.SelfTest.{write_word}

abbrev pub t_root : ℕ
t_root = 0x7_0000

abbrev pub t_l2 : ℕ
t_l2 = 0x7_1000

abbrev pub t_l2b : ℕ
t_l2b = 0x7_2000

abbrev pub t_data : ℕ
t_data = 0x7_3000

abbrev pub t_code : ℕ
t_code = 0x7_4000

abbrev pub t_ro : ℕ
t_ro = 0x7_5000

abbrev pub va_code : ℕ
va_code = 0x0001_0000

abbrev pub va_data : ℕ
va_data = 0x4000_0000

abbrev pub va_data2 : ℕ
va_data2 = 0x4000_1000

abbrev pub va_ro : ℕ
va_ro = 0x4000_2000

abbrev pub va_big : ℕ
va_big = 0xc000_0000

abbrev pub va_nomap : ℕ
va_nomap = 0x5000_0000

unfoldable pub make_pte : ℕ → ℕ → ℕ
make_pte pa flags = bit_or ((pa >>> 12) <<< pte_ppn_shift) flags

-- The loop that clears the three tables, in its round i with n rounds left.
unfoldable pub clear_tables : ℕ → ℕ → Exec (Unit {0})
unfolding write_word
clear_tables zero i = pure tt
clear_tables (suc n) i = do
  write_word (t_root + i * 4) 0
  write_word (t_l2 + i * 4) 0
  write_word (t_l2b + i * 4) 0
  clear_tables n (i + 1)

-- The pointers to the second tables, and the leaves.
unfoldable pub fill_tables : Exec (Unit {0})
unfolding write_word make_pte
fill_tables = do
  write_word (t_root + 0 * 4) (make_pte t_l2 pte_v)
  write_word (t_root + 0x100 * 4) (make_pte t_l2b pte_v)
  write_word (t_l2 + bit_and (va_code >>> 12) 0x3ff * 4)
      (make_pte t_code (bit_or (bit_or (bit_or pte_v pte_r) pte_x) pte_u))
  write_word (t_l2b + 0 * 4) (make_pte t_data (bit_or (bit_or (bit_or pte_v pte_r) pte_w) pte_u))
  write_word (t_l2b + 1 * 4) (make_pte t_data (bit_or (bit_or (bit_or pte_v pte_r) pte_w) pte_u))
  write_word (t_l2b + 2 * 4) (make_pte t_ro (bit_or (bit_or pte_v pte_r) pte_u))
  write_word (t_root + 0x300 * 4) (
      bit_or
        (bit_or (bit_or (bit_or (bit_or ((0 >>> 12) <<< pte_ppn_shift) pte_v) pte_r) pte_w) pte_x)
        pte_u)

unfoldable pub build_test_tables : Exec (Unit {0})
unfolding fill_tables
build_test_tables = clear_tables 1024 0 >> fill_tables

-- csrrs rd, csr, x0
unfoldable pub enc_csrrs : ℕ → ℕ → ℕ
enc_csrrs rd csr =
    bit_or (bit_or (bit_or (bit_or (csr <<< 20) (0 <<< 15)) (2 <<< 12)) (bit_and rd 0x1f <<< 7))
      0x73

unfoldable pub setup_user_emu : Exec (Unit {0})
unfolding emu_init build_test_tables
setup_user_emu = do
  modify (λ e. emu_init [])
  modify (with_state running)
  modify (λ e. record e { priv = priv_u })
  build_test_tables
  modify (with_csr (λ c. record c { satp = bit_or satp_mode_bit (t_root >>> 12) }))

-- memory_read32(&emu.mem, addr, &pte), the result dropped: a refused read leaves pte without a value.
unfoldable pub read_word : ℕ → Exec ℕ
read_word addr e = elim (memory_read32 e.mem addr) [
  | ok word ↦ done word e
  | refused ↦ undefined
  | out_of_bounds ↦ undefined
]

-- ===== src/Isa/Accesses.antt =====
-- The loads and stores of the base integer instructions, as the specification describes them, on a
-- memory of bytes.
use rv32i_emu.Base.{
  ℕ, zero, suc, ◌+◌, ◌-◌, ◌*◌, ◌/◌, ◌%◌, ◌^◌, ◌≤◌, ◌≡◌, ltb, if◌then◌else◌, update,
}
use rv32i_emu.Decode.RoundTrip.{Assembly, asm_i, asm_s}

pub data Load : Type 0 where
  lb lh lw lbu lhu : Load

pub data Store : Type 0 where
  sb sh sw : Store

abbrev pub load_funct3 : Load → ℕ
load_funct3 lb = 0
load_funct3 lh = 1
load_funct3 lw = 2
load_funct3 lbu = 4
load_funct3 lhu = 5

abbrev pub store_funct3 : Store → ℕ
store_funct3 sb = 0
store_funct3 sh = 1
store_funct3 sw = 2

-- The number of bytes.
abbrev pub load_width : Load → ℕ
load_width lb = 1
load_width lh = 2
load_width lw = 4
load_width lbu = 1
load_width lhu = 2

abbrev pub store_width : Store → ℕ
store_width sb = 1
store_width sh = 2
store_width sw = 4

abbrev pub load_assembly : Load → ℕ → ℕ → ℕ → Assembly
load_assembly k rd rs1 offset = asm_i offset rs1 (load_funct3 k) rd 0x03

abbrev pub store_assembly : Store → ℕ → ℕ → ℕ → Assembly
store_assembly k rs1 rs2 offset = asm_s offset rs2 rs1 (store_funct3 k) 0x23

-- The number that k bytes from an address on stand for, the lowest byte first.
unfoldable pub little_endian : (ℕ → ℕ) → ℕ → ℕ → ℕ
little_endian bytes a zero = 0
little_endian bytes a (suc k) = bytes a + 256 * little_endian bytes (a + 1) k

-- LB and LH extend the sign.
unfoldable pub loaded : Load → (ℕ → ℕ) → ℕ → ℕ
unfolding little_endian
loaded lb bytes a = let v = little_endian bytes a 1 in if ltb v 0x80 then v else v + 2 ^ 32 - 2 ^ 8
loaded lh bytes a =
    let v = little_endian bytes a 2 in if ltb v 0x8000 then v else v + 2 ^ 32 - 2 ^ 16
loaded lw bytes a = little_endian bytes a 4
loaded lbu bytes a = little_endian bytes a 1
loaded lhu bytes a = little_endian bytes a 2

-- The lowest k bytes of v, the lowest first, at the addresses from a on.
unfoldable pub stored : (ℕ → ℕ) → ℕ → ℕ → ℕ → ℕ → ℕ
stored bytes a zero v = bytes
stored bytes a (suc k) v = update (stored bytes (a + 1) k (v / 256)) a (v % 256)

-- The address of an access is a multiple of its width, and its bytes are in a memory of 1 MiB at most.
pub record IsAccess (size width a : ℕ) : Type 0 where
  pub aligned : a % width ≡ 0
  pub within : a + width ≤ size
  pub small : size ≤ 2 ^ 20

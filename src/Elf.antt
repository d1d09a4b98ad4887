-- ===== src/Elf.antt =====
-- src/elf.c and include/elf.h: the ELF loader. The file's bytes are the argument `file`; opening and
-- reading it is the caller's. A read outside the buffer or a write outside the memory is undefined.
use rv32i_emu.Base.{
  ℕ, zero, suc, ◌+◌, ◌-◌, ◌*◌, true, false, List, [], ◌∷◌, ◌&&◌, ◌||◌, not, ltb, leb, ◌==◌,
  if◌then◌else◌, u32, add32, nonzero, ◌<<<◌, bit_and, bit_or, length, get_or,
}
use rv32i_emu.Memory.{Memory, Access, ok, refused, out_of_bounds, memory_load}

abbrev pub elf_magic : ℕ
elf_magic = 0x464c_457f

abbrev pub em_riscv : ℕ
em_riscv = 243

abbrev pub et_exec : ℕ
et_exec = 2

abbrev pub pt_load : ℕ
pt_load = 1

abbrev pub pf_x : ℕ
pf_x = 1

abbrev pub pf_w : ℕ
pf_w = 2

-- The fields of elf32_ehdr_t that elf_load reads.
pub record ElfHeader : Type 0 where
  pub e_type : ℕ
  pub e_machine : ℕ
  pub e_entry : ℕ
  pub e_phoff : ℕ
  pub e_phentsize : ℕ
  pub e_phnum : ℕ

-- elf32_phdr_t
pub record ProgramHeader : Type 0 where
  pub p_type : ℕ
  pub p_offset : ℕ
  pub p_vaddr : ℕ
  pub p_paddr : ℕ
  pub p_filesz : ℕ
  pub p_memsz : ℕ
  pub p_flags : ℕ
  pub p_align : ℕ

pub record ElfInfo : Type 0 where
  pub text_start : ℕ
  pub text_end : ℕ
  pub data_start : ℕ
  pub data_end : ℕ
  pub bss_start : ℕ
  pub bss_end : ℕ
  pub phdr_count : ℕ

-- The little-endian reads at an offset that lies in the buffer.
unfoldable pub rd32le : List ℕ → ℕ → ℕ
rd32le file p =
    bit_or
      (bit_or (bit_or (get_or file p 0) (get_or file (p + 1) 0 <<< 8))
        (get_or file (p + 2) 0 <<< 16))
      (get_or file (p + 3) 0 <<< 24)

unfoldable pub rd16le : List ℕ → ℕ → ℕ
rd16le file p = bit_or (get_or file p 0) (get_or file (p + 1) 0 <<< 8)

unfoldable pub parse_ehdr : List ℕ → ElfHeader
unfolding rd32le rd16le
parse_ehdr file = record {
  e_type = rd16le file 16;
  e_machine = rd16le file 18;
  e_entry = rd32le file 24;
  e_phoff = rd32le file 28;
  e_phentsize = rd16le file 42;
  e_phnum = rd16le file 44;
}

unfoldable pub parse_phdr : List ℕ → ℕ → ProgramHeader
unfolding rd32le
parse_phdr file p = record {
  p_type = rd32le file (p + 0);
  p_offset = rd32le file (p + 4);
  p_vaddr = rd32le file (p + 8);
  p_paddr = rd32le file (p + 12);
  p_filesz = rd32le file (p + 16);
  p_memsz = rd32le file (p + 20);
  p_flags = rd32le file (p + 24);
  p_align = rd32le file (p + 28);
}

-- memset of the BSS bytes.
unfoldable pub zero_bytes : (ℕ → ℕ) → ℕ → ℕ → ℕ → ℕ
zero_bytes bytes start size j = if leb start j && ltb j (start + size) then 0 else bytes j

-- The bytes past filesz are zeroed where they fit, by a sum that wraps; info records the range.
unfoldable pub load_bss : ProgramHeader → Memory → ElfInfo → Access (Memory × ElfInfo)
unfolding zero_bytes
load_bss ph m info =
    let bss_start = add32 ph.p_vaddr ph.p_filesz in
    let bss_size = ph.p_memsz - ph.p_filesz in
    let info' = record info { bss_start = bss_start; bss_end = add32 bss_start bss_size } in
    if not (ltb ph.p_filesz ph.p_memsz)
    then ok (m, info)
    else if not (leb (add32 bss_start bss_size) m.size)
    then ok (m, info')
    else if leb (bss_start + bss_size) m.size
    then ok (record m { data_bytes = zero_bytes m.data_bytes bss_start bss_size }, info')
    else out_of_bounds

-- The ranges of executable and writable segments, and the count of segments.
unfoldable pub note_ranges : ProgramHeader → ElfInfo → ElfInfo
note_ranges ph info =
    let end = add32 ph.p_vaddr ph.p_memsz in
    let text = nonzero (bit_and ph.p_flags pf_x) in
    let writable = nonzero (bit_and ph.p_flags pf_w) in
    record info {
      text_start = if text && ltb ph.p_vaddr info.text_start then ph.p_vaddr else info.text_start;
      text_end = if text && ltb info.text_end end then end else info.text_end;
      data_start =
          if writable && ltb ph.p_vaddr info.data_start then ph.p_vaddr else info.data_start;
      data_end = if writable && ltb info.data_end end then end else info.data_end;
      phdr_count = u32 (info.phdr_count + 1);
    }

-- From the file at `p`, `len` bytes into memory.
unfoldable pub drop_bytes : ℕ → List ℕ → List ℕ
drop_bytes zero xs = xs
drop_bytes (suc n) [] = []
drop_bytes (suc n) (x ∷ xs) = drop_bytes n xs

-- One program header: `continue` leaves memory and info as they are.
unfoldable pub load_segment : List ℕ → ProgramHeader → Memory × ElfInfo → Access (Memory × ElfInfo)
unfolding memory_load load_bss note_ranges drop_bytes
load_segment file ph (m, info) =
    if not (ph.p_type == pt_load)
    then ok (m, info)
    else if ltb (u32 (length file)) (add32 ph.p_offset ph.p_filesz)
    then ok (m, info)
    else elim (memory_load m ph.p_vaddr (drop_bytes ph.p_offset file) ph.p_filesz) [
      | ok (m', loaded) ↦ elim (load_bss ph m' info) [
        | ok (m'', info') ↦ ok (m'', note_ranges ph info')
        | refused ↦ refused
        | out_of_bounds ↦ out_of_bounds
      ]
      | refused ↦ refused
      | out_of_bounds ↦ out_of_bounds
    ]

-- The loop over the program headers, with `left` of them to go; a header past the end breaks it.
unfoldable pub load_segments :
    List ℕ → ElfHeader → ℕ → ℕ → Memory × ElfInfo → Access (Memory × ElfInfo)
unfolding load_segment parse_phdr
load_segments file eh zero i s = ok s
load_segments file eh (suc left) i s =
    let ph_offset = add32 eh.e_phoff (u32 (i * eh.e_phentsize)) in
    elim (ltb (u32 (length file)) (add32 ph_offset 32)) [
      | true ↦ ok s
      | false ↦ elim (leb (ph_offset + 32) (length file)) [
        | false ↦ out_of_bounds
        | true ↦ elim (load_segment file (parse_phdr file ph_offset) s) [
          | ok s' ↦ load_segments file eh left (i + 1) s'
          | refused ↦ refused
          | out_of_bounds ↦ out_of_bounds
        ]
      ]
    ]

abbrev pub no_info : ElfInfo
no_info = record {
  text_start = 0;
  text_end = 0;
  data_start = 0;
  data_end = 0;
  bss_start = 0;
  bss_end = 0;
  phdr_count = 0;
}

-- The entry, 0 on failure, with memory and info as they are left.
unfoldable pub elf_load : List ℕ → Memory → Access (ℕ × Memory × ElfInfo)
unfolding load_segments parse_ehdr rd32le
elf_load file m =
    let eh = parse_ehdr file in
    let start = record no_info { text_start = 0xffff_ffff; data_start = 0xffff_ffff } in
    if ltb (u32 (length file)) 52 || not (rd32le file 0 == elf_magic)
    then ok (0, m, no_info)
    else if not (eh.e_type == et_exec)
    then ok (0, m, no_info)
    else if not (eh.e_machine == em_riscv)
    then ok (0, m, no_info)
    else elim (load_segments file eh eh.e_phnum 0 (m, start)) [
      | ok (m', info) ↦ ok (if info.phdr_count == 0 then 0 else eh.e_entry, m', info)
      | refused ↦ refused
      | out_of_bounds ↦ out_of_bounds
    ]

-- ===== src/Invariant/Loaded.antt =====
-- emu_load_elf of src/emu.c and elf_load of src/elf.c keep the invariant, whatever the file holds.
use rv32i_emu.Base.{
  ℕ, zero, suc, ◌+◌, ◌-◌, ◌^◌, ◌<◌, ◌≡◌, ◌≢◌, inl, inr, Bool-cases, refl, arith, Bool, true, false,
  List, [], ◌∷◌, get_or, ltb, leb, if◌then◌else◌, ◌==◌, ◌&&◌, add32, u32, ◌*◌, length,
}
use rv32i_emu.Base.Bits.{bit_or-lt}
use rv32i_emu.Memory.{Memory, Access, ok, refused, out_of_bounds, memory_load, blit, load_length}
use rv32i_emu.Memory.Laws.{IsMemory}
use rv32i_emu.Machine.{Emulator, running, with_mem}
use rv32i_emu.Elf.{
  ElfHeader, ProgramHeader, ElfInfo, rd32le, parse_ehdr, parse_phdr, zero_bytes, load_bss,
  drop_bytes, load_segment, load_segments, elf_load, note_ranges, no_info,
}
use rv32i_emu.Emu.{emu_load_elf}
use rv32i_emu.Invariant.State.{IsEmulator, mem-IsEmulator}

-- The bytes of a file are bytes.
pub record IsFile (file : List ℕ) : Type 0 where
  pub bytes : (p : ℕ) → get_or file p 0 < 256

-- The test of every byte.
abbrev pub are_bytes : List ℕ → Bool
are_bytes [] = true
are_bytes (b ∷ bs) = ltb b 256 && are_bytes bs

pub are_bytes-IsFile : (file : List ℕ) → are_bytes file ≡ true → IsFile file
are_bytes-IsFile [] h = record { bytes = λ p. omega arith }
are_bytes-IsFile (b ∷ bs) h =
    let rest = are_bytes-IsFile bs (ground arith) in
    record { bytes = λ p. at p rest (ground arith) }
  where
    at : (p : ℕ) → IsFile bs → b < 256 → get_or (b ∷ bs) p 0 < 256
    at zero f k = k
    at (suc p) f k = f.bytes p

drop-IsFile : (n : ℕ) (file : List ℕ) → IsFile file → IsFile (drop_bytes n file)
unfolding drop_bytes
drop-IsFile zero xs f = f
drop-IsFile (suc n) [] f = f
drop-IsFile (suc n) (x ∷ xs) f = drop-IsFile n xs (record { bytes = λ p. f.bytes (suc p) })

abbrev Holds : {A : Type 0} → (A → Type 0) → Access A → Type 0
Holds Q (ok a) = Q a
Holds Q refused = Unit
Holds Q out_of_bounds = Unit

-- What an access gives, if it gives anything, satisfies Q.
pub record Gives {A : Type 0} (Q : A → Type 0) (r : Access A) : Type 0 where
  pub holds : Holds Q r

ok-Gives : {A : Type 0} {Q : A → Type 0} {a : A} → Q a → Gives Q (ok a)
ok-Gives h = record { holds = h }

out_of_bounds-Gives : {A : Type 0} {Q : A → Type 0} → Gives Q out_of_bounds
out_of_bounds-Gives = record { holds = tt }

if-Gives :
    {A : Type 0} {Q : A → Type 0} (c : Bool) {x y : Access A}
    → Gives Q x
    → Gives Q y
    → Gives Q (if c then x else y)
if-Gives true h k = h
if-Gives false h k = k

ruleset gives = (ok-Gives, out_of_bounds-Gives, if-Gives)

-- The memory of a pair.
abbrev WithMemory : {A : Type 0} → Memory × A → Type 0
WithMemory p = IsMemory p.0

blit-IsMemory :
    (m : Memory) (addr : ℕ) (src : List ℕ) (n : ℕ)
    → IsMemory m
    → IsFile src
    → IsMemory (record m { data_bytes = blit m.data_bytes addr src n })
unfolding blit
blit-IsMemory m addr src n i f = record {
  bytes = λ a. ground (arith, i.bytes a, f.bytes (a - addr));
  size_fits = i.size_fits;
}

zeroed-IsMemory :
    (m : Memory) (start size : ℕ)
    → IsMemory m
    → IsMemory (record m { data_bytes = zero_bytes m.data_bytes start size })
unfolding zero_bytes
zeroed-IsMemory m start size i = record {
  bytes = λ a. ground (arith, i.bytes a);
  size_fits = i.size_fits;
}

module _ (m : Memory) (i : IsMemory m) where
  memory_load-IsMemory :
      (addr : ℕ) (src : List ℕ) (len : ℕ)
      → IsFile src
      → Gives WithMemory (memory_load m addr src len)
  unfolding memory_load
  memory_load-IsMemory addr src len f =
      let b = blit-IsMemory m addr src (load_length m addr len) i f in search gives

  load_bss-IsMemory : (ph : ProgramHeader) (info : ElfInfo) → Gives WithMemory (load_bss ph m info)
  unfolding load_bss
  load_bss-IsMemory ph info =
      let z = zeroed-IsMemory m (add32 ph.p_vaddr ph.p_filesz) (ph.p_memsz - ph.p_filesz) i in
      search gives

after_bss :
    (ph : ProgramHeader) (r : Access (Memory × ElfInfo))
    → Gives WithMemory r
    → Gives WithMemory (elim r as (λ _. Access (Memory × ElfInfo)) [
      | ok p ↦ ok (p.0, note_ranges ph p.1)
      | refused ↦ refused
      | out_of_bounds ↦ out_of_bounds
    ])
after_bss ph (ok p) h = ok-Gives h.holds
after_bss ph refused h = record { holds = tt }
after_bss ph out_of_bounds h = record { holds = tt }

after_load :
    (ph : ProgramHeader) (info : ElfInfo) (r : Access (Memory × ℕ))
    → Gives WithMemory r
    → Gives WithMemory (elim r as (λ _. Access (Memory × ElfInfo)) [
      | ok p ↦ elim (load_bss ph p.0 info) as (λ _. Access (Memory × ElfInfo)) [
        | ok q ↦ ok (q.0, note_ranges ph q.1)
        | refused ↦ refused
        | out_of_bounds ↦ out_of_bounds
      ]
      | refused ↦ refused
      | out_of_bounds ↦ out_of_bounds
    ])
after_load ph info (ok p) h =
    after_bss ph (load_bss ph p.0 info) (load_bss-IsMemory p.0 h.holds ph info)
after_load ph info refused h = record { holds = tt }
after_load ph info out_of_bounds h = record { holds = tt }

module _ (file : List ℕ) (f : IsFile file) where
  load_segment-IsMemory :
      (ph : ProgramHeader) (s : Memory × ElfInfo)
      → IsMemory s.0
      → Gives WithMemory (load_segment file ph s)
  unfolding load_segment
  load_segment-IsMemory ph (m, info) i =
      let a =
        after_load ph info (memory_load m ph.p_vaddr (drop_bytes ph.p_offset file) ph.p_filesz) (
          memory_load-IsMemory m i ph.p_vaddr (drop_bytes ph.p_offset file) ph.p_filesz
            (drop-IsFile ph.p_offset file f)) in
      search gives

  after_segment :
      (eh : ElfHeader) (left i : ℕ) (r : Access (Memory × ElfInfo))
      → Gives WithMemory r
      → ((s : Memory × ElfInfo)
          → IsMemory s.0
          → Gives WithMemory (load_segments file eh left (i + 1) s))
      → Gives WithMemory (elim r as (λ _. Access (Memory × ElfInfo)) [
        | ok s ↦ load_segments file eh left (i + 1) s
        | refused ↦ refused
        | out_of_bounds ↦ out_of_bounds
      ])
  after_segment eh left i (ok s) h k = k s h.holds
  after_segment eh left i refused h k = record { holds = tt }
  after_segment eh left i out_of_bounds h k = record { holds = tt }

  split_on :
      {A : Type 0} {Q : A → Type 0} (b : Bool) (x y : Access A)
      → Gives Q x
      → Gives Q y
      → Gives Q (elim b as (λ _. Access A) [ true ↦ x | false ↦ y ])
  split_on true x y h k = h
  split_on false x y h k = k

  load_segments-IsMemory :
      (eh : ElfHeader) (left i : ℕ) (s : Memory × ElfInfo)
      → IsMemory s.0
      → Gives WithMemory (load_segments file eh left i s)
  unfolding load_segments
  load_segments-IsMemory eh zero i s h = ok-Gives h
  load_segments-IsMemory eh (suc left) i s h =
      let ph_offset = add32 eh.e_phoff (u32 (i * eh.e_phentsize)) in
      let ph = parse_phdr file ph_offset in
      split_on (ltb (u32 (length file)) (add32 ph_offset 32)) _ _ (ok-Gives h) (
        split_on (leb (ph_offset + 32) (length file)) _ _
          (after_segment eh left i (load_segment file ph s) (load_segment-IsMemory ph s h)
            (load_segments-IsMemory eh left (i + 1)))
          out_of_bounds-Gives)

rd32le-lt : (file : List ℕ) (p : ℕ) → IsFile file → rd32le file p < 2 ^ 32
unfolding rd32le
rd32le-lt file p f =
    bit_or-lt 32 _ _
      (bit_or-lt 32 _ _ (bit_or-lt 32 _ _ (omega (arith, f.bytes p)) (omega arith)) (omega arith))
      (omega arith)

-- An entry that is a word, and the memory.
abbrev ElfFits : ℕ × Memory × ElfInfo → Type 0
ElfFits r = (r.0 < 2 ^ 32) × IsMemory r.1

after_segments :
    (eh : ElfHeader) (r : Access (Memory × ElfInfo))
    → eh.e_entry < 2 ^ 32
    → Gives WithMemory r
    → Gives ElfFits (elim r as (λ _. Access (ℕ × Memory × ElfInfo)) [
      | ok s ↦ ok (if s.1.phdr_count == 0 then 0 else eh.e_entry, s.0, s.1)
      | refused ↦ refused
      | out_of_bounds ↦ out_of_bounds
    ])
after_segments eh (ok s) l h = ok-Gives (ground arith, h.holds)
after_segments eh refused l h = record { holds = tt }
after_segments eh out_of_bounds l h = record { holds = tt }

elf_load-Gives :
    (file : List ℕ) (m : Memory) → IsFile file → IsMemory m → Gives ElfFits (elf_load file m)
unfolding elf_load parse_ehdr
elf_load-Gives file m f i =
    let eh = parse_ehdr file in
    let start = record no_info { text_start = 0xffff_ffff; data_start = 0xffff_ffff } in
    let failed : Gives ElfFits (ok (0, m, no_info)) = ok-Gives (omega arith, i) in
    let loaded =
      after_segments eh (load_segments file eh eh.e_phnum 0 (m, start)) (rd32le-lt file 24 f)
        (load_segments-IsMemory file f eh eh.e_phnum 0 (m, start) i) in
    search (gives)

-- Loading gives a well-formed state. With `true` it runs at its entry, which is not 0; with `false`
-- only the memory may have changed.
abbrev pub LoadResult : Emulator → Emulator × Bool → Type 0
LoadResult e (e', true) =
    IsEmulator e' × (e'.state ≡ running) × (e'.rf.pc ≡ e'.entry) × (e'.entry ≢ 0)
LoadResult e (e', false) = IsEmulator e' × (e' ≡ with_mem e'.mem e)

after_elf :
    (e : Emulator) (r : Access (ℕ × Memory × ElfInfo))
    → IsEmulator e
    → Gives ElfFits r
    → Gives (LoadResult e) (elim r as (λ _. Access (Emulator × Bool)) [
      | ok q ↦
          if q.0 == 0
          then ok (with_mem q.1 e, false)
          else ok (
            record e {
              mem = q.1;
              entry = q.0;
              rf = record e.rf { pc = q.0 };
              state = running;
              exit_code = 0;
            },
            true,
          )
      | refused ↦ refused
      | out_of_bounds ↦ out_of_bounds
    ])
after_elf e (ok (entry, m, info)) i h =
    let (l, k) = h.holds in
    elim (Bool-cases (entry == 0)) [
      | inl z ↦ rw z (ok-Gives (mem-IsEmulator e i m k, refl))
      | inr z ↦ rw z (ok-Gives (search, refl, refl, ground arith))
    ]
after_elf e refused i h = record { holds = tt }
after_elf e out_of_bounds i h = record { holds = tt }

-- Whatever bytes the file holds, if emu_load_elf returns, the state is well formed: with `true` it
-- runs, with pc at its entry, which is not 0; with `false` at most the memory has changed.
pub emu_load_elf-Gives :
    (file : List ℕ) (e : Emulator)
    → IsFile file
    → IsEmulator e
    → Gives (LoadResult e) (emu_load_elf file e)
unfolding emu_load_elf
emu_load_elf-Gives file e f i =
    after_elf e (elf_load file e.mem) i (elf_load-Gives file e.mem f i.memory)

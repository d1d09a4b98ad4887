-- ===== src/RegFile.antt =====
-- src/regfile.c and include/regfile.h: x0..x31, f0..f31 and the pc.
use rv32i_emu.Base.{ℕ, ◌||◌, leb, ◌==◌, if◌then◌else◌, update}

-- `regs` and `fregs` are the arrays of 32 words.
pub record RegFile : Type 0 where
  pub regs : ℕ → ℕ
  pub fregs : ℕ → ℕ
  pub pc : ℕ

abbrev pub reg_count : ℕ
reg_count = 32

unfoldable pub regfile_init : RegFile
regfile_init = record { regs = λ _. 0; fregs = λ _. 0; pc = 0 }

unfoldable pub reg_read : RegFile → ℕ → ℕ
reg_read rf idx = if leb reg_count idx then 0 else rf.regs idx

unfoldable pub reg_write : RegFile → ℕ → ℕ → RegFile
reg_write rf idx val =
    if idx == 0 || leb reg_count idx then rf else record rf { regs = update rf.regs idx val }

-- ===== src/Fpu/MinMax.antt =====
-- FMIN.S and FMAX.S of src/fpu.c.
use rv32i_emu.Csr.{Csr}

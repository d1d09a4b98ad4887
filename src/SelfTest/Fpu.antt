-- ===== src/SelfTest/Fpu.antt =====
-- fpu_selftest of src/fpu.c. Its arithmetic, comparisons and conversions are the host's.
pub mod Passed
use rv32i_emu.Base.{ℕ, List, [], ◌∷◌, ◌++◌, ◌==◌, ◌&&◌, nonzero, update, bit_and, ◌<<<◌}
use rv32i_emu.Base.Int.{negsuc, to_u32}
use rv32i_emu.RegFile.{reg_read}
use rv32i_emu.Csr.{csr_read, csr_write}
use rv32i_emu.Csr.Constants.{csr_frm, csr_fcsr}
use rv32i_emu.Machine.{
  running, Exec, ◌>>=◌, ◌>>◌, pure, gets, modify, with_csr, with_rf, with_state,
}
use rv32i_emu.Fpu.{fp_nx, fp_of, fp_dz, fp_nv}
use rv32i_emu.Fpu.Host.{HostFloat}
use rv32i_emu.Emu.{emu_init, emu_free}
use rv32i_emu.SelfTest.{Line, heading, check, write_word, run_program}
use rv32i_emu.SelfTest.FloatPrograms.{
  enc_fp, enc_flw, enc_fsw, load_store_program, arithmetic_program, sign_min_max_program,
  compare_program, convert_program, move_class_program, flags_program,
}

-- emu.rf.fregs[f] = bits
abbrev put_freg : ℕ → ℕ → Exec (Unit {0})
put_freg f bits = modify (with_rf (λ r. record r { fregs = update r.fregs f bits }))

unfoldable pub fcsr_test : Exec (List Line)
unfolding emu_init emu_free csr_read csr_write
fcsr_test = do
  modify (λ e. emu_init [])
  modify (with_csr (λ c. (csr_write c csr_fcsr 0x63).0))
  bits ← gets (λ e. csr_read e.csr csr_fcsr)
  check1 ← gets (λ e.
      check (bits.1 && bits.0 == 0x63) "fcsr write/read 0x63"
      ∷ check (e.csr.frm == 3 && e.csr.fflags == 3) "fcsr split into frm=3 fflags=3"
      ∷ [])
  modify (with_csr (λ c. (csr_write c csr_frm 0x7).0))
  frm ← gets (λ e. csr_read e.csr csr_frm)
  check2 ← gets (λ e. check (frm.0 == 7) "frm accepts dynamic mode" ∷ [])
  modify emu_free
  pure (heading "── fcsr ──" ∷ (check1 ++ check2))

module _ (host : HostFloat) where
  unfoldable pub load_store_test : Exec (List Line)
  unfolding emu_init emu_free run_program write_word enc_fp enc_flw enc_fsw
  load_store_test = do
    modify (λ e. emu_init [])
    modify (with_state running)
    write_word 0x100 0x3fc0_0000
    run_program host load_store_program 5
    checks ← gets (λ e.
        check (e.rf.fregs 1 == 0x3fc0_0000) "flw f1 = 1.5f"
        ∷ check (reg_read e.rf 3 == 0x3fc0_0000) "fsw wrote 1.5f back to memory"
        ∷ [])
    modify emu_free
    pure (heading "── FLW / FSW ──" ∷ checks)

  unfoldable pub arithmetic_test : Exec (List Line)
  unfolding emu_init emu_free run_program write_word enc_fp enc_flw enc_fsw
  arithmetic_test = do
    modify (λ e. emu_init [])
    modify (with_state running)
    put_freg 1 0x3fc0_0000
    put_freg 2 0x4010_0000
    put_freg 3 0x40a0_0000
    put_freg 4 0x4000_0000
    put_freg 5 0x4110_0000
    run_program host arithmetic_program 6
    checks ← gets (λ e.
        check (e.rf.fregs 10 == 0x4070_0000) "fadd 1.5+2.25 = 3.75"
        ∷ check (e.rf.fregs 11 == 0x4030_0000) "fsub 5.0-2.25 = 2.75"
        ∷ check (e.rf.fregs 12 == 0x4058_0000) "fmul 1.5*2.25 = 3.375"
        ∷ check (e.rf.fregs 13 == 0x4020_0000) "fdiv 5.0/2.0 = 2.5"
        ∷ check (e.rf.fregs 14 == 0x4040_0000) "fsqrt 9.0 = 3.0"
        ∷ [])
    modify emu_free
    pure (heading "── arithmetic ──" ∷ checks)

  unfoldable pub sign_min_max_test : Exec (List Line)
  unfolding emu_init emu_free run_program write_word enc_fp enc_flw enc_fsw
  sign_min_max_test = do
    modify (λ e. emu_init [])
    modify (with_state running)
    put_freg 1 0x3f80_0000
    put_freg 2 0x8000_0000
    put_freg 3 0x0000_0000
    run_program host sign_min_max_program 6
    checks ← gets (λ e.
        check (e.rf.fregs 10 == 0xbf80_0000) "fsgnj +1.0 <- -0.0 sign = -1.0"
        ∷ check (e.rf.fregs 11 == 0x3f80_0000) "fsgnjn +1.0 <- -0.0 sign = +1.0"
        ∷ check (e.rf.fregs 12 == 0xbf80_0000) "fsgnjx +1.0 ^ -0.0 sign = -1.0"
        ∷ check (e.rf.fregs 13 == 0x8000_0000) "fmin(-0.0, +0.0) = -0.0"
        ∷ check (e.rf.fregs 14 == 0x0000_0000) "fmax(-0.0, +0.0) = +0.0"
        ∷ [])
    modify emu_free
    pure (heading "── sign inject / min / max ──" ∷ checks)

  unfoldable pub compare_test : Exec (List Line)
  unfolding emu_init emu_free run_program write_word enc_fp enc_flw enc_fsw
  compare_test = do
    modify (λ e. emu_init [])
    modify (with_state running)
    put_freg 1 0x3f80_0000
    put_freg 2 0x4000_0000
    put_freg 3 0x7fc0_0000
    run_program host compare_program 6
    checks ← gets (λ e.
        check (reg_read e.rf 10 == 1) "flt 1.0 < 2.0 = 1"
        ∷ check (reg_read e.rf 11 == 1) "fle 1.0 <= 2.0 = 1"
        ∷ check (reg_read e.rf 12 == 0) "feq 1.0 == 2.0 = 0"
        ∷ check (reg_read e.rf 13 == 0) "feq qNaN = 0"
        ∷ check (reg_read e.rf 14 == 0) "flt qNaN = 0"
        ∷ [])
    modify emu_free
    pure (heading "── compare ──" ∷ checks)

  unfoldable pub convert_test : Exec (List Line)
  unfolding emu_init emu_free run_program write_word enc_fp enc_flw enc_fsw
  convert_test = do
    modify (λ e. emu_init [])
    modify (with_state running)
    put_freg 1 0x4070_0000
    put_freg 2 0xc020_0000
    run_program host convert_program 7
    checks ← gets (λ e.
        check (reg_read e.rf 10 == 4) "fcvt.w.s 3.75 RNE = 4"
        ∷ check (reg_read e.rf 11 == 3) "fcvt.w.s 3.75 RTZ = 3"
        ∷ check (reg_read e.rf 12 == to_u32 (negsuc 1)) "fcvt.w.s -2.5 RNE = -2"
        ∷ check (reg_read e.rf 13 == to_u32 (negsuc 2)) "fcvt.w.s -2.5 RDN = -3"
        ∷ check (e.rf.fregs 14 == 0x40e0_0000) "fcvt.s.w 7 = 7.0f"
        ∷ [])
    modify emu_free
    pure (heading "── fcvt ──" ∷ checks)

  unfoldable pub move_class_test : Exec (List Line)
  unfolding emu_init emu_free run_program write_word enc_fp enc_flw enc_fsw
  move_class_test = do
    modify (λ e. emu_init [])
    modify (with_state running)
    put_freg 1 0x4049_0fdb
    put_freg 2 0x7f80_0000
    put_freg 3 0x7fc0_0000
    run_program host move_class_program 6
    checks ← gets (λ e.
        check (reg_read e.rf 10 == 0x4049_0fdb) "fmv.x.w keeps raw bits"
        ∷ check (reg_read e.rf 11 == 1 <<< 7) "fclass(+inf) = bit 7"
        ∷ check (reg_read e.rf 12 == 1 <<< 9) "fclass(qNaN) = bit 9"
        ∷ check (e.rf.fregs 13 == 0x3f80_0000) "fmv.w.x keeps raw bits"
        ∷ [])
    modify emu_free
    pure (heading "── fmv / fclass ──" ∷ checks)

  unfoldable pub flags_test : Exec (List Line)
  unfolding emu_init emu_free run_program write_word enc_fp enc_flw enc_fsw
  flags_test = do
    modify (λ e. emu_init [])
    modify (with_state running)
    put_freg 1 0x3f80_0000
    put_freg 2 0x0000_0000
    put_freg 3 0x4040_0000
    run_program host flags_program 4
    checks ← gets (λ e.
        check (nonzero (bit_and e.csr.fflags fp_dz)) "1.0/0.0 sets DZ"
        ∷ check (nonzero (bit_and e.csr.fflags fp_nv)) "0.0/0.0 sets NV"
        ∷ check (nonzero (bit_and e.csr.fflags fp_nx)) "1.0/3.0 sets NX"
        ∷ check (bit_and e.csr.fflags fp_of == 0) "no OF"
        ∷ [])
    modify emu_free
    pure (heading "── fflags ──" ∷ checks)

  -- The sections in their order.
  unfoldable pub fpu_selftest : Exec (List Line)
  unfolding load_store_test arithmetic_test sign_min_max_test compare_test convert_test
      move_class_test flags_test fcsr_test
  fpu_selftest = do
    load_store ← load_store_test
    arithmetic ← arithmetic_test
    sign_min_max ← sign_min_max_test
    compare ← compare_test
    convert ← convert_test
    move_class ← move_class_test
    flags ← flags_test
    fcsr ← fcsr_test
    pure (
        load_store
        ++ (arithmetic
            ++ (sign_min_max ++ (compare ++ (convert ++ (move_class ++ (flags ++ (fcsr))))))))

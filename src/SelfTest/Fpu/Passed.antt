-- ===== src/SelfTest/Fpu/Passed.antt =====
-- The checks of fpu_selftest of src/fpu.c that no operation of the host's float decides.
use rv32i_emu.Base.{◌≡◌, refl, true}
use rv32i_emu.Csr.{csr_name, read_named, write_named}
use rv32i_emu.Machine.{Emulator}
use rv32i_emu.Fpu.Host.{HostFloat}
use rv32i_emu.SelfTest.{passes}
use rv32i_emu.SelfTest.Fpu.{load_store_test, move_class_test, fcsr_test}

module _ (host : HostFloat) (e : Emulator) where
  -- A word that FLW loads and FSW stores is unchanged.
  pub load_store_test-passes : passes 2 (load_store_test host e) ≡ true
  unfolding passes load_store_test
  load_store_test-passes = refl

  -- FMV keeps the bits, and FCLASS tells an infinity from a quiet NaN.
  pub move_class_test-passes : passes 4 (move_class_test host e) ≡ true
  unfolding passes move_class_test
  move_class_test-passes = refl

-- fcsr is frm and fflags together.
pub fcsr_test-passes : (e : Emulator) → passes 3 (fcsr_test e) ≡ true
unfolding passes fcsr_test csr_name read_named write_named
fcsr_test-passes e = refl

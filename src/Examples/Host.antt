-- ===== src/Examples/Host.antt =====
-- A host whose float results are all zero, and the state after emu_init, running.
use rv32i_emu.Base.{arith, false, []}
use rv32i_emu.Machine.{Emulator, running, with_state}
use rv32i_emu.Fpu.Host.{HostFloat, FloatResult}
use rv32i_emu.Emu.{emu_init}
use rv32i_emu.Invariant.State.{IsEmulator, state-IsEmulator}
use rv32i_emu.Invariant.Floats.{IsHost}
use rv32i_emu.Invariant.Stepped.{emu_init-IsEmulator}

abbrev pub exact_zero : FloatResult
exact_zero = record {
  bits = 0;
  flags = record {
    inexact = false;
    underflow = false;
    overflow = false;
    divbyzero = false;
    invalid = false;
  };
}

abbrev pub zero_host : HostFloat
zero_host = record {
  arith = λ op rm a b. exact_zero;
  less = λ a b. false;
  less_eq = λ a b. false;
  equal = λ a b. false;
  nearbyint = λ rm a. exact_zero;
  to_u32 = λ a. 0;
  to_s32 = λ a. 0;
  of_u32 = λ rm a. exact_zero;
  of_s32 = λ rm a. exact_zero;
}

pub zero_host-IsHost : IsHost zero_host
zero_host-IsHost = record {
  arith_fits = λ op rm a b. omega arith;
  to_u32_fits = λ a. omega arith;
  to_s32_fits = λ a. omega arith;
  of_u32_fits = λ rm a. omega arith;
  of_s32_fits = λ rm a. omega arith;
}

abbrev pub reset : Emulator
reset = with_state running (emu_init [])

pub reset-IsEmulator : IsEmulator reset
reset-IsEmulator = state-IsEmulator (emu_init []) (emu_init-IsEmulator []) running

-- ===== src/SelfTest/Execute.antt =====
-- execute_selftest of src/execute.c: programs of the base instructions, of RV32M and of RV32A.
pub mod Passed
use rv32i_emu.Base.{List, ◌++◌}
use rv32i_emu.Machine.{◌>>=◌, ◌>>◌, Exec, pure, gets, modify}
use rv32i_emu.Fpu.Host.{HostFloat}
use rv32i_emu.Emu.{emu_free}
use rv32i_emu.SelfTest.{Line, init_running, holds_word, run_program}
use rv32i_emu.SelfTest.Programs.{
  addi_program, addi_checks, alu_program, alu_checks, shift_program, shift_checks, upper_program,
  upper_checks, taken_program, taken_checks, not_taken_program, not_taken_checks, jump_program,
  jump_checks, word_program, word_checks, ecall_program, ecall_checks, muldiv_program,
  muldiv_checks, atomic_program, atomic_checks,
}

module _ (host : HostFloat) where
  unfoldable pub addi_test : Exec (List Line)
  unfolding init_running run_program holds_word emu_free
  addi_test = do
    init_running
    run_program host addi_program 4
    checks ← gets addi_checks
    modify emu_free
    pure checks

  unfoldable pub alu_test : Exec (List Line)
  unfolding init_running run_program holds_word emu_free
  alu_test = do
    init_running
    run_program host alu_program 12
    checks ← gets alu_checks
    modify emu_free
    pure checks

  unfoldable pub shift_test : Exec (List Line)
  unfolding init_running run_program holds_word emu_free
  shift_test = do
    init_running
    run_program host shift_program 5
    checks ← gets shift_checks
    modify emu_free
    pure checks

  unfoldable pub upper_test : Exec (List Line)
  unfolding init_running run_program holds_word emu_free
  upper_test = do
    init_running
    run_program host upper_program 3
    checks ← gets upper_checks
    modify emu_free
    pure checks

  unfoldable pub taken_test : Exec (List Line)
  unfolding init_running run_program holds_word emu_free
  taken_test = do
    init_running
    run_program host taken_program 6
    checks ← gets taken_checks
    modify emu_free
    pure checks

  unfoldable pub not_taken_test : Exec (List Line)
  unfolding init_running run_program holds_word emu_free
  not_taken_test = do
    init_running
    run_program host not_taken_program 6
    checks ← gets not_taken_checks
    modify emu_free
    pure checks

  unfoldable pub jump_test : Exec (List Line)
  unfolding init_running run_program holds_word emu_free
  jump_test = do
    init_running
    run_program host jump_program 6
    checks ← gets jump_checks
    modify emu_free
    pure checks

  unfoldable pub word_test : Exec (List Line)
  unfolding init_running run_program holds_word emu_free
  word_test = do
    init_running
    run_program host word_program 6
    checks ← gets word_checks
    modify emu_free
    pure checks

  unfoldable pub ecall_test : Exec (List Line)
  unfolding init_running run_program holds_word emu_free
  ecall_test = do
    init_running
    run_program host ecall_program 2
    checks ← gets ecall_checks
    modify emu_free
    pure checks

  unfoldable pub muldiv_test : Exec (List Line)
  unfolding init_running run_program holds_word emu_free
  muldiv_test = do
    init_running
    run_program host muldiv_program 18
    checks ← gets muldiv_checks
    modify emu_free
    pure checks

  unfoldable pub atomic_test : Exec (List Line)
  unfolding init_running run_program holds_word emu_free
  atomic_test = do
    init_running
    run_program host atomic_program 16
    checks ← gets atomic_checks
    modify emu_free
    pure checks

  -- The sections in their order.
  unfoldable pub execute_selftest : Exec (List Line)
  unfolding addi_test alu_test shift_test upper_test taken_test not_taken_test jump_test word_test
      ecall_test muldiv_test atomic_test
  execute_selftest = do
    addi ← addi_test
    alu ← alu_test
    shift ← shift_test
    upper ← upper_test
    taken ← taken_test
    not_taken ← not_taken_test
    jump ← jump_test
    word ← word_test
    ecall ← ecall_test
    muldiv ← muldiv_test
    atomic ← atomic_test
    pure (
        addi
        ++ (alu
            ++ (shift
                ++ (upper
                    ++ (taken
                        ++ (not_taken ++ (jump ++ (word ++ (ecall ++ (muldiv ++ (atomic)))))))))))

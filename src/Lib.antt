-- ===== src/Lib.antt =====
-- A model of the RV32IMAFC emulator: one hart with machine, supervisor and user mode, Sv32 paging,
-- 1 MiB of memory, a UART and a timer.
--
-- The program's parts, and the files that model them:
--   Memory       src/memory.c, include/memory.h: the byte array with checked accesses. The result of an
--                access is `ok`, `refused` (the C function returns false) or `out_of_bounds`: the check
--                let through an access outside the array, which C leaves undefined.
--   RegFile      src/regfile.c: x0..x31, f0..f31, pc.
--   Csr          src/csr.c, include/csr.h: the control and status registers. `csr_name` is the switch on
--                the address, `read_named` and `write_named` the cases.
--   Decode       src/decode.c: decode(), the immediates; Decode/Encode the enc_* functions;
--                Decode/Compressed expand_compressed().
--   Machine      include/emu.h: emulator_t, and the small monad in which the code runs. A result is a
--                value and the state, a `Leave` (the labels `except` and `unknown`, or a return), or
--                `undefined`, behaviour that C leaves undefined.
--   Trap         src/trap.c: trap_raise, the timer, mret and sret.
--   Mmu          src/mmu.c: mmu_translate. Mmu/Sv32 is the translation as the privileged specification
--                has it, with physical addresses of 34 bits, and Mmu/Translates compares the two, with
--                Mmu/Arithmetic (the walk of the code without masks), Refined, Entries, Pages and Marked
--                in between. The code departs from it in three places: it follows a first-level entry
--                with V and W alone, it cuts physical addresses to 32 bits, and a table outside memory
--                is a page fault.
--   Alu          the arithmetic of src/execute.c. Fpu: src/fpu.c. Fpu/Host: the host's float.
--   Execute      src/execute.c: execute(), one function for each case of its switch, in
--                Execute/Access (loads, stores), Execute/Atomic (RV32A) and Execute/System.
--   Emu          src/emu.c: emu_init, emu_load_elf, emu_step, emu_run. Elf: src/elf.c.
--   Disasm       src/decode.c: decode_disasm; Disasm/Names its tables.
--   Dump         the dumps of memory, registers, control registers and the whole state.
--   Debug        src/debug.c: the breakpoint table and `continue`. Debug/Input reads lines and numbers,
--                Debug/Show prints, Debug/Commands has the commands, and Debug/Shell the loop.
--   Main         src/main.c: the options and the course of the program.
--   Base         numbers, their binary digits, and the signed numbers of C.
--   Isa          the computing instructions, jumps, branches, loads and stores of RV32I and RV32M as
--                the RISC-V specification has them, and what emu_step and emu_run make of them: Isa and
--                Isa/Accesses describe them, Isa/Results, Isa/Products, Isa/Executed, Isa/Stepped,
--                Isa/Loads, Isa/Stores and Isa/Ran compare.
--   Invariant    the well-formedness of emulator_t (Invariant/State), kept by each part in turn:
--                CsrLaws, Traps, Translation, Loads, Stores, Atomics, Systems, Floats, Executed,
--                Fetched, Stepped, Ran, Loaded (the ELF loader), Commands and Session (the debugger)
--                and Course (main). Returned and Stopped say which calls end the machine.
--   SelfTest     the self-tests: Decode and Compressed (src/decode_test.c), Programs and Execute
--                (src/execute.c), Traps and Supervisor (src/trap.c), Tables and Mmu (src/mmu.c),
--                FloatPrograms and Fpu (src/fpu.c). The child Passed of each holds its outcome.
--   Examples     one run for each general theorem that has hypotheses.
--
-- How they interact: emu_step advances the timer (Trap), translates pc (Mmu), fetches (Memory),
-- expands and decodes (Decode), and runs execute, whose cases use RegFile, Csr, Mmu, Memory, Alu, Fpu
-- and Trap. Every failure goes to trap_raise, and stops the machine when no handler is set.
--
-- Machine words are native natural numbers, with each wrap-around written out as `% 2 ^ w`; a signed
-- word is its unsigned pattern, read by `s32` into ℤ where C converts. The arrays of memory and
-- registers are functions on addresses. emu_run runs on fuel, of which one more
-- than its step limit is enough; the other loops recurse on the number of rounds left.
--
-- The float operations of the host's C library (fenv.h, +, -, *, /, sqrtf, nearbyintf, comparisons and
-- conversions) are the parameter `HostFloat`. A file is the list of its bytes, and main takes the files
-- of the host as a function from names. Texts are lists of code points; of printf, strtoul, fgets and
-- sscanf the formats and cases are modelled that the code uses. The text of the debugger and of the
-- dumps is kept apart from the console of the program under test, so the order between the two is not
-- modelled. main runs on fuel of one more than its step limit. Not modelled: the messages that
-- elf_load, emu_load_elf and execute print to the host, and the Python scripts that generate the
-- demo programs. The float checks of fpu_selftest are modelled, and their outcome is the host's.
pub mod Base
pub mod Memory
pub mod RegFile
pub mod Csr
pub mod Decode
pub mod Disasm
pub mod Machine
pub mod Trap
pub mod Mmu
pub mod Alu
pub mod Fpu
pub mod Execute
pub mod Emu
pub mod Elf
pub mod Dump
pub mod Debug
pub mod Main
pub mod Invariant
pub mod Isa
pub mod SelfTest
pub mod Examples

-- ===== src/Examples/Steps.antt =====
-- The specification of the instructions at programs in the memory after emu_init.
use rv32i_emu.Base.{ℕ, ◌+◌, ◌*◌, ◌/◌, ◌%◌, ◌^◌, ◌≡◌, refl, arith, true, some, []}
use rv32i_emu.Memory.{Memory, memory_init, memory_read32, checked}
use rv32i_emu.Memory.Laws.{IsMemory}
use rv32i_emu.RegFile.{RegFile, regfile_init}
use rv32i_emu.Csr.{csr_init}
use rv32i_emu.Decode.Encode.{enc_i, enc_s}
use rv32i_emu.Decode.RoundTrip.{encode}
use rv32i_emu.Decode.{fmt_i, fields, get_opcode}
use rv32i_emu.Execute.{inst_length, execute}
use rv32i_emu.Machine.{Emulator, done, count_cycle, with_mem, with_pc}
use rv32i_emu.Trap.{tick, timer_enabled}
use rv32i_emu.Emu.{emu_init, emu_step, emu_run}
use rv32i_emu.Invariant.State.{IsEmulator, mem-IsEmulator}
use rv32i_emu.Isa.{Instruction, Operation, immediate, assembly, effect, set_pc, result}
use rv32i_emu.Isa.Accesses.{lw, sw, stored}
use rv32i_emu.Isa.Stepped.{emu_step-effect}
use rv32i_emu.Isa.Loads.{load_effect, emu_step-load_effect}
use rv32i_emu.Isa.Stores.{store_effect, emu_step-store_effect}
use rv32i_emu.Isa.Fence.{illegal, emu_step-fence}
use rv32i_emu.Isa.Ran.{
  compute, load, store, Steps, stop, next, IsQuiet, store_memory, emu_run-Steps,
}
use rv32i_emu.Examples.Host.{zero_host, zero_host-IsHost, reset, reset-IsEmulator}

-- The memory whose bytes are those of a number.
abbrev holding : ℕ → Memory
holding w = record (memory_init []) { data_bytes = λ a. w / 256 ^ a % 256 }

abbrev begun : ℕ → Emulator
begun w = with_mem (holding w) reset

holding-IsMemory : (w : ℕ) → IsMemory (holding w)
unfolding memory_init
holding-IsMemory w = record { bytes = λ a. omega arith; size_fits = omega arith }

begun-IsEmulator : (w : ℕ) → IsEmulator (begun w)
begun-IsEmulator w = mem-IsEmulator reset reset-IsEmulator (holding w) (holding-IsMemory w)

-- addi x1, x0, 0x100
emu_step-effect_example :
    emu_step zero_host (begun 0x1000_0093)
    ≡ done true (
        count_cycle (record (tick (begun 0x1000_0093)) {
          rf = effect (immediate Operation.add 1 0 0x100) (begun 0x1000_0093).rf;
        }))
unfolding memory_init emu_init regfile_init csr_init tick timer_enabled memory_read32 checked encode
    assembly enc_i
emu_step-effect_example =
    emu_step-effect zero_host (immediate Operation.add 1 0 0x100) (begun 0x1000_0093)
      (omega arith, omega arith, refl) (begun-IsEmulator 0x1000_0093) refl refl refl refl

-- lw x2, 0x100(x0)
emu_step-load_effect_example :
    emu_step zero_host (begun 0x1000_2103)
    ≡ done true (
        count_cycle (record (tick (begun 0x1000_2103)) {
          rf = load_effect lw 2 0 0x100 (begun 0x1000_2103).mem (begun 0x1000_2103).rf;
        }))
unfolding memory_init emu_init regfile_init csr_init tick timer_enabled memory_read32 checked encode
    enc_i
emu_step-load_effect_example =
    emu_step-load_effect zero_host lw 2 0 0x100 (begun 0x1000_2103) (omega arith) (omega arith) refl
      (begun-IsEmulator 0x1000_2103) refl refl refl refl
      (record { aligned = refl; within = omega arith; small = omega arith })

-- sw x0, 0x100(x0)
emu_step-store_effect_example :
    emu_step zero_host (begun 0x1000_2023)
    ≡ done true (count_cycle (with_pc 4 (store_effect sw 0x100 0 (tick (begun 0x1000_2023)))))
unfolding memory_init emu_init regfile_init csr_init tick timer_enabled memory_read32 checked encode
    enc_s
emu_step-store_effect_example =
    emu_step-store_effect zero_host sw 0 0 0x100 (begun 0x1000_2023) (omega arith) (omega arith)
      refl (begun-IsEmulator 0x1000_2023) refl refl refl refl
      (record { aligned = refl; within = omega arith; small = omega arith })

-- addi x1, x0, 0x100; sw x1, 0(x1); lw x2, 0(x1)
abbrev three : Emulator
three = begun (0x1000_0093 + 0x0010_a023 * 2 ^ 32 + 0x0000_a103 * 2 ^ 64)

abbrev addi : Instruction
addi = immediate Operation.add 1 0 0x100

abbrev rf1 : RegFile
rf1 = effect addi three.rf

abbrev rf2 : RegFile
rf2 = set_pc 8 rf1

abbrev mem2 : Memory
mem2 = store_memory sw 1 1 0 rf1 three.mem

three_steps : Steps 3 three.rf three.mem (load_effect lw 2 1 0 mem2 rf2) mem2
unfolding memory_init emu_init regfile_init effect result stored memory_read32 checked encode
    assembly enc_i enc_s
three_steps =
    next (compute addi (omega arith, omega arith, refl) (record { aligned = refl; encoded = refl }))
      (next
        (store sw 1 1 0 (omega arith) (omega arith) refl (record { aligned = refl; encoded = refl })
          (record { aligned = refl; within = omega arith; small = omega arith }))
        (next
          (load lw 2 1 0 (omega arith) (omega arith) refl
            (record { aligned = refl; encoded = refl })
            (record { aligned = refl; within = omega arith; small = omega arith }))
          stop))

three-IsQuiet : IsQuiet three
unfolding emu_init csr_init
three-IsQuiet = record { bare = refl; timer = refl; runs = refl }

emu_run-Steps_example :
    (e : Emulator) × (emu_run zero_host 4 3 three ≡ done (some 3) e)
    × (e.rf ≡ load_effect lw 2 1 0 mem2 rf2)
    × (e.mem ≡ mem2)
emu_run-Steps_example =
    emu_run-Steps zero_host zero_host-IsHost 3 three (load_effect lw 2 1 0 mem2 rf2) mem2
      (omega arith) (omega arith)
      (begun-IsEmulator (0x1000_0093 + 0x0010_a023 * 2 ^ 32 + 0x0000_a103 * 2 ^ 64)) three-IsQuiet
      three_steps

-- fence, without a handler
emu_step-fence_example :
    (emu_step zero_host (begun 0x0ff0_000f) ≡ illegal 0x0ff0_000f 0 (tick (begun 0x0ff0_000f)))
    × (execute zero_host (fields 0x0ff0_000f fmt_i) (begun 0x0ff0_000f)
        ≡ done true (with_pc 4 (begun 0x0ff0_000f)))
unfolding memory_init emu_init regfile_init csr_init tick timer_enabled memory_read32 checked fields
    get_opcode inst_length
emu_step-fence_example =
    emu_step-fence zero_host (begun 0x0ff0_000f) 0x0ff0_000f (fields 0x0ff0_000f fmt_i)
      (begun-IsEmulator 0x0ff0_000f) refl refl refl refl refl refl

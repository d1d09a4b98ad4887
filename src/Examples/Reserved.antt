-- ===== src/Examples/Reserved.antt =====
-- LR.W and SC.W at the address 0x1000, from the state after emu_init with 42 in x8.
use rv32i_emu.Base.{ℕ, ◌≡◌, refl, arith, ◌==◌, if◌then◌else◌, []}
use rv32i_emu.Memory.{Memory, ok, memory_init, memory_read32, memory_write32, store_word, checked}
use rv32i_emu.Memory.Laws.{write32_within}
use rv32i_emu.RegFile.{reg_read, reg_write}
use rv32i_emu.Decode.{Inst, fmt_r}
use rv32i_emu.Machine.{Emulator, done, ◌>>=◌}
use rv32i_emu.Emu.{emu_init}
use rv32i_emu.Execute.Access.{exec_store}
use rv32i_emu.Execute.Atomic.{exec_lr, exec_sc}
use rv32i_emu.Execute.Reservation.{exec_lr-exec_sc, exec_lr-exec_store-exec_sc}

abbrev start : Emulator
start =
    let e = emu_init [] in record e { rf = record e.rf { regs = λ n. if n == 8 then 42 else 0 } }

-- An instruction with the operands rs1 = x0 and rs2 = x8.
abbrev at_x0 : ℕ → ℕ → Inst
at_x0 rd imm = record {
  raw = 0;
  len = 4;
  fmt = fmt_r;
  opcode = 0;
  rd = rd;
  rs1 = 0;
  rs2 = 8;
  funct3 = 2;
  funct7 = 0;
  imm = imm;
}

abbrev written : Memory
written = record start.mem { data_bytes = store_word start.mem.data_bytes 0x1000 42 }

read_start : memory_read32 start.mem 0x1000 ≡ ok 0
unfolding memory_read32 memory_init emu_init checked
read_start = refl

write_start : memory_write32 start.mem 0x1000 (reg_read (reg_write start.rf 7 0) 8) ≡ ok written
unfolding memory_init emu_init reg_read reg_write
write_start = write32_within start.mem 0x1000 42 (omega arith) (omega arith)

exec_lr-exec_sc_example :
    (exec_lr 4 0x1000 (at_x0 7 0) >>= λ _. exec_sc 8 0x1000 (at_x0 9 0)) start
    ≡ done 8 (record start {
      mem = written;
      rf = reg_write (reg_write start.rf 7 0) 9 0;
      reservation_valid = 0;
      reservation_addr = 0x1000;
    })
unfolding emu_init
exec_lr-exec_sc_example =
    exec_lr-exec_sc start (at_x0 7 0) (at_x0 9 0) 0x1000 4 8 0 written refl read_start write_start

exec_lr-exec_store-exec_sc_example :
    (exec_lr 4 0x1000 (at_x0 7 0) >>= λ _.
    exec_store 4 (at_x0 0 0x1000) >>= λ _. exec_sc 4 0x1000 (at_x0 9 0))
      start
    ≡ done 4 (record start {
      mem = written;
      rf = reg_write (reg_write start.rf 7 0) 9 1;
      reservation_valid = 0;
      reservation_addr = 0x1000;
    })
unfolding emu_init reg_read reg_write
exec_lr-exec_store-exec_sc_example =
    exec_lr-exec_store-exec_sc start (at_x0 7 0) (at_x0 0 0x1000) (at_x0 9 0) 0x1000 4 0 written
      refl read_start refl refl refl refl write_start

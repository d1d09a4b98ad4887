-- ===== src/Examples/Kept.antt =====
-- The invariant at the state after emu_init.
use rv32i_emu.Examples.Host.{zero_host, zero_host-IsHost, reset, reset-IsEmulator}
use rv32i_emu.Base.{◌≡◌, refl, arith, some}
use rv32i_emu.Csr.{csr_init, csr_write, csr_read}
use rv32i_emu.Decode.{Inst, decode, get_opcode, get_fmt, fmt_i, fields}
use rv32i_emu.Decode.Bounds.{IsDecoded, decode-IsDecoded}
use rv32i_emu.Execute.{execute}
use rv32i_emu.Emu.{emu_step, emu_run}
use rv32i_emu.Invariant.State.{Ensures, Anything}
use rv32i_emu.Invariant.CsrLaws.{csr_init-IsCsr}
use rv32i_emu.Csr.WriteBack.{csr_write-csr_read}
use rv32i_emu.Invariant.Executed.{execute-Ensures}
use rv32i_emu.Invariant.Stepped.{emu_step-Ensures}
use rv32i_emu.Invariant.Ran.{Ends, emu_run-Ends}

emu_step-Ensures_example : Ensures Anything (emu_step zero_host reset)
emu_step-Ensures_example = emu_step-Ensures zero_host zero_host-IsHost reset reset-IsEmulator

emu_run-Ends_example : Ends 10 (emu_run zero_host 11 10 reset)
emu_run-Ends_example =
    emu_run-Ends zero_host zero_host-IsHost 10 reset (omega arith) (omega arith) reset-IsEmulator

-- addi x5, x0, 1
abbrev addi : Inst
addi = fields 0x0010_0293 fmt_i

decode-addi : decode 0x0010_0293 ≡ some addi
unfolding decode get_opcode get_fmt
decode-addi = refl

addi-IsDecoded : IsDecoded addi
addi-IsDecoded = decode-IsDecoded 0x0010_0293 (omega arith) decode-addi

execute-Ensures_example : Ensures Anything (execute zero_host addi reset)
execute-Ensures_example =
    execute-Ensures zero_host zero_host-IsHost addi addi-IsDecoded reset reset-IsEmulator

-- satp, with the bits of every field set
csr_write-csr_read_example :
    csr_write
      (csr_write csr_init 0x180 0xffff_ffff).0
      0x180
      (csr_read (csr_write csr_init 0x180 0xffff_ffff).0 0x180).0
    ≡ csr_write csr_init 0x180 0xffff_ffff
csr_write-csr_read_example =
    csr_write-csr_read csr_init 0x180 0xffff_ffff csr_init-IsCsr (omega arith)

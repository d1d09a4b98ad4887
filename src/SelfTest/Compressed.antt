-- ===== src/SelfTest/Compressed.antt =====
-- rvc_selftest of src/decode_test.c.
pub mod Passed
use Prim.Native.String.{String}
use rv32i_emu.Base.{ℕ, ◌+◌, true, false, none, some, List, [], ◌∷◌, ◌++◌, ◌==◌}
use rv32i_emu.Memory.{ok, refused, out_of_bounds, memory_write16}
use rv32i_emu.RegFile.{reg_read}
use rv32i_emu.Decode.Compressed.{expand_compressed}
use rv32i_emu.Machine.{
  running, done, undefined, Exec, ◌>>=◌, ◌>>◌, pure, gets, modify, with_mem, with_pc, with_state,
}
use rv32i_emu.Fpu.Host.{HostFloat}
use rv32i_emu.Emu.{emu_init, emu_free}
use rv32i_emu.SelfTest.{Line, heading, check, is_halted, holds_word, run_for}

-- RVC_EXPAND; only a failure is printed.
unfoldable pub rvc_expand : String → ℕ → ℕ → Line
unfolding expand_compressed
rvc_expand name c expected = elim (expand_compressed c) [
  | none ↦ check false name
  | some got ↦ check (got == expected) name
]

-- RVC_CHECK(!expand_compressed(c, &out), name)
unfoldable pub rvc_reserved : String → ℕ → Line
unfolding expand_compressed
rvc_reserved name c = elim (expand_compressed c) [
  | none ↦ check true name
  | some got ↦ check false name
]

unfoldable pub compressed_immediate : List Line
unfolding rvc_expand
compressed_immediate =
    heading "── Expansion: ALU / immediate ──"
    ∷ rvc_expand "c.li a0, 5" 0x4515 0x0050_0513
    ∷ rvc_expand "c.addi a0, a0, 1" 0x0505 0x0015_0513
    ∷ rvc_expand "c.slli a0, a0, 2" 0x050a 0x0025_1513
    ∷ rvc_expand "c.srli a0, a0, 1" 0x8105 0x0015_5513
    ∷ rvc_expand "c.andi a0, a0, -1" 0x997d 0xfff5_7513
    ∷ rvc_expand "c.addi4spn x8, 4" 0x0040 0x0041_0413
    ∷ rvc_expand "c.addi16sp sp, 16" 0x6141 0x0101_0113
    ∷ rvc_expand "c.lui a1, 0x10" 0x65c1 0x0001_05b7
    ∷ []

unfoldable pub compressed_access : List Line
unfolding rvc_expand
compressed_access =
    heading "── Expansion: load / store ──"
    ∷ rvc_expand "c.lw x9, 0(x8)" 0x4004 0x0004_2483
    ∷ rvc_expand "c.sw x9, 0(x8)" 0xc004 0x0094_2023
    ∷ rvc_expand "c.lwsp a0, 0(sp)" 0x4502 0x0001_2503
    ∷ rvc_expand "c.swsp a0, 0(sp)" 0xc02a 0x00a1_2023
    ∷ []

unfoldable pub compressed_control : List Line
unfolding rvc_expand
compressed_control =
    heading "── Expansion: control flow ──"
    ∷ rvc_expand "c.beqz x8, +6" 0xc019 0x0004_0363
    ∷ rvc_expand "c.bnez x8, +6" 0xe019 0x0004_1363
    ∷ rvc_expand "c.j +8" 0xa021 0x0080_006f
    ∷ rvc_expand "c.jal +8" 0x2021 0x0080_00ef
    ∷ rvc_expand "c.jr a0" 0x8502 0x0005_0067
    ∷ rvc_expand "c.jalr a0" 0x9502 0x0005_00e7
    ∷ rvc_expand "c.mv a0, a1" 0x852e 0x00b0_0533
    ∷ rvc_expand "c.add a0, a1" 0x952e 0x00b5_0533
    ∷ rvc_expand "c.ebreak" 0x9002 0x0010_0073
    ∷ []

unfoldable pub reserved_encodings : List Line
unfolding rvc_reserved
reserved_encodings =
    heading "── Reserved encodings ──"
    ∷ rvc_reserved "0x0000 reserved" 0x0000
    ∷ rvc_reserved "c.addi4spn imm=0 reserved" 0x0004
    ∷ rvc_reserved "c.lui rd=0 reserved" 0x6001
    ∷ rvc_reserved "c.fldsp rejected (no D)" 0x2002
    ∷ []

-- The writes of rvc_load, from the halfword at addr on; their results are dropped.
unfoldable pub write_code : ℕ → List ℕ → Exec (Unit {0})
unfolding memory_write16
write_code addr [] e = done tt e
write_code addr (half ∷ rest) e = elim (memory_write16 e.mem addr half) [
  | ok m ↦ write_code (addr + 2) rest (with_mem m e)
  | refused ↦ write_code (addr + 2) rest e
  | out_of_bounds ↦ undefined
]

unfoldable pub rvc_load : ℕ → List ℕ → Exec (Unit {0})
unfolding write_code
rvc_load addr code = do write_code addr code; modify (with_pc addr); modify (with_state running)

module _ (host : HostFloat) where
  -- The code at base, and emu_run, whose result is dropped.
  unfoldable pub rvc_run : List ℕ → ℕ → Exec (Unit {0})
  unfolding rvc_load run_for
  rvc_run code steps = do rvc_load 0x1000 code; run_for host steps

  unfoldable pub alu_chain_run : Exec (List Line)
  unfolding emu_init rvc_run
  alu_chain_run = do
    modify (λ e. emu_init [])
    rvc_run (0x4515 ∷ 0x0505 ∷ 0x050a ∷ 0x9002 ∷ []) 10
    checks ← gets (λ e.
        check (reg_read e.rf 10 == 24) "a0 == (5+1)<<2 == 24"
        ∷ check (is_halted e.state) "ebreak halted"
        ∷ [])
    pure (heading "── Execution: ALU chain ──" ∷ checks)

  unfoldable pub load_store_run : Exec (List Line)
  unfolding emu_init rvc_run
  load_store_run = do
    modify (λ e. emu_init [])
    rvc_run (0x6445 ∷ 0x44d5 ∷ 0xc004 ∷ 0x4008 ∷ 0x9002 ∷ []) 10
    checks ← gets (λ e.
        check (reg_read e.rf 10 == 21) "c.lw loaded 21"
        ∷ check (holds_word e 0x0001_1000 21) "c.sw stored 21 at 0x11000"
        ∷ [])
    pure (heading "── Execution: compressed load/store ──" ∷ checks)

  unfoldable pub branch_taken_run : Exec (List Line)
  unfolding emu_init rvc_run
  branch_taken_run = do
    modify (λ e. emu_init [])
    rvc_run (0x4501 ∷ 0xc119 ∷ 0x459d ∷ 0x45a1 ∷ 0x4625 ∷ 0x9002 ∷ []) 20
    checks ← gets (λ e.
        check (reg_read e.rf 11 == 0) "branch taken, a1 untouched"
        ∷ check (reg_read e.rf 12 == 9) "a2 == 9 after branch"
        ∷ [])
    pure (heading "── Execution: compressed branch ──" ∷ checks)

  unfoldable pub jump_and_link_run : Exec (List Line)
  unfolding emu_init rvc_run
  jump_and_link_run = do
    modify (λ e. emu_init [])
    rvc_run (0x2011 ∷ 0x9002 ∷ []) 5
    checks ← gets (λ e. check (reg_read e.rf 1 == 0x1002) "c.jal links pc+2" ∷ [])
    pure (heading "── Execution: compressed jump / link ──" ∷ checks)

  unfoldable pub jump_register_run : Exec (List Line)
  unfolding emu_init rvc_run
  jump_register_run = do
    modify (λ e. emu_init [])
    rvc_run (0x6505 ∷ 0x0519 ∷ 0x9502 ∷ 0x9002 ∷ []) 10
    checks ← gets (λ e. check (reg_read e.rf 1 == 0x1006) "c.jalr links pc+2" ∷ [])
    pure checks

  -- The sections in their order.
  unfoldable pub rvc_selftest : Exec (List Line)
  unfolding alu_chain_run load_store_run branch_taken_run jump_and_link_run jump_register_run
      compressed_immediate compressed_access compressed_control reserved_encodings emu_free
  rvc_selftest = do
    alu_chain ← alu_chain_run
    load_store ← load_store_run
    branch_taken ← branch_taken_run
    jump_and_link ← jump_and_link_run
    jump_register ← jump_register_run
    modify emu_free
    pure (
        compressed_immediate
        ++ (compressed_access
            ++ (compressed_control
                ++ (alu_chain
                    ++ (load_store
                        ++ (branch_taken
                            ++ (jump_and_link ++ (jump_register ++ (reserved_encodings)))))))))

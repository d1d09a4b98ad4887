-- ===== src/Examples/Computed.antt =====
-- Division, products, the page walk and the disassembler at concrete inputs.
use rv32i_emu.Base.{ℕ, ◌+◌, ◌*◌, ◌/◌, ◌%◌, ◌^◌, ◌≤◌, ◌≡◌, ◌≢◌, ◌⊎◌, arith, some, [], u32, length}
use rv32i_emu.Base.Int.{pos, ◌*ℤ◌, s32}
use rv32i_emu.Alu.{rv_div, rv_rem, mulh, mulhsu, mulhu}
use rv32i_emu.Alu.Division.{magnitude, rv_div-rv_rem}
use rv32i_emu.Alu.Product.{to_u64, mulh-mulhsu-mulhu}
use rv32i_emu.Decode.{Inst, fmt_i, fields}
use rv32i_emu.Disasm.{disasm_text, decode_disasm}
use rv32i_emu.Disasm.Fits.{whole_text, decode_disasm-whole_text}

-- -7 by 2
rv_div-rv_rem_example :
    (u32 (rv_div 0xffff_fff9 2 * 2 + rv_rem 0xffff_fff9 2) ≡ 0xffff_fff9)
    × (((◌≡◌ {A = ℕ} 2 0) × (rv_div 0xffff_fff9 2 ≡ 0xffff_ffff))
        ⊎ ((magnitude (rv_div 0xffff_fff9 2) ≡ magnitude 0xffff_fff9 / magnitude 2)
            × (magnitude (rv_rem 0xffff_fff9 2) ≡ magnitude 0xffff_fff9 % magnitude 2)))
rv_div-rv_rem_example = rv_div-rv_rem 0xffff_fff9 2 (omega arith) (omega arith)

mulh-mulhsu-mulhu_example :
    (mulh 0xffff_fff9 3 * 2 ^ 32 + u32 (0xffff_fff9 * 3) ≡ to_u64 (s32 0xffff_fff9 *ℤ s32 3))
    × (mulhsu 0xffff_fff9 3 * 2 ^ 32 + u32 (0xffff_fff9 * 3) ≡ to_u64 (s32 0xffff_fff9 *ℤ pos 3))
    × (mulhu 0xffff_fff9 3 * 2 ^ 32 + u32 (0xffff_fff9 * 3) ≡ 0xffff_fff9 * 3)
mulh-mulhsu-mulhu_example = mulh-mulhsu-mulhu 0xffff_fff9 3 (omega arith) (omega arith)

-- addi x5, x0, 1
abbrev addi : Inst
addi = fields 0x0010_0293 fmt_i

decode_disasm-whole_text_example :
    (decode_disasm addi (some []) 128 ≡ some (whole_text addi (disasm_text addi)))
    × (length (whole_text addi (disasm_text addi)) ≤ 127)
    × (whole_text addi (disasm_text addi) ≢ [])
decode_disasm-whole_text_example = decode_disasm-whole_text addi [] 128 (omega arith)

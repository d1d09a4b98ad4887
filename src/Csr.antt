-- ===== src/Csr.antt =====
-- src/csr.c and include/csr.h: the control and status registers.
pub mod Constants
pub mod WriteBack
use rv32i_emu.Base.{
  ℕ, ◌+◌, ◌-◌, ◌*◌, ◌^◌, Bool, true, false, not, Option, none, some, ltb, leb, ◌==◌, if◌then◌else◌,
  u32, ◌<<<◌, ◌>>>◌, not32, bit_and, bit_or,
}
use Constants.{satp_mode_bit, satp_ppn_mask, sstatus_mask}

pub record Csr : Type 0 where
  pub mstatus : ℕ
  pub satp : ℕ
  pub fflags : ℕ
  pub frm : ℕ
  pub stvec : ℕ
  pub sepc : ℕ
  pub scause : ℕ
  pub stval : ℕ
  pub sscratch : ℕ
  pub sie : ℕ
  pub sip : ℕ
  pub medeleg : ℕ
  pub mideleg : ℕ
  pub mtvec : ℕ
  pub mepc : ℕ
  pub mcause : ℕ
  pub mtval : ℕ
  pub mscratch : ℕ
  pub mie : ℕ
  pub mip : ℕ
  pub mcycle : ℕ

-- The case labels of the switches in csr_read and csr_write.
pub data CsrName : Type 0 where
  sstatus sie stvec sscratch sepc scause stval sip : CsrName
  satp fflags frm fcsr mstatus medeleg mideleg mie : CsrName
  mtvec mscratch mepc mcause mtval mip mcycle : CsrName

-- The switch on the address: the CSR_* macros.
unfoldable pub csr_name : ℕ → Option CsrName
csr_name addr =
    if addr == 0x100
    then some CsrName.sstatus
    else if addr == 0x104
    then some CsrName.sie
    else if addr == 0x105
    then some CsrName.stvec
    else if addr == 0x140
    then some CsrName.sscratch
    else if addr == 0x141
    then some CsrName.sepc
    else if addr == 0x142
    then some CsrName.scause
    else if addr == 0x143
    then some CsrName.stval
    else if addr == 0x144
    then some CsrName.sip
    else if addr == 0x180
    then some CsrName.satp
    else if addr == 0x001
    then some CsrName.fflags
    else if addr == 0x002
    then some CsrName.frm
    else if addr == 0x003
    then some CsrName.fcsr
    else if addr == 0x300
    then some CsrName.mstatus
    else if addr == 0x302
    then some CsrName.medeleg
    else if addr == 0x303
    then some CsrName.mideleg
    else if addr == 0x304
    then some CsrName.mie
    else if addr == 0x305
    then some CsrName.mtvec
    else if addr == 0x340
    then some CsrName.mscratch
    else if addr == 0x341
    then some CsrName.mepc
    else if addr == 0x342
    then some CsrName.mcause
    else if addr == 0x343
    then some CsrName.mtval
    else if addr == 0x344
    then some CsrName.mip
    else if addr == 0xb00
    then some CsrName.mcycle
    else none

unfoldable pub csr_init : Csr
csr_init = record {
  mstatus = 0;
  satp = 0;
  fflags = 0;
  frm = 0;
  stvec = 0;
  sepc = 0;
  scause = 0;
  stval = 0;
  sscratch = 0;
  sie = 0;
  sip = 0;
  medeleg = 0;
  mideleg = 0;
  mtvec = 0;
  mepc = 0;
  mcause = 0;
  mtval = 0;
  mscratch = 0;
  mie = 0;
  mip = 0;
  mcycle = 0;
}

unfoldable pub read_named : Csr → CsrName → ℕ
read_named c CsrName.sstatus = bit_and c.mstatus sstatus_mask
read_named c CsrName.sie = c.sie
read_named c CsrName.stvec = c.stvec
read_named c CsrName.sscratch = c.sscratch
read_named c CsrName.sepc = c.sepc
read_named c CsrName.scause = c.scause
read_named c CsrName.stval = c.stval
read_named c CsrName.sip = c.sip
read_named c CsrName.satp = c.satp
read_named c CsrName.fflags = bit_and c.fflags 0x1f
read_named c CsrName.frm = bit_and c.frm 0x7
read_named c CsrName.fcsr = bit_or (bit_and c.frm 0x7 <<< 5) (bit_and c.fflags 0x1f)
read_named c CsrName.mstatus = c.mstatus
read_named c CsrName.medeleg = c.medeleg
read_named c CsrName.mideleg = c.mideleg
read_named c CsrName.mie = c.mie
read_named c CsrName.mtvec = c.mtvec
read_named c CsrName.mscratch = c.mscratch
read_named c CsrName.mepc = c.mepc
read_named c CsrName.mcause = c.mcause
read_named c CsrName.mtval = c.mtval
read_named c CsrName.mip = c.mip
read_named c CsrName.mcycle = u32 (bit_and c.mcycle 0xffff_ffff)

-- The value read, and what is stored through `ok`.
unfoldable pub csr_read : Csr → ℕ → ℕ × Bool
csr_read c addr = elim (csr_name addr) [ some n ↦ (read_named c n, true) | none ↦ (0, false) ]

-- WARL: bare mode clears satp, Sv32 keeps MODE, ASID and PPN.
unfoldable pub satp_value : ℕ → ℕ
satp_value val =
    if bit_and val satp_mode_bit == 0
    then 0
    else bit_and val (bit_or (bit_or satp_mode_bit (0x1ff <<< 22)) satp_ppn_mask)

unfoldable pub write_named : Csr → CsrName → ℕ → Csr
unfolding satp_value
write_named c CsrName.sstatus val = record c {
  mstatus = bit_or (bit_and c.mstatus (not32 sstatus_mask)) (bit_and val sstatus_mask);
}
write_named c CsrName.sie val = record c { sie = val }
write_named c CsrName.stvec val = record c { stvec = bit_and val (not32 0x3) }
write_named c CsrName.sscratch val = record c { sscratch = val }
write_named c CsrName.sepc val = record c { sepc = bit_and val (not32 0x3) }
write_named c CsrName.scause val = record c { scause = val }
write_named c CsrName.stval val = record c { stval = val }
write_named c CsrName.sip val = record c { sip = bit_and c.sip val }
write_named c CsrName.satp val = record c { satp = satp_value val }
write_named c CsrName.fflags val = record c { fflags = bit_and val 0x1f }
write_named c CsrName.frm val = record c { frm = bit_and val 0x7 }
write_named c CsrName.fcsr val = record c {
  frm = bit_and (val >>> 5) 0x7;
  fflags = bit_and val 0x1f;
}
write_named c CsrName.mstatus val = record c { mstatus = val }
write_named c CsrName.medeleg val = record c { medeleg = bit_and val 0xffff }
write_named c CsrName.mideleg val = record c { mideleg = bit_and val 0xffff }
write_named c CsrName.mie val = record c { mie = val }
write_named c CsrName.mtvec val = record c { mtvec = bit_and val (not32 0x3) }
write_named c CsrName.mscratch val = record c { mscratch = val }
write_named c CsrName.mepc val = record c { mepc = bit_and val (not32 0x3) }
write_named c CsrName.mcause val = record c { mcause = val }
write_named c CsrName.mtval val = record c { mtval = val }
write_named c CsrName.mip val = record c { mip = bit_and c.mip val }
write_named c CsrName.mcycle val = record c {
  mcycle = bit_or (bit_and c.mcycle 0xffff_ffff_0000_0000) val;
}

unfoldable pub csr_write : Csr → ℕ → ℕ → Csr × Bool
csr_write c addr val = elim (csr_name addr) [
  | some n ↦ (write_named c n val, true)
  | none ↦ (c, false)
]

-- The lowest privilege that may access the register, from address bits 9:8.
unfoldable pub csr_priv_ok : ℕ → ℕ → Bool
csr_priv_ok priv addr =
    let need = bit_and (addr >>> 8) 0x3 in
    let need = (if need == 2 then 3 else need) in leb need priv

unfoldable pub csr_writable : ℕ → Bool
csr_writable addr = not (bit_and (addr >>> 10) 0x3 == 0x3)

-- ===== src/Invariant/CsrLaws.antt =====
-- The registers of src/csr.c keep to their widths.
use rv32i_emu.Base.{
  ℕ, ◌/◌, ◌^◌, ◌<◌, Bool, true, false, Option, none, some, arith, not32, bit_and, bit_or, ◌<<<◌,
}
use rv32i_emu.Base.Bits.{bit_and-lt, bit_or-lt}
use rv32i_emu.Csr.Constants.{sstatus_mask, satp_mode_bit, satp_ppn_mask}
use rv32i_emu.Csr.{
  Csr, CsrName, csr_name, csr_init, read_named, csr_read, satp_value, write_named, csr_write,
}

-- Every register is a u32, and mcycle a u64.
pub record IsCsr (c : Csr) : Type 0 where
  pub mstatus_fits : c.mstatus < 2 ^ 32
  pub satp_fits : c.satp < 2 ^ 32
  pub fflags_fits : c.fflags < 2 ^ 32
  pub frm_fits : c.frm < 2 ^ 32
  pub stvec_fits : c.stvec < 2 ^ 32
  pub sepc_fits : c.sepc < 2 ^ 32
  pub scause_fits : c.scause < 2 ^ 32
  pub stval_fits : c.stval < 2 ^ 32
  pub sscratch_fits : c.sscratch < 2 ^ 32
  pub sie_fits : c.sie < 2 ^ 32
  pub sip_fits : c.sip < 2 ^ 32
  pub medeleg_fits : c.medeleg < 2 ^ 32
  pub mideleg_fits : c.mideleg < 2 ^ 32
  pub mtvec_fits : c.mtvec < 2 ^ 32
  pub mepc_fits : c.mepc < 2 ^ 32
  pub mcause_fits : c.mcause < 2 ^ 32
  pub mtval_fits : c.mtval < 2 ^ 32
  pub mscratch_fits : c.mscratch < 2 ^ 32
  pub mie_fits : c.mie < 2 ^ 32
  pub mip_fits : c.mip < 2 ^ 32
  pub mcycle_fits : c.mcycle < 2 ^ 64

masked : (a b : ℕ) → a < 2 ^ 32 → bit_and a b < 2 ^ 32
masked a b h = bit_and-lt 32 a b h

joined : (a b : ℕ) → a < 2 ^ 32 → b < 2 ^ 32 → bit_or a b < 2 ^ 32
joined a b h k = bit_or-lt 32 a b h k

satp_value-lt : (val : ℕ) → val < 2 ^ 32 → satp_value val < 2 ^ 32
unfolding satp_value
satp_value-lt val h =
    ground (arith, masked val (bit_or (bit_or satp_mode_bit (0x1ff <<< 22)) satp_ppn_mask) h)

pub write_named-IsCsr :
    (c : Csr) (n : CsrName) (val : ℕ) → IsCsr c → val < 2 ^ 32 → IsCsr (write_named c n val)
unfolding write_named
write_named-IsCsr c CsrName.sstatus val i h = ground (
  arith,
  joined (bit_and c.mstatus (not32 sstatus_mask)) (bit_and val sstatus_mask)
      (masked c.mstatus (not32 sstatus_mask) i.mstatus_fits) (masked val sstatus_mask h),
)
write_named-IsCsr c CsrName.sie val i h = search
write_named-IsCsr c CsrName.stvec val i h = ground (arith, masked val (not32 3) h)
write_named-IsCsr c CsrName.sscratch val i h = search
write_named-IsCsr c CsrName.sepc val i h = ground (arith, masked val (not32 3) h)
write_named-IsCsr c CsrName.scause val i h = search
write_named-IsCsr c CsrName.stval val i h = search
write_named-IsCsr c CsrName.sip val i h = ground (arith, masked c.sip val i.sip_fits)
write_named-IsCsr c CsrName.satp val i h = ground (arith, satp_value-lt val h)
write_named-IsCsr c CsrName.fflags val i h = ground (arith, masked val 0x1f h)
write_named-IsCsr c CsrName.frm val i h = ground (arith, masked val 7 h)
write_named-IsCsr c CsrName.fcsr val i h =
    ground (arith, masked (val / 2 ^ 5) 7 (omega arith), masked val 0x1f h)
write_named-IsCsr c CsrName.mstatus val i h = search
write_named-IsCsr c CsrName.medeleg val i h = ground (arith, masked val 0xffff h)
write_named-IsCsr c CsrName.mideleg val i h = ground (arith, masked val 0xffff h)
write_named-IsCsr c CsrName.mie val i h = search
write_named-IsCsr c CsrName.mtvec val i h = ground (arith, masked val (not32 3) h)
write_named-IsCsr c CsrName.mscratch val i h = search
write_named-IsCsr c CsrName.mepc val i h = ground (arith, masked val (not32 3) h)
write_named-IsCsr c CsrName.mcause val i h = search
write_named-IsCsr c CsrName.mtval val i h = search
write_named-IsCsr c CsrName.mip val i h = ground (arith, masked c.mip val i.mip_fits)
write_named-IsCsr c CsrName.mcycle val i h = ground (
  arith,
  bit_or-lt 64 (bit_and c.mcycle 0xffff_ffff_0000_0000) val
      (bit_and-lt 64 c.mcycle 0xffff_ffff_0000_0000 i.mcycle_fits) (omega arith),
)

-- A CSR write of any address with any word keeps every control register in its width: the masks of
-- csr_write never let a wider value in, and an unknown address changes nothing.
pub csr_write-IsCsr :
    (c : Csr) (addr val : ℕ) → IsCsr c → val < 2 ^ 32 → IsCsr (csr_write c addr val).0
unfolding csr_write
csr_write-IsCsr c addr val i h =
    elim (csr_name addr)
      as (λ (o : Option CsrName).
        IsCsr
          (elim o as (λ _. Csr × Bool) [
            | some n ↦ (write_named c n val, true)
            | none ↦ (c, false)
          ]).0) [ some n ↦ write_named-IsCsr c n val i h | none ↦ i ]

read_named-lt : (c : Csr) (n : CsrName) → IsCsr c → read_named c n < 2 ^ 32
unfolding read_named
read_named-lt c CsrName.sstatus i = masked c.mstatus sstatus_mask i.mstatus_fits
read_named-lt c CsrName.sie i = i.sie_fits
read_named-lt c CsrName.stvec i = i.stvec_fits
read_named-lt c CsrName.sscratch i = i.sscratch_fits
read_named-lt c CsrName.sepc i = i.sepc_fits
read_named-lt c CsrName.scause i = i.scause_fits
read_named-lt c CsrName.stval i = i.stval_fits
read_named-lt c CsrName.sip i = i.sip_fits
read_named-lt c CsrName.satp i = i.satp_fits
read_named-lt c CsrName.fflags i = masked c.fflags 0x1f i.fflags_fits
read_named-lt c CsrName.frm i = masked c.frm 7 i.frm_fits
read_named-lt c CsrName.fcsr i =
    joined (bit_and c.frm 7 <<< 5) (bit_and c.fflags 0x1f) (omega arith)
      (masked c.fflags 0x1f i.fflags_fits)
read_named-lt c CsrName.mstatus i = i.mstatus_fits
read_named-lt c CsrName.medeleg i = i.medeleg_fits
read_named-lt c CsrName.mideleg i = i.mideleg_fits
read_named-lt c CsrName.mie i = i.mie_fits
read_named-lt c CsrName.mtvec i = i.mtvec_fits
read_named-lt c CsrName.mscratch i = i.mscratch_fits
read_named-lt c CsrName.mepc i = i.mepc_fits
read_named-lt c CsrName.mcause i = i.mcause_fits
read_named-lt c CsrName.mtval i = i.mtval_fits
read_named-lt c CsrName.mip i = i.mip_fits
read_named-lt c CsrName.mcycle i = omega arith

pub csr_read-lt : (c : Csr) (addr : ℕ) → IsCsr c → (csr_read c addr).0 < 2 ^ 32
unfolding csr_read
csr_read-lt c addr i =
    elim (csr_name addr)
      as (λ (o : Option CsrName).
        (elim o as (λ _. ℕ × Bool) [ some n ↦ (read_named c n, true) | none ↦ (0, false) ]).0
        < 2 ^ 32) [ some n ↦ read_named-lt c n i | none ↦ omega arith ]

pub csr_init-IsCsr : IsCsr csr_init
unfolding csr_init
csr_init-IsCsr = ground arith

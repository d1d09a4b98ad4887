-- ===== src/Csr/Constants.antt =====
-- The macros of include/csr.h, in its order.
use rv32i_emu.Base.{ℕ, bit_or, ◌<<<◌}

abbrev pub csr_sstatus : ℕ
csr_sstatus = 0x100

abbrev pub csr_mstatus : ℕ
csr_mstatus = 0x300

abbrev pub csr_frm : ℕ
csr_frm = 2

abbrev pub csr_fcsr : ℕ
csr_fcsr = 3

abbrev pub satp_mode_bit : ℕ
satp_mode_bit = 1 <<< 31

abbrev pub satp_ppn_mask : ℕ
satp_ppn_mask = 0x003f_ffff

abbrev pub clint_mtimecmp_lo : ℕ
clint_mtimecmp_lo = 0x0200_4000

abbrev pub clint_mtime_lo : ℕ
clint_mtime_lo = 0x0200_bff8

abbrev pub mstatus_sie : ℕ
mstatus_sie = 1 <<< 1

abbrev pub mstatus_mie : ℕ
mstatus_mie = 1 <<< 3

abbrev pub mstatus_spie : ℕ
mstatus_spie = 1 <<< 5

abbrev pub mstatus_mpie : ℕ
mstatus_mpie = 1 <<< 7

abbrev pub mstatus_spp : ℕ
mstatus_spp = 1 <<< 8

abbrev pub mstatus_mpp_mask : ℕ
mstatus_mpp_mask = 3 <<< 11

abbrev pub mstatus_mpp_m : ℕ
mstatus_mpp_m = 3 <<< 11

abbrev pub mstatus_mpp_s : ℕ
mstatus_mpp_s = 1 <<< 11

abbrev pub mstatus_mpp_u : ℕ
mstatus_mpp_u = 0 <<< 11

abbrev pub mstatus_sum : ℕ
mstatus_sum = 1 <<< 18

abbrev pub sstatus_mask : ℕ
sstatus_mask = bit_or (bit_or (bit_or mstatus_sie mstatus_spie) mstatus_spp) mstatus_sum

abbrev pub priv_u : ℕ
priv_u = 0

abbrev pub priv_s : ℕ
priv_s = 1

abbrev pub priv_m : ℕ
priv_m = 3

abbrev pub mie_mtie : ℕ
mie_mtie = 1 <<< 7

abbrev pub mip_mtip : ℕ
mip_mtip = 1 <<< 7

abbrev pub mcause_irq_bit : ℕ
mcause_irq_bit = 0x8000_0000

abbrev pub mcause_irq_timer : ℕ
mcause_irq_timer = bit_or mcause_irq_bit 7

abbrev pub exc_inst_misaligned : ℕ
exc_inst_misaligned = 0

abbrev pub exc_inst_access : ℕ
exc_inst_access = 1

abbrev pub exc_illegal_inst : ℕ
exc_illegal_inst = 2

abbrev pub exc_breakpoint : ℕ
exc_breakpoint = 3

abbrev pub exc_load_misaligned : ℕ
exc_load_misaligned = 4

abbrev pub exc_load_access : ℕ
exc_load_access = 5

abbrev pub exc_store_misaligned : ℕ
exc_store_misaligned = 6

abbrev pub exc_store_access : ℕ
exc_store_access = 7

abbrev pub exc_ecall_u : ℕ
exc_ecall_u = 8

abbrev pub exc_ecall_s : ℕ
exc_ecall_s = 9

abbrev pub exc_ecall_m : ℕ
exc_ecall_m = 11

abbrev pub exc_inst_page_fault : ℕ
exc_inst_page_fault = 12

abbrev pub exc_load_page_fault : ℕ
exc_load_page_fault = 13

abbrev pub exc_store_page_fault : ℕ
exc_store_page_fault = 15

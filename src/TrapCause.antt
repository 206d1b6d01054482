-- ===== src/TrapCause.antt =====
-- The causes of traps (riscv32-sim/include/trap_cause.hpp).
use riscv32_sim.Base.{ℕ}

pub data TrapCause : Type 0 where
  exp_inst_addr_misaligned exp_inst_access_fault exp_inst_illegal : TrapCause
  exp_breakpoint exp_load_addr_misaligned exp_load_access_fault : TrapCause
  exp_store_addr_misaligned exp_store_access_fault exp_ecall_from_u_vu_mode : TrapCause
  exp_ecall_from_hs_mode exp_ecall_from_vs_mode exp_ecall_from_m_mode : TrapCause
  exp_inst_page_fault exp_load_page_fault exp_store_page_fault : TrapCause
  exp_inst_guest_page_fault exp_load_guest_page_fault exp_inst_virtual : TrapCause
  exp_store_guest_page_fault int_sw_s int_sw_vs : TrapCause
  int_sw_m int_timer_s int_timer_vs : TrapCause
  int_timer_m int_external_s int_external_vs : TrapCause
  int_external_m int_external_s_guest : TrapCause

-- The enumerators' values: `to_int`.
abbrev pub to_int : TrapCause → ℕ
to_int exp_inst_addr_misaligned = 0x0
to_int exp_inst_access_fault = 0x1
to_int exp_inst_illegal = 0x2
to_int exp_breakpoint = 0x3
to_int exp_load_addr_misaligned = 0x4
to_int exp_load_access_fault = 0x5
to_int exp_store_addr_misaligned = 0x6
to_int exp_store_access_fault = 0x7
to_int exp_ecall_from_u_vu_mode = 0x8
to_int exp_ecall_from_hs_mode = 0x9
to_int exp_ecall_from_vs_mode = 0x10
to_int exp_ecall_from_m_mode = 0x11
to_int exp_inst_page_fault = 0x12
to_int exp_load_page_fault = 0x13
to_int exp_store_page_fault = 0x15
to_int exp_inst_guest_page_fault = 0x20
to_int exp_load_guest_page_fault = 0x21
to_int exp_inst_virtual = 0x22
to_int exp_store_guest_page_fault = 0x23
to_int int_sw_s = 0x80000001
to_int int_sw_vs = 0x80000002
to_int int_sw_m = 0x80000003
to_int int_timer_s = 0x80000005
to_int int_timer_vs = 0x80000006
to_int int_timer_m = 0x80000007
to_int int_external_s = 0x80000009
to_int int_external_vs = 0x80000010
to_int int_external_m = 0x80000011
to_int int_external_s_guest = 0x80000012

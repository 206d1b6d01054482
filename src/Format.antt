-- ===== src/Format.antt =====
-- The texts of traps and targets in the log (riscv32-sim/include/util/format_helpers.hpp).
pub mod Records
pub mod Operation
use Prim.Native.String.{String}
use text.Mathlib.Text.{◌==◌}
use riscv32_sim.Base.{ℕ, ◌≡◌, ◌≢◌, refl, ap, ◌∙◌, sym, Option, none, some, if◌then◌else◌}
use riscv32_sim.Common.{Target}
use riscv32_sim.TrapCause.{TrapCause}

unfoldable pub str_trap_cause : TrapCause → String
str_trap_cause TrapCause.exp_inst_addr_misaligned = "misaligned instruction address"
str_trap_cause TrapCause.exp_inst_access_fault = "instruction access fault"
str_trap_cause TrapCause.exp_inst_illegal = "illegal instruction"
str_trap_cause TrapCause.exp_breakpoint = "breakpoint"
str_trap_cause TrapCause.exp_load_addr_misaligned = "misaligned load address"
str_trap_cause TrapCause.exp_load_access_fault = "load access fault"
str_trap_cause TrapCause.exp_store_addr_misaligned = "misaligned store address"
str_trap_cause TrapCause.exp_store_access_fault = "store access fault"
str_trap_cause TrapCause.exp_ecall_from_u_vu_mode = "ecall from user / virtual user mode"
str_trap_cause TrapCause.exp_ecall_from_hs_mode = "ecall from supervisor mode"
str_trap_cause TrapCause.exp_ecall_from_vs_mode = "ecall from virtual supervisor mode"
str_trap_cause TrapCause.exp_ecall_from_m_mode = "ecall from machine mode"
str_trap_cause TrapCause.exp_inst_page_fault = "instruction page fault"
str_trap_cause TrapCause.exp_load_page_fault = "load page fault"
str_trap_cause TrapCause.exp_store_page_fault = "store page fault"
str_trap_cause TrapCause.exp_inst_guest_page_fault = "instruction guest page fault"
str_trap_cause TrapCause.exp_load_guest_page_fault = "load guest page fault"
str_trap_cause TrapCause.exp_inst_virtual = "virtual instruction"
str_trap_cause TrapCause.exp_store_guest_page_fault = "store guest page fault"
str_trap_cause TrapCause.int_sw_s = "supervisor software interrupt"
str_trap_cause TrapCause.int_sw_vs = "virtual supervisor software interrupt"
str_trap_cause TrapCause.int_sw_m = "machine software interrupt"
str_trap_cause TrapCause.int_timer_s = "supervisor timer interrupt"
str_trap_cause TrapCause.int_timer_vs = "virtual supervisor timer interrupt"
str_trap_cause TrapCause.int_timer_m = "machine timer interrupt"
str_trap_cause TrapCause.int_external_s = "supervisor external interrupt"
str_trap_cause TrapCause.int_external_vs = "virtual supervisor external interrupt"
str_trap_cause TrapCause.int_external_m = "machine external interrupt"
str_trap_cause TrapCause.int_external_s_guest = "supervisor guest external interrupt"

unfoldable pub target_str : Target → String
target_str Target.load = "load"
target_str Target.store = "store"
target_str Target.alu = "alu"
target_str Target.branch = "branch"
target_str Target.csr = "csr"
target_str Target.mret = "mret"
target_str Target.illegal = "illegal"
target_str Target.ebreak = "ebreak"
target_str Target.ecall = "ecall"
target_str (Target.unnamed n) = "unknown"

-- The cause that a text names.
cause_of : String → Option TrapCause
cause_of text =
    if text == "misaligned instruction address"
    then some TrapCause.exp_inst_addr_misaligned
    else if text == "instruction access fault"
    then some TrapCause.exp_inst_access_fault
    else if text == "illegal instruction"
    then some TrapCause.exp_inst_illegal
    else if text == "breakpoint"
    then some TrapCause.exp_breakpoint
    else if text == "misaligned load address"
    then some TrapCause.exp_load_addr_misaligned
    else if text == "load access fault"
    then some TrapCause.exp_load_access_fault
    else if text == "misaligned store address"
    then some TrapCause.exp_store_addr_misaligned
    else if text == "store access fault"
    then some TrapCause.exp_store_access_fault
    else if text == "ecall from user / virtual user mode"
    then some TrapCause.exp_ecall_from_u_vu_mode
    else if text == "ecall from supervisor mode"
    then some TrapCause.exp_ecall_from_hs_mode
    else if text == "ecall from virtual supervisor mode"
    then some TrapCause.exp_ecall_from_vs_mode
    else if text == "ecall from machine mode"
    then some TrapCause.exp_ecall_from_m_mode
    else if text == "instruction page fault"
    then some TrapCause.exp_inst_page_fault
    else if text == "load page fault"
    then some TrapCause.exp_load_page_fault
    else if text == "store page fault"
    then some TrapCause.exp_store_page_fault
    else if text == "instruction guest page fault"
    then some TrapCause.exp_inst_guest_page_fault
    else if text == "load guest page fault"
    then some TrapCause.exp_load_guest_page_fault
    else if text == "virtual instruction"
    then some TrapCause.exp_inst_virtual
    else if text == "store guest page fault"
    then some TrapCause.exp_store_guest_page_fault
    else if text == "supervisor software interrupt"
    then some TrapCause.int_sw_s
    else if text == "virtual supervisor software interrupt"
    then some TrapCause.int_sw_vs
    else if text == "machine software interrupt"
    then some TrapCause.int_sw_m
    else if text == "supervisor timer interrupt"
    then some TrapCause.int_timer_s
    else if text == "virtual supervisor timer interrupt"
    then some TrapCause.int_timer_vs
    else if text == "machine timer interrupt"
    then some TrapCause.int_timer_m
    else if text == "supervisor external interrupt"
    then some TrapCause.int_external_s
    else if text == "virtual supervisor external interrupt"
    then some TrapCause.int_external_vs
    else if text == "machine external interrupt"
    then some TrapCause.int_external_m
    else if text == "supervisor guest external interrupt"
    then some TrapCause.int_external_s_guest
    else none

cause_of-str_trap_cause : (c : TrapCause) → cause_of (str_trap_cause c) ≡ some c
unfolding cause_of str_trap_cause
cause_of-str_trap_cause TrapCause.exp_inst_addr_misaligned = refl
cause_of-str_trap_cause _ = refl

-- Two trap causes with the same text in the log are the same.
pub str_trap_cause_injective : (c c' : TrapCause) → str_trap_cause c ≡ str_trap_cause c' → c ≡ c'
str_trap_cause_injective c c' e =
    let same : some c ≡ some c' =
      sym (cause_of-str_trap_cause c) ∙ ap cause_of e ∙ cause_of-str_trap_cause c' in
    cc

-- The target that a text names.
target_of : String → Option Target
target_of text =
    if text == "load"
    then some Target.load
    else if text == "store"
    then some Target.store
    else if text == "alu"
    then some Target.alu
    else if text == "branch"
    then some Target.branch
    else if text == "csr"
    then some Target.csr
    else if text == "mret"
    then some Target.mret
    else if text == "illegal"
    then some Target.illegal
    else if text == "ebreak"
    then some Target.ebreak
    else if text == "ecall"
    then some Target.ecall
    else none

target_of-target_str :
    (t : Target) → ((n : ℕ) → t ≢ Target.unnamed n) → target_of (target_str t) ≡ some t
unfolding target_of target_str
target_of-target_str (Target.unnamed n) h = absurd (h n refl)
target_of-target_str _ h = refl

-- Two targets that have enumerators are the same if their texts in the log are the same.
pub target_str_injective :
    (t t' : Target)
    → ((n : ℕ) → t ≢ Target.unnamed n)
    → ((n : ℕ) → t' ≢ Target.unnamed n)
    → target_str t ≡ target_str t'
    → t ≡ t'
target_str_injective t t' h h' e =
    let same : some t ≡ some t' =
      sym (target_of-target_str t h) ∙ ap target_of e ∙ target_of-target_str t' h' in
    cc

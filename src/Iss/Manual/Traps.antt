-- ===== src/Iss/Manual/Traps.antt =====
-- Exceptions and the timer interrupt, on the reference hart. They are taken as the simulator takes
-- them (`trap`, `save_pc` and `interrupt_pending` of riscv32-sim/src/iss/model.cpp), where the manual
-- has other numbers of causes and other saved addresses, stacks the interrupt enable on an exception
-- too, and enters machine mode.
use riscv32_sim.Base.{
  ℕ, ◌+◌, ◌*◌, ◌/◌, ◌^◌, ◌%◌, ◌≤◌, ◌≡◌, ◌≢◌, ◌⊎◌, Bool, true, false, ◌&&◌, ltb, ◌==◌, if◌then◌else◌,
  update,
}
use riscv32_sim.Base.Bitset.{bit, with_bit}
use riscv32_sim.Common.{Op, OpType, SysOp, Target}
use riscv32_sim.Iss.Manual.State.{Hart}
use riscv32_sim.Memory.Bytes.{number_at, stored}
use riscv32_sim.Zicsr.Mode.{Privilege, user, supervisor, hypervisor, machine, to_int}

pub data Exception : Type 0 where
  illegal breakpoint call : Exception

abbrev pub cause_number : Exception → Privilege → ℕ
cause_number Exception.illegal p = 0x2
cause_number Exception.breakpoint p = 0x3
cause_number Exception.call user = 0x8
cause_number Exception.call supervisor = 0x10
cause_number Exception.call hypervisor = 0x9
cause_number Exception.call machine = 0x11

-- The address that is saved: of the instruction, or behind it, cut to a multiple of four.
abbrev pub saved_address : Exception → ℕ → ℕ
saved_address Exception.illegal pc = (pc / 4 * 4 + 4) % 2 ^ 32
saved_address _ pc = pc / 4 * 4

-- The registers of the level: its cause, its value and its saved address.
abbrev pub with_trap : Hart → ℕ → ℕ → Hart
with_trap h number address =
    let base = to_int h.mode * 2 ^ 8 in
    record h {
      csrs =
          update (update (update h.csrs (base + 0x42) number) (base + 0x43) 0) (base + 0x41)
            address;
    }

-- The base of the level's vector.
abbrev pub vector : Hart → ℕ
vector h = h.csrs (to_int h.mode * 2 ^ 8 + 0x05) / 4 * 4

-- A call with 93 in a7 stores a0 for the host and halts.
abbrev pub called : Exception → Hart → Hart
called Exception.call h =
    if h.regs 17 == 93
    then record h { bytes = stored h.bytes h.tohost 4 (h.regs 10); halted = true }
    else h
called _ h = h

abbrev pub trapped : Exception → Hart → Hart
trapped e h =
    called e (record (with_trap h (cause_number e h.mode) (saved_address e h.pc)) { pc = vector h })

-- The timer interrupt is enabled, and the memory has the time above the comparand.
abbrev pub is_due : Hart → Bool
is_due h =
    h.platform.timer_enabled
    && ltb (number_at h.bytes h.platform.mtimecmp 8) (number_at h.bytes h.platform.mtime 8)

-- The interrupt is acknowledged, its enable is stacked, and it is entered at its slot.
abbrev pub interrupted : Hart → Hart
interrupted h =
    let s = h.csrs 0x300 in
    let machine_before = with_bit (with_bit s 11 true) 12 true in
    let status = with_bit (with_bit machine_before 7 (bit machine_before 3)) 3 false in
    let taken = record h {
      csrs = update (update h.csrs 0x344 (with_bit (h.csrs 0x344) 7 false)) 0x300 status;
    } in
    record (with_trap taken 0x80000007 ((h.pc / 4 * 4 + 4) % 2 ^ 32)) {
      pc = (vector h + 7 * 4) % 2 ^ 32;
    }

-- What follows each instruction: a due timer interrupt is pending, and is taken if it is enabled in
-- mie and interrupts are in mstatus.
abbrev pub settled : Hart → Hart
settled h =
    let h' = record h { csrs = update h.csrs 0x344 (with_bit (h.csrs 0x344) 7 true) } in
    let taken = bit (h'.csrs 0x304) 7 && bit (h'.csrs 0x344) 7 && bit (h'.csrs 0x300) 3 in
    if is_due h then if taken then interrupted h' else h' else h

-- csrrs and csrrc with x0, and their immediate forms with zero, only read.
abbrev pub only_reads : SysOp → Op → Bool
only_reads SysOp.csrrs o = o.rs1 == 0
only_reads SysOp.csrrsi o = o.rs1 == 0
only_reads SysOp.csrrc o = o.rs1 == 0
only_reads SysOp.csrrci o = o.rs1 == 0
only_reads _ o = false

-- The level reaches the register, and it can be written unless the instruction only reads it.
abbrev pub ReachesCsr : SysOp → Op → Hart → Type 0
ReachesCsr s o h =
    (o.imm / 2 ^ 8 % 4 ≤ to_int h.mode) × ((only_reads s o ≡ true) ⊎ (o.imm / 2 ^ 10 % 4 ≢ 3))

-- The exception that an instruction raises.
pub data Raises (o : Op) (h : Hart) : Exception → Type 0 where
  is_illegal : o.tgt ≡ Target.illegal → Raises o h Exception.illegal
  is_breakpoint : o.tgt ≡ Target.ebreak → Raises o h Exception.breakpoint
  is_call : o.tgt ≡ Target.ecall → Raises o h Exception.call
  is_unreached :
      (s : SysOp)
      → o.tgt ≡ Target.csr
      → o.opt ≡ OpType.sys s
      → ¬ ReachesCsr s o h
      → Raises o h Exception.illegal

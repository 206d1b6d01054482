-- ===== src/Iss/Manual/State.antt =====
-- The state of the reference hart, and the parts of an instruction, as the RISC-V manual has them.
use riscv32_sim.Base.{
  ℕ, ◌+◌, ◌-◌, ◌%◌, ◌^◌, Bool, List, bit_and, bit_or, ◌==◌, if◌then◌else◌, update,
}
use riscv32_sim.Common.{Op, LoadOp, StoreOp, SysOp}
use riscv32_sim.Zicsr.Mode.{Privilege}

-- What does not change: the ranges of the program's code, the addresses at which a byte access goes
-- to a timer register, whether timer interrupts are enabled, and where in the memory the time and
-- its comparand are taken from.
pub record Platform : Type 0 where
  pub code : List (ℕ × ℕ)
  pub mtime_register : ℕ
  pub mtimecmp_register : ℕ
  pub timer_enabled : Bool
  pub mtime : ℕ
  pub mtimecmp : ℕ

pub record Hart : Type 0 where
  pub platform : Platform
  pub regs : ℕ → ℕ
  pub bytes : ℕ → ℕ
  pub pc : ℕ
  pub csrs : ℕ → ℕ
  pub mode : Privilege
  pub tohost : ℕ
  pub halted : Bool

-- x0 stays as it is.
abbrev pub with_reg : Hart → ℕ → ℕ → Hart
with_reg h i v = record h { regs = if i == 0 then h.regs else update h.regs i v }

abbrev pub go_to : Hart → ℕ → Hart
go_to h a = record h { pc = a }

-- The address of the instruction that follows.
abbrev pub following : Op → Hart → ℕ
following o h = (h.pc + (if o.is_compressed then 2 else 4)) % 2 ^ 32

-- The operands of an arithmetic instruction.
abbrev pub first : Op → Hart → ℕ
first o h = if o.use_pc then h.pc else h.regs o.rs1

abbrev pub second : Op → Hart → ℕ
second o h = if o.has_imm then o.imm else h.regs o.rs2

-- The address of a load or a store.
abbrev pub place : Op → Hart → ℕ
place o h = (h.regs o.rs1 + o.imm) % 2 ^ 32

-- The number of bytes that a load or a store moves.
abbrev pub load_size : LoadOp → ℕ
load_size LoadOp.lb = 1
load_size LoadOp.lbu = 1
load_size LoadOp.lh = 2
load_size LoadOp.lhu = 2
load_size LoadOp.lw = 4
load_size (LoadOp.unnamed n) = 0

abbrev pub store_size : StoreOp → ℕ
store_size StoreOp.sb = 1
store_size StoreOp.sh = 2
store_size StoreOp.sw = 4
store_size (StoreOp.unnamed n) = 0

-- The operand of an instruction on a control register, and what it puts there, from the operand and
-- the old value.
abbrev pub csr_operand : SysOp → Op → Hart → ℕ
csr_operand SysOp.csrrw o h = h.regs o.rs1
csr_operand SysOp.csrrs o h = h.regs o.rs1
csr_operand SysOp.csrrc o h = h.regs o.rs1
csr_operand _ o h = o.rs1

abbrev pub csr_value : SysOp → ℕ → ℕ → ℕ
csr_value SysOp.csrrs i old = bit_or i old
csr_value SysOp.csrrsi i old = bit_or i old
csr_value SysOp.csrrc i old = bit_and old (2 ^ 32 - 1 - i)
csr_value SysOp.csrrci i old = bit_and old (2 ^ 32 - 1 - i)
csr_value _ i old = i

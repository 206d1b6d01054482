-- ===== src/Iss/CsrInstr.antt =====
-- The instructions on control and status registers: `model::csr` (riscv32-sim/src/iss/model.cpp),
-- in its three parts.
pub mod Parts
pub mod Laws
pub mod Unreached
use riscv32_sim.Base.{
  ℕ, bit_and, bit_or, Bool, true, false, not, Result, ◌>>=◌, ◌==◌, if◌then◌else◌,
}
use riscv32_sim.Common.{Externals, SysOp}
use riscv32_sim.Iss.State.{Model, write_csr, write_gpr, get_sys}
use riscv32_sim.Iss.Trap.{trap}
use riscv32_sim.RegFile
use riscv32_sim.TrapCause.{exp_inst_illegal}
use riscv32_sim.Zicsr.CsrFile
use riscv32_sim.Zicsr.Mode.{can_read, can_write}

-- `Sys != csrrwi || rd != 0`.
abbrev pub reads_csr : SysOp → ℕ → Bool
reads_csr SysOp.csrrwi rd = not (rd == 0)
reads_csr _ rd = true

-- `Sys == csrrw || (Sys == csrrs && rs1 != 0) || (Sys == csrrc && rs1 != 0)`.
abbrev pub writes_register : SysOp → ℕ → Bool
writes_register SysOp.csrrw rs1 = true
writes_register SysOp.csrrs rs1 = not (rs1 == 0)
writes_register SysOp.csrrc rs1 = not (rs1 == 0)
writes_register _ rs1 = false

-- `Sys == csrrwi || Sys == csrrsi || Sys == csrrci`.
abbrev pub writes_immediate : SysOp → Bool
writes_immediate SysOp.csrrwi = true
writes_immediate SysOp.csrrsi = true
writes_immediate SysOp.csrrci = true
writes_immediate _ = false

-- `!I` of C++, the logical negation, as the number that it is converted to.
abbrev pub logical_not : ℕ → ℕ
logical_not i = if i == 0 then 1 else 0

-- The value that is written, from the operand and the old value.
abbrev pub register_value : SysOp → ℕ → ℕ → ℕ
register_value SysOp.csrrs i tmp = bit_or i tmp
register_value SysOp.csrrc i tmp = bit_and tmp (logical_not i)
register_value _ i tmp = i

abbrev pub immediate_value : SysOp → ℕ → ℕ → ℕ
immediate_value SysOp.csrrsi i tmp = bit_or i tmp
immediate_value SysOp.csrrci i tmp = bit_and (logical_not i) tmp
immediate_value _ i tmp = i

module _ ⦃x : Externals⦄ where
  unfoldable pub csr_immediate : Model → SysOp → ℕ → Result Model
  csr_immediate m sys tmp =
      let dec = m.cur_state.dec in
      let finish = λ (m' : Model). write_gpr m' dec.rd tmp in
      if writes_immediate sys
      then if can_write m.mode dec.imm
        then (write_csr m dec.imm (immediate_value sys dec.rs1 tmp) >>= finish)
        else trap m exp_inst_illegal
      else finish m

  unfoldable pub csr_register : Model → SysOp → ℕ → Result Model
  unfolding csr_immediate
  csr_register m sys tmp =
      let dec = m.cur_state.dec in
      let rest = λ (m' : Model). csr_immediate m' sys tmp in
      if writes_register sys dec.rs1
      then if can_read m.mode dec.rs1
        then (RegFile.read m.regf dec.rs1 >>= λ i.
            if can_write m.mode dec.imm
            then (write_csr m dec.imm (register_value sys i tmp) >>= rest)
            else trap m exp_inst_illegal)
        else trap m exp_inst_illegal
      else rest m

  unfoldable pub csr : Model → Result Model
  unfolding csr_register
  csr m =
      let dec = m.cur_state.dec in
      get_sys dec.opt >>= λ sys.
      if reads_csr sys dec.rd
      then if can_read m.mode dec.imm
        then (CsrFile.read m.csrf dec.imm >>= λ tmp. csr_register m sys tmp)
        else trap m exp_inst_illegal
      else csr_register m sys 0

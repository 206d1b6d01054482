-- ===== src/Format/Operation.antt =====
-- The texts of operations in the log: `op_type_str` of riscv32-sim/include/util/format_helpers.hpp.
use Prim.Native.String.{String}
use text.Mathlib.Text.{◌==◌}
use riscv32_sim.Base.{◌≡◌, ◌≢◌, refl, ap, ◌∙◌, sym, Option, none, some, if◌then◌else◌}
use riscv32_sim.Common.{Alu, LoadOp, StoreOp, BranchOp, SysOp, OpType}

unfoldable pub op_type_str : OpType → String
op_type_str OpType.monostate = "empty"
op_type_str (OpType.alu Alu.and) = "and"
op_type_str (OpType.alu Alu.or) = "or"
op_type_str (OpType.alu Alu.xor) = "xor"
op_type_str (OpType.alu Alu.add) = "add"
op_type_str (OpType.alu Alu.sub) = "sub"
op_type_str (OpType.alu Alu.sll) = "sll"
op_type_str (OpType.alu Alu.srl) = "srl"
op_type_str (OpType.alu Alu.sra) = "sra"
op_type_str (OpType.alu Alu.slt) = "slt"
op_type_str (OpType.alu Alu.sltu) = "sltu"
op_type_str (OpType.alu Alu.mul) = "mul"
op_type_str (OpType.alu Alu.mulh) = "mulh"
op_type_str (OpType.alu Alu.mulhsu) = "mulhsu"
op_type_str (OpType.alu Alu.mulhu) = "mulhu"
op_type_str (OpType.alu Alu.div) = "div"
op_type_str (OpType.alu Alu.divu) = "divu"
op_type_str (OpType.alu Alu.rem) = "rem"
op_type_str (OpType.alu Alu.remu) = "remu"
op_type_str (OpType.alu Alu.auipc) = "auipc"
op_type_str (OpType.alu Alu.jal) = "jal"
op_type_str (OpType.alu Alu.jalr) = "jalr"
op_type_str (OpType.load LoadOp.lb) = "lb"
op_type_str (OpType.load LoadOp.lh) = "lh"
op_type_str (OpType.load LoadOp.lw) = "lw"
op_type_str (OpType.load LoadOp.lbu) = "lbu"
op_type_str (OpType.load LoadOp.lhu) = "lhu"
op_type_str (OpType.store StoreOp.sb) = "sb"
op_type_str (OpType.store StoreOp.sh) = "sh"
op_type_str (OpType.store StoreOp.sw) = "sw"
op_type_str (OpType.branch BranchOp.beq) = "beq"
op_type_str (OpType.branch BranchOp.bne) = "bne"
op_type_str (OpType.branch BranchOp.blt) = "blt"
op_type_str (OpType.branch BranchOp.bge) = "bge"
op_type_str (OpType.branch BranchOp.bltu) = "bltu"
op_type_str (OpType.branch BranchOp.bgeu) = "bgeu"
op_type_str (OpType.sys SysOp.csrrw) = "csrrw"
op_type_str (OpType.sys SysOp.csrrs) = "csrrs"
op_type_str (OpType.sys SysOp.other) = "other"
op_type_str (OpType.sys SysOp.csrrc) = "csrrc"
op_type_str (OpType.sys SysOp.csrrwi) = "csrrwi"
op_type_str (OpType.sys SysOp.csrrsi) = "csrrsi"
op_type_str (OpType.sys SysOp.csrrci) = "csrrci"
op_type_str (OpType.alu (Alu.unnamed n)) = "unknown"
op_type_str (OpType.load (LoadOp.unnamed n)) = "unknown"
op_type_str (OpType.store (StoreOp.unnamed n)) = "unknown"
op_type_str (OpType.branch (BranchOp.unnamed n)) = "unknown"
op_type_str (OpType.sys (SysOp.unnamed n)) = "unknown"

-- The operation that a text names.
operation_of : String → Option OpType
operation_of text =
    if text == "empty"
    then some OpType.monostate
    else if text == "and"
    then some (OpType.alu Alu.and)
    else if text == "or"
    then some (OpType.alu Alu.or)
    else if text == "xor"
    then some (OpType.alu Alu.xor)
    else if text == "add"
    then some (OpType.alu Alu.add)
    else if text == "sub"
    then some (OpType.alu Alu.sub)
    else if text == "sll"
    then some (OpType.alu Alu.sll)
    else if text == "srl"
    then some (OpType.alu Alu.srl)
    else if text == "sra"
    then some (OpType.alu Alu.sra)
    else if text == "slt"
    then some (OpType.alu Alu.slt)
    else if text == "sltu"
    then some (OpType.alu Alu.sltu)
    else if text == "mul"
    then some (OpType.alu Alu.mul)
    else if text == "mulh"
    then some (OpType.alu Alu.mulh)
    else if text == "mulhsu"
    then some (OpType.alu Alu.mulhsu)
    else if text == "mulhu"
    then some (OpType.alu Alu.mulhu)
    else if text == "div"
    then some (OpType.alu Alu.div)
    else if text == "divu"
    then some (OpType.alu Alu.divu)
    else if text == "rem"
    then some (OpType.alu Alu.rem)
    else if text == "remu"
    then some (OpType.alu Alu.remu)
    else if text == "auipc"
    then some (OpType.alu Alu.auipc)
    else if text == "jal"
    then some (OpType.alu Alu.jal)
    else if text == "jalr"
    then some (OpType.alu Alu.jalr)
    else if text == "lb"
    then some (OpType.load LoadOp.lb)
    else if text == "lh"
    then some (OpType.load LoadOp.lh)
    else if text == "lw"
    then some (OpType.load LoadOp.lw)
    else if text == "lbu"
    then some (OpType.load LoadOp.lbu)
    else if text == "lhu"
    then some (OpType.load LoadOp.lhu)
    else if text == "sb"
    then some (OpType.store StoreOp.sb)
    else if text == "sh"
    then some (OpType.store StoreOp.sh)
    else if text == "sw"
    then some (OpType.store StoreOp.sw)
    else if text == "beq"
    then some (OpType.branch BranchOp.beq)
    else if text == "bne"
    then some (OpType.branch BranchOp.bne)
    else if text == "blt"
    then some (OpType.branch BranchOp.blt)
    else if text == "bge"
    then some (OpType.branch BranchOp.bge)
    else if text == "bltu"
    then some (OpType.branch BranchOp.bltu)
    else if text == "bgeu"
    then some (OpType.branch BranchOp.bgeu)
    else if text == "csrrw"
    then some (OpType.sys SysOp.csrrw)
    else if text == "csrrs"
    then some (OpType.sys SysOp.csrrs)
    else if text == "other"
    then some (OpType.sys SysOp.other)
    else if text == "csrrc"
    then some (OpType.sys SysOp.csrrc)
    else if text == "csrrwi"
    then some (OpType.sys SysOp.csrrwi)
    else if text == "csrrsi"
    then some (OpType.sys SysOp.csrrsi)
    else if text == "csrrci"
    then some (OpType.sys SysOp.csrrci)
    else none

operation_of-op_type_str :
    (t : OpType) → op_type_str t ≢ "unknown" → operation_of (op_type_str t) ≡ some t
unfolding operation_of op_type_str
operation_of-op_type_str OpType.monostate h = refl
operation_of-op_type_str (OpType.alu (Alu.unnamed n)) h = absurd (h refl)
operation_of-op_type_str (OpType.alu _) h = refl
operation_of-op_type_str (OpType.load (LoadOp.unnamed n)) h = absurd (h refl)
operation_of-op_type_str (OpType.load _) h = refl
operation_of-op_type_str (OpType.store (StoreOp.unnamed n)) h = absurd (h refl)
operation_of-op_type_str (OpType.store _) h = refl
operation_of-op_type_str (OpType.branch (BranchOp.unnamed n)) h = absurd (h refl)
operation_of-op_type_str (OpType.branch _) h = refl
operation_of-op_type_str (OpType.sys (SysOp.unnamed n)) h = absurd (h refl)
operation_of-op_type_str (OpType.sys _) h = refl

-- Two operations with the same text in the log are the same, where the text is not the one for
-- values without an enumerator.
pub op_type_str_injective :
    (t t' : OpType) → op_type_str t ≢ "unknown" → op_type_str t ≡ op_type_str t' → t ≡ t'
op_type_str_injective t t' h e =
    let same : some t ≡ some t' =
      sym (operation_of-op_type_str t h)
      ∙ ap operation_of e
      ∙ operation_of-op_type_str t' (λ e'. h (e ∙ e')) in
    cc

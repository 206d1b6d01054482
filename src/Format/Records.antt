-- ===== src/Format/Records.antt =====
-- The formatters of operations and of changes of registers, in
-- riscv32-sim/include/util/format_helpers.hpp. How a value is set in a width is the formatting library's.
use Prim.Native.String.{String, ◌++◌}
use riscv32_sim.Base.{ℕ, Bool, List, [], ◌∷◌}
use riscv32_sim.TrapCause.{TrapCause}
use riscv32_sim.Common.{Externals, HartState, Op, GprChange, CsrChange}
use riscv32_sim.Format.{str_trap_cause, target_str}
use riscv32_sim.Format.Operation.{op_type_str}

pub data Cell : Type 0 where
  text : String → Cell
  number : ℕ → Cell
  flag : Bool → Cell

-- `{:<w}` of a cell, and `{:>#wx}` of a number.
pub record Fmt : Type 0 where
  pub left : ℕ → Cell → String
  pub hex : ℕ → ℕ → String

-- The pairs of the arguments from the third on, after the title.
unfoldable pub fields : Op → List (String × Cell)
fields value =
    ("imm", number value.imm)
    ∷ ("tgt", text (target_str value.tgt))
    ∷ ("opt", text (op_type_str value.opt))
    ∷ ("rd", number value.rd)
    ∷ ("rs1", number value.rs1)
    ∷ ("rs2", number value.rs2)
    ∷ ("has_imm", flag value.has_imm)
    ∷ ("use_pc", flag value.use_pc)
    ∷ ("is_compressed", flag value.is_compressed)
    ∷ []

abbrev pub border : String
border = "+--------------+-----------------+\n"

unfoldable pub row : Fmt → String → Cell → String
row f name value = "|" ++ f.left 14 (text name) ++ "|" ++ f.left 17 value ++ "|\n" ++ border

unfoldable pub rows : Fmt → List (String × Cell) → String
unfolding row
rows f [] = ""
rows f ((name, value) ∷ rest) = row f name value ++ rows f rest

unfoldable pub format_op : Fmt → Op → String
unfolding rows fields
format_op f value = border ++ rows f (("Field", text "Value") ∷ fields value)

unfoldable pub format_change : Fmt → String → ℕ → ℕ → ℕ → String
format_change f file index prev next =
    file ++ "[" ++ f.hex 5 index ++ "]: " ++ f.hex 10 prev ++ " => " ++ f.hex 10 next

unfoldable pub format_csr : Fmt → CsrChange → String
unfolding format_change
format_csr f change = format_change f "CSR" change.index change.prev change.next

unfoldable pub format_gpr : Fmt → GprChange → String
unfolding format_change
format_gpr f change = format_change f "GPR" change.index change.prev change.next

unfoldable pub format_trap_cause : TrapCause → String
format_trap_cause tc = str_trap_cause tc

-- `operator<<` of riscv32-sim/src/main.cpp, a line of the disassembly. The text of an instruction at an
-- address is the disassembler's.
unfoldable pub format_state : ⦃x : Externals⦄ → (ℕ → ℕ → String) → Fmt → HartState → String
format_state ⦃x⦄ disasm_inst f state =
    let pc = x.pc_value state.pc in f.hex 10 pc ++ "\t" ++ disasm_inst pc state.instr

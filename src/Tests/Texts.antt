-- ===== src/Tests/Texts.antt =====
-- The theorems on the texts of the log at concrete inputs.
use text.Mathlib.Text.{◌==◌}
use riscv32_sim.Base.{◌≡◌, ◌≢◌, ap, true, false}
use riscv32_sim.Common.{Alu, OpType}
use riscv32_sim.Format.Operation.{op_type_str}

mulh_known : op_type_str (OpType.alu Alu.mulh) ≢ "unknown"
unfolding op_type_str
mulh_known e = let b : true ≡ false = ap (λ s. s == "mulh") e in cc

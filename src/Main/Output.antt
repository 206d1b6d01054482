-- ===== src/Main/Output.antt =====
-- What a run writes: lines on the terminal, the trace of disassembled instructions and the JSON
-- export. The texts are made by libraries, so a line is the value that it shows.
use Prim.Native.String.{String}
use riscv32_sim.Base.{ℕ, List, []}
use riscv32_sim.Common.{Op, GprChange, CsrChange}

pub data Line : Type 0 where
  operation : Op → Line
  gpr : GprChange → Line
  csr : CsrChange → Line
  exited : String → ℕ → Line

pub record Output : Type 0 where
  pub terminal : List Line
  pub disas : List (ℕ × ℕ)
  pub state_export : List Op
  pub files : List (String × List Op)

abbrev pub no_output : Output
no_output = record { terminal = []; disas = []; state_export = []; files = [] }

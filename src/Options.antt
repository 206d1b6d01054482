-- ===== src/Options.antt =====
-- The options of the command line (riscv32-sim/include/options.hpp). `port` and `tcp_enabled` are
-- those of a build with the TCP server; another build does not look at them.
use Prim.Native.String.{String}
use riscv32_sim.Base.{ℕ, Bool}

pub record Options : Type 0 where
  pub target : String
  pub tohost_sym : String
  pub json_output : String
  pub disas_output : String
  pub mtime : ℕ  -- uint32
  pub mtimecmp : ℕ  -- uint32
  pub interval : ℕ  -- uint32
  pub port : ℕ  -- uint16
  pub tcp_enabled : Bool
  pub mti_enabled : Bool
  pub fstep : Bool
  pub dump_exit : Bool

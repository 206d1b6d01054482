-- ===== src/Tests/Machine.antt =====
-- A machine for the tests, with a hart that is about to run an instruction.
use riscv32_sim.Base.{ℕ, refl, arith, true, false, [], ◌∷◌, none, if◌then◌else◌, ◌==◌}
use riscv32_sim.Common.{Op, HartState}
use riscv32_sim.Iss.Sound.{IsMemory, IsSound, IsStaged}
use riscv32_sim.Iss.Sound.Writes.{write32-IsMemory}
use riscv32_sim.Iss.State.{Model}
use riscv32_sim.Memory.Accessor.{SparseMemory}
use riscv32_sim.Memory.Accessor
use riscv32_sim.Memory.Bytes.{IsBytes}
use riscv32_sim.Memory.Router
use riscv32_sim.Memory.Router.{Router}
use riscv32_sim.Options.{Options}
use riscv32_sim.Zicsr.Mode.{machine, set_mode}
use riscv32_sim.Tests.Libraries.{addi, libraries, libraries-IsDocumented, addi-IsOp}

abbrev pub no_pages : SparseMemory
no_pages a = none

pub no_pages-IsBytes : IsBytes no_pages
unfolding Accessor.read8
no_pages-IsBytes a h = omega arith

-- The timer's registers at 0x4000 and 0x4008.
abbrev pub blank : Router
blank = record {
  page = no_pages;
  mtime_addr = 0x4000;
  mtimecmp_addr = 0x4008;
  mtimecmp = λ i. 0;
  mtime = λ i. 0;
}

pub blank-IsMemory : IsMemory blank
blank-IsMemory = record {
  page_bytes = no_pages-IsBytes;
  mtime_bytes = λ i. omega arith;
  mtimecmp_bytes = λ i. omega arith;
}

abbrev pub loaded : Router
loaded = Router.write32 blank 0x1000 0x00500093

abbrev pub options : Options
options = record {
  target = "";
  tohost_sym = "tohost";
  json_output = "";
  disas_output = "";
  mtime = 0x4000;
  mtimecmp = 0x4008;
  interval = 1;
  port = 0;
  tcp_enabled = false;
  mti_enabled = true;
  fstep = false;
  dump_exit = false;
}

abbrev pub hart : Op → HartState
hart o = record {
  pc = record { pc = 0x1000; pc_next = 0x1004 };
  instr = 0;
  dec = o;
  gpr_staged = [];
  csr_staged = [];
}

-- The interrupt is pending and enabled, with its vector at 0x2000.
abbrev pub registers : ℕ → ℕ
registers i =
    if i == 0x300
    then 8
    else if i == 0x304
    then 128
    else if i == 0x344
    then 128
    else if i == 0x305
    then 0x2000
    else 0

abbrev pub ready : Model
ready = record {
  cur_state = hart addi;
  allowed_pcs = (0x1000, 0x1FFF) ∷ [];
  opts = options;
  tohost_addr = 0x3000;
  mem = loaded;
  mode = set_mode machine;
  regf = λ i. 0;
  csrf = registers;
  is_done = false;
}

pub ready-IsSound : IsSound ready
unfolding set_mode
ready-IsSound = record {
  mode_set = refl;
  gpr_fits = λ i. omega arith;
  x0 = refl;
  csr_fits = λ i. ground arith;
  mem_bytes =
      write32-IsMemory libraries-IsDocumented blank 0x1000 0x00500093 (omega arith) blank-IsMemory;
  pc_fits = omega arith;
  tohost_fits = omega arith;
  mtime_fits = omega arith;
  mtimecmp_fits = omega arith;
}

pub ready-IsStaged : IsStaged ready
ready-IsStaged = record { sound = ready-IsSound; op = addi-IsOp; next_fits = omega arith }

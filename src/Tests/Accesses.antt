-- ===== src/Tests/Accesses.antt =====
-- The theorems on stores and loads and on control and status registers at a concrete machine: a
-- byte whose top bit is set, and a bit of `mie` that is set.
use riscv32_sim.Base.{
  ℕ, inr, ◌≡◌, refl, arith, true, false, ok, ◌>>=◌, bit_or, Returns, if◌then◌else◌, ◌==◌,
}
use riscv32_sim.Common.{Op, OpType, LoadOp, StoreOp, SysOp, Target}
use riscv32_sim.Iss.CsrInstr.{csr}
use riscv32_sim.Iss.CsrInstr.Laws.{csr-Exchanges}
use riscv32_sim.Iss.CsrInstr.Parts.{Exchanges}
use riscv32_sim.Iss.CsrInstr.Parts as Effects
use riscv32_sim.Iss.LoadStore.{load, store}
use riscv32_sim.Iss.LoadStore.Laws.{byte, loaded, next, load-store}
use riscv32_sim.Iss.Sound.{IsOp, IsSound}
use riscv32_sim.Iss.State.{Model}
use riscv32_sim.Zicsr.Mode.{can_read, can_write, set_mode}
use riscv32_sim.Tests.Libraries.{libraries, libraries-IsDocumented}
use riscv32_sim.Tests.Machine.{hart, ready, ready-IsSound}

abbrev access : ℕ → OpType → Target → Op
access from opt tgt = record {
  imm = 0x3000;
  opt = opt;
  tgt = tgt;
  rd = 1;
  rs1 = from;
  rs2 = 2;
  has_imm = true;
  use_pc = false;
  is_compressed = false;
}

abbrev sb : Op
sb = access 0 (OpType.store StoreOp.sb) Target.store

abbrev lb : Op
lb = access 0 (OpType.load LoadOp.lb) Target.load

-- x2 holds 0x80.
abbrev storing : Model
storing = record ready { cur_state = hart sb; regf = λ i. if i == 2 then 0x80 else 0 }

storing-IsSound : IsSound storing
storing-IsSound = record {
  mode_set = ready-IsSound.mode_set;
  gpr_fits = λ i. ground arith;
  x0 = refl;
  csr_fits = ready-IsSound.csr_fits;
  mem_bytes = ready-IsSound.mem_bytes;
  pc_fits = omega arith;
  tohost_fits = omega arith;
  mtime_fits = omega arith;
  mtimecmp_fits = omega arith;
}

sb-IsOp : IsOp sb
sb-IsOp = record {
  rd_fits = omega arith;
  rs1_fits = omega arith;
  rs2_fits = omega arith;
  imm_fits = omega arith;
  matches = (StoreOp.sb, refl, λ n. ground arith);
}

load-store_example :
    (store storing >>= λ m'. load (next m' lb)) ≡ ok (loaded LoadOp.lb (storing.regf 2))
load-store_example =
    load-store libraries-IsDocumented byte storing lb storing-IsSound sb-IsOp refl refl refl refl

-- csrrs x1, mie, x2
abbrev csrrs : Op
csrrs = record (access 2 (OpType.sys SysOp.csrrs) Target.csr) { imm = 0x304 }

abbrev setting : Model
setting = record storing { cur_state = hart csrrs }

csrrs-IsOp : IsOp csrrs
csrrs-IsOp = record {
  rd_fits = omega arith;
  rs1_fits = omega arith;
  rs2_fits = omega arith;
  imm_fits = omega arith;
  matches = (SysOp.csrrs, refl, omega arith);
}

mie_readable : can_read setting.mode 0x304 ≡ true
unfolding can_read set_mode
mie_readable = refl

mie_writable : can_write setting.mode 0x304 ≡ true
unfolding can_write set_mode
mie_writable = refl

csr-Exchanges_example :
    Returns (Exchanges setting (bit_or (setting.regf 2) (setting.csrf 0x304))) (csr setting)
csr-Exchanges_example =
    csr-Exchanges libraries-IsDocumented setting csrrs-IsOp (omega arith) SysOp.csrrs
      (bit_or (setting.regf 2) (setting.csrf 0x304)) refl refl mie_readable (inr mie_writable)
      Effects.csrrs

-- ===== src/Iss/Sound.antt =====
-- The invariant of the simulator's state, between instructions and within one.
pub mod Writes
pub mod Status
pub mod Traps
pub mod Handlers
pub mod Accesses
pub mod CsrInstrs
pub mod Steps
pub mod Commits
pub mod Starts
use riscv32_sim.Base.{ℕ, ◌+◌, ◌*◌, ◌^◌, ◌≤◌, ◌<◌, ◌≡◌, ◌≢◌, arith}
use riscv32_sim.Common.{Externals, Op, OpType, Alu, LoadOp, StoreOp, BranchOp, SysOp, Target}
use riscv32_sim.Iss.State.{Model, pc_of}
use riscv32_sim.Memory.Bytes.{IsBytes}
use riscv32_sim.Memory.Router.{Router}
use riscv32_sim.Zicsr.Mode.{set_mode}

-- The operation fits its target, and names an enumerator.
abbrev pub Matches : Target → Op → Type 0
Matches Target.alu o = (a : Alu) × (o.opt ≡ OpType.alu a) × ((n : ℕ) → a ≢ Alu.unnamed n)
Matches Target.load o = (l : LoadOp) × (o.opt ≡ OpType.load l) × ((n : ℕ) → l ≢ LoadOp.unnamed n)
Matches Target.store o =
    (s : StoreOp) × (o.opt ≡ OpType.store s) × ((n : ℕ) → s ≢ StoreOp.unnamed n)
Matches Target.branch o =
    (b : BranchOp) × (o.opt ≡ OpType.branch b) × ((n : ℕ) → b ≢ BranchOp.unnamed n)
Matches Target.csr o = (s : SysOp) × (o.opt ≡ OpType.sys s) × (o.imm < 4096)
Matches _ o = Unit {0}

-- A decoded instruction.
pub record IsOp (o : Op) : Type 0 where
  pub rd_fits : o.rd < 32
  pub rs1_fits : o.rs1 < 32
  pub rs2_fits : o.rs2 < 32
  pub imm_fits : o.imm < 2 ^ 32
  pub matches : Matches o.tgt o

-- What the decoder promises.
pub record IsDecoder (x : Externals) : Type 0 where
  pub decode-IsOp : (w : ℕ) → w < 2 ^ 32 → IsOp (x.decode w)
  pub decode16-IsOp : (w : ℕ) → w < 2 ^ 32 → IsOp (x.decode16 w)

module _ ⦃x : Externals⦄ where
  pub record IsMemory (r : Router) : Type 0 where
    pub page_bytes : IsBytes r.page
    pub mtime_bytes : (i : ℕ) → r.mtime i < 2 ^ 8
    pub mtimecmp_bytes : (i : ℕ) → r.mtimecmp i < 2 ^ 8

  -- Every register holds a word, x0 holds zero, the memory holds bytes, and the registers of the
  -- current privilege level are where the mode says.
  pub record IsSound (m : Model) : Type 0 where
    pub mode_set : m.mode ≡ set_mode m.mode.m
    pub gpr_fits : (i : ℕ) → m.regf i < 2 ^ 32
    pub x0 : m.regf 0 ≡ 0
    pub csr_fits : (i : ℕ) → m.csrf i < 2 ^ 32
    pub mem_bytes : IsMemory m.mem
    pub pc_fits : pc_of m < 2 ^ 32
    pub tohost_fits : m.tohost_addr < 2 ^ 32
    pub mtime_fits : m.opts.mtime < 2 ^ 32
    pub mtimecmp_fits : m.opts.mtimecmp < 2 ^ 32

  -- Within an instruction: it is decoded, and the next program counter is staged.
  pub record IsStaged (m : Model) : Type 0 where
    pub sound : IsSound m
    pub op : IsOp m.cur_state.dec
    pub next_fits : x.pc_value (x.pc_update m.cur_state.pc) < 2 ^ 32

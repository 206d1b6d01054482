-- ===== src/Iss/Manual.antt =====
-- The reference hart: what an instruction does to it, as the RISC-V manual has it but for the traps;
-- and the word of the host, a store at whose address halts it. The state of `iss::model`
-- (riscv32-sim/src/iss/model.cpp) is read as one.
pub mod State
pub mod Traps
pub mod Plain
pub mod Accesses
pub mod Exceptions
pub mod Interrupts
pub mod Handlers
pub mod System
pub mod CsrAccesses
pub mod Steps
pub mod Runs
pub mod Determined
pub mod Halting
use riscv32_sim.Base.{
  ℕ, zero, suc, ◌+◌, ◌%◌, ◌^◌, ◌≡◌, ◌≢◌, ◌⊎◌, Bool, true, false, ◌==◌, if◌then◌else◌, update,
}
use riscv32_sim.Base.Bitset.{bit}
use riscv32_sim.Base.Word.{u32}
use riscv32_sim.Common.{Externals, Op, OpType, Alu, LoadOp, StoreOp, BranchOp, SysOp, Target}
use riscv32_sim.Iss.Alu.Spec.{alu_result}
use riscv32_sim.Iss.Branch.{Taken}
use riscv32_sim.Iss.LoadStore.Laws.{loaded}
use riscv32_sim.Iss.Manual.State.{
  Platform, Hart, with_reg, go_to, following, first, second, place, load_size, store_size,
  csr_operand, csr_value,
}
use riscv32_sim.Iss.Manual.Traps.{Exception, ReachesCsr, Raises, trapped, settled}
use riscv32_sim.Iss.State.{Model, pc_of}
use riscv32_sim.Iss.Trap.{privilege_of}
use riscv32_sim.Iss.Trap.Return.{mstatus_left}
use riscv32_sim.Memory.Accessor
use riscv32_sim.Memory.Bytes.{number_at, stored}

-- What an instruction does.
pub data Executes (o : Op) (h : Hart) : Hart → Type 0 where
  computes :
      (a : Alu)
      → o.tgt ≡ Target.alu
      → o.opt ≡ OpType.alu a
      → a ≢ Alu.jal
      → a ≢ Alu.jalr
      → Executes o h
          (go_to (with_reg h o.rd (alu_result a (first o h) (second o h))) (following o h))
  jumps :
      (a : Alu)
      → o.tgt ≡ Target.alu
      → o.opt ≡ OpType.alu a
      → (a ≡ Alu.jal) ⊎ (a ≡ Alu.jalr)
      → Executes o h
          (go_to (with_reg h o.rd (following o h)) (alu_result a (first o h) (second o h)))
  loads :
      (l : LoadOp)
      → o.tgt ≡ Target.load
      → o.opt ≡ OpType.load l
      → Executes o h (
          go_to
            (with_reg h o.rd (loaded l (number_at h.bytes (place o h) (load_size l))))
            (following o h))
  stores :
      (s : StoreOp)
      → o.tgt ≡ Target.store
      → o.opt ≡ OpType.store s
      → Executes o h (
          go_to
            (record h {
              bytes = stored h.bytes (place o h) (store_size s) (h.regs o.rs2);
              halted = place o h == h.tohost;
            })
            (following o h))
  branches :
      (b : BranchOp)
      → o.tgt ≡ Target.branch
      → o.opt ≡ OpType.branch b
      → Taken b (h.regs o.rs1) (h.regs o.rs2)
      → Executes o h (go_to h ((h.pc + o.imm) % 2 ^ 32))
  passes :
      (b : BranchOp)
      → o.tgt ≡ Target.branch
      → o.opt ≡ OpType.branch b
      → ¬ Taken b (h.regs o.rs1) (h.regs o.rs2)
      → Executes o h (go_to h (following o h))
  exchanges :
      (s : SysOp)
      → o.tgt ≡ Target.csr
      → o.opt ≡ OpType.sys s
      → ReachesCsr s o h
      → Executes o h (
          go_to
            (record (with_reg h o.rd (h.csrs o.imm)) {
              csrs = update h.csrs o.imm (csr_value s (csr_operand s o h) (h.csrs o.imm));
            })
            (following o h))
  returns :
      o.tgt ≡ Target.mret
      → Executes o h (
          go_to
            (record h {
              csrs = update h.csrs 0x300 (mstatus_left (h.csrs 0x300));
              mode = privilege_of (bit (h.csrs 0x300) 12) (bit (h.csrs 0x300) 11);
            })
            (h.csrs 0x341))
  traps : (e : Exception) → Raises o h e → Executes o h (trapped e h)

module _ ⦃x : Externals⦄ where
  -- The instruction at the program counter, of two bytes unless its lowest bits are both set.
  abbrev pub fetched : Hart → Op
  fetched h = let w = number_at h.bytes h.pc 4 in if w % 4 == 3 then x.decode w else x.decode16 w

  -- Where the hart is after so many instructions, each with the interrupt behind it, or when it has
  -- halted before.
  pub data Reaches : ℕ → Hart → Hart → Type 0 where
    spent : {h : Hart} → Reaches zero h h
    halts : {n : ℕ} {h : Hart} → h.halted ≡ true → Reaches n h h
    goes :
        {n : ℕ} {h h' h'' : Hart}
        → h.halted ≡ false
        → Executes (fetched h) h h'
        → Reaches n (settled h') h''
        → Reaches (suc n) h h''

  -- The simulator's state as such a hart.
  abbrev pub view : Model → Hart
  view m = record {
    platform = record {
      code = m.allowed_pcs;
      mtime_register = m.mem.mtime_addr;
      mtimecmp_register = m.mem.mtimecmp_addr;
      timer_enabled = m.opts.mti_enabled;
      mtime = m.opts.mtime;
      mtimecmp = m.opts.mtimecmp;
    };
    regs = m.regf;
    bytes = λ a. Accessor.read8 m.mem.page (u32 a);
    pc = pc_of m;
    csrs = m.csrf;
    mode = m.mode.m;
    tohost = m.tohost_addr;
    halted = m.is_done;
  }

-- ===== src/Iss/Manual/Handlers.antt =====
-- The handlers of arithmetic, loads, stores and branches do what the hart does.
use riscv32_sim.Base.{
  ℕ, ◌+◌, ◌≡◌, ◌≢◌, refl, ◌∙◌, arith, Bool, true, false, ok, ◌==◌, if◌then◌else◌, Returns, ok-if,
  ◌>>=◌, ◌↔◌, ◌⊎◌, inl, inr,
}
use riscv32_sim.Base.Word.{u32}
use riscv32_sim.Common.{Externals, IsDocumented, OpType, Alu, BranchOp, Target}
use riscv32_sim.Iss.Alu.{do_alu}
use riscv32_sim.Iss.Alu.Laws.{do_alu-alu_result}
use riscv32_sim.Iss.Alu.Spec.{alu_result}
use riscv32_sim.Iss.Branch.{should_branch-Taken, Taken}
use riscv32_sim.Iss.Exec.{handle_alu, handle_load, handle_branch, write_alu}
use riscv32_sim.Iss.LoadStore.{store}
use riscv32_sim.Iss.LoadStore.Laws.{address, load-load_value, store-store_value}
use riscv32_sim.Iss.Manual.{Executes, view}
use riscv32_sim.Iss.Manual.State.{following}
use riscv32_sim.Iss.Manual.Plain.{KeepsAway}
use riscv32_sim.Iss.Manual.Accesses.{load_value-loaded, store_value-stored}
use riscv32_sim.Iss.Sound.{Matches, IsStaged}
use riscv32_sim.Iss.Sound.Handlers.{IsDefined, operand_1, operand_2, operand_1-lt, operand_2-lt}
use riscv32_sim.Iss.State.{Model, pc_of, set_pc, update_pc, write_gpr}
use riscv32_sim.Iss.State.Updates.{gpr_written, write_gpr-gpr_written, read-gpr}

module _ ⦃x : Externals⦄ where
  -- The program counter that is staged.
  abbrev pub next_pc : Model → ℕ
  next_pc m = x.pc_value (x.pc_update m.cur_state.pc)

  -- What `commit` makes of the state is where the instruction leads the hart.
  abbrev pub Does : Model → Model → Type 0
  Does m m₁ = Executes m.cur_state.dec (view m) (view (update_pc m₁))

module _ ⦃x : Externals⦄ (d : IsDocumented x) (m : Model) (s : IsStaged m)
    (staged : next_pc m ≡ following m.cur_state.dec (view m)) where
  pub handle_load-Does :
      m.cur_state.dec.tgt ≡ Target.load
      → Matches Target.load m.cur_state.dec
      → KeepsAway m.cur_state.dec (view m)
      → Returns (Does m) (handle_load m)
  unfolding handle_load
  handle_load-Does t (l, e, named) outside =
      let rd = m.cur_state.dec.rd in
      let found =
        load_value-loaded m.mem l (address m) s.sound.mem_bytes (omega arith) named
          (outside.0 l e) in
      rw (load-load_value d l m s.op.rs1_fits e, found)
        (record {
          value = gpr_written m rd _;
          returns = write_gpr-gpr_written m rd _ s.op.rd_fits;
          holds = rw staged (Executes.loads l t e);
        })

  pub store-Does :
      m.cur_state.dec.tgt ≡ Target.store
      → Matches Target.store m.cur_state.dec
      → KeepsAway m.cur_state.dec (view m)
      → Returns (Does m) (store m)
  store-Does tgt (t, e, named) outside =
      let v = m.regf m.cur_state.dec.rs2 in
      let put = store_value-stored d m.mem t (address m) v (omega arith) named (outside.1 t e) in
      rw (store-store_value d t m s.op e, put.returns)
        (record {
          value = record m { mem = put.value; is_done = address m == m.tohost_addr };
          returns = refl;
          holds = rw (put.holds.0, put.holds.1, put.holds.2, staged) (Executes.stores t tgt e);
        })

  -- Both outcomes of a branch.
  branched :
      (b : BranchOp)
      → m.cur_state.dec.tgt ≡ Target.branch
      → m.cur_state.dec.opt ≡ OpType.branch b
      → (t : Bool)
      → ((t ≡ true) ↔ Taken b (m.regf m.cur_state.dec.rs1) (m.regf m.cur_state.dec.rs2))
      → Does m (if t then set_pc m (u32 (m.cur_state.dec.imm + pc_of m)) else m)
  branched b k e true h =
      let target = u32 (m.cur_state.dec.imm + pc_of m) in
      let same : target ≡ u32 (pc_of m + m.cur_state.dec.imm) = omega arith in
      rw (d.pc_value-update-set m.cur_state.pc target, same) (Executes.branches b k e (h.0 refl))
  branched b k e false h =
      rw staged (Executes.passes b k e (λ t. let no : false ≡ true = h.1 t in cc))

  pub handle_branch-Does :
      m.cur_state.dec.tgt ≡ Target.branch
      → Matches Target.branch m.cur_state.dec
      → Returns (Does m) (handle_branch m)
  unfolding handle_branch
  handle_branch-Does k (b, e, named) =
      let dec = m.cur_state.dec in
      let (t, decided, h) = should_branch-Taken b (m.regf dec.rs1) (m.regf dec.rs2) named in
      rw (read-gpr m dec.rs1 s.op.rs1_fits, read-gpr m dec.rs2 s.op.rs2_fits)
        (simp (e, decided) (record { value = _; returns = refl; holds = branched b k e t h }))

  linked :
      (a : Alu)
      → m.cur_state.dec.tgt ≡ Target.alu
      → m.cur_state.dec.opt ≡ OpType.alu a
      → (a ≡ Alu.jal) ⊎ (a ≡ Alu.jalr)
      → (res : ℕ) → res ≡ alu_result a (operand_1 m) (operand_2 m)
      → Returns (Does m) (
          write_gpr m m.cur_state.dec.rd (following m.cur_state.dec (view m)) >>= λ m'.
          ok (set_pc m' res))
  linked a t e j res h =
      rw
        (write_gpr-gpr_written m m.cur_state.dec.rd (following m.cur_state.dec (view m))
          s.op.rd_fits)
        (record {
          value = _;
          returns = refl;
          holds = rw (d.pc_value-update-set m.cur_state.pc res, h) (Executes.jumps a t e j);
        })

  computed :
      (a : Alu)
      → m.cur_state.dec.tgt ≡ Target.alu
      → m.cur_state.dec.opt ≡ OpType.alu a
      → a ≢ Alu.jal
      → a ≢ Alu.jalr
      → (res : ℕ) → res ≡ alu_result a (operand_1 m) (operand_2 m)
      → Returns (Does m) (write_gpr m m.cur_state.dec.rd res)
  computed a t e j k res h = record {
    value = gpr_written m m.cur_state.dec.rd res;
    returns = write_gpr-gpr_written m m.cur_state.dec.rd res s.op.rd_fits;
    holds = rw (h, staged) (Executes.computes a t e j k);
  }

  write_alu-Does :
      (a : Alu)
      → m.cur_state.dec.tgt ≡ Target.alu
      → m.cur_state.dec.opt ≡ OpType.alu a
      → (res : ℕ) → res ≡ alu_result a (operand_1 m) (operand_2 m)
      → Returns (Does m) (write_alu m a res)
  unfolding write_alu
  write_alu-Does Alu.jal t e res h = linked Alu.jal t e (inl refl) res h
  write_alu-Does Alu.jalr t e res h = linked Alu.jalr t e (inr refl) res h
  write_alu-Does a t e res h = computed a t e (λ j. cc) (λ j. cc) res h

  pub handle_alu-Does :
      m.cur_state.dec.tgt ≡ Target.alu
      → Matches Target.alu m.cur_state.dec
      → IsDefined m
      → Returns (Does m) (handle_alu m)
  unfolding handle_alu
  handle_alu-Does t (a, e, named) defined =
      let dec = m.cur_state.dec in
      let result : do_alu a (operand_1 m) (operand_2 m)
          ≡ ok (alu_result a (operand_1 m) (operand_2 m)) =
        do_alu-alu_result d (operand_1 m) (operand_2 m) (operand_1-lt d m s) (operand_2-lt d m s) a
          named
        ∙ rw (defined a e) in
      rw
        (
          read-gpr m dec.rs1 s.op.rs1_fits,
          read-gpr m dec.rs2 s.op.rs2_fits,
          ok-if dec.use_pc (pc_of m) (m.regf dec.rs1),
          ok-if dec.has_imm dec.imm (m.regf dec.rs2),
        )
        (simp (e, result) (write_alu-Does a t e _ refl))

-- ===== src/Iss/Faults.antt =====
-- What ends a run by an exception of C++: an operation that does not fit its target (riscv32-sim/src/iss/model.cpp).
use riscv32_sim.Base.{
  ℕ, ◌<◌, ◌≡◌, ◌≢◌, refl, Fault, err, bad_variant_access, unexpected_switch_case_value, ok-if,
}
use riscv32_sim.Common.{Externals, OpType, Alu, LoadOp, StoreOp, BranchOp, SysOp, Target}
use riscv32_sim.Iss.Alu.{do_alu}
use riscv32_sim.Iss.Branch.{should_branch}
use riscv32_sim.Iss.CsrInstr.{csr}
use riscv32_sim.Iss.Exec.{exec, dispatch, handle_alu, handle_branch, handle_load}
use riscv32_sim.Iss.LoadStore.{load, load_value, store, store_value}
use riscv32_sim.Iss.State.{Model, pc_of, get_alu, get_load, get_store, get_branch, get_sys}
use riscv32_sim.Iss.State.Updates.{read-gpr}

-- The variant holds another alternative than the target's handler asks for.
abbrev pub IsOther : Target → OpType → Type 0
IsOther Target.alu o = (a : Alu) → o ≢ OpType.alu a
IsOther Target.load o = (l : LoadOp) → o ≢ OpType.load l
IsOther Target.store o = (s : StoreOp) → o ≢ OpType.store s
IsOther Target.branch o = (b : BranchOp) → o ≢ OpType.branch b
IsOther Target.csr o = (s : SysOp) → o ≢ OpType.sys s
IsOther _ o = ⊥

-- It holds a value that no enumerator names, and the handler's switch has no case for it.
abbrev pub IsUnnamed : Target → OpType → Type 0
IsUnnamed Target.alu o = (n : ℕ) × (o ≡ OpType.alu (Alu.unnamed n))
IsUnnamed Target.load o = (n : ℕ) × (o ≡ OpType.load (LoadOp.unnamed n))
IsUnnamed Target.store o = (n : ℕ) × (o ≡ OpType.store (StoreOp.unnamed n))
IsUnnamed Target.branch o = (n : ℕ) × (o ≡ OpType.branch (BranchOp.unnamed n))
IsUnnamed _ o = ⊥

-- The exception that such an operation leads to.
pub data EndsWith (t : Target) (o : OpType) : Fault → Type 0 where
  other : IsOther t o → EndsWith t o bad_variant_access
  unnamed : IsUnnamed t o → EndsWith t o unexpected_switch_case_value

get_alu-other : (o : OpType) → IsOther Target.alu o → get_alu o ≡ err bad_variant_access
get_alu-other (OpType.alu a) h = absurd (h a refl)
get_alu-other _ h = refl

get_load-other : (o : OpType) → IsOther Target.load o → get_load o ≡ err bad_variant_access
get_load-other (OpType.load a) h = absurd (h a refl)
get_load-other _ h = refl

get_store-other : (o : OpType) → IsOther Target.store o → get_store o ≡ err bad_variant_access
get_store-other (OpType.store a) h = absurd (h a refl)
get_store-other _ h = refl

get_branch-other : (o : OpType) → IsOther Target.branch o → get_branch o ≡ err bad_variant_access
get_branch-other (OpType.branch a) h = absurd (h a refl)
get_branch-other _ h = refl

get_sys-other : (o : OpType) → IsOther Target.csr o → get_sys o ≡ err bad_variant_access
get_sys-other (OpType.sys a) h = absurd (h a refl)
get_sys-other _ h = refl

module _ ⦃x : Externals⦄ (m : Model) (h₁ : m.cur_state.dec.rs1 < 32)
    (h₂ : m.cur_state.dec.rs2 < 32) where
  handle_alu-other : IsOther Target.alu m.cur_state.dec.opt → handle_alu m ≡ err bad_variant_access
  unfolding handle_alu
  handle_alu-other h = rw (
    read-gpr m m.cur_state.dec.rs1 h₁,
    read-gpr m m.cur_state.dec.rs2 h₂,
    ok-if m.cur_state.dec.use_pc (pc_of m) (m.regf m.cur_state.dec.rs1),
    ok-if m.cur_state.dec.has_imm m.cur_state.dec.imm (m.regf m.cur_state.dec.rs2),
    get_alu-other m.cur_state.dec.opt h,
  )

  dispatch-other :
      (t : Target) → IsOther t m.cur_state.dec.opt → dispatch t m ≡ err bad_variant_access
  unfolding dispatch handle_load handle_branch load store csr
  dispatch-other Target.alu h = handle_alu-other h
  dispatch-other Target.load h =
      rw (read-gpr m m.cur_state.dec.rs1 h₁, get_load-other m.cur_state.dec.opt h)
  dispatch-other Target.store h =
      rw (read-gpr m m.cur_state.dec.rs1 h₁, get_store-other m.cur_state.dec.opt h)
  dispatch-other Target.branch h = rw (
    read-gpr m m.cur_state.dec.rs1 h₁,
    read-gpr m m.cur_state.dec.rs2 h₂,
    get_branch-other m.cur_state.dec.opt h,
  )
  dispatch-other Target.csr h = rw (get_sys-other m.cur_state.dec.opt h)
  dispatch-other _ h = absurd h

  handle_alu-unnamed :
      IsUnnamed Target.alu m.cur_state.dec.opt → handle_alu m ≡ err unexpected_switch_case_value
  unfolding handle_alu do_alu
  handle_alu-unnamed (n, e) =
      rw
        (
          read-gpr m m.cur_state.dec.rs1 h₁,
          read-gpr m m.cur_state.dec.rs2 h₂,
          ok-if m.cur_state.dec.use_pc (pc_of m) (m.regf m.cur_state.dec.rs1),
          ok-if m.cur_state.dec.has_imm m.cur_state.dec.imm (m.regf m.cur_state.dec.rs2),
        )
        (simp e refl)

  dispatch-unnamed :
      (t : Target)
      → IsUnnamed t m.cur_state.dec.opt
      → dispatch t m ≡ err unexpected_switch_case_value
  unfolding dispatch handle_load handle_branch load load_value store store_value should_branch
  dispatch-unnamed Target.alu h = handle_alu-unnamed h
  dispatch-unnamed Target.load (n, e) = rw (read-gpr m m.cur_state.dec.rs1 h₁) (simp e refl)
  dispatch-unnamed Target.store (n, e) =
      rw (read-gpr m m.cur_state.dec.rs1 h₁, read-gpr m m.cur_state.dec.rs2 h₂) (simp e refl)
  dispatch-unnamed Target.branch (n, e) =
      rw (read-gpr m m.cur_state.dec.rs1 h₁, read-gpr m m.cur_state.dec.rs2 h₂) (simp e refl)
  dispatch-unnamed _ h = absurd h

  -- With source registers that exist, an operation whose variant holds another alternative than
  -- the handler of its target asks for ends `exec` by `std::bad_variant_access`, and one that
  -- holds a value without an enumerator, where the handler has a switch with a default case, by
  -- `unexpected_switch_case_value`, whatever the rest of the state is.
  pub exec-faults :
      (fault : Fault) → EndsWith m.cur_state.dec.tgt m.cur_state.dec.opt fault → exec m ≡ err fault
  unfolding exec
  exec-faults _ (EndsWith.other h) = dispatch-other m.cur_state.dec.tgt h
  exec-faults _ (EndsWith.unnamed h) = dispatch-unnamed m.cur_state.dec.tgt h

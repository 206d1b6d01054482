-- ===== src/Iss/Sound/Handlers.antt =====
-- The handlers of branches, loads, stores and arithmetic return, and keep the invariant.
use riscv32_sim.Base.{
  ℕ, ◌+◌, ◌-◌, ◌^◌, ◌<◌, ◌≡◌, refl, ◌∙◌, arith, Bool, true, false, ok, ◌==◌, if◌then◌else◌, Returns,
  ok-if, ◌>>=◌,
}
use riscv32_sim.Base.Bits.{bit_and-lt, bit_or-lt, bit_xor-lt}
use riscv32_sim.Base.Word.{u32, to_u32-lt}
use riscv32_sim.Common.{Externals, IsDocumented, OpType, Alu, Target}
use riscv32_sim.Iss.Alu.{do_alu}
use riscv32_sim.Iss.Alu.Laws.{do_alu-alu_result}
use riscv32_sim.Iss.Alu.Spec.{alu_result, is_undefined}
use riscv32_sim.Iss.Arith.Products.{mul_bound}
use riscv32_sim.Iss.Branch.{should_branch-Taken}
use riscv32_sim.Iss.Exec.{handle_branch, handle_alu, write_alu}
use riscv32_sim.Iss.Sound.{Matches, IsStaged}
use riscv32_sim.Iss.Sound.Writes.{gpr_written-IsSound, gpr_written-IsStaged, set_pc-IsStaged}
use riscv32_sim.Iss.State.{Model, pc_of, set_pc, write_gpr}
use riscv32_sim.Iss.State.Updates.{gpr_written, write_gpr-gpr_written, read-gpr}

word_or : (c : Bool) (v w : ℕ) → v < 2 ^ 32 → w < 2 ^ 32 → (if c then v else w) < 2 ^ 32
word_or true v w hv hw = hv
word_or false v w hv hw = hw

-- A result of the manual is a word.
pub alu_result-lt : (op : Alu) (a b : ℕ) → a < 2 ^ 32 → b < 2 ^ 32 → alu_result op a b < 2 ^ 32
unfolding alu_result
alu_result-lt Alu.and a b ha hb = bit_and-lt 32 a b ha hb
alu_result-lt Alu.or a b ha hb = bit_or-lt 32 a b ha hb
alu_result-lt Alu.xor a b ha hb = bit_xor-lt 32 a b ha hb
alu_result-lt Alu.add a b ha hb = omega arith
alu_result-lt Alu.sub a b ha hb = ground arith
alu_result-lt Alu.sll a b ha hb = omega arith
alu_result-lt Alu.srl a b ha hb = omega arith
alu_result-lt Alu.sra a b ha hb = to_u32-lt _
alu_result-lt Alu.slt a b ha hb = ground arith
alu_result-lt Alu.sltu a b ha hb = ground arith
alu_result-lt Alu.mul a b ha hb = omega arith
alu_result-lt Alu.mulh a b ha hb = to_u32-lt _
alu_result-lt Alu.mulhsu a b ha hb = to_u32-lt _
alu_result-lt Alu.mulhu a b ha hb =
    omega (arith, mul_bound a b (2 ^ 32 - 1) (2 ^ 32 - 1) (omega arith) (omega arith))
alu_result-lt Alu.div a b ha hb = word_or (b == 0) _ _ (omega arith) (to_u32-lt _)
alu_result-lt Alu.divu a b ha hb = ground arith
alu_result-lt Alu.rem a b ha hb = word_or (b == 0) _ _ ha (to_u32-lt _)
alu_result-lt Alu.remu a b ha hb = ground arith
alu_result-lt Alu.auipc a b ha hb = omega arith
alu_result-lt Alu.jal a b ha hb = omega arith
alu_result-lt Alu.jalr a b ha hb = omega arith
alu_result-lt (Alu.unnamed n) a b ha hb = omega arith

module _ ⦃x : Externals⦄ where
  -- The operands that `handle_alu` selects.
  abbrev pub operand_1 : Model → ℕ
  operand_1 m = if m.cur_state.dec.use_pc then pc_of m else m.regf m.cur_state.dec.rs1

  abbrev pub operand_2 : Model → ℕ
  operand_2 m = if m.cur_state.dec.has_imm then m.cur_state.dec.imm else m.regf m.cur_state.dec.rs2

  -- The instruction is not one at which C++ leaves `do_alu` undefined.
  abbrev pub IsDefined : Model → Type 0
  IsDefined m =
      (a : Alu)
      → m.cur_state.dec.opt ≡ OpType.alu a
      → is_undefined x.overflow a (operand_1 m) (operand_2 m) ≡ false

module _ ⦃x : Externals⦄ (d : IsDocumented x) (m : Model) (s : IsStaged m) where
  pub operand_1-lt : operand_1 m < 2 ^ 32
  operand_1-lt = ground (arith, s.sound.pc_fits, s.sound.gpr_fits m.cur_state.dec.rs1)

  pub operand_2-lt : operand_2 m < 2 ^ 32
  operand_2-lt = ground (arith, s.op.imm_fits, s.sound.gpr_fits m.cur_state.dec.rs2)

  pub write_gpr-IsStaged :
      (v : ℕ) → v < 2 ^ 32 → Returns IsStaged (write_gpr m m.cur_state.dec.rd v)
  write_gpr-IsStaged v h = record {
    value = gpr_written m m.cur_state.dec.rd v;
    returns = write_gpr-gpr_written m m.cur_state.dec.rd v s.op.rd_fits;
    holds = gpr_written-IsStaged m m.cur_state.dec.rd v h s;
  }

  pub handle_branch-IsStaged :
      Matches Target.branch m.cur_state.dec → Returns IsStaged (handle_branch m)
  unfolding handle_branch
  handle_branch-IsStaged (op, e, named) =
      let dec = m.cur_state.dec in
      let decision = should_branch-Taken op (m.regf dec.rs1) (m.regf dec.rs2) named in
      let target = u32 (dec.imm + pc_of m) in
      rw (read-gpr m dec.rs1 s.op.rs1_fits, read-gpr m dec.rs2 s.op.rs2_fits)
        (simp (e, decision.1)
          (record {
            value = if decision.0 then set_pc m target else m;
            returns = refl;
            holds = either decision.0;
          }))
    where
      either :
          (b : Bool) → IsStaged (if b then set_pc m (u32 (m.cur_state.dec.imm + pc_of m)) else m)
      either true = set_pc-IsStaged d m _ (omega arith) s.sound s.op
      either false = s

  link-IsStaged :
      (v res : ℕ)
      → v < 2 ^ 32
      → res < 2 ^ 32
      → Returns IsStaged (write_gpr m m.cur_state.dec.rd v >>= λ m'. ok (set_pc m' res))
  link-IsStaged v res hv hr =
      let rd = m.cur_state.dec.rd in
      rw (write_gpr-gpr_written m rd v s.op.rd_fits) (record {
        value = set_pc (gpr_written m rd v) res;
        returns = refl;
        holds =
            set_pc-IsStaged d (gpr_written m rd v) res hr (gpr_written-IsSound m rd v hv s.sound)
              s.op;
      })

  write_alu-IsStaged : (op : Alu) (res : ℕ) → res < 2 ^ 32 → Returns IsStaged (write_alu m op res)
  unfolding write_alu
  write_alu-IsStaged Alu.jal res h = link-IsStaged _ res (omega arith) h
  write_alu-IsStaged Alu.jalr res h = link-IsStaged _ res (omega arith) h
  write_alu-IsStaged _ res h = write_gpr-IsStaged res h

  pub handle_alu-IsStaged :
      Matches Target.alu m.cur_state.dec → IsDefined m → Returns IsStaged (handle_alu m)
  unfolding handle_alu
  handle_alu-IsStaged (op, e, named) defined =
      let dec = m.cur_state.dec in
      let result = alu_result op (operand_1 m) (operand_2 m) in
      let computed : do_alu op (operand_1 m) (operand_2 m) ≡ ok result =
        do_alu-alu_result d (operand_1 m) (operand_2 m) operand_1-lt operand_2-lt op named
        ∙ rw (defined op e) in
      rw
        (
          read-gpr m dec.rs1 s.op.rs1_fits,
          read-gpr m dec.rs2 s.op.rs2_fits,
          ok-if dec.use_pc (pc_of m) (m.regf dec.rs1),
          ok-if dec.has_imm dec.imm (m.regf dec.rs2),
        )
        (simp (e, computed)
          (write_alu-IsStaged op result (alu_result-lt op _ _ operand_1-lt operand_2-lt)))

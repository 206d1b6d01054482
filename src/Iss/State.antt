-- ===== src/Iss/State.antt =====
-- The state of the simulator, `iss::model` (riscv32-sim/include/iss/model.hpp), and its updates.
pub mod Updates
use riscv32_sim.Base.{ℕ, Bool, true, List, Result, ok, err, bad_variant_access, ◌>>=◌}
use riscv32_sim.Base.Word.{u8, u16}
use riscv32_sim.Common.{Externals, HartState, OpType, Alu, LoadOp, StoreOp, BranchOp, SysOp}
use riscv32_sim.Memory.Router.{Router}
use riscv32_sim.Options.{Options}
use riscv32_sim.RegFile
use riscv32_sim.Zicsr.CsrFile
use riscv32_sim.Zicsr.Mode.{PrivilegedMode}

pub record Model : Type 0 where
  pub cur_state : HartState
  pub allowed_pcs : List (ℕ × ℕ)
  pub opts : Options
  pub tohost_addr : ℕ
  pub mem : Router
  pub mode : PrivilegedMode
  pub regf : RegFile.RegFile
  pub csrf : CsrFile.CsrFile
  pub is_done : Bool

-- The two private overloads of `write`, with the conversions of their index.
unfoldable pub write_csr : Model → ℕ → ℕ → Result Model
write_csr m index val = do
  (csrf, staged) ← CsrFile.write_staged m.csrf (u16 index) val m.cur_state.csr_staged
  ok (record m { csrf = csrf; cur_state = record m.cur_state { csr_staged = staged } })

unfoldable pub write_gpr : Model → ℕ → ℕ → Result Model
write_gpr m index val = do
  (regf, staged) ← RegFile.write_staged m.regf (u8 index) val m.cur_state.gpr_staged
  ok (record m { regf = regf; cur_state = record m.cur_state { gpr_staged = staged } })

-- `std::get` on the operation.
abbrev pub get_alu : OpType → Result Alu
get_alu (OpType.alu a) = ok a
get_alu _ = err bad_variant_access

abbrev pub get_load : OpType → Result LoadOp
get_load (OpType.load l) = ok l
get_load _ = err bad_variant_access

abbrev pub get_store : OpType → Result StoreOp
get_store (OpType.store s) = ok s
get_store _ = err bad_variant_access

abbrev pub get_branch : OpType → Result BranchOp
get_branch (OpType.branch b) = ok b
get_branch _ = err bad_variant_access

abbrev pub get_sys : OpType → Result SysOp
get_sys (OpType.sys s) = ok s
get_sys _ = err bad_variant_access

module _ ⦃x : Externals⦄ where
  -- `static_cast<uint32_t>(cur_state.pc)`.
  abbrev pub pc_of : Model → ℕ
  pc_of m = x.pc_value m.cur_state.pc

  -- `cur_state.pc.set(v)` and `cur_state.pc.update()`.
  abbrev pub set_pc : Model → ℕ → Model
  set_pc m v = record m { cur_state = record m.cur_state { pc = x.pc_set m.cur_state.pc v } }

  abbrev pub update_pc : Model → Model
  update_pc m = record m { cur_state = record m.cur_state { pc = x.pc_update m.cur_state.pc } }

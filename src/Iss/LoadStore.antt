-- ===== src/Iss/LoadStore.antt =====
-- `load` and `store` (riscv32-sim/src/iss/model.cpp). Bytes go through the router's own accesses,
-- and wider ones through those that it inherits.
pub mod Laws
use riscv32_sim.Base.{ℕ, ◌+◌, ◌*◌, ◌^◌, Result, ok, err, unexpected_switch_case_value, ◌>>=◌, ◌==◌}
use riscv32_sim.Base.Int.{shift_right}
use riscv32_sim.Base.Word.{u8, u16, u32, to_i32, to_u32}
use riscv32_sim.Common.{Externals, LoadOp, StoreOp}
use riscv32_sim.Iss.State.{Model, get_load, get_store}
use riscv32_sim.Memory.Router
use riscv32_sim.Memory.Router.{Router}
use riscv32_sim.RegFile

-- `(static_cast<int32_t>(v) << k) >> k`, as a word.
abbrev pub sign_extend : ℕ → ℕ → ℕ
sign_extend v k = to_u32 (shift_right (to_i32 (u32 (v * 2 ^ k))) k)

module _ ⦃x : Externals⦄ where
  unfoldable pub load_value : Router → LoadOp → ℕ → Result ℕ
  load_value mem LoadOp.lb addr = Router.read8 mem addr >>= λ v. ok (sign_extend v 24)
  load_value mem LoadOp.lh addr = ok (sign_extend (Router.read16 mem addr) 16)
  load_value mem LoadOp.lw addr = ok (Router.read32 mem addr)
  load_value mem LoadOp.lbu addr = Router.read8 mem addr
  load_value mem LoadOp.lhu addr = ok (Router.read16 mem addr)
  load_value mem (LoadOp.unnamed n) addr = err unexpected_switch_case_value

  unfoldable pub load : Model → Result ℕ
  unfolding load_value
  load m = do
    base ← RegFile.read m.regf m.cur_state.dec.rs1
    let addr = u32 (base + m.cur_state.dec.imm)
    op ← get_load m.cur_state.dec.opt
    load_value m.mem op addr

  unfoldable pub store_value : Router → StoreOp → ℕ → ℕ → Result Router
  store_value mem StoreOp.sb addr v = Router.write8 mem addr (u8 v)
  store_value mem StoreOp.sh addr v = ok (Router.write16 mem addr (u16 v))
  store_value mem StoreOp.sw addr v = ok (Router.write32 mem addr v)
  store_value mem (StoreOp.unnamed n) addr v = err unexpected_switch_case_value

  unfoldable pub store : Model → Result Model
  unfolding store_value
  store m = do
    base ← RegFile.read m.regf m.cur_state.dec.rs1
    let addr = u32 (base + m.cur_state.dec.imm)
    op ← get_store m.cur_state.dec.opt
    v ← RegFile.read m.regf m.cur_state.dec.rs2
    mem ← store_value m.mem op addr v
    ok (record m { mem = mem; is_done = addr == m.tohost_addr })

-- ===== src/Iss/Sound/Accesses.antt =====
-- Loads and stores return, and keep the invariant.
use riscv32_sim.Base.{ℕ, ◌+◌, ◌-◌, ◌^◌, ◌<◌, ◌≢◌, refl, arith, ◌==◌, Returns}
use riscv32_sim.Base.Word.{u8, u16, u32, to_u32-lt}
use riscv32_sim.Common.{Externals, IsDocumented, LoadOp, StoreOp, Target}
use riscv32_sim.Iss.Exec.{handle_load}
use riscv32_sim.Iss.LoadStore.{sign_extend, load_value, load, store_value, store}
use riscv32_sim.Iss.Sound.{Matches, IsMemory, IsStaged}
use riscv32_sim.Iss.Sound.Writes.{
  mem-IsStaged, write16-IsMemory, write32-IsMemory, written-IsMemory,
}
use riscv32_sim.Iss.Sound.Handlers.{write_gpr-IsStaged}
use riscv32_sim.Iss.State.{Model}
use riscv32_sim.Iss.State.Updates.{read-gpr}
use riscv32_sim.Memory.Router
use riscv32_sim.Memory.Router.{Router}
use riscv32_sim.Memory.Router.Laws.{byte, read8-byte, written, write8-written}
use riscv32_sim.Memory.Words.{read16-lt, read32-lt}

module _ ⦃x : Externals⦄ where
  byte-lt : (r : Router) (a : ℕ) → a < 2 ^ 32 → IsMemory r → byte r a < 2 ^ 8
  unfolding byte
  byte-lt r a ha b = ground (
    arith,
    b.mtime_bytes (a - r.mtime_addr),
    b.mtimecmp_bytes (a - r.mtimecmp_addr),
    b.page_bytes a ha,
  )

module _ ⦃x : Externals⦄ (d : IsDocumented x) (m : Model) (s : IsStaged m) where
  -- A load of any width gives a word.
  load_value-lt :
      (op : LoadOp) (a : ℕ)
      → ((n : ℕ) → op ≢ LoadOp.unnamed n)
      → a < 2 ^ 32
      → Returns (λ v. v < 2 ^ 32) (load_value m.mem op a)
  unfolding load_value
  load_value-lt LoadOp.lb a h ha = record {
    value = sign_extend (byte m.mem a) 24;
    returns = rw (read8-byte m.mem a);
    holds = to_u32-lt _;
  }
  load_value-lt LoadOp.lh a h ha = record { value = _; returns = refl; holds = to_u32-lt _ }
  load_value-lt LoadOp.lw a h ha = record {
    value = _;
    returns = refl;
    holds = unfold Router.read32 in read32-lt m.mem.page a s.sound.mem_bytes.page_bytes ha;
  }
  load_value-lt LoadOp.lbu a h ha = record {
    value = byte m.mem a;
    returns = read8-byte m.mem a;
    holds = omega (arith, byte-lt m.mem a ha s.sound.mem_bytes);
  }
  load_value-lt LoadOp.lhu a h ha = record {
    value = _;
    returns = refl;
    holds =
        unfold Router.read16 in
        omega (arith, read16-lt m.mem.page a s.sound.mem_bytes.page_bytes ha);
  }
  load_value-lt (LoadOp.unnamed n) a h ha = absurd (h n refl)

  pub handle_load-IsStaged : Matches Target.load m.cur_state.dec → Returns IsStaged (handle_load m)
  unfolding handle_load load
  handle_load-IsStaged (op, e, named) =
      let address = u32 (m.regf m.cur_state.dec.rs1 + m.cur_state.dec.imm) in
      let loaded = load_value-lt op address named (omega arith) in
      rw (read-gpr m m.cur_state.dec.rs1 s.op.rs1_fits)
        (simp (e, loaded.returns) (write_gpr-IsStaged d m s loaded.value loaded.holds))

  store_value-IsMemory :
      (op : StoreOp) (a v : ℕ)
      → ((n : ℕ) → op ≢ StoreOp.unnamed n)
      → a < 2 ^ 32
      → Returns IsMemory (store_value m.mem op a v)
  unfolding store_value
  store_value-IsMemory StoreOp.sb a v h ha = record {
    value = written m.mem a (u8 v);
    returns = write8-written m.mem a (u8 v);
    holds = written-IsMemory d m.mem a (u8 v) ha (omega arith) s.sound.mem_bytes;
  }
  store_value-IsMemory StoreOp.sh a v h ha = record {
    value = Router.write16 m.mem a (u16 v);
    returns = refl;
    holds = write16-IsMemory d m.mem a (u16 v) ha s.sound.mem_bytes;
  }
  store_value-IsMemory StoreOp.sw a v h ha = record {
    value = Router.write32 m.mem a v;
    returns = refl;
    holds = write32-IsMemory d m.mem a v ha s.sound.mem_bytes;
  }
  store_value-IsMemory (StoreOp.unnamed n) a v h ha = absurd (h n refl)

  pub store-IsStaged : Matches Target.store m.cur_state.dec → Returns IsStaged (store m)
  unfolding store
  store-IsStaged (op, e, named) =
      let dec = m.cur_state.dec in
      let address = u32 (m.regf dec.rs1 + dec.imm) in
      let stored = store_value-IsMemory op address (m.regf dec.rs2) named (omega arith) in
      rw (read-gpr m dec.rs1 s.op.rs1_fits, read-gpr m dec.rs2 s.op.rs2_fits)
        (simp (e, stored.returns)
          (record {
            value = record m { mem = stored.value; is_done = address == m.tohost_addr };
            returns = refl;
            holds = mem-IsStaged m stored.value (address == m.tohost_addr) stored.holds s;
          }))

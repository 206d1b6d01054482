-- ===== src/Iss/Start.antt =====
-- The constructor of the model and its two queries (riscv32-sim/include/iss/model.hpp), and the
-- first lines of `run` (riscv32-sim/src/main.cpp).
use riscv32_sim.Base.{ℕ, Bool, false, Result, ok, ◌>>=◌, none}
use riscv32_sim.Common.{Externals, HartState}
use riscv32_sim.Iss.State.{Model}
use riscv32_sim.Loader.{progbit_ranges}
use riscv32_sim.Loader.Image.{Elf, Elfio, symbol, entry, load_elf}
use riscv32_sim.Memory.Router
use riscv32_sim.Memory.Router.{Router}
use riscv32_sim.Options.{Options}
use riscv32_sim.Zicsr.Mode.{machine, set_mode}

-- The registers are zero, the mode is machine mode, and the hart's state is made by the common
-- library from the entry point.
unfoldable pub new_model : Elfio → (ℕ → HartState) → Options → Elf → Router → Result Model
new_model elfio new_hart opt l mem = do
  tohost_addr ← symbol l opt.tohost_sym
  ok (record {
    cur_state = new_hart (entry l);
    allowed_pcs = progbit_ranges elfio.sht_progbits elfio.shf_execinstr l.sections;
    opts = opt;
    tohost_addr = tohost_addr;
    mem = mem;
    mode = set_mode machine;
    regf = λ i. 0;
    csrf = λ i. 0;
    is_done = false;
  })

unfoldable pub done : Model → Bool
done m = m.is_done

module _ ⦃x : Externals⦄ where
  unfoldable pub tohost : Model → ℕ
  tohost m = Router.read32 m.mem m.tohost_addr

  -- The first lines of `run` in main.cpp: an empty memory, the router, the loader and the model.
  unfoldable pub set_up : Elfio → (ℕ → HartState) → Options → Result Model
  unfolding load_elf new_model
  set_up elfio new_hart opt = do
    (reader, rout) ← load_elf elfio opt.target (Router.init (λ key. none) opt.mtime opt.mtimecmp)
    new_model elfio new_hart opt reader rout

-- ===== src/Loader/Buffers.antt =====
-- What loading a segment reads of its data (riscv32-sim/src/loader.cpp).
use riscv32_sim.Base.{ℕ, ◌<◌, ◌≡◌}
use riscv32_sim.Memory.Blocks
use riscv32_sim.Memory.Router.{Router}

-- The same bytes below a distance.
abbrev Agree : ℕ → (ℕ → ℕ) → (ℕ → ℕ) → Type 0
Agree n ptr ptr' = (i : ℕ) → i < n → ptr i ≡ ptr' i

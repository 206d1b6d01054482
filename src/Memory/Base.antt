-- ===== src/Memory/Base.antt =====
-- `sparse_memory_accessor_base<Derived>` (riscv32-sim/include/memory/sparse_memory.hpp): the class hands
-- its accesses to the class that is derived from it. No code of the repository calls them through it.
use riscv32_sim.Base.{ℕ, Result}
use riscv32_sim.Common.{Externals}
use riscv32_sim.Memory.Accessor
use riscv32_sim.Memory.Router
use riscv32_sim.Memory.Router.{Router}

-- A derived class: its state, and its accesses on it.
pub record Derived (M : Type 0) : Type 0 where
  pub derived_read8 : M → ℕ → Result ℕ
  pub derived_read16 : M → ℕ → ℕ
  pub derived_read32 : M → ℕ → ℕ
  pub derived_read64 : M → ℕ → ℕ
  pub derived_write8 : M → ℕ → ℕ → Result M
  pub derived_write16 : M → ℕ → ℕ → M
  pub derived_write32 : M → ℕ → ℕ → M
  pub derived_write64 : M → ℕ → ℕ → M

module _ {M : Type 0} (d : Derived M) where
  unfoldable pub read8 : M → ℕ → Result ℕ
  read8 m off = d.derived_read8 m off

  unfoldable pub read16 : M → ℕ → ℕ
  read16 m off = d.derived_read16 m off

  unfoldable pub read32 : M → ℕ → ℕ
  read32 m off = d.derived_read32 m off

  unfoldable pub read64 : M → ℕ → ℕ
  read64 m off = d.derived_read64 m off

  unfoldable pub write8 : M → ℕ → ℕ → Result M
  write8 m off b = d.derived_write8 m off b

  unfoldable pub write16 : M → ℕ → ℕ → M
  write16 m off h = d.derived_write16 m off h

  unfoldable pub write32 : M → ℕ → ℕ → M
  write32 m off w = d.derived_write32 m off w

  unfoldable pub write64 : M → ℕ → ℕ → M
  write64 m off dw = d.derived_write64 m off dw

module _ ⦃x : Externals⦄ where
  -- The router as the derived class: the byte accesses are its own, the others it inherits.
  unfoldable pub address_router : Derived Router
  address_router = record {
    derived_read8 = Router.read8;
    derived_read16 = Router.read16;
    derived_read32 = Router.read32;
    derived_read64 = Router.read64;
    derived_write8 = Router.write8;
    derived_write16 = Router.write16;
    derived_write32 = Router.write32;
    derived_write64 = λ r off dw. record r { page = Accessor.write64 r.page off dw };
  }

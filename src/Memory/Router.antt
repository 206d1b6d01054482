-- ===== src/Memory/Router.antt =====
-- `address_router` (riscv32-sim/src/memory/sparse_memory.cpp): the timer registers in front of the
-- sparse memory. The class overrides the byte accesses alone; its half word, word and double word
-- accesses are those of `sparse_memory_accessor`, that is of `Accessor` at the field `page`.
pub mod Laws
use riscv32_sim.Base.{
  ℕ, ◌+◌, ◌-◌, Bool, ◌&&◌, Result, ok, err, out_of_range, ◌>>=◌, at, ltb, leb, if◌then◌else◌,
  update,
}
use riscv32_sim.Base.Word.{u32}
use riscv32_sim.Common.{Externals}
use riscv32_sim.Memory.Accessor
use riscv32_sim.Memory.Accessor.{SparseMemory}

pub record Router : Type 0 where
  pub page : SparseMemory
  pub mtime_addr : ℕ
  pub mtimecmp_addr : ℕ
  pub mtimecmp : ℕ → ℕ
  pub mtime : ℕ → ℕ

-- The constructor; the atomic bytes start at zero.
unfoldable pub init : SparseMemory → ℕ → ℕ → Router
init m mtime_addr mtimecmp_addr = record {
  page = m;
  mtime_addr = mtime_addr;
  mtimecmp_addr = mtimecmp_addr;
  mtimecmp = λ i. 0;
  mtime = λ i. 0;
}

-- `off >= base && off < base + 8`, where the sum wraps.
abbrev pub in_register : ℕ → ℕ → Bool
in_register base off = leb base off && ltb off (u32 (base + 8))

-- `mtime.at(i).store(b)`.
abbrev pub store_at : ℕ → (ℕ → ℕ) → ℕ → ℕ → Result (ℕ → ℕ)
store_at n f i b = if ltb i n then ok (update f i b) else err out_of_range

module _ ⦃x : Externals⦄ where
  unfoldable pub read8 : Router → ℕ → Result ℕ
  read8 r off =
      if in_register r.mtime_addr off
      then at 8 r.mtime (off - r.mtime_addr)
      else if in_register r.mtimecmp_addr off
      then at 8 r.mtimecmp (off - r.mtimecmp_addr)
      else ok (Accessor.read8 r.page off)

  unfoldable pub write8 : Router → ℕ → ℕ → Result Router
  write8 r off b =
      if in_register r.mtime_addr off
      then (store_at 8 r.mtime (off - r.mtime_addr) b >>= λ f. ok (record r { mtime = f }))
      else if in_register r.mtimecmp_addr off
      then (store_at 8 r.mtimecmp (off - r.mtimecmp_addr) b >>= λ f. ok (record r { mtimecmp = f }))
      else ok (record r { page = Accessor.write8 r.page off b })

  -- The accesses that the router inherits.
  unfoldable pub read16 : Router → ℕ → ℕ
  read16 r off = Accessor.read16 r.page off

  unfoldable pub read32 : Router → ℕ → ℕ
  read32 r off = Accessor.read32 r.page off

  unfoldable pub read64 : Router → ℕ → ℕ
  read64 r off = Accessor.read64 r.page off

  unfoldable pub write16 : Router → ℕ → ℕ → Router
  write16 r off h = record r { page = Accessor.write16 r.page off h }

  unfoldable pub write32 : Router → ℕ → ℕ → Router
  write32 r off w = record r { page = Accessor.write32 r.page off w }

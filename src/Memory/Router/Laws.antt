-- ===== src/Memory/Router/Laws.antt =====
-- Byte accesses through the router, and what word accesses miss.
use riscv32_sim.Base.{
  ℕ, ◌-◌, ◌^◌, ◌<◌, ◌≡◌, refl, true, ok, arith, ◌==◌, if◌then◌else◌, update, ◌>>=◌,
}
use riscv32_sim.Common.{Externals, IsDocumented}
use riscv32_sim.Memory.Accessor
use riscv32_sim.Memory.Bytes
use riscv32_sim.Memory.Bytes.{IsBytes}
use riscv32_sim.Memory.Router.{Router, in_register, read8, write8, read32, read64, write32}

module _ ⦃x : Externals⦄ where
  -- The byte that a byte access finds.
  unfoldable pub byte : Router → ℕ → ℕ
  byte r a =
      if in_register r.mtime_addr a
      then r.mtime (a - r.mtime_addr)
      else if in_register r.mtimecmp_addr a
      then r.mtimecmp (a - r.mtimecmp_addr)
      else Accessor.read8 r.page a

  -- The router after a byte access has stored `v`.
  unfoldable pub written : Router → ℕ → ℕ → Router
  written r a v =
      if in_register r.mtime_addr a
      then record r { mtime = update r.mtime (a - r.mtime_addr) v }
      else if in_register r.mtimecmp_addr a
      then record r { mtimecmp = update r.mtimecmp (a - r.mtimecmp_addr) v }
      else record r { page = Accessor.write8 r.page a v }

  -- `array::at` does not throw: an address in a register's range is at most 7 above its base.
  pub read8-byte : (r : Router) (a : ℕ) → read8 r a ≡ ok (byte r a)
  unfolding read8 byte
  read8-byte r a = ground arith

  pub write8-written : (r : Router) (a v : ℕ) → write8 r a v ≡ ok (written r a v)
  unfolding write8 written
  write8-written r a v = ground arith

  byte-written :
      IsDocumented x
      → (r : Router) (a b v : ℕ) → a < 2 ^ 32
      → b < 2 ^ 32
      → byte (written r a v) b ≡ (if a == b then v else byte r b)
  unfolding written byte
  byte-written d r a b v ha hb = ground (arith, Bytes.read8-write8_pages d r.page a b v ha hb)

  -- Byte accesses through the router at 32-bit addresses see one map of bytes, also where the
  -- ranges of the two timer registers overlap: the store returns, the byte is read back at its
  -- address, and at every other address a read gives what it gave before.
  pub read8-write8 :
      IsDocumented x
      → (r : Router) (a b v : ℕ) → a < 2 ^ 32
      → b < 2 ^ 32
      → (write8 r a v >>= λ r'. read8 r' b) ≡ (if a == b then ok v else read8 r b)
  read8-write8 d r a b v ha hb =
      rw (write8-written r a v, read8-byte (written r a v) b, read8-byte r b)
        (ground (arith, byte-written d r a b v ha hb))

  -- A byte that is stored into the timer register returns a router in which every word and double
  -- word reads as before, and a word that is stored, at any address, changes no byte of the timer
  -- register.
  pub word_accesses_bypass :
      (r : Router) (a v b w : ℕ)
      → in_register r.mtime_addr a ≡ true
      → (r' : Router) × (write8 r a v ≡ ok r')
        × (read32 r' b ≡ read32 r b)
        × (read64 r' b ≡ read64 r b)
        × ((i : ℕ) → (write32 r a w).mtime i ≡ r.mtime i)
  unfolding write8 read32 read64 write32
  word_accesses_bypass r a v b w h = (
    record r { mtime = update r.mtime (a - r.mtime_addr) v },
    ground arith,
    refl,
    refl,
    λ i. refl,
  )

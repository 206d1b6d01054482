-- ===== src/Memory/Maps.antt =====
-- What the sparse memory stands for: a map from addresses to bytes, without the pages that there are.
use mathlib.Core.Quot
use mathlib.Core.Quot.{Quot, Quot-set}
use native.Mathlib.Nat.{ℕ_set}
use riscv32_sim.Base.{ℕ, ◌^◌, ◌<◌, ◌≡◌, ◌≢◌, ◌↔◌, ap, subst, arith}
use riscv32_sim.Base.Word.{u32}
use riscv32_sim.Common.{Externals, IsDocumented}
use riscv32_sim.Memory.Accessor
use riscv32_sim.Memory.Accessor.{SparseMemory, ensure_page_exists}
use riscv32_sim.Memory.Bytes.{read8-write8_pages}

module _ ⦃x : Externals⦄ where
  -- Two memories of which every byte is the same.
  abbrev pub SameBytes : SparseMemory → SparseMemory → Type 0
  SameBytes m m' = (a : ℕ) → a < 2 ^ 32 → Accessor.read8 m a ≡ Accessor.read8 m' a

  abbrev pub ByteMap : Type 0
  ByteMap = Quot SameBytes

  abbrev pub of_pages : SparseMemory → ByteMap
  of_pages m = Quot.mk m

  -- The byte at an address that wraps.
  unfoldable pub byte_at : ℕ → ByteMap → ℕ
  byte_at a = Quot.lift ℕ_set (λ m. Accessor.read8 m (u32 a)) (λ m m' h. h (u32 a) (omega arith))

  -- Memories are the same map exactly if every byte is the same.
  pub of_pages-SameBytes : (m m' : SparseMemory) → (of_pages m ≡ of_pages m') ↔ SameBytes m m'
  unfolding byte_at
  of_pages-SameBytes m m' = (
    λ e a h.
        let wraps : u32 a ≡ a = omega arith in
        subst (λ b. Accessor.read8 m b ≡ Accessor.read8 m' b) wraps (ap (byte_at a) e),
    λ h. Quot.sound h,
  )

module _ ⦃x : Externals⦄ (d : IsDocumented x) where
  -- A page that is made holds zeroes, as its addresses did before.
  read8-ensure_page_exists :
      (m : SparseMemory) (a b : ℕ)
      → Accessor.read8 (ensure_page_exists m a).0 b ≡ Accessor.read8 m b
  unfolding Accessor.read8 ensure_page_exists
  read8-ensure_page_exists m a b = ground arith

  -- With libraries as documented the pages are a store of bytes at 32-bit addresses, in the
  -- quotient by equality of all bytes, which forgets what pages there are: making a page changes
  -- nothing, storing the byte that is there changes nothing, of two stores at one address the
  -- later counts, and stores at two different addresses can be swapped.
  pub of_pages-write8 :
      (m : SparseMemory) (a b v w : ℕ)
      → a < 2 ^ 32
      → b < 2 ^ 32
      → a ≢ b
      → (of_pages (ensure_page_exists m a).0 ≡ of_pages m)
        × (of_pages (Accessor.write8 m a (Accessor.read8 m a)) ≡ of_pages m)
        × (of_pages (Accessor.write8 (Accessor.write8 m a v) a w)
            ≡ of_pages (Accessor.write8 m a w))
        × (of_pages (Accessor.write8 (Accessor.write8 m a v) b w)
            ≡ of_pages (Accessor.write8 (Accessor.write8 m b w) a v))
  of_pages-write8 m a b v w ha hb ne = (
    Quot.sound (λ c hc. read8-ensure_page_exists m a c),
    Quot.sound (λ c hc. ground (arith, read8-write8_pages d m a c (Accessor.read8 m a) ha hc)),
    Quot.sound (λ c hc. ground (
      arith,
      read8-write8_pages d (Accessor.write8 m a v) a c w ha hc,
      read8-write8_pages d m a c v ha hc,
      read8-write8_pages d m a c w ha hc,
    )),
    Quot.sound (λ c hc. ground (
      arith,
      read8-write8_pages d (Accessor.write8 m a v) b c w hb hc,
      read8-write8_pages d m a c v ha hc,
      read8-write8_pages d (Accessor.write8 m b w) a c v ha hc,
      read8-write8_pages d m b c w hb hc,
    )),
  )

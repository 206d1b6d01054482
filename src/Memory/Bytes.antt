-- ===== src/Memory/Bytes.antt =====
-- The pages implement a map from addresses to bytes.
use riscv32_sim.Base.{
  ℕ, zero, suc, ◌+◌, ◌-◌, ◌*◌, ◌/◌, ◌%◌, ◌^◌, ◌<◌, ◌≡◌, bit_and, arith, ◌==◌, ltb, if◌then◌else◌,
}
use riscv32_sim.Base.Bits.{bit_and_high}
use riscv32_sim.Base.Word.{u8, u16, u32}
use riscv32_sim.Common.{Externals, IsDocumented}
use riscv32_sim.Memory.Accessor.{SparseMemory, mask, read8, write8, write16, write32}

key_of : (a : ℕ) → a < 2 ^ 32 → bit_and a mask ≡ a / 2 ^ 12 * 2 ^ 12
key_of a h = bit_and_high 20 12 a (omega arith)

module _ ⦃x : Externals⦄ (d : IsDocumented x) where
  index_of : (a : ℕ) → x.offset a 0 11 ≡ a % 4096
  index_of a = omega (arith, d.offset_lem a 0 11 (omega arith) (omega arith))

  -- The pages implement a map from 32-bit addresses to bytes: the byte that is stored is read at
  -- its address, and every other address keeps its byte.
  pub read8-write8_pages :
      (m : SparseMemory) (a b v : ℕ)
      → a < 2 ^ 32
      → b < 2 ^ 32
      → read8 (write8 m a v) b ≡ (if a == b then v else read8 m b)
  unfolding read8 write8
  read8-write8_pages m a b v ha hb =
      ground (arith, key_of a ha, key_of b hb, index_of a, index_of b)

-- The number that `n` bytes from address `a` on stand for, the lowest first. Addresses wrap.
unfoldable pub number_at : (ℕ → ℕ) → ℕ → ℕ → ℕ
number_at bytes a zero = 0
number_at bytes a (suc n) = bytes a + 2 ^ 8 * number_at bytes (u32 (a + 1)) n

-- Byte `i` of a number.
unfoldable pub byte_of : ℕ → ℕ → ℕ
byte_of w zero = w % 2 ^ 8
byte_of w (suc i) = byte_of (w / 2 ^ 8) i

-- The map of bytes after `n` bytes of `w` were stored from `a` on: an address at distance `i` has
-- byte `i`, and any other is as before.
unfoldable pub stored : (ℕ → ℕ) → ℕ → ℕ → ℕ → ℕ → ℕ
stored bytes a n w b = let i = u32 (b + 2 ^ 32 - a) in if ltb i n then byte_of w i else bytes b

pub byte_of_small :
    (w i : ℕ)
    → (i ≡ 0 → byte_of w i ≡ w % 2 ^ 8)
      × (i ≡ 1 → byte_of w i ≡ w / 2 ^ 8 % 2 ^ 8)
      × (i ≡ 2 → byte_of w i ≡ w / 2 ^ 16 % 2 ^ 8)
      × (i ≡ 3 → byte_of w i ≡ w / 2 ^ 24 % 2 ^ 8)
unfolding byte_of
byte_of_small w i = (λ e. rw e, λ e. rw e, λ e. rw e (omega arith), λ e. rw e (omega arith))

module _ ⦃x : Externals⦄ where
  -- Every byte fits a byte.
  abbrev pub IsBytes : SparseMemory → Type 0
  IsBytes m = (a : ℕ) → a < 2 ^ 32 → read8 m a < 2 ^ 8

module _ ⦃x : Externals⦄ (d : IsDocumented x) where
  byte_cut :
      (h : ℕ) → (u8 (x.offset h 0 7) ≡ h % 2 ^ 8) × (u8 (x.offset h 8 15) ≡ h / 2 ^ 8 % 2 ^ 8)
  byte_cut h = omega (
    arith,
    d.offset_lem h 0 7 (omega arith) (omega arith),
    d.offset_lem h 8 15 (omega arith) (omega arith),
  )

  half_cut :
      (w : ℕ)
      → (u16 (x.offset w 0 15) ≡ w % 2 ^ 16) × (u16 (x.offset w 16 31) ≡ w / 2 ^ 16 % 2 ^ 16)
  half_cut w = omega (
    arith,
    d.offset_lem w 0 15 (omega arith) (omega arith),
    d.offset_lem w 16 31 (omega arith) (omega arith),
  )

  bytes-write16 :
      (m : SparseMemory) (a b h : ℕ)
      → a < 2 ^ 32
      → b < 2 ^ 32
      → read8 (write16 m a h) b
        ≡ (if u32 (a + 1) == b then h / 2 ^ 8 % 2 ^ 8 else if a == b then h % 2 ^ 8 else read8 m b)
  unfolding write16
  bytes-write16 m a b h ha hb = rw (
    (byte_cut h).0,
    (byte_cut h).1,
    read8-write8_pages d (write8 m a (h % 2 ^ 8)) (u32 (a + 1)) b (h / 2 ^ 8 % 2 ^ 8) (omega arith)
        hb,
    read8-write8_pages d m a b (h % 2 ^ 8) ha hb,
  )

  bytes-write32 :
      (m : SparseMemory) (a b w : ℕ)
      → a < 2 ^ 32
      → b < 2 ^ 32
      → read8 (write32 m a w) b ≡ (
          if u32 (a + 3) == b
          then w / 2 ^ 24 % 2 ^ 8
          else if u32 (a + 2) == b
          then w / 2 ^ 16 % 2 ^ 8
          else if u32 (a + 1) == b
          then w / 2 ^ 8 % 2 ^ 8
          else if a == b
          then w % 2 ^ 8
          else read8 m b)
  unfolding write32
  bytes-write32 m a b w ha hb = ground (
    arith,
    half_cut w,
    bytes-write16 (write16 m a (u16 (x.offset w 0 15))) (u32 (a + 2)) b (u16 (x.offset w 16 31))
        (omega arith) hb,
    bytes-write16 m a b (u16 (x.offset w 0 15)) ha hb,
  )

  -- A store of a half word is a store of its two bytes.
  pub read8-write16 :
      (m : SparseMemory) (a b h : ℕ)
      → a < 2 ^ 32
      → b < 2 ^ 32
      → read8 (write16 m a h) b ≡ stored (read8 m) a 2 h b
  unfolding stored
  read8-write16 m a b h ha hb =
      ground (arith, bytes-write16 m a b h ha hb, byte_of_small h (u32 (b + 2 ^ 32 - a)))

  -- A store of a word is a store of its four bytes, the lowest first, at addresses that wrap at 2
  -- ^ 32: every other address keeps its byte.
  pub read8-write32 :
      (m : SparseMemory) (a b w : ℕ)
      → a < 2 ^ 32
      → b < 2 ^ 32
      → read8 (write32 m a w) b ≡ stored (read8 m) a 4 w b
  unfolding stored
  read8-write32 m a b w ha hb =
      ground (arith, bytes-write32 m a b w ha hb, byte_of_small w (u32 (b + 2 ^ 32 - a)))

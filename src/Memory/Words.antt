-- ===== src/Memory/Words.antt =====
-- Reads and writes of half words, words and double words, as numbers in little-endian order.
use riscv32_sim.Base.{ℕ, zero, suc, ◌+◌, ◌-◌, ◌*◌, ◌/◌, ◌%◌, ◌^◌, ◌<◌, ◌≡◌, ◌∙◌, ap, arith, lt→ltb}
use native.Mathlib.Nat.{pow-suc}
use riscv32_sim.Base.Bits.{bit_or_disjoint'}
use riscv32_sim.Base.Word.{u32}
use riscv32_sim.Common.{Externals, IsDocumented}
use riscv32_sim.Memory.Accessor.{
  SparseMemory, read8, read16, read32, read64, write8, write16, write32,
}
use riscv32_sim.Memory.Bytes.{
  IsBytes, number_at, stored, byte_of, byte_of_small, read8-write8_pages, read8-write16,
  read8-write32,
}

-- Bytes that are those of `w` stand for `w`, where it fits.
number_at-byte_of :
    (f : ℕ → ℕ) (a n w : ℕ)
    → a < 2 ^ 32
    → w < 256 ^ n
    → ((i : ℕ) → i < n → f (u32 (a + i)) ≡ byte_of w i)
    → number_at f a n ≡ w
unfolding number_at byte_of
number_at-byte_of f a zero w ha hw h = omega arith
number_at-byte_of f a (suc n) w ha hw h =
    let here : f a ≡ w % 2 ^ 8 =
      ap f (let e : a ≡ u32 (a + 0) = omega arith in e) ∙ h 0 (omega arith) in
    omega (
      arith,
      here,
      number_at-byte_of f (u32 (a + 1)) n (w / 2 ^ 8) (omega arith) (omega (arith, pow-suc 256 n))
          (λ i hi.
            ap f (let e : u32 (u32 (a + 1) + i) ≡ u32 (a + suc i) = omega arith in e)
            ∙ h (suc i) (omega arith)),
    )

-- At distance `i` stands byte `i`.
stored-at :
    (f : ℕ → ℕ) (a n w i : ℕ)
    → a < 2 ^ 32
    → i < n
    → n < 2 ^ 32
    → stored f a n w (u32 (a + i)) ≡ byte_of w i
unfolding stored
stored-at f a n w i ha hi hn =
    let e : u32 (u32 (a + i) + 2 ^ 32 - a) ≡ i = omega arith in rw (e, lt→ltb i n hi)

module _ ⦃x : Externals⦄ (m : SparseMemory) (a : ℕ) (bytes : IsBytes m) (fits : a < 2 ^ 32) where
  -- A half word is read as the number that its two bytes stand for.
  pub read16-number_at : read16 m a ≡ number_at (read8 m) a 2
  unfolding read16 number_at
  read16-number_at =
      let high = bytes (u32 (a + 1)) (omega arith) in
      omega (
        arith,
        high,
        bytes a fits,
        bit_or_disjoint' 8 (read8 m (u32 (a + 1))) (read8 m a) (bytes a fits),
      )

  pub read16-lt : read16 m a < 2 ^ 16
  unfolding read16
  read16-lt = omega arith

module _ ⦃x : Externals⦄ (m : SparseMemory) (a : ℕ) (bytes : IsBytes m) (fits : a < 2 ^ 32) where
  -- In a memory of bytes a word is read as the number of its four bytes, the lowest first, also
  -- across a page and across the top of the address space.
  pub read32-number_at : read32 m a ≡ number_at (read8 m) a 4
  unfolding read32 number_at
  read32-number_at =
      let second : u32 (u32 (a + 1) + 1) ≡ u32 (a + 2) = omega arith in
      let third : u32 (u32 (u32 (a + 1) + 1) + 1) ≡ u32 (u32 (a + 2) + 1) = omega arith in
      omega (
        arith,
        ap (read8 m) second,
        ap (read8 m) third,
        read16-number_at m a bytes fits,
        read16-number_at m (u32 (a + 2)) bytes (omega arith),
        read16-lt m a bytes fits,
        read16-lt m (u32 (a + 2)) bytes (omega arith),
        bit_or_disjoint' 16 (read16 m (u32 (a + 2))) (read16 m a) (read16-lt m a bytes fits),
      )

  pub read32-lt : read32 m a < 2 ^ 32
  unfolding read32
  read32-lt = omega arith

module _ ⦃x : Externals⦄ (m : SparseMemory) (a : ℕ) (bytes : IsBytes m) (fits : a < 2 ^ 32) where
  read64-halves : read64 m a ≡ read32 m a + 2 ^ 32 * read32 m (u32 (a + 4))
  unfolding read64
  read64-halves = omega (
    arith,
    read32-lt m a bytes fits,
    read32-lt m (u32 (a + 4)) bytes (omega arith),
    bit_or_disjoint' 32 (read32 m (u32 (a + 4))) (read32 m a) (read32-lt m a bytes fits),
  )

  -- A double word is read as the number of its eight bytes.
  pub read64-number_at : read64 m a ≡ number_at (read8 m) a 8
  unfolding number_at
  read64-number_at =
      let eighth : u32 (u32 (u32 (u32 (a + 1) + 1) + 1) + 1) ≡ u32 (a + 4) = omega arith in
      omega (
        arith,
        read64-halves,
        read32-number_at m a bytes fits,
        read32-number_at m (u32 (a + 4)) bytes (omega arith),
        ap (λ (c : ℕ). number_at (read8 m) c 4) eighth,
      )

module _ ⦃x : Externals⦄ (d : IsDocumented x) (m : SparseMemory) (a : ℕ) where
  -- A memory of bytes stays one, whatever is stored.
  pub write8-IsBytes : (v : ℕ) → a < 2 ^ 32 → v < 2 ^ 8 → IsBytes m → IsBytes (write8 m a v)
  write8-IsBytes v ha hv bytes b hb = ground (arith, read8-write8_pages d m a b v ha hb, bytes b hb)

  pub write16-IsBytes : (h : ℕ) → a < 2 ^ 32 → IsBytes m → IsBytes (write16 m a h)
  unfolding stored
  write16-IsBytes h ha bytes b hb =
      ground
        (arith, read8-write16 d m a b h ha hb, bytes b hb, byte_of_small h (u32 (b + 2 ^ 32 - a)))

  pub write32-IsBytes : (w : ℕ) → a < 2 ^ 32 → IsBytes m → IsBytes (write32 m a w)
  unfolding stored
  write32-IsBytes w ha bytes b hb =
      ground
        (arith, read8-write32 d m a b w ha hb, bytes b hb, byte_of_small w (u32 (b + 2 ^ 32 - a)))

  -- A word that is stored anywhere in a memory of bytes, across pages and the top of the address
  -- space included, is read back.
  pub read32-write32 : (w : ℕ) → a < 2 ^ 32 → w < 2 ^ 32 → IsBytes m → read32 (write32 m a w) a ≡ w
  read32-write32 w ha hw bytes =
      read32-number_at (write32 m a w) a (write32-IsBytes w ha bytes) ha
      ∙ number_at-byte_of (read8 (write32 m a w)) a 4 w ha hw (λ i hi.
        read8-write32 d m a (u32 (a + i)) w ha (omega arith)
        ∙ stored-at (read8 m) a 4 w i ha hi (omega arith))

  -- A half word that is stored anywhere in a memory of bytes is read back.
  pub read16-write16 : (h : ℕ) → a < 2 ^ 32 → h < 2 ^ 16 → IsBytes m → read16 (write16 m a h) a ≡ h
  read16-write16 h ha hh bytes =
      read16-number_at (write16 m a h) a (write16-IsBytes h ha bytes) ha
      ∙ number_at-byte_of (read8 (write16 m a h)) a 2 h ha hh (λ i hi.
        read8-write16 d m a (u32 (a + i)) h ha (omega arith)
        ∙ stored-at (read8 m) a 2 h i ha hi (omega arith))

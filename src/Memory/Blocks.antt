-- ===== src/Memory/Blocks.antt =====
-- The block write of the loader: `write` and `write_block` of
-- riscv32-sim/include/memory/sparse_memory.hpp. Each round copies to the end of the page, whatever
-- is left of the size.
use riscv32_sim.Base.{
  ℕ, zero, suc, ◌+◌, ◌-◌, ◌*◌, ◌/◌, ◌%◌, ◌^◌, ◌≤◌, ◌<◌, ◌≡◌, refl, arith, ◌&&◌, none, some, update,
  ltb, leb, ◌==◌, if◌then◌else◌, Bool-cases, inl, inr,
}
use riscv32_sim.Base.Bits.{bit_and_high}
use riscv32_sim.Base.Word.{u32}
use riscv32_sim.Common.{Externals, IsDocumented}
use riscv32_sim.Memory.Accessor.{SparseMemory, Page, page_size, ensure_page_exists, read8}

-- `std::memcpy` of `n` bytes to position `off` of a page. The memory behind the pointer is a map
-- from distances to bytes.
abbrev pub copied : Page → ℕ → (ℕ → ℕ) → ℕ → Page
copied page off ptr n i = if leb off i && ltb i (off + n) then ptr (i - off) else page i

-- `write_block` also returns the pointer behind the block.
unfoldable pub write_block : SparseMemory → ℕ → ℕ → (ℕ → ℕ) → ℕ → SparseMemory × (ℕ → ℕ)
write_block m key off ptr n = (
  elim (m key) [ none ↦ m | some page ↦ update m key (some (copied page off ptr n)) ],
  λ i. ptr (n + i),
)

module _ ⦃x : Externals⦄ where
  -- One round of the loop.
  unfoldable pub write_page : SparseMemory → ℕ → (ℕ → ℕ) → SparseMemory × (ℕ → ℕ)
  unfolding ensure_page_exists write_block
  write_page m virt_addr ptr =
      let (m', key) = ensure_page_exists m virt_addr in
      let off = x.offset virt_addr 0 11 in write_block m' key off ptr (page_size - off)

  -- The loop, for at most `fuel` rounds. A size below zero ends it as zero does.
  unfoldable pub write : ℕ → SparseMemory → ℕ → (ℕ → ℕ) → ℕ → SparseMemory
  write zero m virt_addr ptr size = m
  write (suc fuel) m virt_addr ptr size =
      let page_end = page_size - x.offset virt_addr 0 11 in
      let (m', ptr') = write_page m virt_addr ptr in
      let rest = write fuel m' (u32 (virt_addr + page_end)) ptr' (size - page_end) in
      if ltb 0 size then rest else m

-- The end of the last page that is written to, where something is.
abbrev pub written_end : ℕ → ℕ → ℕ
written_end a size = if size == 0 then a else (a + size + 4095) / 4096 * 4096

module _ ⦃x : Externals⦄ (d : IsDocumented x) where
  index_of : (a : ℕ) → x.offset a 0 11 ≡ a % 4096
  index_of a = omega (arith, d.offset_lem a 0 11 (omega arith) (omega arith))

  read8-write_page :
      (m : SparseMemory) (a b : ℕ) (ptr : ℕ → ℕ)
      → a < 2 ^ 32
      → b < 2 ^ 32
      → read8 (write_page m a ptr).0 b
        ≡ (if leb a b && ltb b (a / 4096 * 4096 + 4096) then ptr (b - a) else read8 m b)
  unfolding read8 write_page
  read8-write_page m a b ptr ha hb = ground (
    arith,
    bit_and_high 20 12 a (omega arith),
    bit_and_high 20 12 b (omega arith),
    index_of a,
    index_of b,
  )

  pointer-write_page :
      (m : SparseMemory) (a i : ℕ) (ptr : ℕ → ℕ)
      → (write_page m a ptr).1 i ≡ ptr (4096 - a % 4096 + i)
  unfolding write_page
  pointer-write_page m a i ptr = rw (index_of a)

  write_nothing : (fuel : ℕ) (m : SparseMemory) (a : ℕ) (ptr : ℕ → ℕ) → write fuel m a ptr 0 ≡ m
  unfolding write
  write_nothing zero m a ptr = refl
  write_nothing (suc fuel) m a ptr = refl

  -- With a fuel of the size, or more, and a last page that ends within the address space, the
  -- block write ends, and then the bytes from the address on are those behind the pointer, up to
  -- the end of the last page that the block reaches, and every other byte is as before.
  pub read8-write :
      (fuel : ℕ) (m : SparseMemory) (a b : ℕ) (ptr : ℕ → ℕ) (size : ℕ)
      → size ≤ fuel
      → a < 2 ^ 32
      → b < 2 ^ 32
      → written_end a size ≤ 2 ^ 32
      → read8 (write fuel m a ptr size) b
        ≡ (if leb a b && ltb b (written_end a size) then ptr (b - a) else read8 m b)
  unfolding write
  read8-write zero m a b ptr size hf ha hb he = ground arith
  read8-write (suc fuel) m a b ptr size hf ha hb he =
      let e = 4096 - a % 4096 in
      let (m', ptr') = write_page m a ptr in
      let round = read8-write_page m a b ptr ha hb in
      elim (Bool-cases (ltb 0 size)) [
        | inr none_left ↦ rw none_left (ground arith)
        | inl some_left ↦ elim (Bool-cases (ltb 0 (size - e))) [
          | inr last ↦
              let over : size - e ≡ 0 = ground arith in
              rw (some_left, index_of a, over, write_nothing fuel m' (u32 (a + e)) ptr')
                (ground (arith, round))
          | inl more ↦
              let next : u32 (a + e) ≡ a + e = ground arith in
              rw (some_left, index_of a, next)
                (ground (
                  arith,
                  round,
                  read8-write fuel m' (a + e) b ptr' (size - e) (ground arith) (ground arith) hb
                      (ground arith),
                  pointer-write_page m a (b - (a + e)) ptr,
                ))
        ]
      ]

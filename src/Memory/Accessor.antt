-- ===== src/Memory/Accessor.antt =====
-- `sparse_memory_accessor`: bytes in pages of 4096 that are made when first written. The class is
-- a template over the type that derives from it, but its methods call each other without a cast
-- to that type, so they are those of this class whatever derives from it.
use riscv32_sim.Base.{ℕ, ◌+◌, ◌*◌, ◌/◌, ◌^◌, bit_and, bit_or, Option, none, some, update}
use riscv32_sim.Base.Word.{u8, u16, u32, u64}
use riscv32_sim.Common.{Externals}

abbrev pub Page : Type 0
Page = ℕ → ℕ

-- `std::unordered_map<uint32_t, std::unique_ptr<uint8_t[]>>`.
abbrev pub SparseMemory : Type 0
SparseMemory = ℕ → Option Page

abbrev pub page_size : ℕ
page_size = 4096

abbrev pub mask : ℕ
mask = 0xFFFFF000

-- `std::make_unique<uint8_t[]>` gives zeroes.
abbrev pub zero_page : Page
zero_page i = 0

module _ ⦃x : Externals⦄ where
  -- The memory with the page of `addr`, and its key.
  unfoldable pub ensure_page_exists : SparseMemory → ℕ → SparseMemory × ℕ
  ensure_page_exists m addr =
      let key = bit_and addr mask in
      (elim (m key) [ none ↦ update m key (some zero_page) | some _ ↦ m ], key)

  unfoldable pub read8 : SparseMemory → ℕ → ℕ
  read8 m off = elim (m (bit_and off mask)) [ none ↦ 0 | some page ↦ page (x.offset off 0 11) ]

  unfoldable pub read16 : SparseMemory → ℕ → ℕ
  read16 m off = u16 (bit_or (read8 m off) (read8 m (u32 (off + 1)) * 2 ^ 8))

  unfoldable pub read32 : SparseMemory → ℕ → ℕ
  read32 m off = u32 (bit_or (read16 m off) (read16 m (u32 (off + 2)) * 2 ^ 16))

  unfoldable pub read64 : SparseMemory → ℕ → ℕ
  read64 m off = u64 (bit_or (read32 m off) (read32 m (u32 (off + 4)) * 2 ^ 32))

  -- `this->page[key].get()[i] = b`, where the page is there.
  unfoldable pub poke : SparseMemory → ℕ → ℕ → ℕ → SparseMemory
  poke m key i b = elim (m key) [ none ↦ m | some page ↦ update m key (some (update page i b)) ]

  unfoldable pub write8 : SparseMemory → ℕ → ℕ → SparseMemory
  unfolding ensure_page_exists poke
  write8 m off b = let (m', key) = ensure_page_exists m off in poke m' key (x.offset off 0 11) b

  unfoldable pub write16 : SparseMemory → ℕ → ℕ → SparseMemory
  write16 m off h =
      write8 (write8 m off (u8 (x.offset h 0 7))) (u32 (off + 1)) (u8 (x.offset h 8 15))

  unfoldable pub write32 : SparseMemory → ℕ → ℕ → SparseMemory
  write32 m off w =
      write16 (write16 m off (u16 (x.offset w 0 15))) (u32 (off + 2)) (u16 (x.offset w 16 31))

  unfoldable pub write64 : SparseMemory → ℕ → ℕ → SparseMemory
  write64 m off dw =
      write32 (write32 m off (u32 (u64 (dw * 2 ^ 32) / 2 ^ 32))) (u32 (off + 4)) (u32 (dw / 2 ^ 32))

-- ===== src/Tests/Memories.antt =====
-- The theorems on memory at concrete inputs: a word across a page boundary, and the registers of
-- the timer.
use riscv32_sim.Base.{◌+◌, ◌-◌, leb, ltb, ◌&&◌, ℕ, ◌≡◌, refl, arith, ok, ◌>>=◌, ◌==◌, if◌then◌else◌}
use riscv32_sim.Memory.Accessor
use riscv32_sim.Memory.Blocks
use riscv32_sim.Memory.Blocks.{written_end, read8-write}
use riscv32_sim.Memory.Bytes
use riscv32_sim.Memory.Bytes.{stored, number_at}
use riscv32_sim.Memory.Router
use riscv32_sim.Memory.Router.{Router}
use riscv32_sim.Memory.Router.Laws.{read8-write8, word_accesses_bypass}
use riscv32_sim.Memory.Maps.{of_pages, of_pages-write8}
use riscv32_sim.Memory.Words.{read32-write32}
use riscv32_sim.Tests.Libraries.{libraries, libraries-IsDocumented}
use riscv32_sim.Tests.Machine.{no_pages, no_pages-IsBytes, blank}

read8-write32_example :
    Accessor.read8 (Accessor.write32 no_pages 0xFFE 0x12345678) 0x1000
    ≡ stored (Accessor.read8 no_pages) 0xFFE 4 0x12345678 0x1000
read8-write32_example =
    Bytes.read8-write32 libraries-IsDocumented no_pages 0xFFE 0x1000 0x12345678 (omega arith)
      (omega arith)

read32-write32_example :
    Accessor.read32 (Accessor.write32 no_pages 0xFFE 0x12345678) 0xFFE ≡ 0x12345678
read32-write32_example =
    read32-write32 libraries-IsDocumented no_pages 0xFFE 0x12345678 (omega arith) (omega arith)
      no_pages-IsBytes

read8-write8_example :
    (Router.write8 blank 0x4001 9 >>= λ r'. Router.read8 r' 0x4001)
    ≡ (if 0x4001 == 0x4001 then ok 9 else Router.read8 blank 0x4001)
read8-write8_example =
    read8-write8 libraries-IsDocumented blank 0x4001 0x4001 9 (omega arith) (omega arith)

-- A tick of the timer, and the word that the interrupt check reads.
word_accesses_bypass_example :
    (r' : Router) × (Router.write8 blank 0x4000 1 ≡ ok r')
    × (Router.read32 r' 0x4000 ≡ Router.read32 blank 0x4000)
    × (Router.read64 r' 0x4000 ≡ Router.read64 blank 0x4000)
    × ((i : ℕ) → (Router.write32 blank 0x4000 5).mtime i ≡ blank.mtime i)
word_accesses_bypass_example = word_accesses_bypass blank 0x4000 1 0x4000 5 refl

-- Three bytes across a page boundary: the second page is written to its end.
read8-write_example : Accessor.read8 (Blocks.write 3 no_pages 0xFFE (λ i. i + 1) 3) 0x1001 ≡ (
    if leb 0xFFE 0x1001 && ltb 0x1001 (written_end 0xFFE 3)
    then 0x1001 - 0xFFE + 1
    else Accessor.read8 no_pages 0x1001)
read8-write_example =
    read8-write libraries-IsDocumented 3 no_pages 0xFFE 0x1001 (λ i. i + 1) 3 (omega arith)
      (omega arith) (omega arith) (omega arith)

of_pages-write8_example :
    (of_pages (Accessor.ensure_page_exists no_pages 0x1000).0 ≡ of_pages no_pages)
    × (of_pages (Accessor.write8 no_pages 0x1000 (Accessor.read8 no_pages 0x1000))
        ≡ of_pages no_pages)
    × (of_pages (Accessor.write8 (Accessor.write8 no_pages 0x1000 1) 0x1000 2)
        ≡ of_pages (Accessor.write8 no_pages 0x1000 2))
    × (of_pages (Accessor.write8 (Accessor.write8 no_pages 0x1000 1) 0xFFFFFFFF 2)
        ≡ of_pages (Accessor.write8 (Accessor.write8 no_pages 0xFFFFFFFF 2) 0x1000 1))
of_pages-write8_example =
    of_pages-write8 libraries-IsDocumented no_pages 0x1000 0xFFFFFFFF 1 2 (omega arith)
      (omega arith) (omega arith)

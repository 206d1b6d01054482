-- ===== src/Loader/Image.antt =====
-- The ELF file behind a `loader`: its two constructors, `symbol` and `entry`
-- (riscv32-sim/src/loader.cpp, riscv32-sim/include/loader.hpp). The reader is ELFIO's: what it
-- reads of a file is a record, and reading is a parameter.
use Prim.Native.String.{String}
use riscv32_sim.Base.{
  ℕ, ◌+◌, ◌%◌, ◌^◌, Bool, ◌&&◌, true, false, not, Option, none, some, List, [], ◌∷◌, Result, ok,
  err, loader_error, runtime_error, undefined_behaviour, ◌>>=◌, ltb, ◌==◌, if◌then◌else◌,
}
use riscv32_sim.Base.Word.{u32}
use riscv32_sim.Common.{Externals}
use riscv32_sim.Loader.{Section}
use riscv32_sim.Memory.Blocks
use riscv32_sim.Memory.Router.{Router}

-- `get_data` has the bytes at distances below `get_file_size`: what is behind them is not the
-- segment's, and `write_buffer` is a fault where the code reads it.
pub record Segment : Type 0 where
  pub get_type : ℕ
  pub get_virtual_address : ℕ  -- uint64
  pub get_file_size : ℕ  -- uint64
  pub get_data : ℕ → ℕ

pub record Elf : Type 0 where
  pub get_class : ℕ
  pub get_machine : ℕ
  pub get_entry : ℕ  -- uint64
  pub segments : List Segment
  pub sections : List Section
  pub get_symbol : String → Option ℕ

-- The library: `load` gives `none` where ELFIO's returns false.
pub record Elfio : Type 0 where
  pub load : String → Option Elf
  pub elfclass32 : ℕ
  pub em_riscv : ℕ
  pub pt_load : ℕ
  pub sht_progbits : ℕ
  pub shf_execinstr : ℕ

abbrev pub is_empty {ℓ} : {A : Type ℓ} → List A → Bool
is_empty [] = true
is_empty (x ∷ xs) = false

module _ (elfio : Elfio) where
  -- The checks of the first constructor, on a file that was read.
  unfoldable pub check_elf : Elf → Result Elf
  check_elf reader =
      if not (reader.get_class == elfio.elfclass32)
      then err (loader_error "Only 32-bit binaries are supported")
      else if not (reader.get_machine == elfio.em_riscv)
      then err (loader_error "Loaded ELF does not target RISC-V")
      else if is_empty reader.segments
      then err (loader_error "Loaded ELF has no segments")
      else ok reader

  unfoldable pub check_loaded : Option Elf → Result Elf
  unfolding check_elf
  check_loaded none = err (loader_error "File is not an ELF file")
  check_loaded (some reader) = check_elf reader

  unfoldable pub open_elf : String → Result Elf
  unfolding check_loaded
  open_elf file_name = check_loaded (elfio.load file_name)

  module _ ⦃x : Externals⦄ where
    -- A size that does not fit `int64_t` is negative there, and writes nothing.
    unfoldable pub write_router : Router → ℕ → (ℕ → ℕ) → ℕ → Router
    write_router r virt_addr ptr size =
        let n = if ltb size (2 ^ 63) then size else 0 in
        record r { page = Blocks.write n r.page virt_addr ptr n }

    -- The same from a buffer of `size` bytes. Each page is copied to its end, so that the last
    -- `std::memcpy` reads behind the buffer unless the two end together.
    unfoldable pub write_buffer : Router → ℕ → (ℕ → ℕ) → ℕ → Result Router
    unfolding write_router
    write_buffer r virt_addr ptr size =
        if ltb 0 size && ltb size (2 ^ 63) && not ((virt_addr + size) % 4096 == 0)
        then err undefined_behaviour
        else ok (write_router r virt_addr ptr size)

    unfoldable pub load_segment : Router → Segment → Result Router
    unfolding write_buffer
    load_segment r s =
        if s.get_type == elfio.pt_load
        then write_buffer r (u32 s.get_virtual_address) s.get_data s.get_file_size
        else ok r

    unfoldable pub load_segments : Router → List Segment → Result Router
    unfolding load_segment
    load_segments r [] = ok r
    load_segments r (s ∷ segments) = load_segment r s >>= λ r'. load_segments r' segments

    -- The second constructor.
    unfoldable pub load_elf : String → Router → Result (Elf × Router)
    unfolding open_elf load_segments
    load_elf file_name mem = do
      reader ← open_elf file_name
      mem' ← load_segments mem reader.segments
      ok (reader, mem')

unfoldable pub symbol : Elf → String → Result ℕ
symbol reader str = elim (reader.get_symbol str) [
  | none ↦ err runtime_error
  | some value ↦ ok (u32 value)
]

unfoldable pub entry : Elf → ℕ
entry reader = u32 reader.get_entry

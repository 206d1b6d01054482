-- ===== src/Loader.antt =====
-- The ranges of code in an ELF file: `progbit_ranges` of riscv32-sim/src/loader.cpp. The sections
-- are what ELFIO gives of them, and its constants are parameters.
pub mod Image
pub mod Segments
pub mod Buffers
use riscv32_sim.Base.{
  ℕ, ◌+◌, ◌-◌, ◌%◌, ◌^◌, ◌≤◌, ◌<◌, ◌≡◌, ◌↔◌, ◌⊎◌, bit_and, arith, Bool, true, not, ◌&&◌, List, [],
  ◌∷◌, ltb, ◌==◌, Bool-cases, inl, inr, if◌then◌else◌,
}
use riscv32_sim.Iss.Exec.{is_address_initialized}

pub record Section : Type 0 where
  pub get_type : ℕ
  pub get_flags : ℕ
  pub get_address : ℕ  -- uint64
  pub get_size : ℕ  -- uint64

module _ (sht_progbits shf_execinstr : ℕ) where
  -- The test of the loop.
  unfoldable pub is_code : Section → Bool
  is_code s =
      (s.get_type == sht_progbits)
      && not (bit_and s.get_flags shf_execinstr == 0)
      && ltb 0 s.get_size

  -- The ends of a range are both inside of it; they are computed in 64 bits.
  unfoldable pub progbit_ranges : List Section → List (ℕ × ℕ)
  unfolding is_code
  progbit_ranges [] = []
  progbit_ranges (s ∷ sections) =
      let rest = progbit_ranges sections in
      let start_addr = s.get_address in
      let end_addr = (start_addr + s.get_size + 2 ^ 64 - 1) % 2 ^ 64 in
      if is_code s then (start_addr, end_addr) ∷ rest else rest

  -- The address lies in a section of code.
  abbrev pub IsCodeAt : List Section → ℕ → Type 0
  IsCodeAt [] a = ⊥
  IsCodeAt (s ∷ sections) a =
      ((is_code s ≡ true) × (s.get_address ≤ a) × (a < s.get_address + s.get_size))
      ⊎ IsCodeAt sections a

  -- No section reaches beyond 64 bits.
  abbrev pub IsPlaced : List Section → Type 0
  IsPlaced [] = Unit {0}
  IsPlaced (s ∷ sections) = (s.get_address + s.get_size ≤ 2 ^ 64) × IsPlaced sections

  is_code-lt : (s : Section) → is_code s ≡ true → 0 < s.get_size
  unfolding is_code
  is_code-lt s h = ground arith

  -- For sections that end within 64 bits, an address is in a range of `progbit_ranges` exactly if
  -- it lies in a section of code: the ranges leave out empty sections, and their inclusive ends
  -- are exact.
  pub is_address_initialized-progbit_ranges :
      (sections : List Section) (a : ℕ)
      → IsPlaced sections
      → (is_address_initialized (progbit_ranges sections) a ≡ true) ↔ IsCodeAt sections a
  unfolding is_address_initialized progbit_ranges
  is_address_initialized-progbit_ranges [] a h = ground arith
  is_address_initialized-progbit_ranges (s ∷ sections) a (placed, h) =
      let later = is_address_initialized-progbit_ranges sections a h in
      elim (Bool-cases (is_code s)) [
        | inl e ↦ rw e (ground (arith, later, is_code-lt s e))
        | inr e ↦ rw e (ground (arith, later))
      ]

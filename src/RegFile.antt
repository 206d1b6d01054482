-- ===== src/RegFile.antt =====
-- The general-purpose registers (riscv32-sim/src/reg_file.cpp, riscv32-sim/include/reg_file.hpp).
use riscv32_sim.Base.{
  ℕ, List, [], ◌∷◌, ◌++◌, Result, ok, err, assertion_failed, undefined_behaviour, ◌>>=◌, ltb, ◌==◌,
  if◌then◌else◌, update,
}
use riscv32_sim.Common.{GprChange}

abbrev pub reg_count : ℕ
reg_count = 32

-- `std::array<uint32_t, reg_count>`, initially zero.
abbrev pub RegFile : Type 0
RegFile = ℕ → ℕ

unfoldable pub read : RegFile → ℕ → Result ℕ
read x index = if ltb index reg_count then ok (x index) else err assertion_failed

unfoldable pub write : RegFile → ℕ → ℕ → Result RegFile
write x index val =
    if index == 0
    then ok x
    else if ltb index reg_count
    then ok (update x index val)
    else err assertion_failed

-- The overload that fills in a record of the change. It reads `x[index]` before `index` is checked.
unfoldable pub write_change : RegFile → ℕ → ℕ → Result (RegFile × GprChange)
unfolding write
write_change x index val = do
  prev ← if ltb index reg_count then ok (x index) else err undefined_behaviour
  x' ← write x index val
  ok (x', record { index = index; prev = prev; next = val })

-- The overload that appends the record to a vector.
unfoldable pub write_staged : RegFile → ℕ → ℕ → List GprChange → Result (RegFile × List GprChange)
unfolding write_change
write_staged x index val vec = do (x', tmp) ← write_change x index val; ok (x', vec ++ tmp ∷ [])

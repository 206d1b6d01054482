-- ===== src/Zicsr/CsrFile.antt =====
-- The file of control and status registers (riscv32-sim/include/zicsr/csr_file.hpp).
use riscv32_sim.Base.{
  ℕ, List, [], ◌∷◌, ◌++◌, Result, ok, err, out_of_range, ◌>>=◌, at, ltb, if◌then◌else◌, update,
}
use riscv32_sim.Common.{CsrChange}

abbrev pub csr_count : ℕ
csr_count = 4096

-- `std::array<uint32_t, csr_count>`, initially zero.
abbrev pub CsrFile : Type 0
CsrFile = ℕ → ℕ

unfoldable pub read : CsrFile → ℕ → Result ℕ
read csrs addr = at csr_count csrs addr

unfoldable pub write : CsrFile → ℕ → ℕ → Result CsrFile
write csrs addr v = if ltb addr csr_count then ok (update csrs addr v) else err out_of_range

-- The overload that fills in a record of the change.
unfoldable pub write_change : CsrFile → ℕ → ℕ → Result (CsrFile × CsrChange)
unfolding write
write_change csrs addr v = do
  prev ← at csr_count csrs addr
  csrs' ← write csrs addr v
  ok (csrs', record { index = addr; prev = prev; next = v })

-- The overload that appends the record to a vector.
unfoldable pub write_staged : CsrFile → ℕ → ℕ → List CsrChange → Result (CsrFile × List CsrChange)
unfolding write_change
write_staged csrs addr v vec = do
  (csrs', tmp) ← write_change csrs addr v
  ok (csrs', vec ++ tmp ∷ [])

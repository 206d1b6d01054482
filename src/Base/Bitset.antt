-- ===== src/Base/Bitset.antt =====
-- `std::bitset<32>`: a word whose bits are read and written one by one.
use Prim.Native.Nat.{ℕ, ◌+◌, ◌*◌, ◌/◌, ◌%◌, ◌^◌}
use mathlib.Core.Bool.{Bool}
use riscv32_sim.Base.Tests.{ltb, ◌==◌, if◌then◌else◌}
use riscv32_sim.Base.Results.{Result, ok, err, out_of_range}

-- `b[i]`.
abbrev pub bit : ℕ → ℕ → Bool
bit b i = b / 2 ^ i % 2 == 1

-- `b[i] = v`.
abbrev pub with_bit : ℕ → ℕ → Bool → ℕ
with_bit b i v = b / 2 ^ i / 2 * 2 ^ i * 2 + (if v then 2 ^ i else 0) + b % 2 ^ i

-- `b.test(i)`, `b.set(i)` and `b.reset(i)` check the position.
abbrev pub test : ℕ → ℕ → Result Bool
test b i = if ltb i 32 then ok (bit b i) else err out_of_range

abbrev pub assign : ℕ → ℕ → Bool → Result ℕ
assign b i v = if ltb i 32 then ok (with_bit b i v) else err out_of_range

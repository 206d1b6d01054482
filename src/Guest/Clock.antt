-- ===== src/Guest/Clock.antt =====
-- `mtime` of runtime/basic/src/timer.c: a 64-bit clock read by words.
use riscv32_sim.Base.{
  ℕ, zero, suc, ◌+◌, bit_or, ◌==◌, Option, none, some, Result, ok, ◌>>=◌, if◌then◌else◌,
}
use riscv32_sim.Guest.Stdint.{cut64, shift_left}

-- The loop, for at most `fuel` rounds. The words change under the program: `low n` and `high n` are
-- what they hold at the access number `n`. The result is the high and the low word, and the number
-- of the next access.
unfoldable pub poll : ℕ → (ℕ → ℕ) → (ℕ → ℕ) → ℕ → Option (ℕ × ℕ × ℕ)
poll zero low high n = none
poll (suc fuel) low high n =
    let rest = poll fuel low high (n + 3) in
    if high n == high (n + 2) then some (high n, low (n + 1), n + 3) else rest

-- `(uint64_t)((((uint64_t)mtimeh_val) << 32) | mtimel_val)`
unfoldable pub combine : ℕ → ℕ → ℕ → Result ℕ
combine ulong h l = shift_left ulong (cut64 ulong h) 32 >>= λ v. ok (cut64 ulong (bit_or v l))

unfoldable pub combined : ℕ → Option (ℕ × ℕ × ℕ) → Option (Result ℕ × ℕ)
combined ulong none = none
combined ulong (some (h, l, n)) = some (combine ulong h l, n)

unfoldable pub mtime : ℕ → ℕ → (ℕ → ℕ) → (ℕ → ℕ) → ℕ → Option (Result ℕ × ℕ)
unfolding poll combine combined
mtime fuel ulong low high n = combined ulong (poll fuel low high n)

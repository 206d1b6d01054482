-- ===== src/Guest/Programs.antt =====
-- The small programs of runtime/basic/src and the start of every program, runtime/basic/crt/crt.c.
pub mod Laws
use riscv32_sim.Base.{ℕ, zero, suc, ◌+◌, ◌*◌, ◌^◌, Result, ok, ◌>>=◌}
use riscv32_sim.Base.Int.{ℤ}
use riscv32_sim.Base.Word.{u8, u32, to_i32, to_u32}

-- `fib` of fib.c. From 2 on, `v - 1` and `v - 2` fit the argument's eight bits.
unfoldable pub fib : ℕ → ℕ
fib zero = 1
fib (suc zero) = 1
fib (suc (suc v)) = u32 (fib (suc v) + fib v)

-- The values that the functions `main` return, an `int` each.
unfoldable pub fib_main : ℤ
unfolding fib
fib_main = to_i32 (fib (u8 6))

unfoldable pub mul_main : ℤ
mul_main = to_i32 (u32 (1234 * 123))

unfoldable pub shift_main : ℤ
shift_main = to_i32 (u32 (u32 (1 + 2) * 2 ^ 3))

-- The value that `divu` puts in a register, by the function of the instruction.
unfoldable pub divu_main : (ℕ → ℕ → Result ℕ) → Result ℤ
divu_main divu = divu 0xFEED 0xBEEF >>= λ c. ok (to_i32 c)

-- `mulhsu a3, a2, a1`.
unfoldable pub mulhsu_main : (ℕ → ℕ → Result ℕ) → Result ℤ
mulhsu_main mulhsu = mulhsu 0xFFFFFFFF 0xEFFFFFFF >>= λ c. ok (to_i32 c)

-- `_exit`: the word that it stores in `tohost`.
unfoldable pub exit : ℤ → ℕ
exit ret = to_u32 ret

-- `_start`
unfoldable pub start : Result ℤ → Result ℕ
unfolding exit
start program = program >>= λ ret. ok (exit ret)

-- `_entry`: the two registers that it sets from the linker's symbols before it goes to `_start`.
pub record Registers : Type 0 where
  pub gp : ℕ
  pub sp : ℕ

unfoldable pub entry : ℕ → ℕ → Registers
entry global_pointer stack = record { gp = global_pointer; sp = stack }

-- ===== src/Guest/Programs/Laws.antt =====
-- `fib` and the sequence of Fibonacci.
use riscv32_sim.Base.{ℕ, zero, suc, ◌+◌, ◌%◌, ◌^◌, ◌≡◌, refl, arith}
use riscv32_sim.Guest.Programs.{fib}

-- The sequence that starts with `a` and `b`, by additions of neighbours.
abbrev pub fibonacci : ℕ → ℕ → ℕ → ℕ
fibonacci zero a b = a
fibonacci (suc n) a b = fibonacci n b (a + b)

fibonacci-suc : (n a b : ℕ) → fibonacci (suc (suc n)) a b ≡ fibonacci (suc n) a b + fibonacci n a b
fibonacci-suc zero a b = omega arith
fibonacci-suc (suc n) a b = fibonacci-suc n b (a + b)

-- The double recursion of the program gives the term of the sequence 1, 1, 2, 3, … that a loop
-- over two neighbours reaches, modulo 2 ^ 32.
pub fib-fibonacci : (v : ℕ) → fib v ≡ fibonacci v 1 1 % 2 ^ 32
unfolding fib
fib-fibonacci zero = refl
fib-fibonacci (suc zero) = refl
fib-fibonacci (suc (suc v)) =
    ground (arith, fib-fibonacci v, fib-fibonacci (suc v), fibonacci-suc v 1 1)

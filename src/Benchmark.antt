-- ===== src/Benchmark.antt =====
-- The arithmetic that the benchmark compares: `do_alu` of riscv32-sim/benchmark/alu.cpp and
-- `do_alu_static` of riscv32-sim/benchmark/alu_static_variadic.hpp.
pub mod Operations
pub mod Switch
pub mod Agreement

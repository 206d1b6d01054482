-- ===== src/Memory.antt =====
-- The memory of the simulator: the sparse pages and the router in front of them
-- (riscv32-sim/include/memory/sparse_memory.hpp, riscv32-sim/src/memory/sparse_memory.cpp).
pub mod Accessor
pub mod Bytes
pub mod Words
pub mod Maps
pub mod Blocks
pub mod Router
pub mod Base

-- ===== src/Iss.antt =====
-- The instruction set simulator (riscv32-sim/src/iss, riscv32-sim/include/iss).
pub mod Arith
pub mod Alu
pub mod State
pub mod Trap
pub mod Branch
pub mod CsrInstr
pub mod LoadStore
pub mod Exec
pub mod Start
pub mod Sound
pub mod Manual
pub mod Faults

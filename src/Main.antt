-- ===== src/Main.antt =====
-- The program around the simulator: riscv32-sim/src/main.cpp.
pub mod Output
pub mod Loop
pub mod Signals
pub mod Arguments
pub mod Serve
pub mod Whole
pub mod Boot
pub mod Booted

-- ===== src/Ipc.antt =====
-- The TCP server of a build with ENABLE_TCP: riscv32-sim/include/ipc.hpp and riscv32-sim/src/ipc.cpp.
-- An asynchronous operation of the library is a value that is pending, and its completion an event.
pub mod Session
pub mod Echo
pub mod Server
pub mod Serving

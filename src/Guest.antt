-- ===== src/Guest.antt =====
-- The programs that the simulator runs in its tests: runtime/basic, and runtime/arch-test/trap_handler.c.
-- The definitions say what the C code does; the compiler is not modelled, and `ulong` is the number of
-- bits that it gives an `unsigned long int`.
pub mod Stdint
pub mod Clock
pub mod Timer
pub mod Programs
pub mod Handlers

-- ===== src/Tests.antt =====
-- The theorems at concrete inputs.
mod Libraries
mod Machine
mod Memories
mod Numbers
mod Traps
mod Runs
mod Texts
mod Programs
mod Clocks
mod Loading
mod Exports
mod Accesses
mod Whole
mod Halting
mod Exit
mod Faults

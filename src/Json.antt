-- ===== src/Json.antt =====
-- The conversions of riscv32-sim/include/util/json_export_helpers.hpp that the header writes out. A JSON
-- number or object is the library's; here a number, and a list of named numbers.
pub mod Operation
pub mod Changes

-- ===== src/Zicsr.antt =====
-- Control and status registers (riscv32-sim/include/zicsr).
pub mod Misa
pub mod Status
pub mod Csr
pub mod Mode
pub mod CsrFile

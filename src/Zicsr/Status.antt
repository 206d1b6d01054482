-- ===== src/Zicsr/Status.antt =====
-- The positions of the fields of `mstatus` (`struct status` in
-- riscv32-sim/include/zicsr/csr_file.hpp).
use riscv32_sim.Base.{ℕ}

pub data Status : Type 0 where
  sie mie spie spp mpie mpp mprv : Status

abbrev pub position : Status → ℕ
position sie = 1
position mie = 3
position spie = 5
position spp = 8
position mpie = 7
position mpp = 11
position mprv = 17

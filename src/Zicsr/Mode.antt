-- ===== src/Zicsr/Mode.antt =====
-- Privilege levels and what they may access (riscv32-sim/include/zicsr/csr_file.hpp).
pub mod Access
use riscv32_sim.Base.{ℕ, ◌*◌, ◌^◌, bit_or, Bool, not, ◌&&◌, leb, ◌==◌}
use riscv32_sim.Base.Word.{u8, u16}
use riscv32_sim.Common.{Externals}
use riscv32_sim.Zicsr.Csr.{Csr}
use riscv32_sim.Zicsr.Csr

pub data Privilege : Type 0 where
  user supervisor hypervisor machine : Privilege

-- The enumerators' values: `to_int`, or a cast.
abbrev pub to_int : Privilege → ℕ
to_int user = 0
to_int supervisor = 1
to_int hypervisor = 2
to_int machine = 3

pub record PrivilegedMode : Type 0 where
  pub m : Privilege
  pub base : ℕ  -- uint16

-- `set_mode` assigns both fields, so that the mode before it does not matter; the constructor is
-- a call of it.
unfoldable pub set_mode : Privilege → PrivilegedMode
set_mode mode = record { m = mode; base = u16 (u16 (to_int mode) * 2 ^ 8) }

unfoldable pub priv_csr : PrivilegedMode → Csr → ℕ
priv_csr p c = bit_or p.base (Csr.to_int c)

module _ ⦃x : Externals⦄ where
  unfoldable pub priv : ℕ → ℕ
  priv addr = u8 (x.offset addr 8 9)

  unfoldable pub readonly : ℕ → Bool
  readonly addr = x.offset addr 10 11 == 3

  unfoldable pub can_read : PrivilegedMode → ℕ → Bool
  unfolding priv
  can_read p addr = leb (priv addr) (to_int p.m)

  unfoldable pub can_write : PrivilegedMode → ℕ → Bool
  unfolding readonly priv
  can_write p addr = not (readonly addr) && leb (priv addr) (to_int p.m)

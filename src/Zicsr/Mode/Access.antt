-- ===== src/Zicsr/Mode/Access.antt =====
-- Which registers a privilege level reaches.
use riscv32_sim.Base.{ℕ, ◌/◌, ◌%◌, ◌^◌, ◌≤◌, ◌≡◌, refl, arith, true, ◌↔◌, ◌≢◌}
use riscv32_sim.Common.{Externals, IsDocumented}
use riscv32_sim.Zicsr.Csr.{Csr}
use riscv32_sim.Zicsr.Csr
use riscv32_sim.Zicsr.Mode.{
  machine, PrivilegedMode, to_int, set_mode, priv_csr, can_read, can_write,
}

-- The trap registers that the code asks for by their user-level names.
pub data IsTrapRegister : Csr → Csr → Type 0 where
  epc : IsTrapRegister Csr.uepc Csr.mepc
  cause : IsTrapRegister Csr.ucause Csr.mcause
  tval : IsTrapRegister Csr.utval Csr.mtval
  tvec : IsTrapRegister Csr.utvec Csr.mtvec

-- In machine mode the user-level names of the trap registers lead to the machine-level registers.
pub priv_csr-machine :
    {c c' : Csr} → IsTrapRegister c c' → priv_csr (set_mode machine) c ≡ Csr.to_int c'
unfolding priv_csr set_mode
priv_csr-machine epc = refl
priv_csr-machine cause = refl
priv_csr-machine tval = refl
priv_csr-machine tvec = refl

module _ ⦃x : Externals⦄ (d : IsDocumented x) (p : PrivilegedMode) (addr : ℕ) where
  -- At any level and address, a register is readable exactly if the level is at least bits 8 and 9
  -- of its address, and writable exactly if moreover bits 10 and 11 are not both set.
  pub access :
      ((can_read p addr ≡ true) ↔ (addr / 2 ^ 8 % 4 ≤ to_int p.m))
      × ((can_write p addr ≡ true) ↔ ((addr / 2 ^ 8 % 4 ≤ to_int p.m) × (addr / 2 ^ 10 % 4 ≢ 3)))
  unfolding can_read can_write
  access = ground (
    arith,
    d.offset_lem addr 8 9 (omega arith) (omega arith),
    d.offset_lem addr 10 11 (omega arith) (omega arith),
  )

-- ===== src/Iss/Trap/Numbers.antt =====
-- The numbers that `trap` computes with: kinds of causes, register addresses, masked addresses.
use riscv32_sim.Base.{ℕ, ◌+◌, ◌*◌, ◌/◌, ◌^◌, ◌≤◌, ◌<◌, ◌≡◌, refl, ap, ◌∙◌, arith, bit_and, leb}
use riscv32_sim.Base.Bits.{bit_and_high}
use riscv32_sim.Common.{Externals, IsDocumented}
use riscv32_sim.Iss.Trap.{is_interrupt, interrupt_number}
use riscv32_sim.TrapCause.{TrapCause, exp_inst_addr_misaligned, int_timer_m}
use riscv32_sim.TrapCause
use riscv32_sim.Zicsr.Csr
use riscv32_sim.Zicsr.Mode.{
  Privilege, user, supervisor, hypervisor, machine, PrivilegedMode, to_int, set_mode, priv_csr,
}

module _ ⦃x : Externals⦄ (d : IsDocumented x) where
  pub is_interrupt-leb :
      (cause : TrapCause) → is_interrupt cause ≡ leb (2 ^ 31) (TrapCause.to_int cause)
  unfolding is_interrupt
  is_interrupt-leb exp_inst_addr_misaligned = rw d.sign_bit_lem
  is_interrupt-leb _ = rw d.sign_bit_lem

  pub interrupt_number_timer : interrupt_number int_timer_m ≡ 7
  unfolding interrupt_number
  interrupt_number_timer = rw d.msb_zero_lem

  -- `masks::tvec::base_addr` clears the two lowest bits.
  pub bit_and-base_addr : (w : ℕ) → w < 2 ^ 32 → bit_and w x.base_addr ≡ w / 4 * 4
  bit_and-base_addr w h = ap (bit_and w) d.base_addr_lem ∙ bit_and_high 30 2 w (omega arith)

-- The registers of a privilege level stand from this address on.
abbrev pub trap_base : Privilege → ℕ
trap_base p = to_int p * 2 ^ 8

pub trap_base-le : (p : Privilege) → trap_base p ≤ 0x300
trap_base-le user = omega arith
trap_base-le supervisor = omega arith
trap_base-le hypervisor = omega arith
trap_base-le machine = omega arith

pub priv_csr-trap_base :
    (p : PrivilegedMode)
    → p ≡ set_mode p.m
    → (priv_csr p Csr.uepc ≡ trap_base p.m + 0x41)
      × (priv_csr p Csr.ucause ≡ trap_base p.m + 0x42)
      × (priv_csr p Csr.utval ≡ trap_base p.m + 0x43)
      × (priv_csr p Csr.utvec ≡ trap_base p.m + 0x05)
priv_csr-trap_base p h = (
  ap (λ (q : PrivilegedMode). priv_csr q Csr.uepc) h ∙ (at_level p.m).0,
  ap (λ (q : PrivilegedMode). priv_csr q Csr.ucause) h ∙ (at_level p.m).1,
  ap (λ (q : PrivilegedMode). priv_csr q Csr.utval) h ∙ (at_level p.m).2,
  ap (λ (q : PrivilegedMode). priv_csr q Csr.utvec) h ∙ (at_level p.m).3,
)
  where
    at_level :
        (l : Privilege)
        → (priv_csr (set_mode l) Csr.uepc ≡ trap_base l + 0x41)
          × (priv_csr (set_mode l) Csr.ucause ≡ trap_base l + 0x42)
          × (priv_csr (set_mode l) Csr.utval ≡ trap_base l + 0x43)
          × (priv_csr (set_mode l) Csr.utvec ≡ trap_base l + 0x05)
    at_level user = unfold priv_csr set_mode in (refl, refl, refl, refl)
    at_level supervisor = unfold priv_csr set_mode in (refl, refl, refl, refl)
    at_level hypervisor = unfold priv_csr set_mode in (refl, refl, refl, refl)
    at_level machine = unfold priv_csr set_mode in (refl, refl, refl, refl)

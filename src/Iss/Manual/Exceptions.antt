-- ===== src/Iss/Manual/Exceptions.antt =====
-- `trap` on an exception does to the hart what the hart's own trap does.
use riscv32_sim.Base.{
  ℕ, ◌+◌, ◌*◌, ◌/◌, ◌^◌, ◌<◌, ◌≡◌, refl, ap, arith, true, false, inl, inr, Bool-cases, Returns,
  ◌==◌,
}
use riscv32_sim.Common.{Externals, IsDocumented}
use riscv32_sim.Iss.Manual.{view}
use riscv32_sim.Iss.Manual.Traps.{Exception, cause_number, called, trapped}
use riscv32_sim.Iss.Manual.Accesses.{bytes_of-write32}
use riscv32_sim.Iss.Sound.{IsSound}
use riscv32_sim.Iss.State.{Model, pc_of, update_pc}
use riscv32_sim.Iss.Trap.{ecall, pc_case, trap, ecall_cause}
use riscv32_sim.Iss.Trap.Exceptions.{entered, exited, entered_by, trap-exception}
use riscv32_sim.Iss.Trap.Numbers.{trap_base}
use riscv32_sim.Memory.Router
use riscv32_sim.TrapCause.{TrapCause, exp_inst_illegal, exp_breakpoint}
use riscv32_sim.TrapCause
use riscv32_sim.Zicsr.Mode.{Privilege, user, supervisor, hypervisor, machine}

module _ ⦃x : Externals⦄ (d : IsDocumented x) where
  -- A call that ends the program stores its value and halts.
  view-exited :
      (m : Model)
      → m.tohost_addr < 2 ^ 32
      → view (update_pc (exited m)) ≡ called Exception.call (view (update_pc m))
  unfolding Router.write32
  view-exited m fits = elim (Bool-cases (m.regf 17 == 93)) [
    | inl e ↦ rw e (
        ap (λ (b : ℕ → ℕ). record (view (update_pc m)) { bytes = b; halted = true })
          (bytes_of-write32 d m.mem m.tohost_addr (m.regf 10) fits))
    | inr e ↦ rw e refl
  ]

module _ ⦃x : Externals⦄ (d : IsDocumented x) (m : Model) (s : IsSound m) where
  abbrev Traps : Exception → Model → Type 0
  Traps e m₁ = view (update_pc m₁) ≡ trapped e (view m)

  pub illegal-Traps : Returns (Traps Exception.illegal) (trap m exp_inst_illegal)
  unfolding pc_case
  illegal-Traps = record {
    value = entered_by false m exp_inst_illegal;
    returns =
        trap-exception d m s.mode_set exp_inst_illegal (omega arith) s.pc_fits
          (s.csr_fits (trap_base m.mode.m + 0x05));
    holds = rw (d.pc_value-update-set m.cur_state.pc _) refl;
  }

  pub breakpoint-Traps : Returns (Traps Exception.breakpoint) (trap m exp_breakpoint)
  unfolding pc_case
  breakpoint-Traps = record {
    value = entered_by false m exp_breakpoint;
    returns =
        trap-exception d m s.mode_set exp_breakpoint (omega arith) s.pc_fits
          (s.csr_fits (trap_base m.mode.m + 0x05));
    holds = rw (d.pc_value-update-set m.cur_state.pc _) refl;
  }

  -- A call traps with the number of its level.
  cause-Traps :
      (cause : TrapCause)
      → pc_case cause ≡ ecall
      → TrapCause.to_int cause ≡ cause_number Exception.call m.mode.m
      → TrapCause.to_int cause < 2 ^ 31
      → Returns (Traps Exception.call) (trap m cause)
  cause-Traps cause k n small =
      let entry = m.csrf (trap_base m.mode.m + 0x05) / 4 * 4 in
      let m' = entered m (TrapCause.to_int cause) entry (pc_of m / 4 * 4) in
      record {
        value = entered_by false m cause;
        returns =
            trap-exception d m s.mode_set cause small s.pc_fits
              (s.csr_fits (trap_base m.mode.m + 0x05));
        holds =
            rw (k, view-exited d m' s.tohost_fits, n, d.pc_value-update-set m.cur_state.pc entry)
              refl;
      }

  call_number :
      (p : Privilege)
      → m.mode.m ≡ p
      → (pc_case (ecall_cause m) ≡ ecall)
        × (TrapCause.to_int (ecall_cause m) ≡ cause_number Exception.call p)
        × (TrapCause.to_int (ecall_cause m) < 2 ^ 31)
  unfolding ecall_cause pc_case
  call_number user e = rw e (refl, refl, omega arith)
  call_number supervisor e = rw e (refl, refl, omega arith)
  call_number hypervisor e = rw e (refl, refl, omega arith)
  call_number machine e = rw e (refl, refl, omega arith)

  pub call-Traps : Returns (Traps Exception.call) (trap m (ecall_cause m))
  call-Traps =
      let number = call_number m.mode.m refl in
      cause-Traps (ecall_cause m) number.0 number.1 number.2

-- ===== src/Iss/Trap/ExceptionReturn.antt =====
-- An exception that is followed by its return.
use riscv32_sim.Base.{
  ℕ, ◌^◌, ◌<◌, ◌≡◌, refl, ap, ◌∙◌, sym, subst, false, ◌>>=◌, ◌==◌, Returns, Bool-cases, inl, inr,
}
use riscv32_sim.Base.Bitset.{bit}
use riscv32_sim.Common.{Externals, IsDocumented}
use riscv32_sim.Iss.State.{Model, pc_of}
use riscv32_sim.Iss.Trap.{
  PcCase, ecall, breakpoint, default, handle_mret, trap, privilege_of, pc_case,
}
use riscv32_sim.Iss.Trap.Exceptions.{saved_pc, after_save, entered_by, trap-exception}
use riscv32_sim.Iss.Trap.Return.{bit_3-mstatus_left, returned, handle_mret-returned}
use riscv32_sim.TrapCause.{TrapCause}
use riscv32_sim.TrapCause
use riscv32_sim.Zicsr.Mode.{set_mode, machine}

module _ ⦃x : Externals⦄ where
  -- What is left by a handler that returns at once from an exception of this kind.
  pub record IsBack (k : PcCase) (m m' : Model) : Type 0 where
    pub mode_from_mpp :
        m'.mode ≡ set_mode (privilege_of (bit (m.csrf 0x300) 12) (bit (m.csrf 0x300) 11))
    pub enable_from_mpie : bit (m'.csrf 0x300) 3 ≡ bit (m.csrf 0x300) 7
    pub same_gpr : m'.regf ≡ m.regf
    pub next : x.pc_value (x.pc_update m'.cur_state.pc) ≡ saved_pc k (pc_of m)

  -- The registers behind the end of a trap.
  csrf-after_save : (k : PcCase) (m : Model) → (after_save k m).csrf ≡ m.csrf
  csrf-after_save ecall m = elim (Bool-cases (m.regf 17 == 93)) [ inl e ↦ rw e | inr e ↦ rw e ]
  csrf-after_save breakpoint m = refl
  csrf-after_save default m = refl

  regf-after_save : (k : PcCase) (m : Model) → (after_save k m).regf ≡ m.regf
  regf-after_save ecall m = elim (Bool-cases (m.regf 17 == 93)) [ inl e ↦ rw e | inr e ↦ rw e ]
  regf-after_save breakpoint m = refl
  regf-after_save default m = refl

module _ ⦃x : Externals⦄ (d : IsDocumented x) where
  abbrev in_machine_mode : Model → Model
  in_machine_mode m = record m { mode = set_mode machine }

  returned-IsBack :
      (k : PcCase) (m m' : Model)
      → m'.csrf 0x300 ≡ m.csrf 0x300
      → m'.csrf 0x341 ≡ saved_pc k (pc_of m)
      → m'.regf ≡ m.regf
      → IsBack k m (returned m')
  returned-IsBack k m m' status epc gpr = record {
    mode_from_mpp = rw status refl;
    enable_from_mpie = bit_3-mstatus_left (m'.csrf 0x300) ∙ ap (λ s. bit s 7) status;
    same_gpr = gpr;
    next = d.pc_value-update-set _ _ ∙ epc;
  }

  trap-machine_mode :
      (m : Model) (cause : TrapCause)
      → TrapCause.to_int cause < 2 ^ 31
      → pc_of m < 2 ^ 32
      → m.csrf 0x305 < 2 ^ 32
      → Returns (IsBack (pc_case cause) m) (trap (in_machine_mode m) cause >>= handle_mret)
  unfolding set_mode
  trap-machine_mode m cause small fits tvec_fits =
      let m' = in_machine_mode m in
      let k = pc_case cause in
      rw (trap-exception d m' refl cause small fits tvec_fits) (record {
        value = returned (entered_by false m' cause);
        returns = handle_mret-returned _;
        holds =
            returned-IsBack k m (entered_by false m' cause)
              (ap (λ (f : ℕ → ℕ). f 0x300) (csrf-after_save k _))
              (ap (λ (f : ℕ → ℕ). f 0x341) (csrf-after_save k _)) (regf-after_save k _);
      })

  -- In machine mode, with a program counter and a trap vector that are words, an exception and
  -- then a return from it at once return to the address that was saved, with the general-purpose
  -- registers as before, but in the mode that the previous mode in mstatus named before the
  -- exception and with the interrupt enable that its previous enable had, as an exception stacks
  -- neither.
  pub trap_exception-handle_mret :
      (m : Model) (cause : TrapCause)
      → m.mode ≡ set_mode machine
      → TrapCause.to_int cause < 2 ^ 31
      → pc_of m < 2 ^ 32
      → m.csrf 0x305 < 2 ^ 32
      → Returns (IsBack (pc_case cause) m) (trap m cause >>= handle_mret)
  trap_exception-handle_mret m cause mode_set small fits tvec_fits =
      let same : in_machine_mode m ≡ m = ap (λ p. record m { mode = p }) (sym mode_set) in
      subst (λ n. Returns (IsBack (pc_case cause) m) (trap n cause >>= handle_mret)) same
        (trap-machine_mode m cause small fits tvec_fits)

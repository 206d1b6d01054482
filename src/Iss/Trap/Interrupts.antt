-- ===== src/Iss/Trap/Interrupts.antt =====
-- The machine timer interrupt: when `trap` takes it, and what it does then.
use riscv32_sim.Base.{
  ok-if, ℕ, ◌+◌, ◌^◌, ◌<◌, ◌≡◌, refl, arith, Bool, true, false, ◌&&◌, ok, none, some, Result,
  if◌then◌else◌, update,
}
use riscv32_sim.Base.Bitset.{bit, with_bit}
use riscv32_sim.Common.{Externals, IsDocumented}
use riscv32_sim.Iss.State.{Model, pc_of}
use riscv32_sim.Iss.State.Updates.{csr_written, write_csr-csr_written, read-csr}
use riscv32_sim.Iss.Trap.{is_interrupt, accept, enter, trap, set_pending}
use riscv32_sim.Iss.Trap.Exceptions.{entered_by, enter-entered_by}
use riscv32_sim.Iss.Trap.Numbers.{is_interrupt-leb, interrupt_number_timer, trap_base}
use riscv32_sim.TrapCause.{int_timer_m}
use riscv32_sim.Zicsr.Mode.{Privilege, user, supervisor, hypervisor, machine, set_mode}

-- Enabled and pending in `mie` and `mip`, and interrupts enabled in `mstatus`.
abbrev pub timer_taken : Model → Bool
timer_taken m = bit (m.csrf 0x304) 7 && bit (m.csrf 0x344) 7 && bit (m.csrf 0x300) 3

-- `mstatus` on entry: machine mode was the mode before, and interrupts are off.
abbrev pub mstatus_entered : ℕ → ℕ
mstatus_entered s =
    let s' = with_bit (with_bit s 11 true) 12 true in with_bit (with_bit s' 7 (bit s' 3)) 3 false

abbrev pub acknowledged : Model → Model
acknowledged m =
    csr_written (csr_written m 0x344 (with_bit (m.csrf 0x344) 7 false)) 0x300
      (mstatus_entered (m.csrf 0x300))

-- The vector of no level is `mip` or `mstatus`.
pub tvec_apart :
    (f : ℕ → ℕ) (p : Privilege) (v w : ℕ)
    → update (update f 0x344 v) 0x300 w (trap_base p + 0x05) ≡ f (trap_base p + 0x05)
tvec_apart f user v w = refl
tvec_apart f supervisor v w = refl
tvec_apart f hypervisor v w = refl
tvec_apart f machine v w = refl

-- The two ways on from `accept`.
continue_if :
    (b : Bool) (m m' v : Model) (k : Model → Result Model)
    → k m' ≡ ok v
    → elim (if b then some m' else none) [ none ↦ ok m | some n ↦ k n ] ≡ ok (if b then v else m)
continue_if true m m' v k h = h
continue_if false m m' v k h = refl

module _ ⦃x : Externals⦄ (d : IsDocumented x) (m : Model) where
  pub accept-timer :
      accept m int_timer_m ≡ ok (if timer_taken m then some (acknowledged m) else none)
  unfolding accept
  accept-timer =
      rw
        (
          interrupt_number_timer d,
          read-csr m 0x300 (omega arith),
          read-csr m 0x304 (omega arith),
          read-csr m 0x344 (omega arith),
          write_csr-csr_written m 0x344 (with_bit (m.csrf 0x344) 7 false) (omega arith),
          write_csr-csr_written (csr_written m 0x344 (with_bit (m.csrf 0x344) 7 false)) 0x300
              (mstatus_entered (m.csrf 0x300)) (omega arith),
        )
        (ok-if (timer_taken m) (some (acknowledged m)) none)

  pub set_pending-timer :
      set_pending m int_timer_m ≡ ok (csr_written m 0x344 (with_bit (m.csrf 0x344) 7 true))
  unfolding set_pending
  set_pending-timer =
      rw (interrupt_number_timer d, read-csr m 0x344 (omega arith))
        (write_csr-csr_written m 0x344 (with_bit (m.csrf 0x344) 7 true) (omega arith))

  -- In a state whose mode is consistent and whose program counter and trap vector are words,
  -- `trap` of the machine timer interrupt changes the state exactly if the interrupt is enabled,
  -- pending and not masked by `mstatus`. It then clears the pending bit, stacks the interrupt
  -- enable, and is entered at the slot of its number behind the vector, which becomes the current
  -- program counter.
  pub trap-timer :
      m.mode ≡ set_mode m.mode.m
      → pc_of m < 2 ^ 32
      → m.csrf (trap_base m.mode.m + 0x05) < 2 ^ 32
      → trap m int_timer_m
        ≡ ok (if timer_taken m then entered_by true (acknowledged m) int_timer_m else m)
  unfolding trap
  trap-timer mode_set fits tvec_fits =
      let interrupt : is_interrupt int_timer_m ≡ true = is_interrupt-leb d int_timer_m in
      let m' = acknowledged m in
      let tvec_kept : m'.csrf (trap_base m.mode.m + 0x05) ≡ m.csrf (trap_base m.mode.m + 0x05) =
        tvec_apart m.csrf m.mode.m _ _ in
      rw (interrupt, accept-timer)
        (continue_if (timer_taken m) m m' (entered_by true m' int_timer_m)
          (λ n. enter n int_timer_m)
          (enter-entered_by d m' mode_set int_timer_m true interrupt fits (rw tvec_kept tvec_fits)))

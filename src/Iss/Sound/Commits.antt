-- ===== src/Iss/Sound/Commits.antt =====
-- The interrupt check after an instruction, and a whole run, return and keep the invariant.
use riscv32_sim.Base.{
  ℕ, zero, suc, ltb, ◌&&◌, ◌^◌, ◌<◌, ◌≡◌, refl, arith, true, false, ok, if◌then◌else◌, Bool-cases,
  inl, inr, Returns, Returns-bind, Returns-if, ◌>>=◌,
}
use riscv32_sim.Base.Bitset.{with_bit}
use riscv32_sim.Common.{Externals, IsDocumented}
use riscv32_sim.Iss.Exec.{step, interrupt_pending, commit, run}
use riscv32_sim.Iss.Sound.{IsOp, IsDecoder, IsSound, IsStaged}
use riscv32_sim.Iss.Sound.Handlers.{IsDefined}
use riscv32_sim.Iss.Sound.Writes.{cur_state-IsSound, update_pc-IsSound}
use riscv32_sim.Iss.State.{Model, pc_of, update_pc}
use riscv32_sim.Iss.Trap.{set_pending, trap}
use riscv32_sim.Iss.Trap.Interrupts.{timer_taken, acknowledged, set_pending-timer, trap-timer}
use riscv32_sim.Iss.Trap.Exceptions.{entered_by}
use riscv32_sim.Memory.Router
use riscv32_sim.TrapCause.{
  TrapCause, exp_inst_access_fault, exp_inst_illegal, exp_breakpoint, int_timer_m,
}
use riscv32_sim.TrapCause
use riscv32_sim.Iss.Sound.Status.{mstatus_entered-lt, with_bit-lt_7}
use riscv32_sim.Iss.Sound.Traps.{entered-IsStaged, after_save-IsStaged, saved_pc-lt}
use riscv32_sim.Iss.Sound.Writes.{csr_written-IsSound}
use riscv32_sim.Iss.Sound.Steps.{decoded, step-IsStaged}
use riscv32_sim.Iss.State.Updates.{csr_written}
use riscv32_sim.Iss.Trap.{pc_case}

module _ ⦃x : Externals⦄ where
  -- The instructions of a run are ones at which C++ defines the arithmetic.
  abbrev pub IsRun : ℕ → Model → Type 0
  IsRun zero m = Unit {0}
  IsRun (suc fuel) m =
      m.is_done ≡ false
      → IsDefined (decoded m)
        × ((m₁ m₂ : Model) → step m ≡ ok m₁ → commit m₁ ≡ ok m₂ → IsRun fuel m₂)

module _ ⦃x : Externals⦄ (d : IsDocumented x) where
  acknowledged-IsSound : (m : Model) → IsSound m → IsSound (acknowledged m)
  acknowledged-IsSound m s =
      csr_written-IsSound _ 0x300 _ (mstatus_entered-lt (m.csrf 0x300) (s.csr_fits 0x300))
        (csr_written-IsSound m 0x344 _ (with_bit-lt_7 (m.csrf 0x344) false (s.csr_fits 0x344)) s)

  entered_by-IsSound :
      (m : Model) (cause : TrapCause)
      → TrapCause.to_int cause < 2 ^ 32
      → IsSound m
      → IsOp m.cur_state.dec
      → IsSound (entered_by true m cause)
  entered_by-IsSound m cause h s op =
      let k = pc_case cause in
      update_pc-IsSound d _ (
        after_save-IsStaged d k _
          (entered-IsStaged d m _ _ _ h (omega arith) (saved_pc-lt k (pc_of m) s.pc_fits) s op))

  interrupted-IsSound :
      (m : Model)
      → IsSound m
      → IsOp m.cur_state.dec
      → IsSound (if timer_taken m then entered_by true (acknowledged m) int_timer_m else m)
  interrupted-IsSound m s op = elim (Bool-cases (timer_taken m)) [
    | inl e ↦ rw e (
        entered_by-IsSound (acknowledged m) int_timer_m (omega arith) (acknowledged-IsSound m s) op)
    | inr e ↦ rw e s
  ]

  fire-IsSound :
      (m : Model)
      → IsSound m
      → IsOp m.cur_state.dec
      → Returns IsSound (set_pending m int_timer_m >>= λ m'. trap m' int_timer_m)
  fire-IsSound m s op =
      let v = with_bit (m.csrf 0x344) 7 true in
      let m' = csr_written m 0x344 v in
      let s' =
        csr_written-IsSound m 0x344 v (with_bit-lt_7 (m.csrf 0x344) true (s.csr_fits 0x344)) s in
      rw (set_pending-timer d m, trap-timer d m' s'.mode_set s'.pc_fits (s'.csr_fits _))
        (record {
          value = if timer_taken m' then entered_by true (acknowledged m') int_timer_m else m';
          returns = refl;
          holds = interrupted-IsSound m' s' op;
        })

  interrupt_pending-IsSound :
      (m : Model) → IsSound m → IsOp m.cur_state.dec → Returns IsSound (interrupt_pending m)
  unfolding interrupt_pending
  interrupt_pending-IsSound m s op =
      let due =
        m.opts.mti_enabled
        && ltb (Router.read64 m.mem m.opts.mtimecmp) (Router.read64 m.mem m.opts.mtime) in
      elim (Bool-cases due) [
        | inl e ↦ rw e (fire-IsSound m s op)
        | inr e ↦ rw e (record { value = m; returns = refl; holds = s })
      ]

  -- With libraries as documented, `commit` returns from any state that an instruction leaves,
  -- whether an interrupt is due or not and taken or not, and the state it leaves is sound.
  pub commit-IsSound : (m : Model) → IsStaged m → Returns IsSound (commit m)
  unfolding commit
  commit-IsSound m s =
      Returns-bind IsSound IsSound (interrupt_pending (update_pc m)) _
        (interrupt_pending-IsSound (update_pc m) (update_pc-IsSound d m s) s.op)
        (λ m' s'. record {
          value = _;
          returns = refl;
          holds = cur_state-IsSound m' _ s'.pc_fits s';
        })

  -- With libraries as documented and a decoder that gives operations of the instruction set, the
  -- loop of `main` from a sound state never faults, for any number of instructions at which C++
  -- defines the arithmetic, and the state in which it stops is sound.
  pub run-IsSound :
      IsDecoder x → (fuel : ℕ) (m : Model) → IsSound m → IsRun fuel m → Returns IsSound (run fuel m)
  unfolding run
  run-IsSound k zero m s r = record { value = m; returns = refl; holds = s }
  run-IsSound k (suc fuel) m s r =
      Returns-if IsSound m.is_done (λ done. record { value = m; returns = refl; holds = s })
        (λ e.
          let stepped = step-IsStaged d k m s (r e).0 in
          let committed = commit-IsSound stepped.value stepped.holds in
          rw (stepped.returns, committed.returns)
            (run-IsSound k fuel committed.value committed.holds
              ((r e).1 stepped.value committed.value stepped.returns committed.returns)))

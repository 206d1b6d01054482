-- ===== src/Iss/Manual/Runs.antt =====
-- A run of the simulator is a run of the reference hart.
use riscv32_sim.Base.{
  ℕ, zero, suc, arith, ◌≡◌, refl, sym, subst, false, ok, Returns, Returns-if, Returns-unique,
}
use riscv32_sim.Common.{Externals, IsDocumented}
use riscv32_sim.Iss.Exec.{step, commit, run}
use riscv32_sim.Iss.Manual.{Executes, Reaches, view, fetched}
use riscv32_sim.Iss.Manual.State.{Hart}
use riscv32_sim.Iss.Manual.Traps.{settled}
use riscv32_sim.Iss.Manual.Interrupts.{interrupt_pending-settled}
use riscv32_sim.Iss.Manual.Plain.{RunsPlain}
use riscv32_sim.Iss.Manual.Steps.{step-Executes, plain-IsDefined}
use riscv32_sim.Iss.Sound.{IsDecoder, IsSound, IsStaged}
use riscv32_sim.Iss.Sound.Writes.{update_pc-IsSound}
use riscv32_sim.Iss.Sound.Commits.{commit-IsSound}
use riscv32_sim.Iss.Sound.Steps.{step-IsStaged}
use riscv32_sim.Iss.State.{Model, update_pc}

module _ ⦃x : Externals⦄ where
  -- A round of the loop is an instruction of the hart and what follows it.
  pub record Cycle (m : Model) : Type 0 where
    pub staged : Model
    pub next : Model
    pub steps : step m ≡ ok staged
    pub commits : commit staged ≡ ok next
    pub sound : IsSound next
    pub after : Hart
    pub executes : Executes (fetched (view m)) (view m) after
    pub settles : view next ≡ settled after

  -- What holds of a run holds of its rest.
  pub RunsPlain-rest :
      (n : ℕ) (h h' : Hart)
      → h.halted ≡ false
      → Executes (fetched h) h h'
      → RunsPlain (suc n) h
      → RunsPlain n (settled h')
  RunsPlain-rest n h h' f e p i h₁ lt r = p (suc i) h₁ (omega arith) (Reaches.goes f e r)

module _ ⦃x : Externals⦄ (d : IsDocumented x) where
  commit-settled :
      (m₁ : Model)
      → IsSound (update_pc m₁)
      → Returns (λ m₂. view m₂ ≡ settled (view (update_pc m₁))) (commit m₁)
  unfolding commit
  commit-settled m₁ s =
      let checked = interrupt_pending-settled d (update_pc m₁) s in
      rw checked.returns (record { value = _; returns = refl; holds = checked.holds })

  -- One round of the loop, from one sound state to the next.
  pub cycle :
      IsDecoder x
      → (fuel : ℕ) (m : Model) → IsSound m
      → m.is_done ≡ false
      → RunsPlain (suc fuel) (view m)
      → Cycle m
  cycle k fuel m s f p =
      let plain = p 0 (view m) (omega arith) Reaches.spent f in
      let stepped = step-Executes d k m s plain in
      let m₁ = stepped.value in
      let staged =
        Returns-unique IsStaged (step m) m₁ stepped.returns
          (step-IsStaged d k m s (plain-IsDefined d m s plain)) in
      let committed = commit-settled m₁ (update_pc-IsSound d m₁ staged) in
      let m₂ = committed.value in
      record {
        staged = m₁;
        next = m₂;
        steps = stepped.returns;
        commits = committed.returns;
        sound =
            Returns-unique IsSound (commit m₁) m₂ committed.returns (commit-IsSound d m₁ staged);
        after = view (update_pc m₁);
        executes = stepped.holds;
        settles = committed.holds;
      }

  -- With libraries as documented and a decoder of the instruction set, the loop of `main` from a
  -- sound state does not fault. It stops in a sound state, and the registers, the control
  -- registers and the privilege level, the bytes of the memory, the program counter and the end of
  -- the program are those of the reference hart, which executes the instructions of the RISC-V
  -- manual and takes traps as the simulator does, after as many instructions, each with the timer
  -- interrupt that is due behind it, or, if it has halted before, when it did. It is given that
  -- this hart, as long as it has not halted, comes only to instructions of the program whose
  -- target has an enumerator and whose arithmetic C++ defines, to none that clears bits of a
  -- control register or sets none of them by csrrsi, to no byte access to a timer register, and to
  -- a return from a trap in machine mode only.
  pub run-Reaches :
      IsDecoder x
      → (fuel : ℕ) (m : Model) → IsSound m
      → RunsPlain fuel (view m)
      → Returns (λ m'. Reaches fuel (view m) (view m') × IsSound m') (run fuel m)
  unfolding run
  run-Reaches k zero m s p = record { value = m; returns = refl; holds = (Reaches.spent, s) }
  run-Reaches k (suc fuel) m s p =
      Returns-if (λ m'. Reaches (suc fuel) (view m) (view m') × IsSound m') m.is_done
        (λ e. record { value = m; returns = refl; holds = (Reaches.halts e, s) })
        (λ e.
          let c = cycle k fuel m s e p in
          let rest = RunsPlain-rest fuel (view m) c.after e c.executes p in
          let tail =
            run-Reaches k fuel c.next c.sound (subst (RunsPlain fuel) (sym c.settles) rest) in
          let reaches = subst (λ h. Reaches fuel h (view tail.value)) c.settles tail.holds.0 in
          rw (c.steps, c.commits)
            (record {
              value = tail.value;
              returns = tail.returns;
              holds = (Reaches.goes e c.executes reaches, tail.holds.1);
            }))

-- ===== src/Main/Loop/Laws.antt =====
-- Manual stepping, and what follows the loop of `main`.
use native.Mathlib.Decide.{dec_lt}
use riscv32_sim.Base.{
  ℕ, ◌<◌, ◌≡◌, ap, arith, refl, true, false, List, [], ◌∷◌, none, some, ◌⊎◌, inl, inr, Bool-cases,
}
use riscv32_sim.Common.{Externals}
use riscv32_sim.Main.Loop.{Looped, is_finished, manual_step, finish, leave}
use riscv32_sim.Mti.{Turn, advances, destroy}
use riscv32_sim.Mti.Ticks.{woken_turns, set_exiting-finishes}
use riscv32_sim.Options.{Options}

pub manual_step-false :
    (opt : Options) (input : List ℕ) → opt.fstep ≡ false → manual_step opt input ≡ (false, input)
unfolding manual_step
manual_step-false opt [] h = refl
manual_step-false opt (c ∷ input) h = simp h

-- A thread that has not finished after its destructor was called has few turns.
destroy-few :
    (ts : List Turn) (l : Looped)
    → is_finished (advances ts (destroy l.system.mt)).phase ≡ false
    → woken_turns ts < 3
unfolding destroy
destroy-few ts l e = elim (dec_lt (woken_turns ts) 3) [
  | yes few ↦ few
  | no many ↦
      let ends = (set_exiting-finishes ts l.system.mt (omega arith)).0 in
      let done : is_finished (advances ts (destroy l.system.mt)).phase ≡ true =
        ap is_finished ends in
      cc
]

module _ ⦃x : Externals⦄ where
  -- `run` returns behind its loop, unless the loop goes on or the thread has had few turns since.
  pub leave-cases :
      (at_exit : List Turn) (opt : Options) (l : Looped)
      → ((l.ended ≡ true) × (leave at_exit opt l ≡ some (0, finish opt l.system.model l.out)))
        ⊎ ((leave at_exit opt l ≡ none) × ((l.ended ≡ false) ⊎ (woken_turns at_exit < 3)))
  unfolding leave
  leave-cases at_exit opt l = elim (Bool-cases l.ended) [
    | inr e ↦ inr (rw e refl, inl e)
    | inl e ↦ elim (Bool-cases (is_finished (advances at_exit (destroy l.system.mt)).phase)) [
      | inl done ↦ inl (e, rw (e, done) refl)
      | inr waits ↦ inr (rw (e, waits) refl, inr (destroy-few at_exit l waits))
    ]
  ]

-- ===== src/Iss/Manual/Halting.antt =====
-- Runs of the reference hart that halt.
use native.Mathlib.Decide.{dec_lt}
use riscv32_sim.Base.{
  ℕ, zero, suc, ◌≤◌, ◌≡◌, ap, subst, ◌∙◌, arith, true, false, ok, ◌↔◌, Returns, Returns-unique,
}
use riscv32_sim.Common.{Externals, IsDocumented}
use riscv32_sim.Iss.Exec.{run}
use riscv32_sim.Iss.Manual.{Executes, Reaches, fetched, view}
use riscv32_sim.Iss.Manual.Determined.{Executes-unique, Reaches-unique}
use riscv32_sim.Iss.Manual.Plain.{IsPlain, RunsPlain}
use riscv32_sim.Iss.Manual.Runs.{run-Reaches}
use riscv32_sim.Iss.Manual.State.{Hart}
use riscv32_sim.Iss.Manual.Traps.{settled}
use riscv32_sim.Iss.Sound.{IsDecoder, IsSound}
use riscv32_sim.Iss.State.{Model}

module _ ⦃x : Externals⦄ where
  -- A hart that has halted stays where it is.
  pub Reaches-more :
      {n m : ℕ} {h h' : Hart} → n ≤ m → Reaches n h h' → h'.halted ≡ true → Reaches m h h'
  Reaches-more le Reaches.spent e = Reaches.halts e
  Reaches-more le (Reaches.halts f) e = Reaches.halts f
  Reaches-more {m = zero} le (Reaches.goes f x r) e = absurd (omega arith)
  Reaches-more {m = suc m} le (Reaches.goes f x r) e =
      Reaches.goes f x (Reaches-more (omega arith) r e)

  -- Nothing comes up after the end.
  pub RunsPlain-more :
      (n m : ℕ) (h h' : Hart) → Reaches n h h' → h'.halted ≡ true → RunsPlain n h → RunsPlain m h
  RunsPlain-more n m h h' r e p i h₁ lt r₁ f = elim (dec_lt i n) [
    | yes l ↦ p i h₁ l r₁ f
    | no l ↦
        let same : h₁ ≡ h' = Reaches-unique r₁ (Reaches-more (omega arith) r e) in
        let live : h'.halted ≡ false = subst (λ (h : Hart). h.halted ≡ false) same f in cc
  ]

  -- A run is plain if its first instruction is and the run behind it is.
  pub RunsPlain-suc :
      (n : ℕ) (h h' : Hart)
      → IsPlain h
      → Executes (fetched h) h h'
      → RunsPlain n (settled h')
      → RunsPlain (suc n) h
  RunsPlain-suc n h h' plain x p zero h₁ lt Reaches.spent f = plain
  RunsPlain-suc n h h' plain x p zero h₁ lt (Reaches.halts e) f = plain
  RunsPlain-suc n h h' plain x p (suc i) h₁ lt (Reaches.halts e) f = plain
  RunsPlain-suc n h h' plain x p (suc i) h₁ lt (Reaches.goes {h' = h''} g y r) f =
      let same = Executes-unique (fetched h) h h'' h' y x in
      p i h₁ (omega arith) (subst (λ k. Reaches i (settled k) h₁) same r) f

  pub RunsPlain-halted : (n : ℕ) (h : Hart) → h.halted ≡ true → RunsPlain n h
  RunsPlain-halted n h e i h₁ lt Reaches.spent f = cc
  RunsPlain-halted n h e i h₁ lt (Reaches.halts g) f = cc
  RunsPlain-halted n h e i h₁ lt (Reaches.goes g y r) f = cc

module _ ⦃x : Externals⦄ (d : IsDocumented x) where
  -- The loop of `main` ends, whatever larger bound it has.
  pub run-ends :
      IsDecoder x
      → (n fuel : ℕ) (m : Model) (h : Hart) → n ≤ fuel
      → IsSound m
      → RunsPlain n (view m)
      → Reaches n (view m) h
      → h.halted ≡ true
      → Returns (λ m'. (view m' ≡ h) × (m'.is_done ≡ true)) (run fuel m)
  run-ends k n fuel m h le s p r e =
      let ran = run-Reaches d k fuel m s (RunsPlain-more n fuel (view m) h r e p) in
      let same = Reaches-unique ran.holds.0 (Reaches-more le r e) in
      record {
        value = ran.value;
        returns = ran.returns;
        holds = (same, ap (λ (h : Hart). h.halted) same ∙ e);
      }

  -- With libraries as documented and a decoder of the instruction set, from a sound state the loop
  -- of `main` comes to a state in which the program is done, for some bound, exactly if the
  -- reference hart, which executes the instructions of the RISC-V manual and takes traps as the
  -- simulator does, comes to a state in which it has halted, for some number of instructions. It
  -- is given that this hart, however long it runs and as long as it has not halted, comes only to
  -- instructions of the program whose target has an enumerator and whose arithmetic C++ defines,
  -- to none that clears bits of a control register or sets none of them by csrrsi, to no byte
  -- access to a timer register, and to a return from a trap in machine mode only.
  pub run-halts :
      IsDecoder x
      → (m : Model) → IsSound m
      → ((n : ℕ) → RunsPlain n (view m))
      → ((fuel : ℕ) × (m' : Model) × (run fuel m ≡ ok m') × (m'.is_done ≡ true))
        ↔ ((n : ℕ) × (h : Hart) × Reaches n (view m) h × (h.halted ≡ true))
  run-halts k m s p = (
    λ (fuel, m', runs, done).
        let ran = run-Reaches d k fuel m s (p fuel) in
        let reached =
          Returns-unique (λ m'. Reaches fuel (view m) (view m') × IsSound m') (run fuel m) m' runs
            ran in
        (fuel, view m', reached.0, done),
    λ (n, h, reached, halted).
        let ended = run-ends k n n m h (omega arith) s (p n) reached halted in
        (n, ended.value, ended.returns, ended.holds.1),
  )

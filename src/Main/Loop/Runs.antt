-- ===== src/Main/Loop/Runs.antt =====
-- The loop of `main`, with the timer thread beside it, over the reference hart.
use riscv32_sim.Base.{
  ℕ, zero, suc, ◌<◌, ◌≡◌, refl, sym, subst, arith, true, false, not, ◌||◌, List, [], ◌∷◌, Returns,
  Returns-if,
}
use riscv32_sim.Common.{Externals, IsDocumented}
use riscv32_sim.Iss.Manual.{Executes, Reaches, fetched, view}
use riscv32_sim.Iss.Manual.Determined.{Executes-unique}
use riscv32_sim.Iss.Manual.Plain.{RunsPlain}
use riscv32_sim.Iss.Manual.Runs.{cycle, RunsPlain-rest}
use riscv32_sim.Iss.Manual.State.{Hart}
use riscv32_sim.Iss.Manual.Traps.{settled}
use riscv32_sim.Iss.Sound.{IsDecoder, IsSound}
use riscv32_sim.Iss.Start.{done}
use riscv32_sim.Main.Loop.{Looped, log_step, loop}
use riscv32_sim.Main.Loop.Laws.{manual_step-false}
use riscv32_sim.Main.Output.{Output}
use riscv32_sim.Mti.{Turn}
use riscv32_sim.Mti.Interleaving.{System, timer_turns, timer_turns-IsSound, timer_turns-view}
use riscv32_sim.Options.{Options}

abbrev pub length {ℓ} : {A : Type ℓ} → List A → ℕ
length [] = 0
length (x ∷ xs) = suc (length xs)

module _ ⦃x : Externals⦄ where
  -- What is left of a run behind its first instruction.
  Reaches-rest :
      {n : ℕ} {h h' h'' : Hart}
      → h.halted ≡ false
      → Executes (fetched h) h h'
      → Reaches (suc n) h h''
      → Reaches n (settled h') h''
  Reaches-rest f e (Reaches.halts g) = cc
  Reaches-rest {n = n} {h = h} {h' = h'} {h'' = c} f e (Reaches.goes {h' = b} g q r) =
      subst (λ (d : Hart). Reaches n (settled d) c) (Executes-unique (fetched h) h b h' q e) r

  Reaches-zero : {h h' : Hart} → Reaches 0 h h' → h' ≡ h
  Reaches-zero Reaches.spent = refl
  Reaches-zero (Reaches.halts e) = refl

  going-suc :
      (n : ℕ) (h h' : Hart)
      → h.halted ≡ false
      → Executes (fetched h) h h'
      → ((i : ℕ) (h₁ : Hart) → i < n → Reaches i (settled h') h₁ → h₁.halted ≡ false)
      → (i : ℕ) (h₁ : Hart) → i < suc n
      → Reaches i h h₁
      → h₁.halted ≡ false
  going-suc n h h' f e g zero h₁ lt r =
      subst (λ (h : Hart). h.halted ≡ false) (sym (Reaches-zero r)) f
  going-suc n h h' f e g (suc i) h₁ lt r = g i h₁ (omega arith) (Reaches-rest f e r)

  -- The loop has come to a state of the hart, which has halted if the loop has ended. If it has not,
  -- the hart had not halted before any round.
  pub record IsLooped (n : ℕ) (start : Hart) (l : Looped) : Type 0 where
    pub reaches : Reaches n start (view l.system.model)
    pub sound : IsSound l.system.model
    pub halted : l.ended ≡ true → l.system.model.is_done ≡ true
    pub going : l.ended ≡ false → (i : ℕ) (h : Hart) → i < n → Reaches i start h → h.halted ≡ false

  -- One more round.
  IsLooped-suc :
      (n : ℕ) (h h' : Hart) (l : Looped)
      → h.halted ≡ false
      → Executes (fetched h) h h'
      → IsLooped n (settled h') l
      → IsLooped (suc n) h l
  IsLooped-suc n h h' l f e k = record {
    reaches = Reaches.goes f e k.reaches;
    sound = k.sound;
    halted = k.halted;
    going = λ g i h₁ lt r. going-suc n h h' f e (k.going g) i h₁ lt r;
  }

  IsLooped-done :
      (n : ℕ) (s : System) (out : Output)
      → IsSound s.model
      → s.model.is_done ≡ true
      → IsLooped (suc n) (view s.model) (record { ended = true; system = s; out = out })
  IsLooped-done n s out h e = record {
    reaches = Reaches.halts e;
    sound = h;
    halted = λ _. e;
    going = λ g. cc;
  }

module _ ⦃x : Externals⦄ (d : IsDocumented x) (k : IsDecoder x) where
  -- Without manual stepping, the loop follows the hart, whatever the turns of the timer thread
  -- between its rounds are.
  pub loop-IsLooped :
      (rounds : List (List Turn)) (opt : Options) (input : List ℕ) (s : System) (out : Output)
      → opt.fstep ≡ false
      → IsSound s.model
      → RunsPlain (length rounds) (view s.model)
      → Returns (IsLooped (length rounds) (view s.model)) (loop rounds opt input s out)
  unfolding loop done
  loop-IsLooped [] opt input s out step h p = record {
    value = record { ended = false; system = s; out = out };
    returns = refl;
    holds = record {
      reaches = Reaches.spent;
      sound = h;
      halted = λ e. cc;
      going = λ e i h₁ lt r. absurd (omega arith);
    };
  }
  loop-IsLooped (ts ∷ rounds) opt input s out step h p =
      let n = length rounds in
      let s' = timer_turns ts s in
      let h' = timer_turns-IsSound ts s h in
      let same : view s'.model ≡ view s.model = timer_turns-view ts s in
      let p' = subst (RunsPlain (suc n)) (sym same) p in
      subst (λ v. Returns (IsLooped (suc n) v) (loop (ts ∷ rounds) opt input s out)) same
        (rw (manual_step-false opt input step) (
          Returns-if (IsLooped (suc n) (view s'.model)) (false || not s'.model.is_done)
            (λ e.
              let live : s'.model.is_done ≡ false = ground (arith, e) in
              let c = cycle d k n s'.model h' live p' in
              let next = record s' { model = c.next } in
              let later = RunsPlain-rest n (view s'.model) c.after live c.executes p' in
              let rest =
                loop-IsLooped rounds opt input next (log_step opt c.staged out) step c.sound
                  (subst (RunsPlain n) (sym c.settles) later) in
              rw (c.steps, c.commits)
                (record {
                  value = rest.value;
                  returns = rest.returns;
                  holds =
                      IsLooped-suc n (view s'.model) c.after rest.value live c.executes
                        (subst (λ v. IsLooped n v rest.value) c.settles rest.holds);
                }))
            (λ e. record {
              value = record { ended = true; system = s'; out = out };
              returns = refl;
              holds = IsLooped-done n s' out h' (ground (arith, e));
            })))

-- ===== src/Main/Signals.antt =====
-- The signals of riscv32-sim/src/main.cpp, on a system with `SIGQUIT`.
use riscv32_sim.Base.{ℕ, Bool, true, false, Option, none, some, if◌then◌else◌}

pub data Signal : Type 0 where
  sigint sigterm sigquit : Signal

-- `pending_interrupt`, and for each signal whether `sighandler` is its handler.
pub record Signals : Type 0 where
  pub pending_interrupt : ℕ
  pub handled : Signal → Bool

-- The program's start: no handler.
abbrev pub no_signals : Signals
no_signals = record { pending_interrupt = 0; handled = λ s. false }

unfoldable pub sighandler : ℕ → Signals → Signals
sighandler signal s = record s { pending_interrupt = signal }

-- `signal(which, sighandler)`.
unfoldable pub set_handled : Signal → (Signal → Bool) → Signal → Bool
set_handled sigint handled sigint = true
set_handled sigint handled sigterm = handled sigterm
set_handled sigint handled sigquit = handled sigquit
set_handled sigterm handled sigint = handled sigint
set_handled sigterm handled sigterm = true
set_handled sigterm handled sigquit = handled sigquit
set_handled sigquit handled sigint = handled sigint
set_handled sigquit handled sigterm = handled sigterm
set_handled sigquit handled sigquit = true

unfoldable pub register_signals : Signals → Signals
unfolding set_handled
register_signals s = record s {
  handled = set_handled sigquit (set_handled sigterm (set_handled sigint s.handled));
}

-- A signal that arrives, with its number: `none` where the default action ends the program.
unfoldable pub deliver : (Signal → ℕ) → Signal → Signals → Option Signals
unfolding sighandler
deliver number signal s = if s.handled signal then some (sighandler (number signal) s) else none

-- ===== src/Mti.antt =====
-- The timer thread: riscv32-sim/src/mti_source.cpp. Its accesses of shared state are one turn each, so
-- that every interleaving with another thread is a list of turns.
pub mod Ticks
pub mod Interleaving
use riscv32_sim.Base.{
  ℕ, zero, suc, ◌+◌, ◌==◌, not, ◌||◌, Bool, true, false, List, [], ◌∷◌, if◌then◌else◌, update,
}
use riscv32_sim.Base.Word.{u8}

-- Where `runner` stands: before the test of its loop, before `fetch_add`, in `wait_for`, or behind
-- the loop.
pub data Phase : Type 0 where
  testing adding waiting finished : Phase

-- The thread, the flag of its object, and the atomic bytes that it shares with the router.
pub record Mti : Type 0 where
  pub phase : Phase
  pub is_exiting : Bool
  pub mtime : ℕ → ℕ

-- The constructor starts the thread.
unfoldable pub mti_source : (ℕ → ℕ) → Mti
mti_source mtime = record { phase = testing; is_exiting = false; mtime = mtime }

-- `set_exiting` without its `join`, which ends when the thread has finished; a
-- notification is a wake-up in `advance`.
unfoldable pub set_exiting : Bool → Mti → Mti
set_exiting exiting s = record s { is_exiting = exiting }

-- The destructor.
unfoldable pub destroy : Mti → Mti
unfolding set_exiting
destroy s = set_exiting true s

-- What one turn of the thread has of the outside: `pending_interrupt`, and whether `wait_for`
-- finds its time over or is notified. It returns then, also where its predicate does not hold and
-- the time is over.
pub record Turn : Type 0 where
  pub pending_interrupt : ℕ
  pub woken : Bool

unfoldable pub advance_from : Phase → Turn → Mti → Mti
advance_from testing t s =
    if s.is_exiting || not (t.pending_interrupt == 0)
    then record s { phase = finished }
    else record s { phase = adding }
advance_from adding t s = record s {
  phase = waiting;
  mtime = update s.mtime 0 (u8 (s.mtime 0 + 1));
}
advance_from waiting t s = if t.woken then record s { phase = testing } else s
advance_from finished t s = s

-- The next turn of `runner`.
unfoldable pub advance : Turn → Mti → Mti
unfolding advance_from
advance t s = advance_from s.phase t s

unfoldable pub advances : List Turn → Mti → Mti
unfolding advance
advances [] s = s
advances (t ∷ ts) s = advances ts (advance t s)

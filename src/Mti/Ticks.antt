-- ===== src/Mti/Ticks.antt =====
-- The clock under the timer's thread, and the thread's end.
use riscv32_sim.Base.{
  ℕ, suc, ◌+◌, ◌%◌, ◌-◌, ◌^◌, ◌<◌, ◌≤◌, ◌≡◌, refl, arith, ◌==◌, true, List, [], ◌∷◌, if◌then◌else◌,
}
use riscv32_sim.Mti.{
  Phase, testing, adding, waiting, finished, Mti, Turn, advance_from, advance, advances,
  set_exiting,
}

-- How often a list of turns adds to the clock.
abbrev pub tick : Phase → ℕ
tick adding = 1
tick _ = 0

abbrev pub ticks : List Turn → Mti → ℕ
ticks [] s = 0
ticks (t ∷ ts) s = tick s.phase + ticks ts (advance t s)

-- The clock after `n` ticks.
abbrev pub ticked : ℕ → (ℕ → ℕ) → ℕ → ℕ
ticked n mtime i = if i == 0 then (mtime 0 + n) % 2 ^ 8 else mtime i

advance_from-ticked :
    (p : Phase) (t : Turn) (s : Mti) (i : ℕ)
    → s.mtime 0 < 2 ^ 8
    → (advance_from p t s).mtime i ≡ ticked (tick p) s.mtime i
unfolding advance_from
advance_from-ticked testing t s i h = ground arith
advance_from-ticked adding t s i h = ground arith
advance_from-ticked waiting t s i h = ground arith
advance_from-ticked finished t s i h = ground arith

-- Whatever the turns of the timer thread, its wake-ups and the signals are, the lowest byte of the
-- clock counts the ticks modulo 256, and the other bytes never change: no tick carries.
pub advances-ticked :
    (ts : List Turn) (s : Mti) (i : ℕ)
    → s.mtime 0 < 2 ^ 8
    → (advances ts s).mtime i ≡ ticked (ticks ts s) s.mtime i
unfolding advances advance
advances-ticked [] s i h = ground arith
advances-ticked (t ∷ ts) s i h =
    rw (advances-ticked ts (advance t s) i (ground (arith, advance_from-ticked s.phase t s 0)))
      (ground (arith, advance_from-ticked s.phase t s 0, advance_from-ticked s.phase t s i))

-- The turns in which a wait would end.
abbrev pub woken_turns : List Turn → ℕ
woken_turns [] = 0
woken_turns (t ∷ ts) = if t.woken then suc (woken_turns ts) else woken_turns ts

-- The turns that an exiting thread has left.
abbrev pub rank : Phase → ℕ
rank adding = 3
rank waiting = 2
rank testing = 1
rank finished = 0

-- The ticks that it has left.
abbrev pub ticks_left : Phase → ℕ
ticks_left adding = 1
ticks_left _ = 0

rank-le : (p : Phase) → rank p ≤ 3
rank-le testing = omega arith
rank-le adding = omega arith
rank-le waiting = omega arith
rank-le finished = omega arith

ticks_left-le : (p : Phase) → ticks_left p ≤ 1
ticks_left-le testing = omega arith
ticks_left-le adding = omega arith
ticks_left-le waiting = omega arith
ticks_left-le finished = omega arith

-- What a turn makes of a thread that is told to exit.
advance_from-exiting :
    (p : Phase) (t : Turn) (s : Mti)
    → s.phase ≡ p
    → s.is_exiting ≡ true
    → ((advance_from p t s).is_exiting ≡ true)
      × (rank (advance_from p t s).phase ≤ rank p - (if t.woken then 1 else 0))
      × (tick p + ticks_left (advance_from p t s).phase ≤ ticks_left p)
unfolding advance_from
advance_from-exiting testing t s hp h = ground arith
advance_from-exiting adding t s hp h = ground arith
advance_from-exiting waiting t s hp h = ground arith
advance_from-exiting finished t s hp h = ground arith

advances-exiting :
    (ts : List Turn) (s : Mti)
    → s.is_exiting ≡ true
    → (rank (advances ts s).phase ≤ rank s.phase - woken_turns ts)
      × (ticks ts s ≤ ticks_left s.phase)
unfolding advances advance
advances-exiting [] s h = ground arith
advances-exiting (t ∷ ts) s h =
    let (h', r, k) = advance_from-exiting s.phase t s refl h in
    let (r', k') = advances-exiting ts (advance t s) h' in ground arith

rank-finished : (p : Phase) → rank p ≤ 0 → p ≡ finished
rank-finished testing h = absurd (omega arith)
rank-finished adding h = absurd (omega arith)
rank-finished waiting h = absurd (omega arith)
rank-finished finished h = refl

-- After `set_exiting(true)`, at whatever point of the thread it comes, any turns of the thread of
-- which three find a wait over end its loop, so that `join` returns, and the clock ticks at most
-- once more.
pub set_exiting-finishes :
    (ts : List Turn) (s : Mti)
    → 3 ≤ woken_turns ts
    → ((advances ts (set_exiting true s)).phase ≡ finished) × (ticks ts (set_exiting true s) ≤ 1)
unfolding set_exiting
set_exiting-finishes ts s h =
    let (r, k) = advances-exiting ts (set_exiting true s) refl in
    (rank-finished _ (omega (arith, rank-le s.phase)), omega (arith, ticks_left-le s.phase))

-- ===== src/Tests/Clocks.antt =====
-- The theorems on clocks, the timer's interrupt handler and the timer's thread at concrete runs.
use riscv32_sim.Base.{
  ℕ, ◌+◌, ◌%◌, ◌/◌, ◌^◌, err, undefined_behaviour, ◌≤◌, ◌≡◌, refl, arith, true, leb, if◌then◌else◌,
  List, [], ◌∷◌, some, Returns,
}
use riscv32_sim.Guest.Clock.{mtime}
use riscv32_sim.Guest.Stdint.{cut64, shift_left}
use riscv32_sim.Iss.Sound.{IsSound}
use riscv32_sim.Mti.{Mti, Turn, mti_source, advances, set_exiting, finished}
use riscv32_sim.Mti.Interleaving.{
  Event, instruction, timer, System, IsRunOf, happen, happen-IsSound,
}
use riscv32_sim.Mti.Ticks.{ticks, ticked, advances-ticked, set_exiting-finishes}
use riscv32_sim.Tests.Libraries.{libraries, libraries-IsDocumented, libraries-IsDecoder}
use riscv32_sim.Tests.Machine.{ready, ready-IsSound}
use riscv32_sim.Tests.Runs.{ready-IsDefined}

-- A clock that is about to carry into its high word, read by words: the first round reads across
-- the carry, the second is steady. At the width that the program has, the shift is undefined.
abbrev clock : ℕ → ℕ
clock n = if leb 0x300000000 n then 0x4FFFFFFFF else 0x1FFFFFFFE + n

mtime_steady :
    mtime 2 32 (λ n. clock n % 2 ^ 32) (λ n. clock n / 2 ^ 32) 0 ≡ some (err undefined_behaviour, 6)
unfolding mtime shift_left cut64
mtime_steady = refl

abbrev turn : Turn
turn = record { pending_interrupt = 0; woken = true }

abbrev full : Mti
full = mti_source (λ i. 255)

advances-ticked_example :
    (advances (turn ∷ turn ∷ turn ∷ []) full).mtime 0
    ≡ ticked (ticks (turn ∷ turn ∷ turn ∷ []) full) full.mtime 0
unfolding mti_source
advances-ticked_example = advances-ticked (turn ∷ turn ∷ turn ∷ []) full 0 (omega arith)

set_exiting-finishes_example :
    ((advances (turn ∷ turn ∷ turn ∷ []) (set_exiting true full)).phase ≡ finished)
    × (ticks (turn ∷ turn ∷ turn ∷ []) (set_exiting true full) ≤ 1)
set_exiting-finishes_example = set_exiting-finishes (turn ∷ turn ∷ turn ∷ []) full (omega arith)

abbrev running : System
running = record { model = ready; mt = mti_source (λ i. 0) }

abbrev events : List Event
events = instruction ∷ timer turn ∷ []

events-IsRunOf : IsRunOf events running
events-IsRunOf = (λ e f. ready-IsDefined, λ s' h. (λ e f. cc, λ s'' h'. tt))

happen-IsSound_example : Returns (λ s. IsSound s.model) (happen events running)
happen-IsSound_example =
    happen-IsSound libraries-IsDocumented libraries-IsDecoder events running ready-IsSound
      events-IsRunOf

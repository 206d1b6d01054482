-- ===== src/Guest/Timer.antt =====
-- The other functions of runtime/basic/src/timer.c.
use riscv32_sim.Base.{
  ℕ, zero, suc, ◌+◌, ◌-◌, ◌*◌, bit_and, bit_or, ◌==◌, List, [], ◌∷◌, Option, none, some, Result, ok,
  ◌>>=◌, if◌then◌else◌, ltb,
}
use riscv32_sim.Base.Word.{u32}
use riscv32_sim.Guest.Clock.{mtime}
use riscv32_sim.Guest.Stdint.{cut64, shift_right}

pub data Handler : Type 0 where
  expc timer_handler : Handler

-- `base`: the table of jumps, by the distance from its start.
unfoldable pub base : ℕ → Option Handler
base off = if off == 0 then some expc else if off == 7 * 4 then some timer_handler else none

-- The two words of the comparand at `MTIMECMP`, and `timer_enabled`.
pub record Device : Type 0 where
  pub mtimecmpl : ℕ
  pub mtimecmph : ℕ
  pub timer_enabled : ℕ

-- The three stores of `timer`, one after the other, and the assignment behind them.
unfoldable pub store_comparand : ℕ → ℕ → Device → Result (List Device)
store_comparand ulong new_mtimecmp d =
    let d₁ = record d { mtimecmph = 0xFFFFFFFF } in
    let d₂ = record d₁ { mtimecmpl = u32 (bit_and new_mtimecmp 0xFFFFFFFF) } in
    shift_right ulong new_mtimecmp 32 >>= λ h.
    let d₃ = record d₂ { mtimecmph = u32 h } in
    ok (d₁ ∷ d₂ ∷ d₃ ∷ record d₃ { timer_enabled = 1 } ∷ [])

unfoldable pub timer_at : ℕ → Result ℕ → Device → Result (List Device)
unfolding store_comparand
timer_at ulong now d = now >>= λ v. store_comparand ulong (cut64 ulong (v + 100 * 10)) d

unfoldable pub timer_after : ℕ → Option (Result ℕ × ℕ) → Device → Option (Result (List Device))
timer_after ulong none d = none
timer_after ulong (some (now, n)) d = some (timer_at ulong now d)

-- `timer`: the states of the device in their order; `none` when the loop of `mtime` wants more fuel.
unfoldable pub timer : ℕ → ℕ → (ℕ → ℕ) → (ℕ → ℕ) → ℕ → Device → Option (Result (List Device))
unfolding timer_at timer_after mtime
timer fuel ulong low high n d = timer_after ulong (mtime fuel ulong low high n) d

-- `while (++i < x);`
unfoldable pub count_up : ℕ → ℕ → ℕ → Option ℕ
count_up zero x i = none
count_up (suc fuel) x i =
    let rest = count_up fuel x (i + 1) in if ltb (i + 1) x then rest else some (i + 1)

-- `while (--i > 0);` where `i` is positive.
unfoldable pub count_down : ℕ → ℕ → Option ℕ
count_down zero i = none
count_down (suc fuel) i =
    let rest = count_down fuel (i - 1) in if ltb 0 (i - 1) then rest else some (i - 1)

unfoldable pub then_down : ℕ → Option ℕ → Option ℕ
then_down fuel none = none
then_down fuel (some i) = count_down fuel i

unfoldable pub busy1337 : ℕ → ℕ → Option ℕ
unfolding count_up then_down
busy1337 fuel x = then_down fuel (count_up fuel x 0)

-- The registers that `main` sets before it waits.
pub record Csrs : Type 0 where
  pub mtvec : ℕ
  pub mie : ℕ
  pub mstatus : ℕ

unfoldable pub enable_interrupts : ℕ → Csrs → Csrs
enable_interrupts ptr c = record { mtvec = ptr; mie = 0x80; mstatus = bit_or c.mstatus 0x8 }

-- What `main` returns after the two calls of `busy1337`, with what `timer_enabled` then holds: the
-- clock, cut to an `int`, where an interrupt came.
unfoldable pub exit_value : ℕ → Option (Result ℕ × ℕ) → Option (Result ℕ)
exit_value enabled none = if enabled == 0 then some (ok 0) else none
exit_value enabled (some (now, n)) = some (if enabled == 0 then ok 0 else (now >>= λ v. ok (u32 v)))

unfoldable pub after_busy : Option ℕ → Option (Result ℕ) → Option (Result ℕ)
after_busy none rest = none
after_busy (some i) rest = rest

-- The end of `main`, for at most `fuel` rounds of each loop.
unfoldable pub timer_main : ℕ → ℕ → (ℕ → ℕ) → (ℕ → ℕ) → ℕ → Device → Option (Result ℕ)
unfolding busy1337 exit_value after_busy mtime
timer_main fuel ulong low high n d =
    after_busy (busy1337 fuel 100)
      (after_busy (busy1337 fuel 100) (exit_value d.timer_enabled (mtime fuel ulong low high n)))

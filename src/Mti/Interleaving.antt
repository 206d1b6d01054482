-- ===== src/Mti/Interleaving.antt =====
-- The simulator and the timer thread at once (`run` in riscv32-sim/src/main.cpp, where the object of
-- the thread refers to the bytes `rout.mtime`): the instructions of the one and the turns of the
-- other in any order. The atomic bytes make each access of theirs whole; an instruction is taken
-- as one event.
use riscv32_sim.Base.{
  ℕ, ◌^◌, ◌<◌, ◌≡◌, refl, arith, false, List, [], ◌∷◌, Result, ok, ◌>>=◌, if◌then◌else◌, Returns,
  Returns-if,
}
use riscv32_sim.Common.{Externals, IsDocumented}
use riscv32_sim.Iss.Exec.{step, commit}
use riscv32_sim.Iss.Manual.{view}
use riscv32_sim.Iss.Start.{done}
use riscv32_sim.Iss.Sound.{IsDecoder, IsSound}
use riscv32_sim.Iss.Sound.Commits.{commit-IsSound}
use riscv32_sim.Iss.Sound.Steps.{decoded, step-IsStaged}
use riscv32_sim.Iss.Sound.Handlers.{IsDefined}
use riscv32_sim.Iss.State.{Model}
use riscv32_sim.Mti.{
  Phase, testing, adding, waiting, finished, Mti, Turn, advance_from, advance, mti_source,
}

pub data Event : Type 0 where
  instruction : Event
  timer : Turn → Event

pub record System : Type 0 where
  pub model : Model
  pub mt : Mti

-- A turn of the thread, on the bytes that the router holds.
unfoldable pub timer_turn : Turn → System → System
timer_turn t s =
    let mt = advance t (record s.mt { mtime = s.model.mem.mtime }) in
    record { model = record s.model { mem = record s.model.mem { mtime = mt.mtime } }; mt = mt }

unfoldable pub timer_turns : List Turn → System → System
unfolding timer_turn
timer_turns [] s = s
timer_turns (t ∷ ts) s = timer_turns ts (timer_turn t s)

-- `std::make_unique<mti_source>(opt.interval, rout.mtime)`, or no thread.
unfoldable pub start_system : Model → System
start_system m =
    let mt = mti_source m.mem.mtime in
    record { model = m; mt = if m.opts.mti_enabled then mt else record mt { phase = finished } }

module _ ⦃x : Externals⦄ where
  unfoldable pub happens : Event → System → Result System
  unfolding timer_turn done
  happens (timer t) s = ok (timer_turn t s)
  happens instruction s =
      let next = step s.model >>= λ m₁. commit m₁ >>= λ m₂. ok (record s { model = m₂ }) in
      if done s.model then ok s else next

  unfoldable pub happen : List Event → System → Result System
  unfolding happens
  happen [] s = ok s
  happen (e ∷ es) s = happens e s >>= λ s'. happen es s'

  -- C++ defines the arithmetic of every instruction that comes up.
  abbrev pub IsRunOf : List Event → System → Type 0
  IsRunOf [] s = Unit {0}
  IsRunOf (e ∷ es) s =
      (e ≡ instruction → s.model.is_done ≡ false → IsDefined (decoded s.model))
      × ((s' : System) → happens e s ≡ ok s' → IsRunOf es s')

advance_from-bytes :
    (p : Phase) (t : Turn) (s : Mti)
    → ((i : ℕ) → s.mtime i < 2 ^ 8)
    → (i : ℕ) → (advance_from p t s).mtime i < 2 ^ 8
unfolding advance_from
advance_from-bytes testing t s h i = ground (arith, h i)
advance_from-bytes adding t s h i = ground (arith, h i)
advance_from-bytes waiting t s h i = ground (arith, h i)
advance_from-bytes finished t s h i = h i

module _ ⦃x : Externals⦄ where
  pub timer_turn-IsSound :
      (t : Turn) (s : System) → IsSound s.model → IsSound (timer_turn t s).model
  unfolding timer_turn advance
  timer_turn-IsSound t s h = record {
    mode_set = h.mode_set;
    gpr_fits = h.gpr_fits;
    x0 = h.x0;
    csr_fits = h.csr_fits;
    mem_bytes = record {
      page_bytes = h.mem_bytes.page_bytes;
      mtime_bytes = advance_from-bytes s.mt.phase t _ h.mem_bytes.mtime_bytes;
      mtimecmp_bytes = h.mem_bytes.mtimecmp_bytes;
    };
    pc_fits = h.pc_fits;
    tohost_fits = h.tohost_fits;
    mtime_fits = h.mtime_fits;
    mtimecmp_fits = h.mtimecmp_fits;
  }

  pub timer_turns-IsSound :
      (ts : List Turn) (s : System) → IsSound s.model → IsSound (timer_turns ts s).model
  unfolding timer_turns
  timer_turns-IsSound [] s h = h
  timer_turns-IsSound (t ∷ ts) s h =
      timer_turns-IsSound ts (timer_turn t s) (timer_turn-IsSound t s h)

  -- Nothing but the bytes of the clock changes.
  pub timer_turns-view :
      (ts : List Turn) (s : System) → view (timer_turns ts s).model ≡ view s.model
  unfolding timer_turns timer_turn
  timer_turns-view [] s = refl
  timer_turns-view (t ∷ ts) s = timer_turns-view ts (timer_turn t s)

module _ ⦃x : Externals⦄ (d : IsDocumented x) (k : IsDecoder x) where
  happens-IsSound :
      (e : Event) (s : System)
      → IsSound s.model
      → (e ≡ instruction → s.model.is_done ≡ false → IsDefined (decoded s.model))
      → Returns (λ s'. IsSound s'.model) (happens e s)
  unfolding happens
  happens-IsSound (timer t) s h c = record {
    value = timer_turn t s;
    returns = refl;
    holds = timer_turn-IsSound t s h;
  }
  happens-IsSound instruction s h c =
      Returns-if (λ s'. IsSound s'.model) (done s.model)
        (λ e. record { value = s; returns = refl; holds = h })
        (λ e.
          let stepped = step-IsStaged d k s.model h (c refl e) in
          let committed = commit-IsSound d stepped.value stepped.holds in
          record {
            value = record s { model = committed.value };
            returns = rw (stepped.returns, committed.returns) refl;
            holds = committed.holds;
          })

  -- With libraries as documented and a decoder that gives operations of the instruction set, any
  -- interleaving of instructions and turns of the timer thread from a sound state runs without a
  -- fault into a sound state, as long as C++ defines the arithmetic of the instructions that come
  -- up.
  pub happen-IsSound :
      (es : List Event) (s : System)
      → IsSound s.model
      → IsRunOf es s
      → Returns (λ s'. IsSound s'.model) (happen es s)
  unfolding happen
  happen-IsSound [] s h c = record { value = s; returns = refl; holds = h }
  happen-IsSound (e ∷ es) s h (c, cs) =
      let first = happens-IsSound e s h c in
      rw first.returns (happen-IsSound es first.value first.holds (cs first.value first.returns))

-- ===== src/Ipc/Serving.antt =====
-- What the server waits for, over the events that reach it.
use mathlib.Core.Bool.{true≢false, or-false, or_assoc}
use riscv32_sim.Base.{
  ℕ, zero, suc, ◌+◌, ◌≡◌, refl, sym, ap, ◌∙◌, arith, Bool, true, false, ◌||◌, Bool-cases, inl, inr,
  List, [], ◌∷◌,
}
use riscv32_sim.Ipc.Echo.{IsTransfer, IsEcho, complete-IsEcho}
use riscv32_sim.Ipc.Server.{
  Server, Event, accepted, completed, signalled, server, run, emplace_threads, start_accept,
  on_accept, on_signal, stop, modify, dispatch, handle, handles, has_work, has_returned,
}
use riscv32_sim.Ipc.Session.{Session, session, start, Completion, complete}

abbrev pub Echoing : List Session → Type 0
Echoing [] = Unit {0}
Echoing (s ∷ sessions) = IsEcho s × Echoing sessions

-- While it runs, the server waits for a connection and for a signal.
pub record IsServing (s : Server) : Type 0 where
  pub accepts : s.stopped ≡ false → s.accepting ≡ true
  pub waits : s.stopped ≡ false → s.waiting ≡ true
  pub echoes : Echoing s.sessions

-- What asio documents for the completions of one session's operations.
abbrev pub AreTransfers : ℕ → Completion → List Session → Type 0
AreTransfers i c [] = Unit {0}
AreTransfers zero c (s ∷ sessions) = IsTransfer s.pending c
AreTransfers (suc i) c (s ∷ sessions) = AreTransfers i c sessions

abbrev pub IsAsio : Event → Server → Type 0
IsAsio (completed i c) s = AreTransfers i c s.sessions
IsAsio _ s = Unit {0}

abbrev pub AreAsio : List Event → Server → Type 0
AreAsio [] s = Unit {0}
AreAsio (e ∷ es) s = IsAsio e s × AreAsio es (handle e s)

modify-Echoing :
    (c : Completion) (i : ℕ) (sessions : List Session)
    → AreTransfers i c sessions
    → Echoing sessions
    → Echoing (modify (complete c) i sessions)
unfolding modify
modify-Echoing c i [] t h = h
modify-Echoing c zero (s ∷ sessions) t (h, hs) = (complete-IsEcho c s t h, hs)
modify-Echoing c (suc i) (s ∷ sessions) t (h, hs) = (h, modify-Echoing c i sessions t hs)

on_accept-IsServing :
    (error : Bool) (s : Server)
    → (s.stopped ≡ false → s.waiting ≡ true)
    → Echoing s.sessions
    → IsServing (on_accept error s) × ((on_accept error s).stopped ≡ s.stopped)
unfolding on_accept start_accept start session
on_accept-IsServing true s w h = (record { accepts = λ _. refl; waits = w; echoes = h }, refl)
on_accept-IsServing false s w h =
    (record { accepts = λ _. refl; waits = w; echoes = (refl, h) }, refl)

abbrev pub is_signal : Event → Bool
is_signal (signalled signal) = true
is_signal _ = false

abbrev pub any_signal : List Event → Bool
any_signal [] = false
any_signal (e ∷ es) = is_signal e || any_signal es

dispatch-IsServing :
    (e : Event) (s : Server)
    → s.stopped ≡ false
    → IsAsio e s
    → IsServing s
    → IsServing (dispatch e s) × ((dispatch e s).stopped ≡ is_signal e)
unfolding dispatch on_signal stop
dispatch-IsServing (accepted error) s hs a h =
    let (serves, same) =
      on_accept-IsServing error (record s { accepting = false }) h.waits h.echoes in
    simp (h.accepts hs) (serves, same ∙ hs)
dispatch-IsServing (completed i c) s hs a h = (
  record {
    accepts = h.accepts;
    waits = h.waits;
    echoes = modify-Echoing c i s.sessions a h.echoes;
  },
  hs,
)
dispatch-IsServing (signalled signal) s hs a h = simp (h.waits hs) (
  record {
    accepts = λ e. absurd (true≢false e);
    waits = λ e. absurd (true≢false e);
    echoes = h.echoes;
  },
  refl,
)

handle-IsServing :
    (e : Event) (s : Server)
    → IsAsio e s
    → IsServing s
    → IsServing (handle e s) × ((handle e s).stopped ≡ s.stopped || is_signal e)
unfolding handle
handle-IsServing e s a h = elim (Bool-cases s.stopped) [
  | inl t ↦ simp t (h, refl)
  | inr f ↦ simp f (dispatch-IsServing e s f a h)
]

handles-IsServing :
    (es : List Event) (s : Server)
    → AreAsio es s
    → IsServing s
    → IsServing (handles es s) × ((handles es s).stopped ≡ s.stopped || any_signal es)
unfolding handles
handles-IsServing [] s a h = (h, sym (or-false s.stopped))
handles-IsServing (e ∷ es) s (a, rest) h =
    let (h₁, e₁) = handle-IsServing e s a h in
    let (h₂, e₂) = handles-IsServing es (handle e s) rest h₁ in
    (h₂, e₂ ∙ ap (λ b. b || any_signal es) e₁ ∙ or_assoc s.stopped (is_signal e) (any_signal es))

emplace_threads_lem :
    (n : ℕ) (s : Server) → emplace_threads n s ≡ record s { threads = n + s.threads }
unfolding emplace_threads
emplace_threads_lem zero s = ground arith
emplace_threads_lem (suc n) s =
    ground (arith, emplace_threads_lem n (record s { threads = suc s.threads }))

run-server :
    (n : ℕ)
    → IsServing (run (server n))
      × ((run (server n)).stopped ≡ false)
      × ((run (server n)).threads ≡ n)
unfolding run server start_accept
run-server n =
    simp (emplace_threads_lem n)
      (record { accepts = λ _. refl; waits = λ _. refl; echoes = tt }, refl, omega arith)

-- The server that runs, after any completions that the socket library documents: it has been
-- stopped if and only if a signal came; until then it waits for another connection and for a
-- signal; and every session, at whatever point and behind an error too, has sent back a first part
-- of what it received, in order, all of it but what a pending write still holds within the buffer.
pub run-server-IsServing :
    (thread_pool_size : ℕ) (es : List Event)
    → AreAsio es (run (server thread_pool_size))
    → IsServing (handles es (run (server thread_pool_size)))
      × ((handles es (run (server thread_pool_size))).stopped ≡ any_signal es)
run-server-IsServing thread_pool_size es a =
    let (serving, running, _) = run-server thread_pool_size in
    let (h, e) = handles-IsServing es (run (server thread_pool_size)) a serving in
    (h, e ∙ ap (λ b. b || any_signal es) running)

dispatch-threads : (e : Event) (s : Server) → (dispatch e s).threads ≡ s.threads
unfolding dispatch on_accept start_accept on_signal stop
dispatch-threads (accepted error) s = ground arith
dispatch-threads (completed i c) s = refl
dispatch-threads (signalled signal) s = ground arith

handles-threads : (es : List Event) (s : Server) → (handles es s).threads ≡ s.threads
unfolding handles handle
handles-threads [] s = refl
handles-threads (e ∷ es) s = handles-threads es (handle e s) ∙ ground (arith, dispatch-threads e s)

-- A server with a thread that accepts while it runs returns when it is stopped.
has_returned-accepting :
    (n : ℕ) (s : Server)
    → s.threads ≡ suc n
    → (s.stopped ≡ false → s.accepting ≡ true)
    → has_returned s ≡ s.stopped
unfolding has_returned has_work
has_returned-accepting n s threads accepts = ground arith

-- A server with a thread has returned from `run` exactly if a signal came.
pub has_returned-run :
    (n : ℕ) (es : List Event)
    → AreAsio es (run (server (suc n)))
    → has_returned (handles es (run (server (suc n)))) ≡ any_signal es
has_returned-run n es a =
    let (h, ended) = run-server-IsServing (suc n) es a in
    let (_, _, threads) = run-server (suc n) in
    has_returned-accepting n (handles es (run (server (suc n))))
      (handles-threads es (run (server (suc n))) ∙ threads) h.accepts
    ∙ ended

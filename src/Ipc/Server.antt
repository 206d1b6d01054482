-- ===== src/Ipc/Server.antt =====
-- `ipc::server`: it accepts connections until a signal stops it.
use riscv32_sim.Base.{
  ℕ, zero, suc, ◌==◌, Bool, true, false, not, ◌||◌, List, [], ◌∷◌, if◌then◌else◌,
}
use riscv32_sim.Ipc.Session.{Pending, closed, Session, session, start, Completion, complete}

pub data Signal : Type 0 where
  sigint sigterm sigquit : Signal

-- `threads` counts the threads that run the `io_context`; `accepting` says that an `async_accept`
-- is pending, `waiting` that the wait for a signal is, and `stopped` that the `io_context` was
-- stopped. The sessions are those whose `start` was called, the last first.
pub record Server : Type 0 where
  pub thread_pool_size : ℕ
  pub threads : ℕ
  pub accepting : Bool
  pub signals : List Signal
  pub waiting : Bool
  pub stopped : Bool
  pub sessions : List Session

unfoldable pub start_accept : Server → Server
start_accept s = record s { accepting = true }

-- The constructor.
unfoldable pub server : ℕ → Server
unfolding start_accept
server thread_pool_size = start_accept (record {
  thread_pool_size = thread_pool_size;
  threads = 0;
  accepting = false;
  signals = [];
  waiting = false;
  stopped = false;
  sessions = [];
})

unfoldable pub stop : Server → Server
stop s = record s { stopped = true }

-- The loop that fills the vector of threads.
unfoldable pub emplace_threads : ℕ → Server → Server
emplace_threads zero s = s
emplace_threads (suc n) s = emplace_threads n (record s { threads = suc s.threads })

-- `run` up to its loop of `join`, on a system with `SIGQUIT`.
unfoldable pub run : Server → Server
unfolding emplace_threads
run s =
    let s' = emplace_threads s.thread_pool_size s in
    record s' { signals = sigint ∷ sigterm ∷ sigquit ∷ []; waiting = true }

-- The handler in `start_accept`, for the session that it made.
unfoldable pub on_accept : Bool → Server → Server
unfolding start_accept
on_accept error s =
    let s' = if not error then record s { sessions = start session ∷ s.sessions } else s in
    start_accept s'

-- The handler of the wait for a signal.
unfoldable pub on_signal : Server → Server
unfolding stop
on_signal s = stop (record s { waiting = false })

-- `handle_accept`, which nothing calls.
unfoldable pub handle_accept : Bool → Server → Server
unfolding start_accept
handle_accept error s =
    if not error then start_accept (record s { sessions = start session ∷ s.sessions }) else s

-- One entry of a list changed.
unfoldable pub modify : (Session → Session) → ℕ → List Session → List Session
modify f i [] = []
modify f zero (s ∷ sessions) = f s ∷ sessions
modify f (suc i) (s ∷ sessions) = s ∷ modify f i sessions

pub data Event : Type 0 where
  accepted : Bool → Event
  completed : ℕ → Completion → Event
  signalled : Signal → Event

-- The thread pool runs the handler of one event; a stopped `io_context` runs none, and a handler
-- runs for an operation that is pending.
unfoldable pub dispatch : Event → Server → Server
unfolding on_accept on_signal modify
dispatch (accepted error) s =
    if s.accepting then on_accept error (record s { accepting = false }) else s
dispatch (completed i c) s = record s { sessions = modify (complete c) i s.sessions }
dispatch (signalled signal) s = if s.waiting then on_signal s else s

unfoldable pub handle : Event → Server → Server
unfolding dispatch
handle e s = if s.stopped then s else dispatch e s

unfoldable pub handles : List Event → Server → Server
unfolding handle
handles [] s = s
handles (e ∷ es) s = handles es (handle e s)

abbrev is_open : Pending → Bool
is_open closed = false
is_open _ = true

abbrev any_open : List Session → Bool
any_open [] = false
any_open (s ∷ sessions) = is_open s.pending || any_open sessions

-- An operation is pending, without which `io_context::run` returns in every thread.
unfoldable pub has_work : Server → Bool
has_work s = s.accepting || s.waiting || any_open s.sessions

-- The loop of `join` in `run` is over: there was no thread, or `io_context::run` has returned in
-- each.
unfoldable pub has_returned : Server → Bool
unfolding has_work
has_returned s = (s.threads == 0) || s.stopped || not (has_work s)

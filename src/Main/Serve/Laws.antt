-- ===== src/Main/Serve/Laws.antt =====
-- When the simulation follows the TCP server (riscv32-sim/src/main.cpp).
use Prim.Native.String.{String}
use riscv32_sim.Base.{ℕ, ◌≡◌, refl, Bool, true, false, not, ◌||◌, List, Option, none, some}
use riscv32_sim.Ipc.Server
use riscv32_sim.Ipc.Server.{Event}
use riscv32_sim.Ipc.Serving.{AreAsio, any_signal, has_returned-run}
use riscv32_sim.Main.Serve.{served_from, serve, goes_on}

-- The server is asked for and the port can be bound, so that it serves.
abbrev pub serves : Bool → Option String → Bool
serves asked none = asked
serves asked (some what) = false

goes_on-served_from :
    (bound : Option String) (es : List Event)
    → AreAsio es (Server.run (Server.server 5))
    → goes_on (served_from bound es) ≡ (not (serves true bound) || any_signal es)
unfolding goes_on served_from
goes_on-served_from none es a = has_returned-run 4 es a
goes_on-served_from (some what) es a = refl

serves-not_asked : (bound : Option String) → serves false bound ≡ false
serves-not_asked none = refl
serves-not_asked (some what) = refl

-- With completions that the socket library documents, the simulation follows exactly if the server
-- is not asked for, if the port cannot be bound, or if a signal came: the server ends in no other
-- way, whatever its connections do.
pub goes_on-serve :
    (asked : Bool) (bound : ℕ → Option String) (port : ℕ) (es : List Event)
    → AreAsio es (Server.run (Server.server 5))
    → goes_on (serve asked bound port es) ≡ (not (serves asked (bound port)) || any_signal es)
unfolding goes_on serve
goes_on-serve false bound port es a = rw (serves-not_asked (bound port))
goes_on-serve true bound port es a = goes_on-served_from (bound port) es a

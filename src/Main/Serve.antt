-- ===== src/Main/Serve.antt =====
-- The branch of `run` for the TCP server, in a build with ENABLE_TCP (riscv32-sim/src/main.cpp). The
-- simulation follows when the server ends.
pub mod Laws
use Prim.Native.String.{String}
use riscv32_sim.Base.{ℕ, Bool, true, List, Option, none, some, if◌then◌else◌}
use riscv32_sim.Ipc.Server
use riscv32_sim.Ipc.Server.{Server, Event}

-- `exception` is a line on the error output.
pub data Served : Type 0 where
  not_asked : Served
  served : Server → Served
  exception : String → Served

-- `bound` is what the library gives for the port: nothing, or the text of an exception.
unfoldable pub served_from : Option String → List Event → Served
served_from none es = served (Server.handles es (Server.run (Server.server 5)))
served_from (some what) es = exception what

unfoldable pub serve : Bool → (ℕ → Option String) → ℕ → List Event → Served
unfolding served_from
serve tcp_enabled bound port es = if tcp_enabled then served_from (bound port) es else not_asked

-- `run` of the server has returned, or was not called or has thrown.
unfoldable pub goes_on : Served → Bool
unfolding Server.has_returned
goes_on (served s) = Server.has_returned s
goes_on _ = true

-- ===== src/Ipc/Session.antt =====
-- `ipc::session`: it reads some bytes into its buffer, writes them back, and reads again.
use riscv32_sim.Base.{ℕ, zero, suc, Bool, not, List, [], ◌∷◌, ◌++◌, if◌then◌else◌}

abbrev pub length : List ℕ → ℕ
length [] = 0
length (b ∷ bytes) = suc (length bytes)

abbrev pub max_length : ℕ
max_length = 1024

-- The operation that waits for its completion: `async_read_some` into the whole buffer,
-- `async_write` of its first bytes, or nothing. Without one nothing holds the session any more.
pub data Pending : Type 0 where
  read_some : Pending
  write : ℕ → Pending
  closed : Pending

-- The buffer `data_`, the pending operation, and what the socket has received and sent.
pub record Session : Type 0 where
  pub data_ : ℕ → ℕ
  pub pending : Pending
  pub received : List ℕ
  pub sent : List ℕ

-- The constructor, before `start`.
unfoldable pub session : Session
session = record { data_ = λ i. 0; pending = closed; received = []; sent = [] }

unfoldable pub start : Session → Session
start s = record s { pending = read_some }

unfoldable pub handle_read : Bool → ℕ → Session → Session
handle_read error bytes_transferred s =
    if not error
    then record s { pending = write bytes_transferred }
    else record s { pending = closed }

unfoldable pub handle_write : Bool → Session → Session
handle_write error s =
    if not error then record s { pending = read_some } else record s { pending = closed }

-- The first bytes of a buffer.
unfoldable pub prefix : ℕ → (ℕ → ℕ) → List ℕ
prefix zero buf = []
prefix (suc n) buf = buf 0 ∷ prefix n (λ i. buf (suc i))

-- A buffer after bytes have been put at its start.
unfoldable pub fill : List ℕ → (ℕ → ℕ) → ℕ → ℕ
fill [] buf i = buf i
fill (b ∷ bytes) buf zero = b
fill (b ∷ bytes) buf (suc i) = fill bytes (λ j. buf (suc j)) i

-- A completion: whether it reports an error, and the bytes that were read, or how many of the
-- bytes to write had been sent, which are all of them without an error.
pub data Completion : Type 0 where
  read_done : Bool → List ℕ → Completion
  write_done : Bool → ℕ → Completion

-- What the library did for the completed operation, and the handler that it then calls. There is
-- no completion of an operation that is not pending.
unfoldable pub complete_at : Pending → Completion → Session → Session
unfolding handle_read handle_write
complete_at read_some (read_done error bytes) s =
    handle_read error (length bytes)
      (record s { data_ = fill bytes s.data_; received = s.received ++ bytes })
complete_at (write n) (write_done error count) s =
    handle_write error (record s { sent = s.sent ++ prefix (if error then count else n) s.data_ })
complete_at read_some (write_done error count) s = s
complete_at (write n) (read_done error bytes) s = s
complete_at closed c s = s

unfoldable pub complete : Completion → Session → Session
unfolding complete_at
complete c s = complete_at s.pending c s

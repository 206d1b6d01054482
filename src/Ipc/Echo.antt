-- ===== src/Ipc/Echo.antt =====
-- What a session has sent, against what it has received.
use mathlib.Core.List.{append_assoc}
use riscv32_sim.Base.{
  ℕ, zero, suc, ◌≤◌, ◌≡◌, refl, sym, ap, ◌∙◌, arith, true, false, List, [], ◌∷◌, ◌++◌,
}
use riscv32_sim.Ipc.Session.{
  length, max_length, Pending, read_some, write, closed, Session, handle_read, handle_write, prefix,
  fill, Completion, read_done, write_done, complete_at, complete,
}

-- What asio documents: a read fills no more than the buffer, and a failed write has sent a part.
abbrev pub IsTransfer : Pending → Completion → Type 0
IsTransfer read_some (read_done error bytes) = length bytes ≤ max_length
IsTransfer (write n) (write_done error count) = count ≤ n
IsTransfer _ _ = Unit {0}

-- Between two messages all that came in has gone out; during a write, the rest is in the buffer,
-- within its bounds; behind an error, what went out is the first part of what came in.
abbrev pub IsEchoAt : Pending → Session → Type 0
IsEchoAt read_some s = s.received ≡ s.sent
IsEchoAt (write n) s = (s.received ≡ s.sent ++ prefix n s.data_) × (n ≤ max_length)
IsEchoAt closed s = (rest : List ℕ) × (s.received ≡ s.sent ++ rest)

abbrev pub IsEcho : Session → Type 0
IsEcho s = IsEchoAt s.pending s

prefix-fill : (bytes : List ℕ) (buf : ℕ → ℕ) → prefix (length bytes) (fill bytes buf) ≡ bytes
unfolding prefix fill
prefix-fill [] buf = refl
prefix-fill (b ∷ bytes) buf = ap (◌∷◌ b) (prefix-fill bytes (λ j. buf (suc j)))

-- The bytes behind the first `count` of `n`.
prefix_split :
    (count n : ℕ) (buf : ℕ → ℕ)
    → count ≤ n
    → (rest : List ℕ) × (prefix n buf ≡ prefix count buf ++ rest)
unfolding prefix
prefix_split zero n buf h = (prefix n buf, refl)
prefix_split (suc count) zero buf h = absurd (omega arith)
prefix_split (suc count) (suc n) buf h =
    let (rest, e) = prefix_split count n (λ i. buf (suc i)) (omega arith) in
    (rest, ap (◌∷◌ (buf 0)) e)

complete_at-IsEcho :
    (p : Pending) (c : Completion) (s : Session)
    → s.pending ≡ p
    → IsTransfer p c
    → IsEchoAt p s
    → IsEcho (complete_at p c s)
unfolding complete_at handle_read handle_write
complete_at-IsEcho read_some (read_done true bytes) s hp t h = (bytes, ap (λ l. l ++ bytes) h)
complete_at-IsEcho read_some (read_done false bytes) s hp t h =
    (rw (prefix-fill bytes s.data_) (ap (λ l. l ++ bytes) h), t)
complete_at-IsEcho (write n) (write_done true count) s hp t (h, b) =
    let (rest, e) = prefix_split count n s.data_ t in
    (rest, h ∙ ap (◌++◌ s.sent) e ∙ sym (append_assoc s.sent (prefix count s.data_) rest))
complete_at-IsEcho (write n) (write_done false count) s hp t (h, b) = h
complete_at-IsEcho read_some (write_done error count) s hp t h = rw hp h
complete_at-IsEcho (write n) (read_done error bytes) s hp t h = rw hp h
complete_at-IsEcho closed c s hp t h = rw hp h

pub complete-IsEcho :
    (c : Completion) (s : Session) → IsTransfer s.pending c → IsEcho s → IsEcho (complete c s)
unfolding complete
complete-IsEcho c s t h = complete_at-IsEcho s.pending c s refl t h

-- ===== src/IntrusiveQueue.antt =====
-- intrusive_queue of include/boost/corosio/detail/intrusive.hpp. Nodes are the numbers that stand for
-- their addresses, 0 is the null pointer, and the memory gives the next_ of every node.
pub mod Links
mod Tests
use corosio.Base.{ℕ, Bool, ◌==◌, if◌then◌else◌, update}

pub record Queue : Type 0 where
  pub head : ℕ
  pub tail : ℕ

unfoldable pub is_empty : Queue → Bool
is_empty q = q.head == 0

unfoldable pub push : ℕ → Queue → (ℕ → ℕ) → Queue × (ℕ → ℕ)
push w q next =
    let next1 = update next w 0 in
    if q.tail == 0
    then (record { head = w; tail = w }, next1)
    else (record q { tail = w }, update next1 q.tail w)

abbrev cleared : Queue
cleared = record { head = 0; tail = 0 }

-- This queue, the other one, and the memory.
unfoldable pub splice : Queue → Queue → (ℕ → ℕ) → Queue × Queue × (ℕ → ℕ)
unfolding is_empty
splice q other next =
    let linked : Queue × Queue × (ℕ → ℕ) =
      if q.tail == 0
      then (record { head = other.head; tail = other.tail }, cleared, next)
      else (record q { tail = other.tail }, cleared, update next q.tail other.head) in
    if is_empty other then (q, other, next) else linked

-- The node, 0 if there is none; its link is cleared.
unfoldable pub pop : Queue → (ℕ → ℕ) → ℕ × Queue × (ℕ → ℕ)
pop q next =
    let head = next q.head in
    let rest : Queue = if head == 0 then cleared else record q { head = head } in
    if q.head == 0 then (0, q, next) else (q.head, rest, update next q.head 0)

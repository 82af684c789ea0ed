-- ===== src/ReadyQueue.antt =====
-- ready_queue of include/boost/corosio/detail/ready_queue.hpp: one FIFO of operations and
-- continuations, as a chain of tagged addresses.
--
-- An address is a number; those of scheduler_op and continuation are even and not 0, as the
-- static_asserts of the source have it. An operation keeps its link in `q_next_`, a continuation in
-- `reserved`.
pub mod Fifo
mod Tests
use corosio.Base.{ℕ, ◌+◌, ◌-◌, ◌*◌, ◌/◌, ◌%◌, Bool, ◌==◌, if◌then◌else◌, update}

pub record Memory : Type 0 where
  pub q_next : ℕ → ℕ
  pub reserved : ℕ → ℕ

pub record ReadyQueue : Type 0 where
  pub head : ℕ
  pub tail : ℕ

-- `(e & ready_cont_bit) != 0`
unfoldable pub ready_is_continuation : ℕ → Bool
ready_is_continuation e = e % 2 == 1

-- `e & ~ready_cont_bit`, which ready_as_op and ready_as_cont share.
unfoldable pub untagged : ℕ → ℕ
untagged e = e / 2 * 2

pub ready_as_op : ℕ → ℕ
unfolding untagged
ready_as_op e = untagged e

pub ready_as_cont : ℕ → ℕ
unfolding untagged
ready_as_cont e = untagged e

-- The tag that `push` gives an operation's and a continuation's address: `c | ready_cont_bit` adds 1
-- to an even number.
pub of_op : ℕ → ℕ
of_op a = a

pub of_cont : ℕ → ℕ
of_cont a = a / 2 * 2 + 1

pub next_of : Memory → ℕ → ℕ
unfolding ready_is_continuation ready_as_op ready_as_cont
next_of m e =
    if ready_is_continuation e then m.reserved (ready_as_cont e) else m.q_next (ready_as_op e)

pub set_next : ℕ → ℕ → Memory → Memory
unfolding ready_is_continuation ready_as_op ready_as_cont
set_next e nxt m =
    if ready_is_continuation e
    then record m { reserved = update m.reserved (ready_as_cont e) nxt }
    else record m { q_next = update m.q_next (ready_as_op e) nxt }

pub empty : ReadyQueue → Bool
empty q = q.head == 0

pub push_entry : ℕ → ReadyQueue → Memory → ReadyQueue × Memory
push_entry e q m =
    let m1 = set_next e 0 m in
    if q.tail == 0
    then (record { head = e; tail = e }, m1)
    else (record q { tail = e }, set_next q.tail e m1)

pub push_op : ℕ → ReadyQueue → Memory → ReadyQueue × Memory
unfolding push_entry of_op
push_op op q m = push_entry (of_op op) q m

pub push_cont : ℕ → ReadyQueue → Memory → ReadyQueue × Memory
unfolding push_entry of_cont
push_cont c q m = push_entry (of_cont c) q m

abbrev no_entries : ReadyQueue
no_entries = record { head = 0; tail = 0 }

-- The queue, and what is left of `other`.
pub splice : ReadyQueue → ReadyQueue → Memory → ReadyQueue × ReadyQueue × Memory
unfolding empty
splice q other m =
    let linked : ReadyQueue × ReadyQueue × Memory =
      if q.tail == 0
      then (other, no_entries, m)
      else (record q { tail = other.tail }, no_entries, set_next q.tail other.head m) in
    if empty other then (q, other, m) else linked

-- The entry, 0 if there is none.
pub pop : ReadyQueue → Memory → ℕ × ReadyQueue
pop q m =
    let head = next_of m q.head in
    let rest : ReadyQueue = if head == 0 then no_entries else record q { head = head } in
    if q.head == 0 then (0, q) else (q.head, rest)

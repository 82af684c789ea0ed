-- ===== src/ThreadPool.antt =====
-- thread_pool of include/boost/corosio/detail/thread_pool.hpp: its state and what a thread does while
-- it holds the mutex. The threads themselves are in ThreadPool/Threads.
--
-- A work item is its address, 0 is the null pointer.
pub mod Take
pub mod Threads
pub mod Invariant
pub mod Kept
pub mod Steps
pub mod Runs
pub mod Shutdown
mod Tests
use corosio.Base.{
  ℕ, zero, suc, ◌+◌, Bool, true, false, not, ◌||◌, ◌==◌, if◌then◌else◌, List, [], ◌∷◌, Option, none,
  some,
}
use corosio.IntrusiveQueue.{Queue, is_empty, push, pop}

pub record ThreadPool : Type 0 where
  pub work_queue : Queue
  pub next : ℕ → ℕ
  pub is_shutdown : Bool

-- What a thread does after it has held the mutex.
pub data Outcome : Type 0 where
  sleeps goes_on returns : Outcome
  runs : ℕ → Outcome

pub record Turn : Type 0 where
  pub outcome : Outcome
  pub pool : ThreadPool

-- The predicate that the condition variable waits for.
abbrev pub may_go : ThreadPool → Bool
may_go p = p.is_shutdown || not (is_empty p.work_queue)

abbrev pub pop_item : ThreadPool → ThreadPool
pop_item p = let r = pop p.work_queue p.next in record p { work_queue = r.1; next = r.2 }

-- One round of worker_loop, without the call of the item's function.
unfoldable pub take_work : ThreadPool → Turn
unfolding is_empty pop
take_work p =
    let w = (pop p.work_queue p.next).0 in
    let idle : Turn = record {
      outcome = if p.is_shutdown then returns else goes_on;
      pool = pop_item p;
    } in
    let busy : Turn = record { outcome = runs w; pool = pop_item p } in
    let awake : Turn = if w == 0 then idle else busy in
    if may_go p then awake else record { outcome = sleeps; pool = p }

pub record Posted : Type 0 where
  pub is_accepted : Bool
  pub pool : ThreadPool

-- The locked part of post; the notification follows if the item was accepted.
unfoldable pub post_locked : ℕ → ThreadPool → Posted
unfolding push
post_locked w p =
    let r = push w p.work_queue p.next in
    if p.is_shutdown
    then record { is_accepted = false; pool = p }
    else record { is_accepted = true; pool = record p { work_queue = r.0; next = r.1 } }

-- `while (work_queue_.pop());` with fuel: one round more than there are items is enough.
unfoldable pub drain_queue : ℕ → ThreadPool → Option ThreadPool
unfolding pop
drain_queue zero p = none
drain_queue (suc f) p =
    let w = (pop p.work_queue p.next).0 in
    let rest = drain_queue f (pop_item p) in if w == 0 then some (pop_item p) else rest

-- What the constructor makes of the threads it asks for: `creates i` is whether the thread `i` could
-- be created.
pub data Constructed : Type 0 where
  no_threads : Constructed
  failed : ℕ → Constructed
  constructed : ℕ → Constructed

-- Creation from the thread `i` on, `n` more of them.
unfoldable pub create_threads : (ℕ → Bool) → ℕ → ℕ → Constructed
create_threads creates zero i = constructed i
create_threads creates (suc n) i =
    let more = create_threads creates n (i + 1) in if creates i then more else failed i

-- A pool that fails to create a thread has `failed k` threads to shut down before it throws.
unfoldable pub construct_pool : (ℕ → Bool) → ℕ → Constructed
unfolding create_threads
construct_pool creates n = if n == 0 then no_threads else create_threads creates n 0

-- ===== src/ThreadPool/Threads.antt =====
-- The threads of a thread_pool, those that post to it and the one that shuts it down, as a step
-- relation. A section of code under the mutex is one step; a notification is a step of its own.
use corosio.Base.{
  ℕ, suc, ◌+◌, ◌<◌, ◌≡◌, true, false, List, [], ◌∷◌, ◌++◌, some, if◌then◌else◌, count, map,
  replicate,
}
use corosio.ThreadPool.{
  ThreadPool, Outcome, sleeps, goes_on, returns, runs, take_work, post_locked, drain_queue,
}

-- Where a thread is: about to take the mutex, waiting for a notification, in the function of an item,
-- or at the end of worker_loop.
pub data Worker : Type 0 where
  ready asleep exited : Worker
  running : ℕ → Worker

-- How far shutdown has come.
pub data Phase : Type 0 where
  opened flagged notified joined : Phase

-- `notifies` is the number of calls of post that have yet to notify. The last three fields record
-- the items that post accepted, that threads took, and whose functions returned, oldest first.
pub record System : Type 0 where
  pub pool : ThreadPool
  pub threads : List Worker
  pub phase : Phase
  pub notifies : ℕ
  pub accepted : List ℕ
  pub started : List ℕ
  pub finished : List ℕ

abbrev pub next_worker : Outcome → Worker
next_worker sleeps = asleep
next_worker goes_on = ready
next_worker returns = exited
next_worker (runs w) = running w

abbrev pub taken : Outcome → List ℕ
taken (runs w) = w ∷ []
taken _ = []

abbrev pub wake : Worker → Worker
wake asleep = ready
wake exited = exited
wake ready = ready
wake (running w) = running w

-- How often a list has a thread of some kind.
abbrev pub tally : (Worker → ℕ) → List Worker → ℕ
tally f [] = 0
tally f (t ∷ ts) = f t + tally f ts

abbrev pub is_asleep : Worker → ℕ
is_asleep asleep = 1
is_asleep _ = 0

abbrev pub is_exited : Worker → ℕ
is_exited exited = 1
is_exited _ = 0

abbrev pub is_at_lock : Worker → ℕ
is_at_lock ready = 1
is_at_lock _ = 0

abbrev pub is_running : ℕ → Worker → ℕ
is_running z (running w) = count z (w ∷ [])
is_running z _ = 0

abbrev pub any_thread : Worker → ℕ
any_thread t = 1

-- One round of worker_loop by the thread between `before` and `after`.
unfoldable pub lock : List Worker → List Worker → System → System
unfolding take_work
lock before after s =
    let t = take_work s.pool in
    record s {
      pool = t.pool;
      threads = before ++ next_worker t.outcome ∷ after;
      started = s.started ++ taken t.outcome;
    }

unfoldable pub post_item : ℕ → System → System
unfolding post_locked
post_item w s =
    let r = post_locked w s.pool in
    if r.is_accepted
    then record s { pool = r.pool; notifies = s.notifies + 1; accepted = s.accepted ++ w ∷ [] }
    else record s { pool = r.pool }

abbrev pub set_shutdown : System → System
set_shutdown s =
    let p = s.pool in record s { pool = record p { is_shutdown = true }; phase = flagged }

pub data Moves (s : System) : System → Type 0 where
  locks :
      (before after : List Worker)
      → s.threads ≡ before ++ ready ∷ after
      → Moves s (lock before after s)
  finishes :
      (w : ℕ) (before after : List Worker)
      → s.threads ≡ before ++ running w ∷ after
      → Moves s (record s { threads = before ++ ready ∷ after; finished = s.finished ++ w ∷ [] })
  -- An item is posted only if it is not queued: a thread has taken it as often as it was accepted.
  posts : (w : ℕ) → 0 < w → count w s.accepted ≡ count w s.started → Moves s (post_item w s)
  notifies_one :
      (n : ℕ) (before after : List Worker)
      → s.notifies ≡ suc n
      → s.threads ≡ before ++ asleep ∷ after
      → Moves s (record s { threads = before ++ ready ∷ after; notifies = n })
  notifies_nobody :
      (n : ℕ)
      → s.notifies ≡ suc n
      → tally is_asleep s.threads ≡ 0
      → Moves s (record s { notifies = n })
  wakes_spuriously :
      (before after : List Worker)
      → s.threads ≡ before ++ asleep ∷ after
      → Moves s (record s { threads = before ++ ready ∷ after })
  shuts_down : s.phase ≡ opened → Moves s (set_shutdown s)
  notifies_all :
      s.phase ≡ flagged → Moves s (record s { threads = map wake s.threads; phase = notified })
  joins :
      (f : ℕ) (q : ThreadPool)
      → s.phase ≡ notified
      → tally is_exited s.threads ≡ tally any_thread s.threads
      → drain_queue f s.pool ≡ some q
      → Moves s (record s { pool = q; threads = []; phase = joined })

pub data Reaches (s : System) : System → Type 0 where
  stays : Reaches s s
  moves : (t u : System) → Reaches s t → Moves t u → Reaches s u

-- The pool after a constructor that created `n` threads.
abbrev pub fresh : ℕ → System
fresh n = record {
  pool = record { work_queue = record { head = 0; tail = 0 }; next = λ z. 0; is_shutdown = false };
  threads = replicate n ready;
  phase = opened;
  notifies = 0;
  accepted = [];
  started = [];
  finished = [];
}

-- ===== src/Scheduler/Queue.antt =====
-- The queue, the counts of work and the signal of reactor_scheduler.
use corosio.Base.{
  ℕ, ◌+◌, ◌-◌, ◌%◌, Bool, true, false, ◌&&◌, not, Option, none, some, List, [], ◌∷◌, ◌++◌, ◌==◌,
  ltb, if◌then◌else◌,
}
use corosio.Scheduler.{Entry, Context, Scheduler, Thread, add64, sub64}

abbrev pub has_none : List Entry → Bool
has_none [] = true
has_none (e ∷ es) = false

-- `state_ |= signaled_bit`
abbrev pub signal : ℕ → ℕ
signal st = st + (1 - st % 2)

unfoldable pub signal_all : Scheduler → Scheduler
signal_all s = record s { state = signal s.state; notified_all = s.notified_all + 1 }

pub record Signaled : Type 0 where
  pub have_waiters : Bool
  pub after : Scheduler

-- maybe_unlock_and_signal_one and unlock_and_signal_one, which differ in the lock only.
unfoldable pub signal_one : Scheduler → Signaled
signal_one s =
    let s1 = record s { state = signal s.state } in
    if ltb 1 s1.state
    then record { have_waiters = true; after = record s1 { notified_one = s1.notified_one + 1 } }
    else record { have_waiters = false; after = s1 }

unfoldable pub clear_signal : Scheduler → Scheduler
clear_signal s = record s { state = s.state - s.state % 2 }

unfoldable pub wake_one_thread : Scheduler → Scheduler
unfolding signal_one
wake_one_thread s =
    let w = signal_one s in
    if w.have_waiters
    then w.after
    else if w.after.task_running && not w.after.task_interrupted
    then record w.after { task_interrupted = true; interrupts = w.after.interrupts + 1 }
    else w.after

unfoldable pub stop : Scheduler → Scheduler
unfolding signal_all
stop s =
    if s.stopped
    then s
    else let s1 = signal_all (record s { stopped = true }) in
      record s1 { interrupts = s1.interrupts + 1 }

unfoldable pub restart : Scheduler → Scheduler
restart s = record s { stopped = false }

unfoldable pub work_started : Scheduler → Scheduler
work_started s = record s { outstanding_work = add64 s.outstanding_work 1 }

unfoldable pub work_finished : Scheduler → Scheduler
unfolding stop
work_finished s =
    let s1 = record s { outstanding_work = sub64 s.outstanding_work 1 } in
    if s.outstanding_work == 1 then stop s1 else s1

-- `++ctx->private_outstanding_work; ctx->private_queue.push(...)`
abbrev pub post_private : Entry → Context → Context
post_private e x = record x {
  private_outstanding_work = x.private_outstanding_work + 1;
  private_queue = x.private_queue ++ e ∷ [];
}

abbrev pub push : Entry → Scheduler → Scheduler
push e s = record s { completed_ops = s.completed_ops ++ e ∷ [] }

-- post, of an operation and of a continuation
unfoldable pub post : Entry → Option Context → Scheduler → Thread
unfolding work_started wake_one_thread
post e (some x) s = record { sched = s; ctx = some (post_private e x) }
post e none s = record { sched = wake_one_thread (push e (work_started s)); ctx = none }

unfoldable pub compensating_work_started : Option Context → Scheduler → Thread
compensating_work_started (some x) s = record {
  sched = s;
  ctx = some (record x { private_outstanding_work = x.private_outstanding_work + 1 });
}
compensating_work_started none s = record { sched = s; ctx = none }

abbrev pub splice : List Entry → Scheduler → Scheduler
splice q s = record s { completed_ops = s.completed_ops ++ q }

abbrev pub add_work : ℕ → Scheduler → Scheduler
add_work n s = record s { outstanding_work = add64 s.outstanding_work n }

unfoldable pub post_deferred_completions : List Entry → Option Context → Scheduler → Thread
unfolding wake_one_thread
post_deferred_completions [] x s = record { sched = s; ctx = x }
post_deferred_completions (e ∷ es) (some x) s = record {
  sched = s;
  ctx = some (record x { private_queue = x.private_queue ++ e ∷ es });
}
post_deferred_completions (e ∷ es) none s = record {
  sched = wake_one_thread (splice (e ∷ es) s);
  ctx = none;
}

unfoldable pub drain_thread_queue : List Entry → ℕ → Scheduler → Scheduler
unfolding signal_one
drain_thread_queue queue count s =
    if ltb 0 count then (signal_one (splice queue (add_work count s))).after else splice queue s

-- The destructor of reactor_thread_context_guard, for the frame that it holds.
unfoldable pub leave : Context → Scheduler → Scheduler
unfolding drain_thread_queue
leave x s =
    if has_none x.private_queue
    then s
    else drain_thread_queue x.private_queue x.private_outstanding_work s

-- reactor_flush_private_work; the frame's count ends at 0 either way.
unfoldable pub flush_private_work : Context → Scheduler → Scheduler
flush_private_work x s =
    if ltb 0 x.private_outstanding_work then add_work x.private_outstanding_work s else s

-- `completed_ops.splice(ctx->private_queue)`
abbrev pub splice_private : Context → Scheduler → Thread
splice_private x s = record {
  sched = splice x.private_queue s;
  ctx = some (record x { private_queue = [] });
}

-- reactor_drain_private_queue, of a frame whose queue has an entry
unfoldable pub drain_private_queue : Context → Scheduler → Thread
unfolding flush_private_work
drain_private_queue x s =
    splice_private (record x { private_outstanding_work = 0 }) (flush_private_work x s)

-- The destructor of task_cleanup; on an empty queue the splice does nothing.
unfoldable pub task_cleanup : Option Context → Scheduler → Thread
unfolding flush_private_work
task_cleanup none s = record { sched = s; ctx = none }
task_cleanup (some x) s =
    splice_private (record x { private_outstanding_work = 0 }) (flush_private_work x s)

-- The counts in the destructor of work_cleanup.
unfoldable pub settle : ℕ → Scheduler → Scheduler
unfolding work_finished
settle produced s =
    if ltb 1 produced
    then add_work (produced - 1) s
    else if produced == 0
    then work_finished s
    else s

-- The destructor of work_cleanup.
unfoldable pub work_cleanup : Option Context → Scheduler → Thread
unfolding settle work_finished
work_cleanup none s = record { sched = work_finished s; ctx = none }
work_cleanup (some x) s =
    splice_private (record x { private_outstanding_work = 0 }) (settle x.private_outstanding_work s)

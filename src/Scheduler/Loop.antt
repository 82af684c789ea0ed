-- ===== src/Scheduler/Loop.antt =====
-- do_one, run and poll of reactor_scheduler, seen from one thread.
--
-- World stands for the rest of the program. The parameters are what leaves the scheduler: run_task,
-- which polls the reactor and is taken to return, the call of an entry, and the waits for the signal.
use corosio.Base.{
  ℕ, zero, suc, Bool, true, false, ◌&&◌, ◌||◌, not, Option, none, some, List, [], ◌∷◌, ◌==◌,
  if◌then◌else◌,
}
use corosio.Scheduler.{Entry, task, Context, Scheduler, make_context}
use corosio.Scheduler.Queue.{
  signal_one, clear_signal, stop, push, drain_private_queue, work_cleanup, leave, has_none,
}

-- The sign of timeout_us.
pub data Timeout : Type 0 where
  forever no_wait for_some_time : Timeout

abbrev pub is_no_wait : Timeout → Bool
is_no_wait no_wait = true
is_no_wait _ = false

abbrev pub is_for_some_time : Timeout → Bool
is_for_some_time for_some_time = true
is_for_some_time _ = false

pub record Step (World : Type 0) : Type 0 where
  pub world : World
  pub frame : Context
  pub sched : Scheduler

-- A pass of the loop ends it with a result, or goes on.
pub data Pass (World : Type 0) : Type 0 where
  returns : ℕ → Step World → Pass World
  again : Step World → Pass World

pub record Calls (World : Type 0) : Type 0 where
  pub run_task : Timeout → Step World → Step World
  pub call : Entry → Step World → Step World
  pub wait : Timeout → Step World → Step World

-- `ctx->unassisted = !unlock_and_signal_one(lock)`
unfoldable pub wake_assistant : {World : Type 0} → Step World → Step World
unfolding signal_one
wake_assistant t =
    let w = signal_one t.sched in
    record t { sched = w.after; frame = record t.frame { unassisted = not w.have_waiters } }

-- The work that an entry leaves is settled after its call.
unfoldable pub clean_up : {World : Type 0} → Step World → Step World
unfolding work_cleanup
clean_up t = record t {
  frame = record t.frame { private_outstanding_work = 0; private_queue = [] };
  sched = (work_cleanup (some t.frame) t.sched).sched;
}

-- The branch of do_one for a ready entry, which is popped.
unfoldable pub run_entry : {World : Type 0} → Calls World → Entry → Step World → Step World
unfolding wake_assistant clean_up
run_entry calls e t =
    let more = not (has_none t.sched.completed_ops) in
    let woken =
      if more && not t.sched.one_thread
      then wake_assistant t
      else record t { frame = record t.frame { unassisted = more } } in
    clean_up (calls.call e woken)

-- Before the reactor is polled: a peer is woken to take the pending handlers.
unfoldable pub before_task : {World : Type 0} → Bool → Timeout → Step World → Step World
unfolding signal_one
before_task more task_timeout t =
    let s1 = record t.sched { task_interrupted = is_no_wait task_timeout; task_running = true } in
    record t { sched = if more && not s1.one_thread then (signal_one s1).after else s1 }

-- The branch of do_one that polls the reactor, when run_task returns: an exception, which leaves do_one
-- without the sentinel queued again, is not modelled.
unfoldable pub poll_reactor :
    {World : Type 0} → Calls World → Bool → Timeout → Step World → Step World
unfolding before_task
poll_reactor calls more tmo t =
    let task_timeout = if more then no_wait else tmo in
    let t1 = calls.run_task task_timeout (before_task more task_timeout t) in
    record t1 { sched = push task (record t1.sched { task_running = false }) }

abbrev pub has_no_work : {World : Type 0} → Timeout → Step World → Bool
has_no_work tmo t = t.sched.outstanding_work == 0 || is_no_wait tmo

-- The branch of do_one for the sentinel, which is popped.
unfoldable pub run_sentinel : {World : Type 0} → Calls World → Timeout → Step World → Pass World
unfolding poll_reactor
run_sentinel calls tmo t =
    let more = not (has_none t.sched.completed_ops) || not (has_none t.frame.private_queue) in
    let polled = poll_reactor calls more tmo t in
    if not more && has_no_work tmo t
    then returns 0 (record t { sched = push task t.sched })
    else if is_for_some_time tmo
    then returns 0 polled
    else again polled

-- The branch of do_one for an empty queue.
unfoldable pub run_empty : {World : Type 0} → Calls World → Timeout → Step World → Pass World
unfolding drain_private_queue clear_signal
run_empty calls tmo t =
    if not (has_none t.frame.private_queue)
    then again (record t {
      sched = (drain_private_queue t.frame t.sched).sched;
      frame = record t.frame { private_outstanding_work = 0; private_queue = [] };
    })
    else if has_no_work tmo t
    then returns 0 t
    else again (calls.wait tmo (record t { sched = clear_signal t.sched }))

abbrev pub popped : {World : Type 0} → List Entry → Step World → Step World
popped es t = record t { sched = record t.sched { completed_ops = es } }

unfoldable pub run_next :
    {World : Type 0} → Calls World → Timeout → List Entry → Step World → Pass World
unfolding run_empty run_sentinel run_entry
run_next calls tmo [] t = run_empty calls tmo t
run_next calls tmo (task ∷ es) t = run_sentinel calls tmo (popped es t)
run_next calls tmo (e ∷ es) t = returns 1 (run_entry calls e (popped es t))

-- One pass of do_one's loop.
unfoldable pub pass : {World : Type 0} → Calls World → Timeout → Step World → Pass World
unfolding run_next
pass calls tmo t =
    if t.sched.stopped then returns 0 t else run_next calls tmo t.sched.completed_ops t

pub record Ran (World : Type 0) : Type 0 where
  pub count : ℕ
  pub left : Step World

abbrev pub go_on :
    {World : Type 0} → (Step World → Option (Ran World)) → Pass World → Option (Ran World)
go_on rest (returns n t) = some (record { count = n; left = t })
go_on rest (again t) = rest t

-- do_one, in at most the given number of passes.
unfoldable pub do_one :
    {World : Type 0} → ℕ → Calls World → Timeout → Step World → Option (Ran World)
unfolding pass
do_one zero calls tmo t = none
do_one (suc n) calls tmo t = go_on (do_one n calls tmo) (pass calls tmo t)

pub record Finished (World : Type 0) : Type 0 where
  pub count : ℕ
  pub world : World
  pub sched : Scheduler

-- The thread leaves: the guard's destructor.
unfoldable pub leave_with : {World : Type 0} → Option (Ran World) → Option (Finished World)
unfolding leave
leave_with none = none
leave_with (some r) =
    some (record { count = r.count; world = r.left.world; sched = leave r.left.frame r.left.sched })

unfoldable pub entering : {World : Type 0} → World → Scheduler → Step World
unfolding make_context
entering w s = record { world = w; frame = make_context s.config; sched = s }

-- run_one, wait_one and poll_one, by the timeout.
unfoldable pub run_one :
    {World : Type 0} → ℕ → Calls World → Timeout → World → Scheduler → Option (Finished World)
unfolding stop do_one leave_with entering
run_one n calls tmo w s =
    if s.outstanding_work == 0
    then some (record { count = 0; world = w; sched = stop s })
    else leave_with (do_one n calls tmo (entering w s))

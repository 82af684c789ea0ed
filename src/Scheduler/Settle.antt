-- ===== src/Scheduler/Settle.antt =====
-- do_one settles the work of what it runs.
use corosio.Base.{
  ℕ, ◌+◌, ◌≡◌, refl, ap, Bool, true, false, ◌&&◌, ◌||◌, not, some, List, [], ◌∷◌, if◌then◌else◌,
  arith, Bool-cases, inl, inr,
}
use corosio.Scheduler.{Entry, task, op, cont, descriptor}
use corosio.Scheduler.Queue.{clear_signal, push, drain_private_queue, has_none}
use corosio.Scheduler.Loop.{
  Timeout, no_wait, is_for_some_time, is_no_wait, before_task, Step, Pass, returns, again, Calls,
  wake_assistant, clean_up, run_entry, poll_reactor, has_no_work, run_sentinel, run_empty, popped,
  run_next, pass,
}
use corosio.Scheduler.Work.{
  weight, counted, counted-append, Balanced, signal_one-work, signal_one-queue,
  drain_private_queue-Balanced, work_cleanup-Balanced,
}

-- The state that a pass of do_one's loop leaves, whether it ends the loop or not.
abbrev pub OnPass : {World : Type 0} → (Step World → Type 0) → Pass World → Type 0
OnPass P (returns n t) = P t
OnPass P (again t) = P t

pub OnPass-if :
    {World : Type 0} (P : Step World → Type 0) (b : Bool) (p q : Pass World)
    → OnPass P p
    → OnPass P q
    → OnPass P (if b then p else q)
OnPass-if P true p q x y = x
OnPass-if P false p q x y = y

module _ {World : Type 0} (held : World → ℕ) where
  -- The work of the queued entries, and of what the rest of the program holds, is counted.
  abbrev pub Bal : ℕ → Step World → Type 0
  Bal n t = Balanced (held t.world + n) (some t.frame) t.sched

  -- What leaves the scheduler keeps the account; the call of an entry leaves one piece of work to
  -- settle, that of the entry.
  pub record Keeps (calls : Calls World) : Type 0 where
    pub run_task-keeps : (tmo : Timeout) (t : Step World) → Bal 0 t → Bal 0 (calls.run_task tmo t)
    pub call-keeps : (e : Entry) (t : Step World) → Bal (weight e) t → Bal 1 (calls.call e t)
    pub wait-keeps : (tmo : Timeout) (t : Step World) → Bal 0 t → Bal 0 (calls.wait tmo t)

  wake_assistant-balanced : (n : ℕ) (t : Step World) → Bal n t → Bal n (wake_assistant t)
  unfolding wake_assistant
  wake_assistant-balanced n t b =
      ground (arith, signal_one-work t.sched, ap counted (signal_one-queue t.sched))

  clean_up-balanced : (t : Step World) → Bal 1 t → Bal 0 (clean_up t)
  unfolding clean_up
  clean_up-balanced t b =
      work_cleanup-Balanced (held t.world + 0) (some t.frame) t.sched (ground arith)

  call-balanced :
      (calls : Calls World) (e : Entry) (t : Step World)
      → Keeps calls
      → Bal (weight e) t
      → Bal 0 (clean_up (calls.call e t))
  call-balanced calls e t k b = clean_up-balanced (calls.call e t) (k.call-keeps e t b)

  run_entry-balanced :
      (calls : Calls World) (e : Entry) (t : Step World)
      → Keeps calls
      → Bal (weight e) t
      → Bal 0 (run_entry calls e t)
  unfolding run_entry
  run_entry-balanced calls e t k b =
      elim (Bool-cases (not (has_none t.sched.completed_ops) && not t.sched.one_thread)) [
        | inl h ↦
            rw (h)
              (call-balanced calls e (wake_assistant t) k (wake_assistant-balanced (weight e) t b))
        | inr h ↦ rw (h) (
            call-balanced calls e
              (record t {
                frame = record t.frame { unassisted = not (has_none t.sched.completed_ops) };
              })
              k b)
      ]

  push-balanced : (t : Step World) → Bal 0 t → Bal 0 (record t { sched = push task t.sched })
  push-balanced t b = ground (arith, counted-append t.sched.completed_ops (task ∷ []))

  before_task-balanced :
      (more : Bool) (tmo : Timeout) (t : Step World) → Bal 0 t → Bal 0 (before_task more tmo t)
  unfolding before_task
  before_task-balanced more tmo t b =
      let s1 = record t.sched { task_interrupted = is_no_wait tmo; task_running = true } in
      ground (arith, signal_one-work s1, ap counted (signal_one-queue s1))

  after_task-balanced :
      (t : Step World)
      → Bal 0 t
      → Bal 0 (record t { sched = push task (record t.sched { task_running = false }) })
  after_task-balanced t b =
      push-balanced (record t { sched = record t.sched { task_running = false } }) b

  poll_reactor-balanced :
      (calls : Calls World) (more : Bool) (tmo : Timeout) (t : Step World)
      → Keeps calls
      → Bal 0 t
      → Bal 0 (poll_reactor calls more tmo t)
  unfolding poll_reactor
  poll_reactor-balanced calls more tmo t k b =
      let task_timeout = if more then no_wait else tmo in
      after_task-balanced (calls.run_task task_timeout (before_task more task_timeout t)) (
        k.run_task-keeps task_timeout (before_task more task_timeout t)
          (before_task-balanced more task_timeout t b))

  run_sentinel-balanced :
      (calls : Calls World) (tmo : Timeout) (t : Step World)
      → Keeps calls
      → Bal 0 t
      → OnPass (Bal 0) (run_sentinel calls tmo t)
  unfolding run_sentinel
  run_sentinel-balanced calls tmo t k b =
      let more = not (has_none t.sched.completed_ops) || not (has_none t.frame.private_queue) in
      let polled = poll_reactor calls more tmo t in
      let p = poll_reactor-balanced calls more tmo t k b in
      OnPass-if (Bal 0) (not more && has_no_work tmo t)
        (returns 0 (record t { sched = push task t.sched }))
        (if is_for_some_time tmo then returns 0 polled else again polled) (push-balanced t b)
        (OnPass-if (Bal 0) (is_for_some_time tmo) (returns 0 polled) (again polled) p p)

  run_empty-balanced :
      (calls : Calls World) (tmo : Timeout) (t : Step World)
      → Keeps calls
      → Bal 0 t
      → OnPass (Bal 0) (run_empty calls tmo t)
  unfolding run_empty clear_signal drain_private_queue
  run_empty-balanced calls tmo t k b =
      let drained = record t {
        sched = (drain_private_queue t.frame t.sched).sched;
        frame = record t.frame { private_outstanding_work = 0; private_queue = [] };
      } in
      let waited = calls.wait tmo (record t { sched = clear_signal t.sched }) in
      OnPass-if (Bal 0) (not (has_none t.frame.private_queue)) (again drained)
        (if has_no_work tmo t then returns 0 t else again waited)
        (drain_private_queue-Balanced (held t.world + 0) t.frame t.sched b)
        (OnPass-if (Bal 0) (has_no_work tmo t) (returns 0 t) (again waited) b
          (k.wait-keeps tmo (record t { sched = clear_signal t.sched }) b))

  run_next-balanced :
      (calls : Calls World) (tmo : Timeout) (es : List Entry) (t : Step World)
      → Keeps calls
      → t.sched.completed_ops ≡ es
      → Bal 0 t
      → OnPass (Bal 0) (run_next calls tmo es t)
  unfolding run_next
  run_next-balanced calls tmo [] t k e b = run_empty-balanced calls tmo t k b
  run_next-balanced calls tmo (task ∷ es) t k e b =
      run_sentinel-balanced calls tmo (popped es t) k (ground (arith, ap counted e))
  run_next-balanced calls tmo (op a ∷ es) t k e b =
      run_entry-balanced calls (op a) (popped es t) k (ground (arith, ap counted e))
  run_next-balanced calls tmo (cont a ∷ es) t k e b =
      run_entry-balanced calls (cont a) (popped es t) k (ground (arith, ap counted e))
  run_next-balanced calls tmo (descriptor a ∷ es) t k e b =
      run_entry-balanced calls (descriptor a) (popped es t) k (ground (arith, ap counted e))

  -- If what leaves the scheduler keeps the account of work, each pass of do_one's loop keeps it.
  pub pass-balanced :
      (calls : Calls World) (tmo : Timeout) (t : Step World)
      → Keeps calls
      → Bal 0 t
      → OnPass (Bal 0) (pass calls tmo t)
  unfolding pass
  pass-balanced calls tmo t k b =
      OnPass-if (Bal 0) t.sched.stopped (returns 0 t) (run_next calls tmo t.sched.completed_ops t) b
        (run_next-balanced calls tmo t.sched.completed_ops t k refl b)

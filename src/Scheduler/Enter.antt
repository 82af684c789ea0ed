-- ===== src/Scheduler/Enter.antt =====
-- A thread enters the scheduler for one entry, and leaves it.
use corosio.Base.{
  ℕ, zero, suc, ◌≤◌, ◌≡◌, refl, ap, true, not, ◌||◌, ◌&&◌, Option, none, some, List, [], ◌∷◌, ◌==◌,
  if◌then◌else◌, arith, Ensures, Ensures-if,
}
use corosio.Scheduler.{Entry, task, op, cont, descriptor, Scheduler, make_context}
use corosio.Scheduler.Queue.{stop, push, clear_signal, leave, has_none, drain_private_queue}
use corosio.Scheduler.Loop.{
  Timeout, no_wait, is_for_some_time, Step, Pass, returns, again, Calls, clean_up, run_entry,
  poll_reactor, has_no_work, run_sentinel, run_empty, popped, run_next, pass, Ran, go_on, do_one,
  Finished, leave_with, entering, run_one, before_task,
}
use corosio.Scheduler.Work.{counted, Balanced, leave-Balanced, stop-work, stop-queue}
use corosio.Scheduler.Settle.{Bal, Keeps, OnPass, OnPass-if, pass-balanced}
use corosio.Scheduler.Poll.{LosesNone, do_one-polls, sentinels}

-- Work that a frame has not added yet comes with an entry in its queue.
abbrev pub Clean : {World : Type 0} → Step World → Type 0
Clean t = has_none t.frame.private_queue ≡ true → t.frame.private_outstanding_work ≡ 0

module _ {World : Type 0} where
  pub record KeepsClean (calls : Calls World) : Type 0 where
    pub run_task-clean : (tmo : Timeout) (t : Step World) → Clean t → Clean (calls.run_task tmo t)
    pub wait-clean : (tmo : Timeout) (t : Step World) → Clean t → Clean (calls.wait tmo t)

  run_sentinel-Clean :
      (calls : Calls World) (tmo : Timeout) (t : Step World)
      → KeepsClean calls
      → Clean t
      → OnPass Clean (run_sentinel calls tmo t)
  unfolding run_sentinel poll_reactor before_task
  run_sentinel-Clean calls tmo t k c =
      let more = not (has_none t.sched.completed_ops) || not (has_none t.frame.private_queue) in
      let task_timeout = if more then no_wait else tmo in
      let polled = poll_reactor calls more tmo t in
      let p = k.run_task-clean task_timeout (before_task more task_timeout t) c in
      OnPass-if Clean (not more && has_no_work tmo t)
        (returns 0 (record t { sched = push task t.sched }))
        (if is_for_some_time tmo then returns 0 polled else again polled) c
        (OnPass-if Clean (is_for_some_time tmo) (returns 0 polled) (again polled) p p)

  run_empty-Clean :
      (calls : Calls World) (tmo : Timeout) (t : Step World)
      → KeepsClean calls
      → Clean t
      → OnPass Clean (run_empty calls tmo t)
  unfolding run_empty
  run_empty-Clean calls tmo t k c =
      let drained = record t {
        sched = (drain_private_queue t.frame t.sched).sched;
        frame = record t.frame { private_outstanding_work = 0; private_queue = [] };
      } in
      let waited = calls.wait tmo (record t { sched = clear_signal t.sched }) in
      OnPass-if Clean (not (has_none t.frame.private_queue)) (again drained)
        (if has_no_work tmo t then returns 0 t else again waited) (λ e. refl)
        (OnPass-if Clean (has_no_work tmo t) (returns 0 t) (again waited) c
          (k.wait-clean tmo (record t { sched = clear_signal t.sched }) c))

  run_next-Clean :
      (calls : Calls World) (tmo : Timeout) (es : List Entry) (t : Step World)
      → KeepsClean calls
      → Clean t
      → OnPass Clean (run_next calls tmo es t)
  unfolding run_next run_entry clean_up
  run_next-Clean calls tmo [] t k c = run_empty-Clean calls tmo t k c
  run_next-Clean calls tmo (task ∷ es) t k c = run_sentinel-Clean calls tmo (popped es t) k c
  run_next-Clean calls tmo (op a ∷ es) t k c = λ e. refl
  run_next-Clean calls tmo (cont a ∷ es) t k c = λ e. refl
  run_next-Clean calls tmo (descriptor a ∷ es) t k c = λ e. refl

  pass-Clean :
      (calls : Calls World) (tmo : Timeout) (t : Step World)
      → KeepsClean calls
      → Clean t
      → OnPass Clean (pass calls tmo t)
  unfolding pass
  pass-Clean calls tmo t k c =
      OnPass-if Clean t.sched.stopped (returns 0 t) (run_next calls tmo t.sched.completed_ops t) c
        (run_next-Clean calls tmo t.sched.completed_ops t k c)

  abbrev IfRan : (Step World → Type 0) → Option (Ran World) → Type 0
  IfRan P none = zero ≡ zero
  IfRan P (some r) = P r.left

  go_on-keeps :
      (P : Step World → Type 0) (rest : Step World → Option (Ran World)) (q : Pass World)
      → ((u : Step World) → P u → IfRan P (rest u))
      → OnPass P q
      → IfRan P (go_on rest q)
  go_on-keeps P rest (returns m u) k h = h
  go_on-keeps P rest (again u) k h = k u h

  -- What every pass keeps, do_one keeps.
  do_one-keeps :
      (P : Step World → Type 0) (calls : Calls World) (tmo : Timeout)
      → ((t : Step World) → P t → OnPass P (pass calls tmo t))
      → (n : ℕ) (t : Step World) → P t
      → IfRan P (do_one n calls tmo t)
  unfolding do_one
  do_one-keeps P calls tmo k zero t p = refl
  do_one-keeps P calls tmo k (suc n) t p =
      go_on-keeps P (do_one n calls tmo) (pass calls tmo t) (do_one-keeps P calls tmo k n) (k t p)

  leave_with-Ensures :
      (P : Step World → Type 0) (Q : Finished World → Type 0) (m : Option (Ran World))
      → ((r : Ran World)
          → r.count ≤ 1
          → P r.left
          → Q (record {
            count = r.count;
            world = r.left.world;
            sched = leave r.left.frame r.left.sched;
          }))
      → Ensures (λ r. r.count ≤ 1) m
      → IfRan P m
      → Ensures Q (leave_with m)
  unfolding leave_with
  leave_with-Ensures P Q none k h p = h
  leave_with-Ensures P Q (some r) k h p = k r h p

  -- The account of a thread that polls once: it returns, having run at most one entry, and the shared
  -- count of work is that of the queued entries and of what the rest of the program holds.
  abbrev pub Account : (World → ℕ) → Finished World → Type 0
  Account held f = (f.count ≤ 1) × Balanced (held f.world) none f.sched

  abbrev Both : (World → ℕ) → Step World → Type 0
  Both held t = Bal held 0 t × Clean t

  Both-pass :
      (held : World → ℕ) (p : Pass World)
      → OnPass (Bal held 0) p
      → OnPass Clean p
      → OnPass (Both held) p
  Both-pass held (returns n t) a b = (a, b)
  Both-pass held (again t) a b = (a, b)

  entered :
      (held : World → ℕ) (calls : Calls World) (n : ℕ) (w : World) (s : Scheduler)
      → Keeps held calls
      → KeepsClean calls
      → LosesNone calls
      → sentinels s.completed_ops ≤ 1
      → Balanced (held w) none s
      → Ensures (Account held) (leave_with (do_one (suc (suc n)) calls no_wait (entering w s)))
  unfolding entering make_context
  entered held calls n w s k c l o b =
      let t : Step World = entering w s in
      leave_with-Ensures (Both held) (Account held) (do_one (suc (suc n)) calls no_wait t)
        (λ r h p. (
          h,
          leave-Balanced (held r.left.world) r.left.frame r.left.sched p.1 (ground (arith, p.0)),
        ))
        (do_one-polls calls n t l (record { at_most_one = o; not_private = refl }))
        (do_one-keeps (Both held) calls no_wait
          (λ u p.
            Both-pass held (pass calls no_wait u) (pass-balanced held calls no_wait u k p.0)
              (pass-Clean calls no_wait u c p.1))
          (suc (suc n)) t (ground arith, λ e. refl))

  -- poll_one returns after at most two passes of do_one's loop and has run at most one entry, and the
  -- shared count of work is then that of the queued entries and of what the rest of the program holds,
  -- if it was so before, the sentinel is queued at most once, and the reactor and the called entries
  -- keep the account and lose no entry.
  pub poll_one-settles :
      (held : World → ℕ) (calls : Calls World) (n : ℕ) (w : World) (s : Scheduler)
      → Keeps held calls
      → KeepsClean calls
      → LosesNone calls
      → sentinels s.completed_ops ≤ 1
      → Balanced (held w) none s
      → Ensures (Account held) (run_one (suc (suc n)) calls no_wait w s)
  unfolding run_one
  poll_one-settles held calls n w s k c l o b =
      Ensures-if (Account held) (s.outstanding_work == 0)
        (some (record { count = 0; world = w; sched = stop s }))
        (leave_with (do_one (suc (suc n)) calls no_wait (entering w s)))
        (λ e. (omega arith, ground (arith, stop-work s, ap counted (stop-queue s))))
        (λ e. entered held calls n w s k c l o b)

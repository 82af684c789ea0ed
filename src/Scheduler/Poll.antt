-- ===== src/Scheduler/Poll.antt =====
-- A poll of the scheduler by its only thread comes to an end.
use corosio.Base.{
  ℕ, suc, ◌+◌, ◌≤◌, ◌≡◌, refl, ap, ◌∙◌, Bool, true, false, ◌&&◌, ◌||◌, not, Option, List, [], ◌∷◌,
  ◌++◌, if◌then◌else◌, arith, Ensures, length,
}
use corosio.Scheduler.{Entry, task, op, cont, descriptor}
use corosio.Scheduler.Queue.{push, clear_signal, drain_private_queue, has_none}
use corosio.Scheduler.Loop.{
  Timeout, no_wait, is_no_wait, Step, Pass, returns, again, Calls, poll_reactor, before_task,
  has_no_work, run_sentinel, run_empty, popped, run_next, pass, Ran, go_on, do_one,
}
use corosio.Scheduler.Work.{signal_one-queue, flush-queue}

abbrev pub sentinels : List Entry → ℕ
sentinels [] = 0
sentinels (task ∷ es) = 1 + sentinels es
sentinels (e ∷ es) = sentinels es

pub sentinels-append : (es fs : List Entry) → sentinels (es ++ fs) ≡ sentinels es + sentinels fs
sentinels-append [] fs = omega arith
sentinels-append (task ∷ es) fs = omega (arith, sentinels-append es fs)
sentinels-append (op a ∷ es) fs = omega (arith, sentinels-append es fs)
sentinels-append (cont a ∷ es) fs = omega (arith, sentinels-append es fs)
sentinels-append (descriptor a ∷ es) fs = omega (arith, sentinels-append es fs)

abbrev starts_ready : List Entry → Bool
starts_ready [] = false
starts_ready (task ∷ es) = false
starts_ready (e ∷ es) = true

starts_ready-append :
    (es fs : List Entry) → sentinels es ≡ 0 → 1 ≤ length es → starts_ready (es ++ fs) ≡ true
starts_ready-append [] fs s l = absurd (omega arith)
starts_ready-append (task ∷ es) fs s l = absurd (omega arith)
starts_ready-append (op a ∷ es) fs s l = refl
starts_ready-append (cont a ∷ es) fs s l = refl
starts_ready-append (descriptor a ∷ es) fs s l = refl

some-length : (es : List Entry) → has_none es ≡ false → 1 ≤ length es
some-length [] h = ground arith
some-length (e ∷ es) h = omega arith

ready_alone :
    (es : List Entry) → sentinels es ≡ 0 → not (has_none es) ≡ true → starts_ready es ≡ true
ready_alone [] s h = ground arith
ready_alone (task ∷ es) s h = absurd (omega arith)
ready_alone (op a ∷ es) s h = refl
ready_alone (cont a ∷ es) s h = refl
ready_alone (descriptor a ∷ es) s h = refl

either-length :
    (es fs : List Entry)
    → (not (has_none es) || not (has_none fs)) ≡ true
    → 1 ≤ length es + length fs
either-length [] [] h = ground arith
either-length (e ∷ es) fs h = omega arith
either-length [] (f ∷ fs) h = omega arith

module _ {World : Type 0} where
  -- The sentinel is queued at most once, and no thread queues it privately.
  pub record OneSentinel (t : Step World) : Type 0 where
    pub at_most_one : sentinels t.sched.completed_ops ≤ 1
    pub not_private : sentinels t.frame.private_queue ≡ 0

  -- A poll of the reactor loses no entry, public or private, of those that were queued, and queues no
  -- sentinel.
  abbrev pub LosesNone : Calls World → Type 0
  LosesNone calls =
      (tmo : Timeout) (t : Step World)
      → sentinels t.sched.completed_ops ≡ 0
      → sentinels t.frame.private_queue ≡ 0
      → (sentinels (calls.run_task tmo t).sched.completed_ops ≡ 0)
        × (length t.sched.completed_ops + length t.frame.private_queue
            ≤ length (calls.run_task tmo t).sched.completed_ops)

  abbrev IsReturn : Pass World → Type 0
  IsReturn (returns n t) = n ≤ 1
  IsReturn (again t) = 1 ≤ 0

  abbrev Settled : Pass World → Type 0
  Settled (returns n t) = n ≤ 1
  Settled (again t) = starts_ready t.sched.completed_ops ≡ true

  on_if :
      (P : Pass World → Type 0) (b : Bool) (p q : Pass World)
      → (b ≡ true → P p)
      → (b ≡ false → P q)
      → P (if b then p else q)
  on_if P true p q x y = x refl
  on_if P false p q x y = y refl

  run_next-ready :
      (calls : Calls World) (es : List Entry) (t : Step World)
      → starts_ready es ≡ true
      → IsReturn (run_next calls no_wait es t)
  unfolding run_next
  run_next-ready calls [] t h = ground arith
  run_next-ready calls (task ∷ es) t h = ground arith
  run_next-ready calls (op a ∷ es) t h = omega arith
  run_next-ready calls (cont a ∷ es) t h = omega arith
  run_next-ready calls (descriptor a ∷ es) t h = omega arith

  pass-ready :
      (calls : Calls World) (t : Step World)
      → starts_ready t.sched.completed_ops ≡ true
      → IsReturn (pass calls no_wait t)
  unfolding pass
  pass-ready calls t h =
      on_if IsReturn t.sched.stopped (returns 0 t) (run_next calls no_wait t.sched.completed_ops t)
        (λ e. omega arith) (λ e. run_next-ready calls t.sched.completed_ops t h)

  before_task-queue :
      (more : Bool) (tmo : Timeout) (t : Step World)
      → (before_task more tmo t).sched.completed_ops ≡ t.sched.completed_ops
  unfolding before_task
  before_task-queue more tmo t =
      let s1 = record t.sched { task_interrupted = is_no_wait tmo; task_running = true } in
      ground (arith, signal_one-queue s1)

  abbrev polled_state : Calls World → Bool → Step World → Step World
  polled_state calls more t = calls.run_task no_wait (before_task more no_wait t)

  polled-ready :
      (calls : Calls World) (t : Step World)
      → LosesNone calls
      → sentinels t.sched.completed_ops ≡ 0
      → sentinels t.frame.private_queue ≡ 0
      → (not (has_none t.sched.completed_ops) || not (has_none t.frame.private_queue)) ≡ true
      → starts_ready (poll_reactor calls true no_wait t).sched.completed_ops ≡ true
  unfolding poll_reactor
  polled-ready calls t k s p m =
      let before = before_task true no_wait t in
      let q = before_task-queue true no_wait t in
      let r = k no_wait before (ap sentinels q ∙ s) p in
      starts_ready-append (polled_state calls true t).sched.completed_ops (task ∷ []) r.0 (
        ground
          (arith, r.1, ap length q, either-length t.sched.completed_ops t.frame.private_queue m))

  Settled-if :
      (b : Bool) (p q : Pass World)
      → (b ≡ true → Settled p)
      → (b ≡ false → Settled q)
      → Settled (if b then p else q)
  Settled-if b p q = on_if Settled b p q

  run_sentinel-Settled :
      (calls : Calls World) (t : Step World)
      → LosesNone calls
      → sentinels t.sched.completed_ops ≡ 0
      → sentinels t.frame.private_queue ≡ 0
      → Settled (run_sentinel calls no_wait t)
  unfolding run_sentinel
  run_sentinel-Settled calls t k s p =
      let more = not (has_none t.sched.completed_ops) || not (has_none t.frame.private_queue) in
      Settled-if (not more && has_no_work no_wait t)
        (returns 0 (record t { sched = push task t.sched }))
        (again (poll_reactor calls more no_wait t)) (λ e. omega arith)
        (λ e. polled_if more (ground arith) (ground arith))
    where
      polled_if :
          (more : Bool)
          → more ≡ true
          → (not (has_none t.sched.completed_ops) || not (has_none t.frame.private_queue)) ≡ true
          → starts_ready (poll_reactor calls more no_wait t).sched.completed_ops ≡ true
      polled_if true e m = polled-ready calls t k s p m
      polled_if false e m = ground arith

  run_empty-Settled :
      (calls : Calls World) (t : Step World)
      → sentinels t.frame.private_queue ≡ 0
      → t.sched.completed_ops ≡ []
      → Settled (run_empty calls no_wait t)
  unfolding run_empty drain_private_queue
  run_empty-Settled calls t p q =
      let drained = record t {
        sched = (drain_private_queue t.frame t.sched).sched;
        frame = record t.frame { private_outstanding_work = 0; private_queue = [] };
      } in
      let waited = calls.wait no_wait (record t { sched = clear_signal t.sched }) in
      Settled-if (not (has_none t.frame.private_queue)) (again drained)
        (if has_no_work no_wait t then returns 0 t else again waited)
        (λ e.
          ap (λ es. starts_ready (es ++ t.frame.private_queue)) (flush-queue t.frame t.sched ∙ q)
          ∙ ready_alone t.frame.private_queue p e)
        (λ e.
          Settled-if (has_no_work no_wait t) (returns 0 t) (again waited) (λ f. omega arith)
            (λ f. ground arith))

  run_next-Settled :
      (calls : Calls World) (es : List Entry) (t : Step World)
      → LosesNone calls
      → OneSentinel t
      → t.sched.completed_ops ≡ es
      → Settled (run_next calls no_wait es t)
  unfolding run_next
  run_next-Settled calls [] t k o e = run_empty-Settled calls t o.not_private e
  run_next-Settled calls (task ∷ es) t k o e =
      run_sentinel-Settled calls (popped es t) k (alone es t e o.at_most_one) o.not_private
    where
      alone :
          (es : List Entry) (t : Step World)
          → t.sched.completed_ops ≡ task ∷ es
          → sentinels t.sched.completed_ops ≤ 1
          → sentinels es ≡ 0
      alone es t e o = ground (arith, ap sentinels e)
  run_next-Settled calls (op a ∷ es) t k o e = omega arith
  run_next-Settled calls (cont a ∷ es) t k o e = omega arith
  run_next-Settled calls (descriptor a ∷ es) t k o e = omega arith

  pass-Settled :
      (calls : Calls World) (t : Step World)
      → LosesNone calls
      → OneSentinel t
      → Settled (pass calls no_wait t)
  unfolding pass
  pass-Settled calls t k o =
      Settled-if t.sched.stopped (returns 0 t) (run_next calls no_wait t.sched.completed_ops t)
        (λ e. omega arith) (λ e. run_next-Settled calls t.sched.completed_ops t k o refl)

  go_on-return :
      (rest : Step World → Option (Ran World)) (p : Pass World)
      → IsReturn p
      → Ensures (λ r. r.count ≤ 1) (go_on rest p)
  go_on-return rest (returns n t) h = h
  go_on-return rest (again t) h = absurd (omega arith)

  -- do_one with timeout 0 returns after at most two passes, having run at most one entry, if the
  -- sentinel is queued at most once and never privately, and polling the reactor loses no entry.
  pub do_one-polls :
      (calls : Calls World) (n : ℕ) (t : Step World)
      → LosesNone calls
      → OneSentinel t
      → Ensures (λ r. r.count ≤ 1) (do_one (suc (suc n)) calls no_wait t)
  unfolding do_one
  do_one-polls calls n t k o = go_on_settled (pass calls no_wait t) (pass-Settled calls t k o)
    where
      go_on_settled :
          (p : Pass World)
          → Settled p
          → Ensures (λ r. r.count ≤ 1) (go_on (do_one (suc n) calls no_wait) p)
      go_on_settled (returns m u) h = h
      go_on_settled (again u) h =
          go_on-return (do_one n calls no_wait) (pass calls no_wait u) (pass-ready calls u h)

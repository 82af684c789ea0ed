-- ===== src/Scheduler/Work.antt =====
-- The accounting of work in reactor_scheduler.
use corosio.Base.{
  ℕ, ◌+◌, ◌%◌, ◌≡◌, refl, ap, true, Option, none, some, List, [], ◌∷◌, ◌++◌, ◌==◌, arith,
  Bool-cases, inl, inr,
}
use corosio.Scheduler.{Entry, task, op, cont, descriptor, Context, Scheduler, add64, sub64}
use corosio.Scheduler.Queue.{
  signal_one, wake_one_thread, stop, signal_all, post, push, work_started, work_finished,
  compensating_work_started, splice, splice_private, add_work, post_deferred_completions,
  drain_thread_queue, leave, flush_private_work, drain_private_queue, task_cleanup, settle,
  work_cleanup, has_none,
}

abbrev pub weight : Entry → ℕ
weight task = 0
weight (op a) = 1
weight (cont a) = 1
weight (descriptor a) = 0

-- The entries whose work was counted when they were queued.
abbrev pub counted : List Entry → ℕ
counted [] = 0
counted (e ∷ es) = weight e + counted es

pub counted-append : (es fs : List Entry) → counted (es ++ fs) ≡ counted es + counted fs
counted-append [] fs = omega arith
counted-append (e ∷ es) fs = omega (arith, counted-append es fs)

abbrev pub private_work : Option Context → ℕ
private_work none = 0
private_work (some x) = x.private_outstanding_work

abbrev pub private_counted : Option Context → ℕ
private_counted none = 0
private_counted (some x) = counted x.private_queue

-- The count of outstanding work, with what the thread has not added to it yet, is that of the queued
-- entries and of `held` pieces of work that are in no queue.
abbrev pub Balanced : ℕ → Option Context → Scheduler → Type 0
Balanced held x s =
    add64 s.outstanding_work (private_work x)
    ≡ (held + counted s.completed_ops + private_counted x) % 18446744073709551616

pub signal_one-work : (s : Scheduler) → (signal_one s).after.outstanding_work ≡ s.outstanding_work
unfolding signal_one
signal_one-work s = ground arith

pub signal_one-queue : (s : Scheduler) → (signal_one s).after.completed_ops ≡ s.completed_ops
unfolding signal_one
signal_one-queue s = ground arith

wake-work : (s : Scheduler) → (wake_one_thread s).outstanding_work ≡ s.outstanding_work
unfolding wake_one_thread
wake-work s = ground (arith, signal_one-work s)

pub wake-queue : (s : Scheduler) → (wake_one_thread s).completed_ops ≡ s.completed_ops
unfolding wake_one_thread
wake-queue s = ground (arith, signal_one-queue s)

pub stop-work : (s : Scheduler) → (stop s).outstanding_work ≡ s.outstanding_work
unfolding stop signal_all
stop-work s = ground arith

pub stop-queue : (s : Scheduler) → (stop s).completed_ops ≡ s.completed_ops
unfolding stop signal_all
stop-queue s = ground arith

pub post-Balanced :
    (e : Entry) (held : ℕ) (x : Option Context) (s : Scheduler)
    → weight e ≡ 1
    → Balanced held x s
    → Balanced held (post e x s).ctx (post e x s).sched
unfolding post work_started
post-Balanced e held none s w b =
    let s1 = push e (work_started s) in
    ground
      (arith, wake-work s1, ap counted (wake-queue s1), counted-append s.completed_ops (e ∷ []))
post-Balanced e held (some x) s w b = ground (arith, counted-append x.private_queue (e ∷ []))

pub work_started-Balanced :
    (held : ℕ) (x : Option Context) (s : Scheduler)
    → Balanced held x s
    → Balanced (held + 1) x (work_started s)
unfolding work_started
work_started-Balanced held x s b = ground arith

work_finished-work :
    (s : Scheduler) → (work_finished s).outstanding_work ≡ sub64 s.outstanding_work 1
unfolding work_finished
work_finished-work s =
    ground (arith, stop-work (record s { outstanding_work = sub64 s.outstanding_work 1 }))

pub work_finished-queue : (s : Scheduler) → (work_finished s).completed_ops ≡ s.completed_ops
unfolding work_finished
work_finished-queue s = elim (Bool-cases (s.outstanding_work == 1)) [
  | inl e ↦ rw (e) (stop-queue (record s { outstanding_work = sub64 s.outstanding_work 1 }))
  | inr e ↦ rw (e) refl
]

pub work_finished-Balanced :
    (held : ℕ) (x : Option Context) (s : Scheduler)
    → Balanced (held + 1) x s
    → Balanced held x (work_finished s)
work_finished-Balanced held x s b =
    ground (arith, work_finished-work s, ap counted (work_finished-queue s))

pub compensating-Balanced :
    (held : ℕ) (x : Context) (s : Scheduler)
    → Balanced held (some x) s
    → Balanced
        (held + 1)
        (compensating_work_started (some x) s).ctx
        (compensating_work_started (some x) s).sched
unfolding compensating_work_started
compensating-Balanced held x s b = ground arith

pub post_deferred-Balanced :
    (es : List Entry) (held : ℕ) (x : Option Context) (s : Scheduler)
    → Balanced (held + counted es) x s
    → Balanced held (post_deferred_completions es x s).ctx (post_deferred_completions es x s).sched
unfolding post_deferred_completions
post_deferred-Balanced [] held x s b = ground arith
post_deferred-Balanced (e ∷ es) held none s b = ground (
  arith,
  wake-work (splice (e ∷ es) s),
  ap counted (wake-queue (splice (e ∷ es) s)),
  counted-append s.completed_ops (e ∷ es),
)
post_deferred-Balanced (e ∷ es) held (some x) s b =
    ground (arith, counted-append x.private_queue (e ∷ es))

flush-work :
    (x : Context) (s : Scheduler)
    → add64 (flush_private_work x s).outstanding_work 0
      ≡ add64 s.outstanding_work x.private_outstanding_work
unfolding flush_private_work
flush-work x s = ground arith

pub flush-queue :
    (x : Context) (s : Scheduler) → (flush_private_work x s).completed_ops ≡ s.completed_ops
unfolding flush_private_work
flush-queue x s = ground arith

splice_private-Balanced :
    (held : ℕ) (x : Context) (s : Scheduler)
    → Balanced held (some x) s
    → Balanced held (splice_private x s).ctx (splice_private x s).sched
splice_private-Balanced held x s b = ground (arith, counted-append s.completed_ops x.private_queue)

pub flushed-Balanced :
    (held : ℕ) (x : Context) (s : Scheduler)
    → Balanced held (some x) s
    → Balanced held (some (record x { private_outstanding_work = 0 })) (flush_private_work x s)
flushed-Balanced held x s b = ground (arith, flush-work x s, ap counted (flush-queue x s))

pub drain_private_queue-Balanced :
    (held : ℕ) (x : Context) (s : Scheduler)
    → Balanced held (some x) s
    → Balanced held (drain_private_queue x s).ctx (drain_private_queue x s).sched
unfolding drain_private_queue
drain_private_queue-Balanced held x s b =
    splice_private-Balanced held (record x { private_outstanding_work = 0 })
      (flush_private_work x s) (flushed-Balanced held x s b)

pub task_cleanup-Balanced :
    (held : ℕ) (x : Option Context) (s : Scheduler)
    → Balanced held x s
    → Balanced held (task_cleanup x s).ctx (task_cleanup x s).sched
unfolding task_cleanup
task_cleanup-Balanced held none s b = b
task_cleanup-Balanced held (some x) s b =
    splice_private-Balanced held (record x { private_outstanding_work = 0 })
      (flush_private_work x s) (flushed-Balanced held x s b)

settle-queue : (n : ℕ) (s : Scheduler) → (settle n s).completed_ops ≡ s.completed_ops
unfolding settle
settle-queue n s = ground (arith, work_finished-queue s)

settle-work :
    (n : ℕ) (s : Scheduler) → add64 (settle n s).outstanding_work 1 ≡ add64 s.outstanding_work n
unfolding settle
settle-work n s = ground (arith, work_finished-work s)

pub settled-Balanced :
    (held : ℕ) (x : Context) (s : Scheduler)
    → Balanced (held + 1) (some x) s
    → Balanced held
        (some (record x { private_outstanding_work = 0 }))
        (settle x.private_outstanding_work s)
settled-Balanced held x s b = ground (
  arith,
  settle-work x.private_outstanding_work s,
  ap counted (settle-queue x.private_outstanding_work s),
)

pub work_cleanup-Balanced :
    (held : ℕ) (x : Option Context) (s : Scheduler)
    → Balanced (held + 1) x s
    → Balanced held (work_cleanup x s).ctx (work_cleanup x s).sched
unfolding work_cleanup
work_cleanup-Balanced held none s b = work_finished-Balanced held none s b
work_cleanup-Balanced held (some x) s b =
    splice_private-Balanced held (record x { private_outstanding_work = 0 })
      (settle x.private_outstanding_work s) (settled-Balanced held x s b)

drain_thread_queue-work :
    (q : List Entry) (n : ℕ) (s : Scheduler)
    → add64 (drain_thread_queue q n s).outstanding_work 0 ≡ add64 s.outstanding_work n
unfolding drain_thread_queue
drain_thread_queue-work q n s = ground (arith, signal_one-work (splice q (add_work n s)))

drain_thread_queue-queue :
    (q : List Entry) (n : ℕ) (s : Scheduler)
    → (drain_thread_queue q n s).completed_ops ≡ s.completed_ops ++ q
unfolding drain_thread_queue
drain_thread_queue-queue q n s = ground (arith, signal_one-queue (splice q (add_work n s)))

none-counted : (q : List Entry) → has_none q ≡ true → counted q ≡ 0
none-counted [] h = refl
none-counted (e ∷ es) h = ground arith

-- A thread that leaves the scheduler takes no work with it, if its frame has no work to add when its
-- queue is empty.
pub leave-Balanced :
    (held : ℕ) (x : Context) (s : Scheduler)
    → (has_none x.private_queue ≡ true → x.private_outstanding_work ≡ 0)
    → Balanced held (some x) s
    → Balanced held none (leave x s)
unfolding leave
leave-Balanced held x s h b = elim (Bool-cases (has_none x.private_queue)) [
  | inl e ↦ rw (e) (ground (arith, h e, none-counted x.private_queue e))
  | inr e ↦ rw (e) (
      ground (
        arith,
        drain_thread_queue-work x.private_queue x.private_outstanding_work s,
        ap counted (drain_thread_queue-queue x.private_queue x.private_outstanding_work s),
        counted-append s.completed_ops x.private_queue,
      ))
]

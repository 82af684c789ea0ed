-- ===== src/Scheduler/Tests.antt =====
-- Runs of the scheduler.
use corosio.Base.{
  ℕ, ◌+◌, ◌≡◌, refl, ap, true, false, not, ◌&&◌, ◌==◌, ltb, some, List, [], ◌∷◌, if◌then◌else◌,
  arith, Ensures, length, length-append,
}
use corosio.Scheduler.{
  Entry, task, op, cont, descriptor, Config, Scheduler, configured, configure_reactor, make_context,
  reset_inline_budget,
}
use corosio.Scheduler.Budget.{
  IsConfig, InRange, is_none, reset_inline_budget-overflows, BudgetCall, reset, consume, assist,
  budget_calls, budget_calls-InRange,
}
use corosio.Scheduler.Enter.{KeepsClean, Account, poll_one-settles}
use corosio.Scheduler.Loop.{no_wait, Step, Calls, run_one}
use corosio.Scheduler.Poll.{LosesNone, sentinels, sentinels-append}
use corosio.Scheduler.Queue.{task_cleanup, wake_one_thread, flush_private_work}
use corosio.Scheduler.Settle.{Bal, Keeps}
use corosio.Scheduler.Signal.{waiters, signaled, wake_one_thread-wakes}
use corosio.Scheduler.Work.{weight, task_cleanup-Balanced, flush-queue}

abbrev defaults : Config
defaults = record {
  max_events_per_poll = 128;
  inline_budget_initial = 2;
  inline_budget_max = 16;
  unassisted_budget = 4;
}

defaults-IsConfig : IsConfig defaults
defaults-IsConfig = record {
  some_events = omega arith;
  events_fit = omega arith;
  max_fits = omega arith;
  initial_fits = omega arith;
  unassisted_fits = omega arith;
}

-- The largest values that configure_reactor takes.
abbrev largest : Config
largest = record {
  max_events_per_poll = 128;
  inline_budget_initial = 1073741824;
  inline_budget_max = 2147483647;
  unassisted_budget = 4;
}

largest_is_taken : configure_reactor 128 1073741824 2147483647 4 ≡ configured largest
unfolding configure_reactor
largest_is_taken = refl

-- The first grant of a thread is twice the configured initial budget.
first_grant :
    reset_inline_budget defaults (make_context defaults)
    ≡ some (record {
      private_queue = [];
      private_outstanding_work = 0;
      inline_budget = 4;
      inline_budget_max = 4;
      unassisted = false;
    })
unfolding reset_inline_budget make_context
first_grant = refl

reset_inline_budget-overflows_example :
    is_none (reset_inline_budget largest (make_context largest)) ≡ (
      not (largest.inline_budget_max == 0)
      && (not (make_context largest).unassisted
          && ((make_context largest).inline_budget == 0
              && ltb 1073741823 (make_context largest).inline_budget_max)))
reset_inline_budget-overflows_example = reset_inline_budget-overflows largest (make_context largest)

abbrev cycle : List BudgetCall
cycle = reset ∷ consume ∷ consume ∷ consume ∷ consume ∷ reset ∷ assist true ∷ reset ∷ consume ∷ []

budget_calls-InRange_example :
    Ensures (InRange defaults) (budget_calls defaults cycle (make_context defaults))
budget_calls-InRange_example = budget_calls-InRange defaults cycle defaults-IsConfig (omega arith)

abbrev ready : Scheduler
ready = record {
  completed_ops = task ∷ op 3 ∷ descriptor 7 ∷ [];
  outstanding_work = 1;
  stopped = false;
  task_running = true;
  task_interrupted = false;
  one_thread = false;
  config = defaults;
  state = 0;
  notified_one = 0;
  notified_all = 0;
  interrupts = 0;
}

wake_one_thread-wakes_example :
    let t = wake_one_thread ready in
    let waiting = ltb 0 (waiters ready) in
    let interrupt = not waiting && (ready.task_running && not ready.task_interrupted) in
    (signaled t ≡ true)
    × (waiters t ≡ waiters ready)
    × (t.notified_one ≡ ready.notified_one + (if waiting then 1 else 0))
    × (t.interrupts ≡ ready.interrupts + (if interrupt then 1 else 0))
    × ((not waiting && (ready.task_running && not t.task_interrupted)) ≡ false)
wake_one_thread-wakes_example = wake_one_thread-wakes ready

-- A reactor without events, and entries whose calls post nothing; the rest of the program holds as
-- many pieces of work as the world says.
abbrev flushed : Step ℕ → Step ℕ
unfolding task_cleanup
flushed t = record t {
  sched = (task_cleanup (some t.frame) t.sched).sched;
  frame = record t.frame { private_queue = []; private_outstanding_work = 0 };
}

abbrev call_entry : Entry → Step ℕ → Step ℕ
call_entry (op a) t = t
call_entry (cont a) t = t
call_entry _ t = record t {
  frame = record t.frame { private_outstanding_work = t.frame.private_outstanding_work + 1 };
}

abbrev quiet : Calls ℕ
unfolding flushed
quiet = record { run_task = λ tmo t. flushed t; call = call_entry; wait = λ tmo t. t }

abbrev as_told : ℕ → ℕ
as_told w = w

quiet-Keeps : Keeps as_told quiet
unfolding quiet flushed task_cleanup
quiet-Keeps = record {
  run_task-keeps = λ tmo t b. task_cleanup-Balanced (as_told t.world + 0) (some t.frame) t.sched b;
  call-keeps = kept;
  wait-keeps = λ tmo t b. b;
}
  where
    kept : (e : Entry) (t : Step ℕ) → Bal as_told (weight e) t → Bal as_told 1 (call_entry e t)
    kept task t b = ground arith
    kept (op a) t b = b
    kept (cont a) t b = b
    kept (descriptor a) t b = ground arith

quiet-KeepsClean : KeepsClean quiet
unfolding quiet flushed
quiet-KeepsClean = record { run_task-clean = λ tmo t c e. refl; wait-clean = λ tmo t c. c }

quiet-LosesNone : LosesNone quiet
unfolding quiet flushed task_cleanup
quiet-LosesNone tmo t s p =
    let q = flush-queue t.frame t.sched in
    let es = t.frame.private_queue in
    (
      omega (
        arith,
        s,
        p,
        ap sentinels q,
        sentinels-append (flush_private_work t.frame t.sched).completed_ops es,
      ),
      omega
          (arith, ap length q, length-append (flush_private_work t.frame t.sched).completed_ops es),
    )

poll_one-settles_example : Ensures (Account as_told) (run_one 2 quiet no_wait 0 ready)
poll_one-settles_example =
    poll_one-settles as_told quiet 0 0 ready quiet-Keeps quiet-KeepsClean quiet-LosesNone
      (omega arith) refl

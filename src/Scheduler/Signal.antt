-- ===== src/Scheduler/Signal.antt =====
-- The signal of reactor_scheduler: bit 0 of state_ is the signal, the rest counts the waiters twice.
use corosio.Base.{
  ℕ, ◌+◌, ◌-◌, ◌/◌, ◌%◌, ◌≡◌, Bool, true, false, not, ◌&&◌, ◌==◌, ltb, if◌then◌else◌, arith,
}
use corosio.Scheduler.{Scheduler}
use corosio.Scheduler.Queue.{signal_one, signal_all, wake_one_thread, stop, work_finished}

abbrev pub waiters : Scheduler → ℕ
waiters s = s.state / 2

abbrev pub signaled : Scheduler → Bool
signaled s = s.state % 2 == 1

signal_one-state : (s : Scheduler) → (signal_one s).after.state ≡ s.state + (1 - s.state % 2)
unfolding signal_one
signal_one-state s = ground arith

-- Posting a wake-up sets the signal and keeps the number of waiters. If there is a waiter, one is
-- notified and the reactor is left alone; if there is none, no one is notified, and a reactor that is
-- running ends up interrupted, by one interrupt and only if it was not interrupted before.
pub wake_one_thread-wakes :
    (s : Scheduler)
    → let t = wake_one_thread s in
      let waiting = ltb 0 (waiters s) in
      let interrupt = not waiting && (s.task_running && not s.task_interrupted) in
      (signaled t ≡ true)
      × (waiters t ≡ waiters s)
      × (t.notified_one ≡ s.notified_one + (if waiting then 1 else 0))
      × (t.interrupts ≡ s.interrupts + (if interrupt then 1 else 0))
      × ((not waiting && (s.task_running && not t.task_interrupted)) ≡ false)
unfolding wake_one_thread signal_one
wake_one_thread-wakes s = (ground arith, ground arith, ground arith, ground arith, ground arith)

-- The count of work reaching 0 stops the scheduler with every waiter notified and the reactor
-- interrupted; a scheduler stopped before is left as it is.
pub work_finished-stops :
    (s : Scheduler)
    → let t = work_finished s in
      (s.outstanding_work ≡ 1 → t.stopped ≡ true)
      × (t.notified_all
          ≡ s.notified_all + (if s.outstanding_work == 1 && not s.stopped then 1 else 0))
      × (t.interrupts ≡ s.interrupts + (if s.outstanding_work == 1 && not s.stopped then 1 else 0))
unfolding work_finished stop signal_all
work_finished-stops s = ((λ e. ground arith), ground arith, ground arith)

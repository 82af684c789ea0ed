-- ===== src/TimerService.antt =====
-- timer_service (include/boost/corosio/detail/timer_service.hpp) with the waits of
-- src/corosio/src/timer.cpp: the timers, their waiters, and the operations that complete them.
--
-- A timer implementation and a waiter node are the numbers that stand for their addresses. Each
-- operation is one critical section of the mutex with the unlocked tests around it, so threads
-- interleave as sequences of operations; a wait is two, begin_wait and insert_waiter. An
-- intrusive_list is the sequence of its nodes. `posted` is what was posted to the scheduler, oldest
-- first; `notified` counts the calls of on_earliest_changed_, and `work` the calls of work_started
-- less those of work_finished.
pub mod Waiters
pub mod Expire
pub mod Cancel
pub mod Update
pub mod Publish
mod Tests
use corosio.Base.{
  ℕ, zero, suc, ◌+◌, ◌-◌, ◌≡◌, Bool, true, false, not, ◌&&◌, ◌||◌, Option, none, some, List, [],
  ◌∷◌, ◌++◌, leb, ltb, ◌==◌, if◌then◌else◌, ◌>>=◌, length, get_elem?, get_or, update,
}
use corosio.TimerHeap.{
  TimerHeap, npos, no_entry, entry, time_at, push_timer, set_time, remove_timer_impl,
}

-- error_code: no error, or capy::error::canceled.
pub data Ec : Type 0 where
  success canceled : Ec

-- waiter_node
pub record Waiter : Type 0 where
  pub impl : Option ℕ
  pub ec : Ec
  pub stop_requested : Bool

-- timer::implementation, but for heap_index_, which stands in the heap.
pub record Implementation : Type 0 where
  pub expiry : ℕ
  pub might_have_pending_waits : Bool
  pub waiters : List ℕ

pub record Service : Type 0 where
  pub timers : TimerHeap
  pub impls : ℕ → Implementation
  pub nodes : ℕ → Waiter
  pub cached_nearest : ℕ
  pub posted : List ℕ
  pub resumed : List ℕ
  pub notified : ℕ
  pub work : ℕ

-- std::numeric_limits<std::int64_t>::max(), by the shift of time points.
abbrev pub time_max : ℕ
time_max = 0xFFFFFFFFFFFFFFFF

-- `heap_.empty() ? max : heap_[0].time_`
unfoldable pub nearest : TimerHeap → ℕ
nearest h = if length h.heap == 0 then time_max else time_at h 0

unfoldable pub refresh_cached_nearest : Service → Service
refresh_cached_nearest s = record s { cached_nearest = nearest s.timers }

pub empty : Service → Bool
empty s = s.cached_nearest == time_max

-- `while (auto* w = impl.waiters_.pop_front()) { w->impl_ = nullptr; ... }`
unfoldable pub detach : List ℕ → (ℕ → Waiter) → ℕ → Waiter
detach [] nodes = nodes
detach (w ∷ ws) nodes = detach ws (update nodes w (record (nodes w) { impl = none }))

-- The same loop in process_expired, with `w->ec_ = {}`.
unfoldable pub release : List ℕ → (ℕ → Waiter) → ℕ → Waiter
release [] nodes = nodes
release (w ∷ ws) nodes =
    release ws (update nodes w (record (nodes w) { impl = none; ec = success }))

-- `while (auto* w = canceled.pop_front()) { w->ec_ = canceled; sched_->post(&w->op_); ++count; }`
unfoldable pub post_canceled : List ℕ → Service → Service
post_canceled [] s = s
post_canceled (w ∷ ws) s = post_canceled ws (record s {
  nodes = update s.nodes w (record (s.nodes w) { ec = canceled });
  posted = s.posted ++ w ∷ [];
})

-- intrusive_list::remove
unfoldable pub remove : ℕ → List ℕ → List ℕ
remove w [] = []
remove w (v ∷ vs) = if v == w then vs else v ∷ remove w vs

abbrev pub set_impl : ℕ → Implementation → Service → Service
set_impl t i s = record s { impls = update s.impls t i }

abbrev pub set_timers : TimerHeap → Service → Service
set_timers h s = record s { timers = h }

-- Takes the waiters off the timer `t` and clears its flag, once the timer is out of the heap.
abbrev pub clear_impl : ℕ → Service → Service
clear_impl t s =
    set_impl t (record (s.impls t) { waiters = []; might_have_pending_waits = false }) s

unfoldable pub cancel_timer : ℕ → Service → Option (Service × ℕ)
unfolding refresh_cached_nearest nearest post_canceled detach
cancel_timer t s =
    let ws = (s.impls t).waiters in
    let locked : Option (Service × ℕ) = do
      h ← remove_timer_impl t s.timers
      let s1 = record (clear_impl t (set_timers h s)) { nodes = detach ws s.nodes }
      some (post_canceled ws (refresh_cached_nearest s1), length ws)
    in if (s.impls t).might_have_pending_waits then locked else some (s, 0)

-- `if (impl.waiters_.empty()) { remove_timer_impl(impl); might_have_pending_waits_ = false; }`
unfoldable pub retire : ℕ → List ℕ → Service → Option Service
retire t (w ∷ ws) s = some s
retire t [] s = do
  h ← remove_timer_impl t s.timers
  let i = s.impls t
  some (set_impl t (record i { might_have_pending_waits = false }) (set_timers h s))

-- Takes the waiter `w` off the timer `t`, and completes it as canceled.
unfoldable pub withdraw : ℕ → ℕ → List ℕ → Service → Option Service
unfolding refresh_cached_nearest retire
withdraw t w rest s = do
  let s1 = record (set_impl t (record (s.impls t) { waiters = rest }) s) {
    nodes = update s.nodes w (record (s.nodes w) { impl = none });
  }
  s2 ← retire t rest s1
  some (refresh_cached_nearest s2)

unfoldable pub cancel_waiter : ℕ → Service → Option Service
unfolding withdraw remove
cancel_waiter w s = elim (s.nodes w).impl [
  | none ↦ some s
  | some t ↦ do s1 ← withdraw t w (remove w (s.impls t).waiters) s; some (post_canceled (w ∷ []) s1)
]

unfoldable pub cancel_one_waiter : ℕ → Service → Option (Service × ℕ)
unfolding withdraw
cancel_one_waiter t s =
    let locked : Option (Service × ℕ) = elim (s.impls t).waiters [
      | [] ↦ some (s, 0)
      | w ∷ rest ↦ do s1 ← withdraw t w rest s; some (post_canceled (w ∷ []) s1, 1)
    ] in
    if (s.impls t).might_have_pending_waits then locked else some (s, 0)

-- `if (idx < heap_.size())` of update_timer, with the notification that it asks for.
unfoldable pub retime : ℕ → ℕ → TimerHeap → Option (TimerHeap × Bool)
retime t new_time h =
    let moved : Option (TimerHeap × Bool) = do
      h' ← set_time (h.heap_index t) new_time h
      some (h', h'.heap_index t == 0)
    in if ltb (h.heap_index t) (length h.heap) then moved else some (h, false)

-- `if (notify) on_earliest_changed_();`
abbrev pub notify : Bool → Service → Service
notify b s = record s { notified = if b then s.notified + 1 else s.notified }

unfoldable pub update_timer : ℕ → ℕ → Service → Option (Service × ℕ)
unfolding refresh_cached_nearest retime
update_timer t new_time s =
    let i = s.impls t in
    let locked : Option (Service × ℕ) = do
      (h, earliest) ← retime t new_time s.timers
      let s1 = record (set_impl t (record i { waiters = [] }) (set_timers h s)) {
        nodes = detach i.waiters s.nodes;
      }
      let s2 = post_canceled i.waiters (refresh_cached_nearest s1)
      some (notify earliest s2, length i.waiters)
    in if s.timers.heap_index t == npos && not i.might_have_pending_waits
      then some (s, 0)
      else locked

-- The insertion into the heap, if the timer is not there, and whether it became the earliest.
pub enlist : ℕ → Service → Option (Service × Bool)
unfolding refresh_cached_nearest
enlist t s =
    let pushed : Option (Service × Bool) = do
      h ← push_timer t (s.impls t).expiry s.timers
      some (refresh_cached_nearest (set_timers h s), h.heap_index t == 0)
    in if s.timers.heap_index t == npos then pushed else some (s, false)

pub insert_waiter : ℕ → ℕ → Service → Option Service
unfolding enlist withdraw remove
insert_waiter t w s = do
  (s1, earliest) ←
      enlist t (record s { nodes = update s.nodes w (record (s.nodes w) { impl = some t }) })
  let i = s1.impls t
  let ws = i.waiters ++ w ∷ []
  let s2 = set_impl t (record i { waiters = ws }) s1
  let lost_cancel : Option Service = do
    s3 ← withdraw t w (remove w ws) s2
    some (post_canceled (w ∷ []) s3)
  if (s.nodes w).stop_requested then lost_cancel else some (notify earliest s2)

-- The first time point, std::chrono::steady_clock::time_point::min(), is 0 by the shift.
unfoldable pub already_expired : ℕ → ℕ → Service → Bool
already_expired t now s =
    s.timers.heap_index t == npos && ((s.impls t).expiry == 0 || leb (s.impls t).expiry now)

-- timer::implementation::wait up to the publication, and whether it follows: either the continuation
-- of `w` is posted at once, or the flag is set without the lock, the wait is counted, and insert_waiter
-- is called next; operations of other threads may come between.
unfoldable pub begin_wait : ℕ → ℕ → ℕ → Service → Service × Bool
unfolding already_expired
begin_wait t w now s =
    if already_expired t now s
    then (
      record s {
        nodes = update s.nodes w (record (s.nodes w) { ec = success });
        resumed = s.resumed ++ w ∷ [];
      },
      false,
    )
    else (
      record (set_impl t (record (s.impls t) { might_have_pending_waits = true }) s) {
        nodes = update s.nodes w (record (s.nodes w) { impl = none });
        work = s.work + 1;
      },
      true,
    )

-- A round of the loop of process_expired, on the root timer `t`.
pub expire_one : ℕ → Service → Option Service
expire_one t s = do
  h ← remove_timer_impl t s.timers
  some (record (clear_impl t (set_timers h s)) { nodes = release (s.impls t).waiters s.nodes })

-- `while (!heap_.empty() && heap_[0].time_ <= now)`, with the list `expired` that it builds.
pub expire_loop : ℕ → ℕ → List ℕ → Service → Option (Service × List ℕ)
expire_loop zero now expired s = none
expire_loop (suc fuel) now expired s =
    let root = (entry s.timers 0).timer in
    let round = expire_one root s >>= expire_loop fuel now (expired ++ (s.impls root).waiters) in
    if length s.timers.heap == 0
    then some (s, expired)
    else if leb (time_at s.timers 0) now
    then round
    else some (s, expired)

pub process_expired : ℕ → Service → Option (Service × ℕ)
unfolding expire_loop expire_one refresh_cached_nearest
process_expired now s = do
  (s1, expired) ← expire_loop (length s.timers.heap + 1) now [] s
  let s2 = refresh_cached_nearest s1
  some (record s2 { posted = s2.posted ++ expired }, length expired)

-- ===== src/Timer.antt =====
-- timer: include/boost/corosio/detail/timer.hpp, the object that owns an implementation of
-- TimerService.antt. A duration is a signed number of ticks; time points are shifted by 2^63, so
-- time_point::min() is 0 and time_point::max() is time_max.
pub mod Facade
pub mod Race
mod Tests
use corosio.Base.{
  ℕ, suc, ◌+◌, ◌-◌, Bool, true, false, not, ◌&&◌, Option, none, some, ltb, ◌>>=◌, ◌==◌,
  if◌then◌else◌,
}
use corosio.TimerHeap.{npos}
use corosio.TimerPool.{epoch}
use corosio.TimerService.{
  Service, set_impl, time_max, cancel_timer, cancel_one_waiter, update_timer,
}

pub data ℤ : Type 0 where
  pos negsuc : ℕ → ℤ

-- `d > duration::zero()`
pub is_positive : ℤ → Bool
is_positive (pos n) = ltb 0 n
is_positive (negsuc n) = false

pub expiry : ℕ → Service → ℕ
expiry t s = (s.impls t).expiry

pub set_expiry : ℕ → ℕ → Service → Service
set_expiry t e s = set_impl t (record (s.impls t) { expiry = e }) s

pub cancel : ℕ → Service → Option (Service × ℕ)
cancel t s = if not (s.impls t).might_have_pending_waits then some (s, 0) else cancel_timer t s

pub cancel_one : ℕ → Service → Option (Service × ℕ)
cancel_one t s =
    if not (s.impls t).might_have_pending_waits then some (s, 0) else cancel_one_waiter t s

-- `timer_service_update_expiry(get())`
pub do_update_expiry : ℕ → Service → Option (Service × ℕ)
do_update_expiry t s = update_timer t (s.impls t).expiry s

-- The end of expires_at and of expires_after.
pub publish_expiry : ℕ → Service → Option (Service × ℕ)
unfolding do_update_expiry
publish_expiry t s =
    if s.timers.heap_index t == npos && not (s.impls t).might_have_pending_waits
    then some (s, 0)
    else do_update_expiry t s

pub expires_at : ℕ → ℕ → Service → Option (Service × ℕ)
unfolding publish_expiry set_expiry
expires_at t e s = publish_expiry t (set_expiry t e s)

-- The expiry a duration from now, which does not exceed time_point::max(). The subtraction of `now`
-- from time_point::max() is one of std::int64_t, which overflows before the clock's epoch: none
-- stands for that undefined behaviour.
pub expiry_after : ℕ → ℤ → Option ℕ
expiry_after now (negsuc n) = some 0
expiry_after now (pos n) =
    if n == 0
    then some 0
    else if ltb now epoch
    then none
    else some (if ltb (time_max - now) n then time_max else now + n)

pub expires_after : ℕ → ℕ → ℤ → Service → Option (Service × ℕ)
unfolding publish_expiry set_expiry expiry_after
expires_after t now d s = do e ← expiry_after now d; publish_expiry t (set_expiry t e s)

-- ===== src/Timer/Tests.antt =====
-- Runs of timer on services without timers and with one, and the theorems at concrete inputs.
use corosio.Base.{
  ◌<◌, ◌≡◌, refl, true, false, none, some, [], ◌∷◌, ◌&&◌, ltb, length, update, if◌then◌else◌, arith,
  Ensures,
}
use corosio.TimerHeap.{TimerHeap, npos, remove_timer_impl, pop_back}
use corosio.TimerPool.{epoch}
use corosio.TimerService.{
  Service, Waiter, Implementation, success, time_max, nearest, begin_wait, cancel_waiter,
  insert_waiter, post_canceled,
}
use corosio.TimerService.Waiters.{IsConsistent}
use corosio.Timer.{pos, negsuc, is_positive, expires_after, expiry_after}
use corosio.Timer.Facade.{Elapses, expires_after_saturates}
use corosio.Timer.Race.{IsMissed, begin_wait-IsMissed}

abbrev idle : Implementation
idle = record { expiry = 40; might_have_pending_waits = false; waiters = [] }

abbrev unlinked : Waiter
unlinked = record { impl = none; ec = success; stop_requested = false }

abbrev quiet : Service
quiet = record {
  timers = record { heap = []; heap_index = λ _. npos };
  impls = λ _. idle;
  nodes = λ _. unlinked;
  cached_nearest = time_max;
  posted = [];
  resumed = [];
  notified = 0;
  work = 0;
}

quiet-IsConsistent : IsConsistent quiet
unfolding nearest
quiet-IsConsistent = record {
  links = record {
    order = λ c p q. absurd (omega arith);
    index = record {
      placed = λ i h. absurd (omega arith);
      found = λ t h. absurd (omega arith);
      absent = λ t h. refl;
      sized = omega arith;
    };
    linked = λ t w. refl;
    scheduled = λ t h. absurd (omega arith);
    flagged = λ t h. absurd (omega arith);
  };
  cached = refl;
}

saturated : expiry_after 0x8000000000000064 (pos 0x7FFFFFFFFFFFFFF0) ≡ some time_max
unfolding expiry_after
saturated = refl

overflowed : expiry_after 0x7FFFFFFFFFFFFFFF (pos 1) ≡ none
unfolding expiry_after
overflowed = refl

at_once : expiry_after 100 (negsuc 6) ≡ some 0
unfolding expiry_after
at_once = refl

expires_after_saturates_example :
    if is_positive (pos 0x7FFFFFFFFFFFFFF0) && ltb 0x8000000000000064 epoch
    then expires_after 1 0x8000000000000064 (pos 0x7FFFFFFFFFFFFFF0) quiet ≡ none
    else Ensures
        (Elapses 1 0x8000000000000064 (pos 0x7FFFFFFFFFFFFFF0))
        (expires_after 1 0x8000000000000064 (pos 0x7FFFFFFFFFFFFFF0) quiet)
expires_after_saturates_example =
    expires_after_saturates 1 0x8000000000000064 (pos 0x7FFFFFFFFFFFFFF0) quiet quiet-IsConsistent
      refl

-- The waiter 5 waits on the timer 1.
abbrev one_timer : TimerHeap
one_timer = record {
  heap = (record { time = 10; timer = 1 }) ∷ [];
  heap_index = update (λ _. npos) 1 0;
}

abbrev waiting : Service
waiting = record quiet {
  timers = one_timer;
  impls =
      update (λ _. idle) 1
        (record { expiry = 10; might_have_pending_waits = true; waiters = 5 ∷ [] });
  nodes = update (λ _. unlinked) 5 (record unlinked { impl = some 1 });
  cached_nearest = 10;
  work = 1;
}

waiting-IsConsistent : IsConsistent waiting
unfolding nearest
waiting-IsConsistent = record {
  links = record {
    order = λ c p q. absurd (omega arith);
    index = record {
      placed = λ i h. ground arith;
      found = λ t h. ground arith;
      absent = λ t h. ground arith;
      sized = omega arith;
    };
    linked = λ t w. ground arith;
    scheduled = λ t p. ground arith;
    flagged = λ t p. ground arith;
  };
  cached = refl;
}

-- The service once the waiter 5 was cancelled in the middle of a wait.
between : Service
unfolding cancel_waiter begin_wait
between = elim (cancel_waiter 5 (begin_wait 1 6 3 waiting).0) [ none ↦ waiting | some s ↦ s ]

waiter_cancelled : cancel_waiter 5 (begin_wait 1 6 3 waiting).0 ≡ some between
unfolding between cancel_waiter begin_wait remove_timer_impl pop_back post_canceled
waiter_cancelled = refl

between_room : length between.timers.heap < npos
unfolding between cancel_waiter begin_wait remove_timer_impl pop_back post_canceled
between_room = omega arith

begin_wait-IsMissed_example :
    ((begin_wait 1 6 3 waiting).1 ≡ true) × Ensures (IsMissed 1 6) (insert_waiter 1 6 between)
begin_wait-IsMissed_example =
    begin_wait-IsMissed 1 5 6 3 waiting between waiting-IsConsistent refl refl refl waiter_cancelled
      between_room

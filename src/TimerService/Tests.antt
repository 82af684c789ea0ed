-- ===== src/TimerService/Tests.antt =====
-- The service at work: two timers with three waiters, one of which has asked to stop.
use corosio.Base.{
  ℕ, zero, suc, ◌<◌, ◌≡◌, refl, some, none, [], ◌∷◌, update, arith, Ensures, true, false,
  if◌then◌else◌,
}
use corosio.TimerHeap.{TimerHeap, npos, entry}
use corosio.TimerHeap.Index.{IsIndexed}
use corosio.TimerHeap.Order.{IsHeap}
use corosio.TimerService.{
  Service, Waiter, Implementation, success, nearest, cancel_timer, cancel_waiter, cancel_one_waiter,
  update_timer, insert_waiter, process_expired, remove,
}
use corosio.TimerService.Waiters.{IsConsistent}
use corosio.TimerService.Expire.{Expired, process_expired-Expired}
use corosio.TimerService.Cancel.{
  CancelsAll, CancelsOne, CancelsFirst, cancel_timer-CancelsAll, cancel_waiter-CancelsOne,
  cancel_one_waiter-CancelsFirst, waiters_of,
}
use corosio.TimerService.Update.{Updates, update_timer-Updates}
use corosio.TimerService.Publish.{Publishes, Declines, insert_waiter_lem}

abbrev two_timers : TimerHeap
two_timers = record {
  heap = (record { time = 10; timer = 1 }) ∷ (record { time = 20; timer = 2 }) ∷ [];
  heap_index = update (update (λ _. npos) 1 0) 2 1;
}

abbrev unlinked : Waiter
unlinked = record { impl = none; ec = success; stop_requested = false }

abbrev idle : Implementation
idle = record { expiry = 40; might_have_pending_waits = false; waiters = [] }

abbrev busy : Service
busy = record {
  timers = two_timers;
  impls =
      update
        (update
          (update (λ _. idle) 1
            (record { expiry = 10; might_have_pending_waits = true; waiters = 5 ∷ [] }))
          2 (record { expiry = 20; might_have_pending_waits = true; waiters = 6 ∷ 7 ∷ [] }))
        3 (record { expiry = 4; might_have_pending_waits = true; waiters = [] });
  nodes =
      update
        (update
          (update (update (λ _. unlinked) 5 (record unlinked { impl = some 1 })) 6
            (record unlinked { impl = some 2 }))
          7 (record unlinked { impl = some 2 }))
        9 (record unlinked { stop_requested = true });
  cached_nearest = 10;
  posted = [];
  resumed = [];
  notified = 0;
  work = 3;
}

placed : (i : ℕ) → i < 2 → two_timers.heap_index (entry two_timers i).timer ≡ i
placed zero h = refl
placed (suc zero) h = refl
placed (suc (suc i)) h = absurd (omega arith)

two_timers-IsIndexed : IsIndexed two_timers
two_timers-IsIndexed = record {
  placed = placed;
  found = λ t h. ground arith;
  absent = λ t h. ground arith;
  sized = omega arith;
}

two_timers-IsHeap : IsHeap two_timers
two_timers-IsHeap zero p q = absurd (omega arith)
two_timers-IsHeap (suc zero) p q = omega arith
two_timers-IsHeap (suc (suc i)) p q = absurd (omega arith)

busy-IsConsistent : IsConsistent busy
unfolding nearest
busy-IsConsistent = record {
  links = record {
    order = two_timers-IsHeap;
    index = two_timers-IsIndexed;
    linked = λ t w. ground arith;
    scheduled = λ t p. ground arith;
    flagged = λ t p. ground arith;
  };
  cached = refl;
}

process_expired-Expired_example :
    Ensures (λ (s', n). Expired 15 busy s' n) (process_expired 15 busy)
process_expired-Expired_example = process_expired-Expired 15 busy busy-IsConsistent

cancel_timer-CancelsAll_example : Ensures (λ (s', n). CancelsAll 2 busy s' n) (cancel_timer 2 busy)
cancel_timer-CancelsAll_example = cancel_timer-CancelsAll 2 busy busy-IsConsistent

cancel_one_waiter-CancelsFirst_example :
    Ensures (λ (s', n). CancelsFirst 2 (6 ∷ 7 ∷ []) busy s' n) (cancel_one_waiter 2 busy)
cancel_one_waiter-CancelsFirst_example = cancel_one_waiter-CancelsFirst 2 busy busy-IsConsistent

cancel_waiter-CancelsOne_example :
    Ensures
      (λ s'.
        ((t : ℕ)
          → (busy.nodes 5).impl ≡ some t
          → CancelsOne t 5 (remove 5 (waiters_of busy t)) busy s')
        × ((busy.nodes 5).impl ≡ none → s' ≡ busy))
      (cancel_waiter 5 busy)
cancel_waiter-CancelsOne_example = cancel_waiter-CancelsOne 5 busy busy-IsConsistent

update_timer-Updates_example : Ensures (λ (s', n). Updates 2 5 busy s' n) (update_timer 2 5 busy)
update_timer-Updates_example = update_timer-Updates 2 5 busy busy-IsConsistent

insert_waiter_lem_example :
    Ensures
      (λ s'. if (busy.nodes 9).stop_requested then Declines 3 9 busy s' else Publishes 3 9 busy s')
      (insert_waiter 3 9 busy)
insert_waiter_lem_example =
    insert_waiter_lem 3 9 busy busy-IsConsistent
      (record { unlinked = refl; flag = refl; room = omega arith })

-- ===== src/TimerPool/Tests.antt =====
-- A service whose timers are all recycled, and the theorems at concrete inputs.
use corosio.Base.{
  ◌<◌, update, ℕ, zero, suc, ◌≡◌, refl, true, false, none, some, [], ◌∷◌, arith, Ensures,
}
use corosio.TimerHeap.{npos, entry}
use corosio.TimerService.{Service, Implementation, success, time_max, nearest}
use corosio.TimerService.Waiters.{IsConsistent}
use corosio.TimerPool.{Pool, construct, destroy, shutdown, drain, invalidate_cache}
use corosio.TimerPool.Recycle.{IsIdle, Recycles, destroy-Recycles}
use corosio.TimerPool.Shutdown.{ShutsDown, shutdown-ShutsDown}
use corosio.TimerPool.Construct.{IsPool, Takes, Constructs, construct-Constructs}

abbrev used : Implementation
used = record { expiry = 40; might_have_pending_waits = true; waiters = [] }

abbrev quiet : Service
quiet = record {
  timers = record { heap = []; heap_index = λ _. npos };
  impls = λ _. used;
  nodes = λ _. record { impl = none; ec = success; stop_requested = false };
  cached_nearest = time_max;
  posted = [];
  resumed = [];
  notified = 0;
  work = 0;
}

-- The slot holds the timer 4 of the service 1, the free list the timers 2 and 3.
abbrev pool : Pool
pool = record {
  service = quiet;
  free_list = 2 ∷ 3 ∷ [];
  tl_cached = some 4;
  owner = λ _. 1;
  shutting_down = false;
  deleted = [];
  destroyed = [];
}

quiet-IsConsistent : IsConsistent quiet
unfolding nearest
quiet-IsConsistent = record {
  links = record {
    order = λ c p q. absurd (omega arith);
    index = record {
      placed = λ i h. absurd (omega arith);
      found = λ t h. absurd (omega arith);
      absent = λ t h. refl;
      sized = omega arith;
    };
    linked = λ t w. refl;
    scheduled = λ t h. absurd (omega arith);
    flagged = λ t h. refl;
  };
  cached = refl;
}

quiet-IsIdle : (t : ℕ) → IsIdle t quiet
quiet-IsIdle t = record { outside = refl; alone = refl }

pool-IsPool : IsPool 1 pool
pool-IsPool = record {
  consistent = quiet-IsConsistent;
  slot = λ t e f. quiet-IsIdle t;
  free = λ t h. quiet-IsIdle t;
}

shutdown_deletes : (shutdown pool).deleted ≡ 4 ∷ 2 ∷ 3 ∷ []
unfolding shutdown drain invalidate_cache
shutdown_deletes = refl

construct-Constructs_example :
    Takes 1 9 pool (construct 1 9 pool).0 (construct 1 9 pool).1
    × Constructs 1 (construct 1 9 pool).0 pool.service (construct 1 9 pool).1
construct-Constructs_example = construct-Constructs 1 9 pool pool-IsPool (quiet-IsIdle 9)

destroy-Recycles_example : Ensures (Recycles 5 pool) (destroy 5 pool)
destroy-Recycles_example = destroy-Recycles 5 pool quiet-IsConsistent refl

-- The waiter 5 waits on the timer 1.
abbrev waiting : Service
waiting = record {
  timers = record {
    heap = (record { time = 10; timer = 1 }) ∷ [];
    heap_index = update (λ _. npos) 1 0;
  };
  impls =
      update (λ _. used) 1
        (record { expiry = 10; might_have_pending_waits = true; waiters = 5 ∷ [] });
  nodes =
      update (λ _. record { impl = none; ec = success; stop_requested = false }) 5
        (record { impl = some 1; ec = success; stop_requested = false });
  cached_nearest = 10;
  posted = [];
  resumed = [];
  notified = 0;
  work = 1;
}

waiting-placed : (i : ℕ) → i < 1 → waiting.timers.heap_index (entry waiting.timers i).timer ≡ i
waiting-placed zero h = refl
waiting-placed (suc i) h = absurd (omega arith)

waiting-IsConsistent : IsConsistent waiting
unfolding nearest
waiting-IsConsistent = record {
  links = record {
    order = λ c p q. absurd (omega arith);
    index = record {
      placed = waiting-placed;
      found = λ t h. ground arith;
      absent = λ t h. ground arith;
      sized = omega arith;
    };
    linked = λ t w. ground arith;
    scheduled = λ t h. ground arith;
    flagged = λ t h. ground arith;
  };
  cached = refl;
}

abbrev busy : Pool
busy = record pool { service = waiting }

shutdown-ShutsDown_example : ShutsDown busy (shutdown busy)
shutdown-ShutsDown_example = shutdown-ShutsDown busy waiting-IsConsistent

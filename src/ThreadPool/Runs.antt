-- ===== src/ThreadPool/Runs.antt =====
-- Every run of the threads of a thread_pool keeps the invariant.
use corosio.Base.{
  ℕ, zero, suc, ◌+◌, ◌≤◌, ◌<◌, ◌≡◌, refl, subst, ap, ◌∙◌, inl, inr, List, [], ◌∷◌, ◌++◌, count,
  arith, some, Ensures,
}
use corosio.ThreadPool.{ThreadPool, drain_queue}
use corosio.ThreadPool.Take.{Queued, drain_queue-Empties}
use corosio.ThreadPool.Threads.{
  Worker, ready, asleep, exited, running, notified, joined, System, tally, is_exited, is_running,
  any_thread, fresh, Moves, locks, finishes, posts, notifies_one, notifies_nobody, wakes_spuriously,
  shuts_down, notifies_all, joins, Reaches, stays, moves,
}
use corosio.ThreadPool.Invariant.{Manned, Attended, Sound, IsSound, is_flagged, fresh-Sound}
use corosio.ThreadPool.Kept.{finish-Sound, wake-Sound}
use corosio.ThreadPool.Steps.{lock-IsSound, post_item-IsSound, set_shutdown-Sound, notify_all-Sound}

pub exited-idle :
    (z : ℕ) (ts : List Worker) → tally is_exited ts + tally (is_running z) ts ≤ tally any_thread ts
exited-idle z [] = omega arith
exited-idle z (ready ∷ ts) = omega (arith, exited-idle z ts)
exited-idle z (asleep ∷ ts) = omega (arith, exited-idle z ts)
exited-idle z (exited ∷ ts) = omega (arith, exited-idle z ts)
exited-idle z (running w ∷ ts) = ground (arith, exited-idle z ts)

drain_queue-zero : (p q : ThreadPool) → ¬ (drain_queue 0 p ≡ some q)
unfolding drain_queue
drain_queue-zero p q e = absurd (cc)

-- What join leaves when every thread has ended and nothing is queued.
join-Sound :
    (f : ℕ) (q : ThreadPool) (s : System)
    → s.phase ≡ notified
    → tally is_exited s.threads ≡ tally any_thread s.threads
    → drain_queue f s.pool ≡ some q
    → Sound [] s
    → Sound [] (record s { pool = q; threads = []; phase = joined })
join-Sound zero q s o a d v = absurd (drain_queue-zero s.pool q d)
join-Sound (suc f) q s o a d v =
    let k : Queued q [] × (q.is_shutdown ≡ s.pool.is_shutdown) =
      subst (Ensures (λ r. Queued r [] × (r.is_shutdown ≡ s.pool.is_shutdown))) d
        (drain_queue-Empties (suc f) s.pool [] v.queued (omega arith)) in
    record {
      queued = k.0;
      order = v.order;
      calls = λ z. omega (arith, v.calls z, exited-idle z s.threads, a);
      attended = inl refl;
      ended = inl refl;
      shutdown = k.1 ∙ v.shutdown ∙ ap is_flagged o;
      woken = refl;
      manned = (refl, refl);
    }

-- Threads that have all ended leave no item.
pub all_exited-none :
    (s : System) (xs : List ℕ)
    → s.phase ≡ notified
    → tally is_exited s.threads ≡ tally any_thread s.threads
    → Sound xs s
    → xs ≡ []
all_exited-none s xs o a v =
    let m : 0 < tally any_thread s.threads = subst (λ p. Manned xs p s.threads) o v.manned in
    elim v.ended [ inl e ↦ absurd (omega (arith, m, e, a)) | inr e ↦ e.0 ]

pub Moves-IsSound : (s t : System) → Moves s t → IsSound s → IsSound t
Moves-IsSound s _ (locks before after e) (xs, v) = lock-IsSound before after s xs e v
Moves-IsSound s _ (finishes w before after e) (xs, v) = (xs, finish-Sound w before after s xs e v)
Moves-IsSound s _ (posts w w0 c) (xs, v) = post_item-IsSound w s xs w0 c v
Moves-IsSound s _ (notifies_one n before after e f) (xs, v) =
    (xs, wake-Sound n before after s xs (omega arith) f v)
Moves-IsSound s _ (notifies_nobody n e a) (xs, v) = (
  xs,
  record {
    queued = v.queued;
    order = v.order;
    calls = v.calls;
    attended = inl a;
    ended = v.ended;
    shutdown = v.shutdown;
    woken = v.woken;
    manned = v.manned;
  },
)
Moves-IsSound s _ (wakes_spuriously before after e) (xs, v) =
    (xs, wake-Sound s.notifies before after s xs (omega arith) e v)
Moves-IsSound s _ (shuts_down o) (xs, v) = (xs, set_shutdown-Sound s xs o v)
Moves-IsSound s _ (notifies_all o) (xs, v) = (xs, notify_all-Sound s xs o v)
Moves-IsSound s _ (joins f q o a d) (xs, v) =
    ([], join-Sound f q s o a d (subst (λ l. Sound l s) (all_exited-none s xs o a v) v))

pub Reaches-keeps : (s t : System) → Reaches s t → IsSound s → IsSound t
Reaches-keeps s _ stays v = v
Reaches-keeps s u (moves t _ r m) v = Moves-IsSound t u m (Reaches-keeps s t r v)

-- A pool with threads, however its threads, posters and shutdown interleave: the items that it
-- accepted are those that its threads took, in that order, and then those of its queue; the items
-- whose functions have returned and those that threads run are, with their number, those taken;
-- and whenever a thread sleeps, each queued item has a thread that is about to look for one or a
-- notification under way.
pub Reaches-Serves :
    (n : ℕ) (s : System)
    → 0 < n
    → Reaches (fresh n) s
    → (xs : List ℕ) × Queued s.pool xs
      × (s.accepted ≡ s.started ++ xs)
      × ((z : ℕ) → count z s.started ≡ count z s.finished + tally (is_running z) s.threads)
      × Attended xs s
Reaches-Serves n s h r =
    let (xs, v) = Reaches-keeps (fresh n) s r ([], fresh-Sound n h) in
    (xs, v.queued, v.order, v.calls, v.attended)

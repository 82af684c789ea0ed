-- ===== src/ThreadPool/Tests.antt =====
-- Runs of a thread_pool.
use corosio.Base.{ℕ, ◌+◌, ◌≡◌, refl, true, List, [], ◌∷◌, ◌++◌, ◌==◌, not, map, count, arith}
use corosio.IntrusiveQueue.{is_empty, push, pop}
use corosio.ThreadPool.{
  take_work, post_locked, drain_queue, construct_pool, create_threads, constructed, failed,
}
use corosio.ThreadPool.Take.{Queued}
use corosio.ThreadPool.Threads.{
  ready, running, opened, notified, joined, System, set_shutdown, wake, tally, is_running, fresh,
  lock, post_item, Moves, locks, finishes, posts, shuts_down, notifies_all, joins, Reaches, stays,
  moves,
}
use corosio.ThreadPool.Invariant.{Attended}
use corosio.ThreadPool.Runs.{Reaches-Serves}
use corosio.ThreadPool.Shutdown.{Joins, Lowers, shutdown-Joins, shutdown-drops_nothing}

-- Two threads; 4 is posted, then 7; the first thread takes 4; then the pool is shut down.
abbrev busy : System
unfolding lock post_item take_work post_locked push pop is_empty
busy = lock [] (ready ∷ []) (post_item 7 (post_item 4 (fresh 2)))

busy-Reaches : Reaches (fresh 2) busy
unfolding lock post_item take_work post_locked push pop is_empty
busy-Reaches =
    moves _ _
      (moves _ _ (moves _ _ stays (posts 4 (omega arith) refl)) (posts 7 (omega arith) refl))
      (locks [] (ready ∷ []) refl)

takes_first : busy.threads ≡ running 4 ∷ ready ∷ []
unfolding lock post_item take_work post_locked push pop is_empty
takes_first = refl

creates_three : construct_pool (λ i. true) 3 ≡ constructed 3
unfolding construct_pool create_threads
creates_three = refl

fails_at_one : construct_pool (λ i. not (i == 1)) 3 ≡ failed 1
unfolding construct_pool create_threads
fails_at_one = refl

Reaches-Serves_example :
    (xs : List ℕ) × Queued busy.pool xs
    × (busy.accepted ≡ busy.started ++ xs)
    × ((z : ℕ) → count z busy.started ≡ count z busy.finished + tally (is_running z) busy.threads)
    × Attended xs busy
Reaches-Serves_example = Reaches-Serves 2 busy (omega arith) busy-Reaches

abbrev shut : System → System
shut s = let t = set_shutdown s in record t { threads = map wake t.threads; phase = notified }

shut-Reaches :
    (n : ℕ) (s : System) → Reaches (fresh n) s → s.phase ≡ opened → Reaches (fresh n) (shut s)
shut-Reaches n s r o = moves (set_shutdown s) _ (moves s _ r (shuts_down o)) (notifies_all refl)

shutdown-Joins_example :
    Joins (shut busy) × ((t : System) → Moves (shut busy) t → Lowers (shut busy) t)
unfolding busy
shutdown-Joins_example =
    shutdown-Joins 2 (shut busy) (omega arith) (shut-Reaches 2 busy busy-Reaches refl) refl

-- One thread; 4 is posted and run, then the pool is shut down.
abbrev served : System
unfolding lock post_item take_work post_locked push pop is_empty
served =
    let s = lock [] [] (post_item 4 (fresh 1)) in
    record s { threads = ready ∷ []; finished = s.finished ++ 4 ∷ [] }

served-Reaches : Reaches (fresh 1) served
unfolding lock post_item take_work post_locked push pop is_empty
served-Reaches =
    moves _ _ (moves _ _ (moves _ _ stays (posts 4 (omega arith) refl)) (locks [] [] refl))
      (finishes 4 [] [] refl)

abbrev ended : System
unfolding lock take_work pop is_empty
ended = lock [] [] (shut served)

abbrev closed : System
closed = let s = ended in record s { threads = []; phase = joined }

closed-Reaches : Reaches (fresh 1) closed
unfolding lock take_work pop is_empty drain_queue served
closed-Reaches =
    moves ended closed
      (moves (shut served) ended (shut-Reaches 1 served served-Reaches refl) (locks [] [] refl))
      (joins 1 ended.pool refl refl refl)

shutdown-drops_nothing_example :
    (closed.started ≡ closed.accepted)
    × ((z : ℕ) → count z closed.finished ≡ count z closed.accepted)
    × Queued closed.pool []
shutdown-drops_nothing_example = shutdown-drops_nothing 1 closed (omega arith) closed-Reaches refl

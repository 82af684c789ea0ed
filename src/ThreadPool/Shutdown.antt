-- ===== src/ThreadPool/Shutdown.antt =====
-- The end of a thread_pool: what shutdown waits for comes about, and leaves nothing undone.
use corosio.Base.{
  ℕ, zero, suc, ◌+◌, ◌-◌, ◌*◌, ◌<◌, ◌≡◌, refl, sym, subst, ap, ◌∙◌, ◌⊎◌, inl, inr, true, List, [],
  ◌∷◌, ◌++◌, count, length, length-append, append-nil, arith, Ensures-then,
}
use corosio.ThreadPool.{ThreadPool, Outcome, take_work, drain_queue}
use corosio.ThreadPool.Take.{Queued, outcome_of, take_work-Takes, drain_queue-Empties}
use corosio.ThreadPool.Threads.{
  Worker, ready, asleep, exited, running, notified, joined, System, tally, is_asleep, is_exited,
  any_thread, fresh, lock, Moves, locks, finishes, posts, notifies_one, notifies_nobody,
  wakes_spuriously, shuts_down, notifies_all, joins, Reaches, stays, moves,
}
use corosio.ThreadPool.Invariant.{Woken, Manned, Sound, IsSound, is_flagged, tally-at, fresh-Sound}
use corosio.ThreadPool.Kept.{after_turn}
use corosio.ThreadPool.Steps.{post_item-refused}
use corosio.ThreadPool.Runs.{Reaches-keeps, Moves-IsSound, exited-idle, all_exited-none}

-- How many steps a thread has yet to make for what it does now.
abbrev pub effort : Worker → ℕ
effort ready = 1
effort (running w) = 2
effort _ = 0

-- What is left to do once every thread has been woken: two steps for each item, those of the
-- threads, and the notifications under way.
abbrev pub work_left : System → ℕ
work_left s = 2 * (length s.accepted - length s.started) + tally effort s.threads + s.notifies

left-items :
    (xs : List ℕ) (s : System) → Sound xs s → length s.accepted - length s.started ≡ length xs
left-items xs s v = omega (arith, ap length v.order, length-append s.started xs)

effort-at :
    (before after : List Worker) (t u : Worker) (s : System)
    → s.threads ≡ before ++ t ∷ after
    → tally effort (before ++ u ∷ after) + effort t ≡ tally effort s.threads + effort u
effort-at before after t u s e =
    omega
      (arith, ap (tally effort) e, tally-at effort before t after, tally-at effort before u after)

turn-lowers :
    (before after : List Worker) (s : System) (xs : List ℕ) (o : Outcome) (p : ThreadPool)
    → s.threads ≡ before ++ ready ∷ after
    → o ≡ outcome_of true xs
    → Sound xs s
    → work_left (after_turn before after o p s) < work_left s
turn-lowers before after s [] o p e f v =
    subst (λ u. work_left (after_turn before after u p s) < work_left s) (sym f)
      (omega (
        arith,
        left-items [] s v,
        ap length (append-nil s.started),
        effort-at before after ready exited s e,
      ))
turn-lowers before after s (x ∷ xs) o p e f v =
    subst (λ u. work_left (after_turn before after u p s) < work_left s) (sym f)
      (omega (
        arith,
        left-items (x ∷ xs) s v,
        length-append s.started (x ∷ []),
        effort-at before after ready (running x) s e,
      ))

lock-lowers :
    (before after : List Worker) (s : System) (xs : List ℕ)
    → s.threads ≡ before ++ ready ∷ after
    → s.pool.is_shutdown ≡ true
    → Sound xs s
    → work_left (lock before after s) < work_left s
unfolding lock
lock-lowers before after s xs e f v =
    let k = take_work-Takes s.pool xs v.queued in
    turn-lowers before after s xs (take_work s.pool).outcome (take_work s.pool).pool e
      (k.outcome ∙ ap (λ b. outcome_of b xs) f) v

-- What a step does to a pool whose threads have all been woken for the shutdown.
abbrev pub Lowers : System → System → Type 0
Lowers s t = (t ≡ s) ⊎ ((t.phase ≡ joined) ⊎ ((t.phase ≡ notified) × (work_left t < work_left s)))

nobody_asleep :
    (s : System) (before after : List Worker)
    → s.threads ≡ before ++ asleep ∷ after
    → tally is_asleep s.threads ≡ 0
    → ⊥
nobody_asleep s before after e a =
    omega (arith, a, ap (tally is_asleep) e, tally-at is_asleep before asleep after)

-- After shutdown has woken the threads, every step but the last one of the join lowers the work that
-- is left, or is a call of post that is refused and changes nothing.
Moves-Lowers : (s t : System) → IsSound s → s.phase ≡ notified → Moves s t → Lowers s t
unfolding lock
Moves-Lowers s _ (xs, v) o (locks before after e) =
    inr (inr (o, lock-lowers before after s xs e (v.shutdown ∙ ap is_flagged o) v))
Moves-Lowers s _ (xs, v) o (finishes w before after e) =
    inr (inr (o, omega (arith, effort-at before after (running w) ready s e)))
Moves-Lowers s _ (xs, v) o (posts w w0 c) =
    inl (post_item-refused w s (v.shutdown ∙ ap is_flagged o))
Moves-Lowers s _ (xs, v) o (notifies_one n before after e f) =
    absurd (nobody_asleep s before after f (subst (λ p. Woken p s.threads) o v.woken))
Moves-Lowers s _ (xs, v) o (notifies_nobody n e a) = inr (inr (o, omega arith))
Moves-Lowers s _ (xs, v) o (wakes_spuriously before after e) =
    absurd (nobody_asleep s before after e (subst (λ p. Woken p s.threads) o v.woken))
Moves-Lowers s _ (xs, v) o (shuts_down f) = absurd (cc)
Moves-Lowers s _ (xs, v) o (notifies_all f) = absurd (cc)
Moves-Lowers s _ (xs, v) o (joins f q g a d) = inr (inl refl)

-- A thread that can make a step.
abbrev Movable : List Worker → Type 0
Movable ts =
    (before : List Worker) × (after : List Worker) × ((ts ≡ before ++ ready ∷ after)
      ⊎ ((w : ℕ) × (ts ≡ before ++ running w ∷ after)))

Movable-later : (t : Worker) (ts : List Worker) → Movable ts → Movable (t ∷ ts)
Movable-later t ts (before, after, inl e) = (t ∷ before, after, inl (ap (λ l. t ∷ l) e))
Movable-later t ts (before, after, inr (w, e)) = (t ∷ before, after, inr (w, ap (λ l. t ∷ l) e))

idle_or_steps :
    (ts : List Worker)
    → tally is_asleep ts ≡ 0
    → (tally is_exited ts ≡ tally any_thread ts) ⊎ Movable ts
idle_or_steps [] a = inl refl
idle_or_steps (ready ∷ ts) a = inr ([], ts, inl refl)
idle_or_steps (running w ∷ ts) a = inr ([], ts, inr (w, refl))
idle_or_steps (asleep ∷ ts) a = absurd (omega arith)
idle_or_steps (exited ∷ ts) a = elim (idle_or_steps ts (omega arith)) [
  | inl e ↦ inl (omega (arith, e))
  | inr m ↦ inr (Movable-later exited ts m)
]

Reaches-before : (s t u : System) → Moves s t → Reaches t u → Reaches s u
Reaches-before s t _ m stays = moves s t stays m
Reaches-before s t u m (moves v _ r n) = moves v u (Reaches-before s t v m r) n

-- The whole of what join waits for: a run that ends with it.
abbrev pub Joins : System → Type 0
Joins s = (t : System) × Reaches s t × (t.phase ≡ joined)

ends-within : (n : ℕ) (s : System) → work_left s < n → IsSound s → s.phase ≡ notified → Joins s
unfolding lock
ends-within zero s l v o = absurd (omega arith)
ends-within (suc n) s l (xs, v) o =
    elim (idle_or_steps s.threads (subst (λ p. Woken p s.threads) o v.woken)) [
      | inl a ↦
          let none_left = all_exited-none s xs o a v in
          Ensures-then (λ q. Queued q [] × (q.is_shutdown ≡ s.pool.is_shutdown))
            (drain_queue 1 s.pool)
            (drain_queue-Empties 1 s.pool [] (subst (Queued s.pool) none_left v.queued)
              (omega arith))
            (λ q d k. (
              record s { pool = q; threads = []; phase = joined },
              moves s _ stays (joins 1 q o a d),
              refl,
            ))
      | inr (before, after, inl e) ↦
          let t = lock before after s in
          let m : Moves s t = locks before after e in
          let (u, r, j) =
            ends-within n t
              (omega (arith, lock-lowers before after s xs e (v.shutdown ∙ ap is_flagged o) v))
              (Moves-IsSound s t m (xs, v)) o in
          (u, Reaches-before s t u m r, j)
      | inr (before, after, inr (w, e)) ↦
          let t : System = record s {
            threads = before ++ ready ∷ after;
            finished = s.finished ++ w ∷ [];
          } in
          let m : Moves s t = finishes w before after e in
          let (u, r, j) =
            ends-within n t (omega (arith, effort-at before after (running w) ready s e))
              (Moves-IsSound s t m (xs, v)) o in
          (u, Reaches-before s t u m r, j)
    ]

-- A pool with threads whose shutdown has woken them all comes to the end of the join: there is a run
-- that ends it, and every step either lowers the work that is left, or ends the join, or changes
-- nothing.
pub shutdown-Joins :
    (n : ℕ) (s : System)
    → 0 < n
    → Reaches (fresh n) s
    → s.phase ≡ notified
    → Joins s × ((t : System) → Moves s t → Lowers s t)
shutdown-Joins n s h r o =
    let v = Reaches-keeps (fresh n) s r ([], fresh-Sound n h) in
    (ends-within (suc (work_left s)) s (omega arith) v o, λ t m. Moves-Lowers s t v o m)

-- A shutdown of a pool with threads that has returned has dropped nothing: every item that post ever
-- accepted was taken by a thread, in the order of acceptance, its function has returned as often as
-- it was accepted, and the queue is empty.
pub shutdown-drops_nothing :
    (n : ℕ) (s : System)
    → 0 < n
    → Reaches (fresh n) s
    → s.phase ≡ joined
    → (s.started ≡ s.accepted)
      × ((z : ℕ) → count z s.finished ≡ count z s.accepted)
      × Queued s.pool []
shutdown-drops_nothing n s h r o =
    let (xs, v) = Reaches-keeps (fresh n) s r ([], fresh-Sound n h) in
    let m : (xs ≡ []) × (tally any_thread s.threads ≡ 0) =
      subst (λ p. Manned xs p s.threads) o v.manned in
    let e = v.order ∙ ap (λ l. s.started ++ l) m.0 ∙ append-nil s.started in
    (
      sym e,
      λ z. omega (arith, v.calls z, exited-idle z s.threads, m.1, ap (count z) e),
      subst (Queued s.pool) m.0 v.queued,
    )

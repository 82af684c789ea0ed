-- ===== src/ThreadPool/Take.antt =====
-- The locked sections of thread_pool, on the items that the queue holds.
use corosio.Base.{
  ℕ, zero, suc, ◌<◌, ◌≡◌, refl, sym, subst, Bool, true, false, ◌==◌, List, [], ◌∷◌, ◌++◌, some,
  Ensures, arith, count, length, if_true, if_false, Bool-cases, inl, inr,
}
use corosio.IntrusiveQueue.{is_empty, push, pop}
use corosio.IntrusiveQueue.Links.{Contains, push-append, pop-takes, tail_of}
use corosio.ThreadPool.{
  ThreadPool, Outcome, sleeps, returns, runs, Turn, pop_item, take_work, Posted, post_locked,
  drain_queue,
}

abbrev pub Queued : ThreadPool → List ℕ → Type 0
Queued p xs = Contains p.next p.work_queue xs

-- The outcome of a turn over these items.
abbrev pub outcome_of : Bool → List ℕ → Outcome
outcome_of true [] = returns
outcome_of false [] = sleeps
outcome_of b (x ∷ xs) = runs x

pub record Takes (p : ThreadPool) (xs : List ℕ) (t : Turn) : Type 0 where
  pub outcome : t.outcome ≡ outcome_of p.is_shutdown xs
  pub queued : Queued t.pool (tail_of xs)
  pub shutdown : t.pool.is_shutdown ≡ p.is_shutdown

empty-of : (p : ThreadPool) → Queued p [] → is_empty p.work_queue ≡ true
unfolding is_empty
empty-of p h = ground (arith, h.spans.0)

filled-of :
    (p : ThreadPool) (x : ℕ) (xs : List ℕ) → Queued p (x ∷ xs) → is_empty p.work_queue ≡ false
unfolding is_empty
filled-of p x xs h = ground (arith, h.spans.0, h.spans.1)

take_work-sleeps :
    (p : ThreadPool)
    → Queued p []
    → p.is_shutdown ≡ false
    → take_work p ≡ record { outcome = sleeps; pool = p }
unfolding take_work
take_work-sleeps p h s = ground (arith, empty-of p h)

take_work-returns :
    (p : ThreadPool)
    → Queued p []
    → p.is_shutdown ≡ true
    → take_work p ≡ record { outcome = returns; pool = pop_item p }
unfolding take_work
take_work-returns p h s = ground (arith, (pop-takes p.work_queue p.next [] h).0)

take_work-runs :
    (p : ThreadPool) (x : ℕ) (xs : List ℕ)
    → Queued p (x ∷ xs)
    → take_work p ≡ record { outcome = runs x; pool = pop_item p }
unfolding take_work
take_work-runs p x xs h =
    let t = pop-takes p.work_queue p.next (x ∷ xs) h in
    ground (arith, filled-of p x xs h, t.0, h.spans.1)

-- A turn takes the first item, if there is one; without items it sleeps, or returns after a shutdown.
pub take_work-Takes : (p : ThreadPool) (xs : List ℕ) → Queued p xs → Takes p xs (take_work p)
take_work-Takes p [] h = elim (Bool-cases p.is_shutdown) [
  | inl s ↦ subst (Takes p []) (sym (take_work-returns p h s)) (record {
    outcome = ground (arith, s);
    queued = (pop-takes p.work_queue p.next [] h).1;
    shutdown = refl;
  })
  | inr s ↦
      subst (Takes p []) (sym (take_work-sleeps p h s))
        (record { outcome = ground (arith, s); queued = h; shutdown = refl })
]
take_work-Takes p (x ∷ xs) h = subst (Takes p (x ∷ xs)) (sym (take_work-runs p x xs h)) (record {
  outcome = ground arith;
  queued = (pop-takes p.work_queue p.next (x ∷ xs) h).1;
  shutdown = refl;
})

pub post_locked-appends :
    (w : ℕ) (p : ThreadPool) (xs : List ℕ)
    → Queued p xs
    → 0 < w
    → count w xs ≡ 0
    → p.is_shutdown ≡ false
    → Queued (post_locked w p).pool (xs ++ w ∷ [])
unfolding post_locked
post_locked-appends w p xs h w0 c s =
    let r = push w p.work_queue p.next in
    let refused : Posted = record { is_accepted = false; pool = p } in
    let accepted : Posted = record {
      is_accepted = true;
      pool = record p { work_queue = r.0; next = r.1 };
    } in
    subst (λ (q : Posted). Queued q.pool (xs ++ w ∷ []))
      (sym (if_false p.is_shutdown refused accepted s))
      (push-append w p.work_queue p.next xs h w0 c)

-- The drain returns, with an empty queue, if its fuel exceeds the number of items.
pub drain_queue-Empties :
    (f : ℕ) (p : ThreadPool) (xs : List ℕ)
    → Queued p xs
    → length xs < f
    → Ensures (λ q. Queued q [] × (q.is_shutdown ≡ p.is_shutdown)) (drain_queue f p)
unfolding drain_queue
drain_queue-Empties zero p xs h l = absurd (omega arith)
drain_queue-Empties (suc f) p [] h l =
    let t = pop-takes p.work_queue p.next [] h in
    subst (Ensures (λ q. Queued q [] × (q.is_shutdown ≡ p.is_shutdown)))
      (sym (
        if_true ((pop p.work_queue p.next).0 == 0) (some (pop_item p)) (drain_queue f (pop_item p))
          (ground (arith, t.0))))
      (t.1, refl)
drain_queue-Empties (suc f) p (x ∷ xs) h l =
    let t = pop-takes p.work_queue p.next (x ∷ xs) h in
    subst (Ensures (λ q. Queued q [] × (q.is_shutdown ≡ p.is_shutdown)))
      (sym (
        if_false ((pop p.work_queue p.next).0 == 0) (some (pop_item p)) (drain_queue f (pop_item p))
          (ground (arith, t.0, h.spans.1))))
      (drain_queue-Empties f (pop_item p) xs t.1 (omega arith))

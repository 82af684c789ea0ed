-- ===== src/ThreadPool/Steps.antt =====
-- Each step of the threads of a thread_pool keeps the invariant.
use corosio.Base.{
  ℕ, ◌+◌, ◌<◌, ◌≡◌, refl, sym, subst, ap, ◌∙◌, inl, inr, Bool, true, false, List, [], ◌∷◌, ◌++◌,
  map, count, count-append, length-append, append_assoc, arith, Bool-cases,
}
use corosio.ThreadPool.{ThreadPool, Turn, take_work, post_locked}
use corosio.ThreadPool.Take.{Takes, outcome_of, take_work-Takes, post_locked-appends}
use corosio.ThreadPool.Threads.{
  Worker, ready, asleep, exited, running, Phase, opened, flagged, notified, joined, System, wake,
  tally, is_exited, is_running, any_thread, lock, post_item, set_shutdown,
}
use corosio.ThreadPool.Invariant.{Manned, Sound, IsSound, is_flagged, tally-wake, tally-wake-asleep}
use corosio.ThreadPool.Kept.{after_turn, turn-sleeps, turn-returns, turn-runs}

turn-IsSound :
    (before after : List Worker) (t : Turn) (s : System) (xs : List ℕ) (b : Bool)
    → s.threads ≡ before ++ ready ∷ after
    → s.pool.is_shutdown ≡ b
    → t.outcome ≡ outcome_of b xs
    → Takes s.pool xs t
    → Sound xs s
    → IsSound (after_turn before after t.outcome t.pool s)
turn-IsSound before after t s [] true e f o k v =
    subst (λ u. IsSound (after_turn before after u t.pool s)) (sym o)
      ([], turn-returns before after t.pool s e k.queued k.shutdown f v)
turn-IsSound before after t s [] false e f o k v =
    subst (λ u. IsSound (after_turn before after u t.pool s)) (sym o)
      ([], turn-sleeps before after t.pool s e k.queued k.shutdown f v)
turn-IsSound before after t s (x ∷ xs) true e f o k v =
    subst (λ u. IsSound (after_turn before after u t.pool s)) (sym o)
      (xs, turn-runs before after t.pool s x xs e k.queued k.shutdown v)
turn-IsSound before after t s (x ∷ xs) false e f o k v =
    subst (λ u. IsSound (after_turn before after u t.pool s)) (sym o)
      (xs, turn-runs before after t.pool s x xs e k.queued k.shutdown v)

pub lock-IsSound :
    (before after : List Worker) (s : System) (xs : List ℕ)
    → s.threads ≡ before ++ ready ∷ after
    → Sound xs s
    → IsSound (lock before after s)
unfolding lock
lock-IsSound before after s xs e v =
    let k = take_work-Takes s.pool xs v.queued in
    turn-IsSound before after (take_work s.pool) s xs s.pool.is_shutdown e refl k.outcome k v

pub post_item-refused : (w : ℕ) (s : System) → s.pool.is_shutdown ≡ true → post_item w s ≡ s
unfolding post_item post_locked
post_item-refused w s f = ground arith

abbrev accepts : ℕ → System → ThreadPool → System
accepts w s p = record s { pool = p; notifies = s.notifies + 1; accepted = s.accepted ++ w ∷ [] }

post_item-accepted :
    (w : ℕ) (s : System)
    → s.pool.is_shutdown ≡ false
    → post_item w s ≡ accepts w s (post_locked w s.pool).pool
unfolding post_item post_locked
post_item-accepted w s f = ground arith

post_locked-is_shutdown :
    (w : ℕ) (p : ThreadPool) → (post_locked w p).pool.is_shutdown ≡ p.is_shutdown
unfolding post_locked
post_locked-is_shutdown w p = ground arith

Manned-unflagged :
    (xs ys : List ℕ) (p : Phase) (ts : List Worker)
    → is_flagged p ≡ false
    → Manned xs p ts
    → Manned ys p ts
Manned-unflagged xs ys opened ts e m = m
Manned-unflagged xs ys flagged ts e m = m
Manned-unflagged xs ys notified ts e m = m
Manned-unflagged xs ys joined ts e m = absurd (cc)

accept-Sound :
    (w : ℕ) (s : System) (xs : List ℕ)
    → 0 < w
    → count w s.accepted ≡ count w s.started
    → s.pool.is_shutdown ≡ false
    → Sound xs s
    → Sound (xs ++ w ∷ []) (accepts w s (post_locked w s.pool).pool)
accept-Sound w s xs w0 c f v = record {
  queued =
      post_locked-appends w s.pool xs v.queued w0
        (omega (arith, c, ap (count w) v.order, count-append w s.started xs)) f;
  order = ap (λ l. l ++ w ∷ []) v.order ∙ append_assoc s.started xs (w ∷ []);
  calls = v.calls;
  attended = ground (arith, v.attended, length-append xs (w ∷ []));
  ended = ground (arith, v.ended, f);
  shutdown = post_locked-is_shutdown w s.pool ∙ v.shutdown;
  woken = v.woken;
  manned = Manned-unflagged xs (xs ++ w ∷ []) s.phase s.threads (sym v.shutdown ∙ f) v.manned;
}

pub post_item-IsSound :
    (w : ℕ) (s : System) (xs : List ℕ)
    → 0 < w
    → count w s.accepted ≡ count w s.started
    → Sound xs s
    → IsSound (post_item w s)
post_item-IsSound w s xs w0 c v = elim (Bool-cases s.pool.is_shutdown) [
  | inl f ↦ subst IsSound (sym (post_item-refused w s f)) (xs, v)
  | inr f ↦
      subst IsSound (sym (post_item-accepted w s f)) (xs ++ w ∷ [], accept-Sound w s xs w0 c f v)
]

pub set_shutdown-Sound :
    (s : System) (xs : List ℕ) → s.phase ≡ opened → Sound xs s → Sound xs (set_shutdown s)
set_shutdown-Sound s xs o v = record {
  queued = v.queued;
  order = v.order;
  calls = v.calls;
  attended = v.attended;
  ended = ground (arith, v.ended);
  shutdown = refl;
  woken = tt;
  manned = subst (λ p. Manned xs p s.threads) o v.manned;
}

pub notify_all-Sound :
    (s : System) (xs : List ℕ)
    → s.phase ≡ flagged
    → Sound xs s
    → Sound xs (record s { threads = map wake s.threads; phase = notified })
notify_all-Sound s xs o v =
    let m : 0 < tally any_thread s.threads = subst (λ p. Manned xs p s.threads) o v.manned in
    record {
      queued = v.queued;
      order = v.order;
      calls = λ z.
          omega (arith, v.calls z, tally-wake (is_running z) s.threads (λ t. wake_running z t));
      attended = inl (tally-wake-asleep s.threads);
      ended = ground (arith, v.ended, tally-wake is_exited s.threads wake_exited);
      shutdown = v.shutdown ∙ ap is_flagged o;
      woken = tally-wake-asleep s.threads;
      manned = omega (arith, m, tally-wake any_thread s.threads (λ t. refl));
    }
  where
    wake_running : (z : ℕ) (t : Worker) → is_running z (wake t) ≡ is_running z t
    wake_running z ready = refl
    wake_running z asleep = refl
    wake_running z exited = refl
    wake_running z (running w) = refl

    wake_exited : (t : Worker) → is_exited (wake t) ≡ is_exited t
    wake_exited ready = refl
    wake_exited asleep = refl
    wake_exited exited = refl
    wake_exited (running w) = refl

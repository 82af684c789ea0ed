-- ===== src/ThreadPool/Kept.antt =====
-- Each change of one thread of a thread_pool keeps the invariant.
use corosio.Base.{
  ℕ, suc, ◌+◌, ◌≤◌, ◌≡◌, refl, sym, ap, ◌∙◌, inr, true, false, List, [], ◌∷◌, ◌++◌, count,
  count-append, append-nil, append_assoc, arith,
}
use corosio.IntrusiveQueue.Links.{tail_of}
use corosio.ThreadPool.{ThreadPool, Outcome, sleeps, returns, runs}
use corosio.ThreadPool.Take.{Queued}
use corosio.ThreadPool.Threads.{
  Worker, ready, asleep, exited, running, Phase, opened, flagged, notified, joined, System, tally,
  is_asleep, is_exited, is_at_lock, is_running, any_thread, next_worker, taken,
}
use corosio.ThreadPool.Invariant.{Woken, Manned, Sound, is_flagged, tally-at}

-- The state after a turn with this outcome.
abbrev pub after_turn : List Worker → List Worker → Outcome → ThreadPool → System → System
after_turn before after o p s = record s {
  pool = p;
  threads = before ++ next_worker o ∷ after;
  started = s.started ++ taken o;
}

-- A thread that goes from `t` to `u`.
pub record Replaced (s : System) (before after : List Worker) (t u : Worker) : Type 0 where
  pub counted : (f : Worker → ℕ) → tally f (before ++ u ∷ after) + f t ≡ tally f s.threads + f u

pub replace_thread :
    (s : System) (before after : List Worker) (t u : Worker)
    → s.threads ≡ before ++ t ∷ after
    → Replaced s before after t u
replace_thread s before after t u e = record {
  counted =
      λ f. omega (arith, ap (tally f) e, tally-at f before t after, tally-at f before u after);
}

pub Woken-replace_thread :
    (s : System) (before after : List Worker) (t u : Worker) (p : Phase)
    → Replaced s before after t u
    → is_asleep u ≡ 0
    → Woken p s.threads
    → Woken p (before ++ u ∷ after)
Woken-replace_thread s before after t u opened c e w = tt
Woken-replace_thread s before after t u flagged c e w = tt
Woken-replace_thread s before after t u notified c e w = omega (arith, c.counted is_asleep)
Woken-replace_thread s before after t u joined c e w = omega (arith, c.counted is_asleep)

pub Manned-replace_thread :
    (s : System) (before after : List Worker) (t u : Worker) (xs : List ℕ) (p : Phase)
    → Replaced s before after t u
    → Manned xs p s.threads
    → Manned xs p (before ++ u ∷ after)
Manned-replace_thread s before after t u xs opened c w = omega (arith, c.counted any_thread)
Manned-replace_thread s before after t u xs flagged c w = omega (arith, c.counted any_thread)
Manned-replace_thread s before after t u xs notified c w = omega (arith, c.counted any_thread)
Manned-replace_thread s before after t u xs joined c w =
    (w.0, omega (arith, w.1, c.counted any_thread))

Manned-tail :
    (xs : List ℕ) (p : Phase) (ts : List Worker) → Manned xs p ts → Manned (tail_of xs) p ts
Manned-tail xs opened ts w = w
Manned-tail xs flagged ts w = w
Manned-tail xs notified ts w = w
Manned-tail [] joined ts w = w
Manned-tail (x ∷ xs) joined ts w = absurd (cc (w.0))

pub finish-Sound :
    (w : ℕ) (before after : List Worker) (s : System) (xs : List ℕ)
    → s.threads ≡ before ++ running w ∷ after
    → Sound xs s
    → Sound xs (record s { threads = before ++ ready ∷ after; finished = s.finished ++ w ∷ [] })
finish-Sound w before after s xs e v =
    let c = replace_thread s before after (running w) ready e in
    record {
      queued = v.queued;
      order = v.order;
      calls = λ z.
          omega (arith, v.calls z, c.counted (is_running z), count-append z s.finished (w ∷ []));
      attended = ground (arith, v.attended, c.counted is_asleep, c.counted is_at_lock);
      ended = ground (arith, v.ended, c.counted is_exited);
      shutdown = v.shutdown;
      woken = Woken-replace_thread s before after (running w) ready s.phase c refl v.woken;
      manned = Manned-replace_thread s before after (running w) ready xs s.phase c v.manned;
    }

pub wake-Sound :
    (n : ℕ) (before after : List Worker) (s : System) (xs : List ℕ)
    → s.notifies ≤ suc n
    → s.threads ≡ before ++ asleep ∷ after
    → Sound xs s
    → Sound xs (record s { threads = before ++ ready ∷ after; notifies = n })
wake-Sound n before after s xs l e v =
    let c = replace_thread s before after asleep ready e in
    record {
      queued = v.queued;
      order = v.order;
      calls = λ z. omega (arith, v.calls z, c.counted (is_running z));
      attended = ground (arith, v.attended, c.counted is_asleep, c.counted is_at_lock);
      ended = ground (arith, v.ended, c.counted is_exited);
      shutdown = v.shutdown;
      woken = Woken-replace_thread s before after asleep ready s.phase c refl v.woken;
      manned = Manned-replace_thread s before after asleep ready xs s.phase c v.manned;
    }

pub turn-sleeps :
    (before after : List Worker) (p : ThreadPool) (s : System)
    → s.threads ≡ before ++ ready ∷ after
    → Queued p []
    → p.is_shutdown ≡ s.pool.is_shutdown
    → s.pool.is_shutdown ≡ false
    → Sound [] s
    → Sound [] (after_turn before after sleeps p s)
turn-sleeps before after p s e q b f v =
    let c = replace_thread s before after ready asleep e in
    record {
      queued = q;
      order = v.order ∙ ap (λ l. l ++ []) (sym (append-nil s.started));
      calls = λ z.
          omega (arith, v.calls z, c.counted (is_running z), ap (count z) (append-nil s.started));
      attended = inr (omega arith);
      ended = ground (arith, v.ended, c.counted is_exited);
      shutdown = b ∙ v.shutdown;
      woken = unflagged s.phase (sym v.shutdown ∙ f);
      manned = Manned-replace_thread s before after ready asleep [] s.phase c v.manned;
    }
  where
    unflagged : (p : Phase) → is_flagged p ≡ false → Woken p (before ++ asleep ∷ after)
    unflagged opened e = tt
    unflagged flagged e = tt
    unflagged notified e = absurd (cc)
    unflagged joined e = absurd (cc)

pub turn-returns :
    (before after : List Worker) (p : ThreadPool) (s : System)
    → s.threads ≡ before ++ ready ∷ after
    → Queued p []
    → p.is_shutdown ≡ s.pool.is_shutdown
    → s.pool.is_shutdown ≡ true
    → Sound [] s
    → Sound [] (after_turn before after returns p s)
turn-returns before after p s e q b f v =
    let c = replace_thread s before after ready exited e in
    record {
      queued = q;
      order = v.order ∙ ap (λ l. l ++ []) (sym (append-nil s.started));
      calls = λ z.
          omega (arith, v.calls z, c.counted (is_running z), ap (count z) (append-nil s.started));
      attended = inr (omega arith);
      ended = inr (refl, b ∙ f);
      shutdown = b ∙ v.shutdown;
      woken = Woken-replace_thread s before after ready exited s.phase c refl v.woken;
      manned = Manned-replace_thread s before after ready exited [] s.phase c v.manned;
    }

pub turn-runs :
    (before after : List Worker) (p : ThreadPool) (s : System) (x : ℕ) (xs : List ℕ)
    → s.threads ≡ before ++ ready ∷ after
    → Queued p xs
    → p.is_shutdown ≡ s.pool.is_shutdown
    → Sound (x ∷ xs) s
    → Sound xs (after_turn before after (runs x) p s)
turn-runs before after p s x xs e q b v =
    let c = replace_thread s before after ready (running x) e in
    record {
      queued = q;
      order = v.order ∙ sym (append_assoc s.started (x ∷ []) xs);
      calls = λ z.
          omega (arith, v.calls z, c.counted (is_running z), count-append z s.started (x ∷ []));
      attended = ground (arith, v.attended, c.counted is_asleep, c.counted is_at_lock);
      ended = ground (arith, v.ended, c.counted is_exited);
      shutdown = b ∙ v.shutdown;
      woken = Woken-replace_thread s before after ready (running x) s.phase c refl v.woken;
      manned =
          Manned-tail (x ∷ xs) s.phase (before ++ running x ∷ after)
            (Manned-replace_thread s before after ready (running x) (x ∷ xs) s.phase c v.manned);
    }

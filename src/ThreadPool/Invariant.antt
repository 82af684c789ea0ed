-- ===== src/ThreadPool/Invariant.antt =====
-- What holds whenever no thread holds the mutex of a thread_pool.
use corosio.Base.{
  ℕ, zero, suc, ◌+◌, ◌≤◌, ◌<◌, ◌≡◌, refl, ◌⊎◌, inl, inr, Bool, true, false, List, [], ◌∷◌, ◌++◌,
  map, replicate, count, length, arith,
}
use corosio.ThreadPool.Take.{Queued}
use corosio.ThreadPool.Threads.{
  Worker, ready, asleep, exited, running, Phase, opened, flagged, joined, System, wake, tally,
  is_asleep, is_exited, is_at_lock, is_running, any_thread, fresh,
}

-- Whether shutdown has set its flag, and whether it has woken every thread.
abbrev pub is_flagged : Phase → Bool
is_flagged opened = false
is_flagged _ = true

abbrev pub Woken : Phase → List Worker → Type 0
Woken opened ts = Unit
Woken flagged ts = Unit
Woken _ ts = tally is_asleep ts ≡ 0

-- A thread sleeps only while the items that are queued have threads that come for them.
abbrev pub Attended : List ℕ → System → Type 0
Attended xs s =
    (tally is_asleep s.threads ≡ 0) ⊎ (length xs ≤ tally is_at_lock s.threads + s.notifies)

-- A thread ends only after a shutdown, and only when no item is left.
abbrev pub Ended : List ℕ → System → Type 0
Ended xs s = (tally is_exited s.threads ≡ 0) ⊎ ((xs ≡ []) × (s.pool.is_shutdown ≡ true))

-- Until they are joined there are threads; then there are no threads and no items.
abbrev pub Manned : List ℕ → Phase → List Worker → Type 0
Manned xs joined ts = (xs ≡ []) × (tally any_thread ts ≡ 0)
Manned xs _ ts = 0 < tally any_thread ts

pub record Sound (xs : List ℕ) (s : System) : Type 0 where
  pub queued : Queued s.pool xs
  pub order : s.accepted ≡ s.started ++ xs
  pub calls : (z : ℕ) → count z s.started ≡ count z s.finished + tally (is_running z) s.threads
  pub attended : Attended xs s
  pub ended : Ended xs s
  pub shutdown : s.pool.is_shutdown ≡ is_flagged s.phase
  pub woken : Woken s.phase s.threads
  pub manned : Manned xs s.phase s.threads

-- Some sequence of items is queued, and the state fits it.
abbrev pub IsSound : System → Type 0
IsSound s = (xs : List ℕ) × Sound xs s

pub tally-at :
    (f : Worker → ℕ) (before : List Worker) (t : Worker) (after : List Worker)
    → tally f (before ++ t ∷ after) ≡ tally f before + (f t + tally f after)
tally-at f [] t after = omega arith
tally-at f (b ∷ before) t after = omega (arith, tally-at f before t after)

tally-replicate : (f : Worker → ℕ) (n : ℕ) → f ready ≡ 0 → tally f (replicate n ready) ≡ 0
tally-replicate f zero e = refl
tally-replicate f (suc n) e = omega (arith, e, tally-replicate f n e)

tally-all : (n : ℕ) → 0 < n → 0 < tally any_thread (replicate n ready)
tally-all zero h = h
tally-all (suc n) h = omega arith

-- The pool that a constructor leaves is sound, if there is a thread.
pub fresh-Sound : (n : ℕ) → 0 < n → Sound [] (fresh n)
fresh-Sound n h = record {
  queued = record { spans = (refl, refl); distinct = λ z. omega arith };
  order = refl;
  calls = λ z. omega (arith, tally-replicate (is_running z) n refl);
  attended = inr (omega arith);
  ended = inl (tally-replicate is_exited n refl);
  shutdown = refl;
  woken = tt;
  manned = tally-all n h;
}

pub tally-wake :
    (f : Worker → ℕ) (ts : List Worker)
    → ((t : Worker) → f (wake t) ≡ f t)
    → tally f (map wake ts) ≡ tally f ts
tally-wake f [] e = refl
tally-wake f (t ∷ ts) e = omega (arith, e t, tally-wake f ts e)

pub tally-wake-asleep : (ts : List Worker) → tally is_asleep (map wake ts) ≡ 0
tally-wake-asleep [] = refl
tally-wake-asleep (ready ∷ ts) = omega (arith, tally-wake-asleep ts)
tally-wake-asleep (asleep ∷ ts) = omega (arith, tally-wake-asleep ts)
tally-wake-asleep (exited ∷ ts) = omega (arith, tally-wake-asleep ts)
tally-wake-asleep (running w ∷ ts) = omega (arith, tally-wake-asleep ts)

-- ===== src/TimerService/Expire.antt =====
-- process_expired fires the timers that are due, and no other.
use corosio.Base.{
  ℕ, zero, suc, ◌+◌, ◌<◌, ◌≡◌, refl, Bool, true, false, Option, none, some, List, [], ◌++◌, leb,
  ◌==◌, if◌then◌else◌, length, arith, count, Ensures, Ensures-if, Ensures-bind, Ensures-then,
  Ensures-mono, count-append, leb→lt,
}
use corosio.TimerHeap.{TimerHeap, entry, time_at}
use corosio.TimerHeap.Index.{IsIndexed, expiry_of}
use corosio.TimerHeap.Remove.{Removes, remove_timer_impl-Removes}
use corosio.TimerHeap.Insert.{root-le}
use corosio.TimerService.{
  Service, success, release, expire_one, expire_loop, process_expired, refresh_cached_nearest,
  clear_impl, set_timers,
}
use corosio.TimerService.Waiters.{IsLinked, IsConsistent, points, member, released, release_lem}

abbrev is_due : ℕ → Option ℕ → Bool
is_due now none = false
is_due now (some time) = leb time now

-- The timer is in the heap and has expired by `now`.
abbrev pub due : ℕ → Service → ℕ → Bool
due now s t = is_due now (expiry_of s.timers t)

abbrev waits_on_due : ℕ → Service → Option ℕ → Bool
waits_on_due now s none = false
waits_on_due now s (some t) = due now s t

-- The waiter waits for a timer that has expired by `now`.
abbrev pub due_waiter : ℕ → Service → ℕ → Bool
due_waiter now s w = waits_on_due now s (s.nodes w).impl

-- `s'` is `s` without the timers that are due at `now`, and `out'` is `out` with their waiters.
pub record Fires (now : ℕ) (s s' : Service) (out out' : List ℕ) : Type 0 where
  pub links : IsLinked s'
  pub times : (t : ℕ) → expiry_of s'.timers t ≡ (if due now s t then none else expiry_of s.timers t)
  pub impls :
      (t : ℕ)
      → s'.impls t ≡ (
          if due now s t
          then record (s.impls t) { waiters = []; might_have_pending_waits = false }
          else s.impls t)
  pub nodes :
      (w : ℕ)
      → s'.nodes w ≡ (
          if due_waiter now s w
          then record (s.nodes w) { impl = none; ec = success }
          else s.nodes w)
  pub fired : (w : ℕ) → count w out' ≡ count w out + (if due_waiter now s w then 1 else 0)
  pub posted : s'.posted ≡ s.posted
  pub resumed : s'.resumed ≡ s.resumed
  pub notified : s'.notified ≡ s.notified
  pub work : s'.work ≡ s.work

pub root_expiry :
    (s : TimerHeap)
    → IsIndexed s
    → 0 < length s.heap
    → expiry_of s (entry s 0).timer ≡ some (time_at s 0)
root_expiry s v h = ground (arith, v.placed 0 h)

-- Nothing is due where the root is not.
none_due :
    (now t : ℕ) (s : Service)
    → IsLinked s
    → (0 < length s.timers.heap → now < time_at s.timers 0)
    → due now s t ≡ false
none_due now t s v h =
    ground (arith, root-le s.timers t (time_at s.timers (s.timers.heap_index t)) v.order)

module _ (t : ℕ) (s : Service) (v : IsLinked s) (h : TimerHeap) (r : Removes t s.timers h) where
  abbrev after_root : Service
  after_root = record (clear_impl t (set_timers h s)) {
    nodes = release (s.impls t).waiters s.nodes;
  }

  node_after : (w : ℕ) → after_root.nodes w ≡ released (s.impls t).waiters s.nodes w
  node_after w = release_lem (s.impls t).waiters s.nodes w

  after_root-IsLinked : IsLinked after_root
  after_root-IsLinked = record {
    order = r.order;
    index = r.index;
    linked = λ u w. ground (arith, node_after w, v.linked t w, v.linked u w);
    scheduled = λ u p. ground (arith, r.times u, v.scheduled u);
    flagged = λ u p. ground (arith, v.flagged u);
  }

  module _ (now : ℕ) (t_due : due now s t ≡ true) where
    due_after : (u : ℕ) → due now after_root u ≡ (if t == u then false else due now s u)
    due_after u = ground (arith, r.times u)

    due_waiter_after :
        (w : ℕ)
        → due_waiter now after_root w
          ≡ (if member w (s.impls t).waiters then false else due_waiter now s w)
    due_waiter_after w = ground (arith, node_after w, v.linked t w, due_after_of w (s.nodes w).impl)
      where
        due_after_of :
            (w : ℕ) (o : Option ℕ)
            → waits_on_due now after_root o ≡ (if points o t then false else waits_on_due now s o)
        due_after_of w none = refl
        due_after_of w (some u) = ground (arith, due_after u)

    Fires-after_root :
        (s' : Service) (out out' : List ℕ)
        → Fires now after_root s' (out ++ (s.impls t).waiters) out'
        → Fires now s s' out out'
    Fires-after_root s' out out' f = record {
      links = f.links;
      times = λ u. ground (arith, f.times u, due_after u, r.times u);
      impls = λ u. ground (arith, f.impls u, due_after u);
      nodes = λ w. ground (arith, f.nodes w, due_waiter_after w, node_after w, v.linked t w);
      fired = λ w. ground (
        arith,
        f.fired w,
        due_waiter_after w,
        v.linked t w,
        count-append w out (s.impls t).waiters,
      );
      posted = f.posted;
      resumed = f.resumed;
      notified = f.notified;
      work = f.work;
    }

Fires-none :
    (now : ℕ) (s : Service) (out : List ℕ)
    → IsLinked s
    → (0 < length s.timers.heap → now < time_at s.timers 0)
    → Fires now s s out out
Fires-none now s out v h = record {
  links = v;
  times = λ t. rw (none_due now t s v h);
  impls = λ t. rw (none_due now t s v h);
  nodes = λ w. rw (not_due (s.nodes w).impl);
  fired = λ w. rw (not_due (s.nodes w).impl) (omega arith);
  posted = refl;
  resumed = refl;
  notified = refl;
  work = refl;
}
  where
    not_due : (o : Option ℕ) → waits_on_due now s o ≡ false
    not_due none = refl
    not_due (some t) = none_due now t s v h

expire_loop-Fires :
    (fuel now : ℕ) (out : List ℕ) (s : Service)
    → length s.timers.heap < fuel
    → IsLinked s
    → Ensures (λ (s', out'). Fires now s s' out out') (expire_loop fuel now out s)
unfolding expire_loop expire_one
expire_loop-Fires zero now out s f v = absurd (omega arith)
expire_loop-Fires (suc fuel) now out s f v =
    let P : Service × List ℕ → Type 0 = λ (s', out'). Fires now s s' out out' in
    Ensures-if P (length s.timers.heap == 0) _ _
      (λ e. Fires-none now s out v (λ p. absurd (ground arith)))
      (λ e.
        let some_heap : 0 < length s.timers.heap = ground arith in
        Ensures-if P (leb (time_at s.timers 0) now) _ _
          (λ early.
            let t = (entry s.timers 0).timer in
            let root = root_expiry s.timers v.index some_heap in
            let t_due : due now s t ≡ true = ground arith in
            Ensures-then (Removes t s.timers) _
              (remove_timer_impl-Removes t s.timers v.index v.order)
              λ h e r. rw e (
                Ensures-mono _ P _
                  (expire_loop-Fires fuel now (out ++ (s.impls t).waiters) (after_root t s v h r)
                    (ground (arith, r.shrinks)) (after_root-IsLinked t s v h r))
                  λ (s', out') f. Fires-after_root t s v h r now t_due s' out out' f))
          (λ late. Fires-none now s out v (λ p. leb→lt _ _ late)))

-- What process_expired leaves at the time `now`.
pub record Expired (now : ℕ) (s s' : Service) (n : ℕ) : Type 0 where
  pub consistent : IsConsistent s'
  pub times : (t : ℕ) → expiry_of s'.timers t ≡ (if due now s t then none else expiry_of s.timers t)
  pub impls :
      (t : ℕ)
      → s'.impls t ≡ (
          if due now s t
          then record (s.impls t) { waiters = []; might_have_pending_waits = false }
          else s.impls t)
  pub nodes :
      (w : ℕ)
      → s'.nodes w ≡ (
          if due_waiter now s w
          then record (s.nodes w) { impl = none; ec = success }
          else s.nodes w)
  pub posted :
      (fired : List ℕ) × (s'.posted ≡ s.posted ++ fired)
      × (n ≡ length fired)
      × ((w : ℕ) → count w fired ≡ (if due_waiter now s w then 1 else 0))

Expired-Fires :
    (now : ℕ) (s s' : Service) (fired : List ℕ)
    → Fires now s s' [] fired
    → Expired now s
        (record (refresh_cached_nearest s') { posted = s'.posted ++ fired })
        (length fired)
unfolding refresh_cached_nearest
Expired-Fires now s s' fired f = record {
  consistent = record {
    links = record {
      order = f.links.order;
      index = f.links.index;
      linked = f.links.linked;
      scheduled = f.links.scheduled;
      flagged = f.links.flagged;
    };
    cached = refl;
  };
  times = f.times;
  impls = f.impls;
  nodes = f.nodes;
  posted = (fired, rw f.posted, refl, λ w. omega (arith, f.fired w));
}

-- On a consistent service process_expired ends and leaves a consistent service: exactly the timers
-- that have expired by `now` leave the heap, with empty lists and clear flags; exactly the waiters
-- of those timers are unlinked with success and posted, each once; the result is their number; and
-- every other timer and waiter is as it was.
pub process_expired-Expired :
    (now : ℕ) (s : Service)
    → IsConsistent s
    → Ensures (λ (s', n). Expired now s s' n) (process_expired now s)
unfolding process_expired refresh_cached_nearest
process_expired-Expired now s c =
    Ensures-bind _ (λ (s', n). Expired now s s' n) _ _
      (expire_loop-Fires (length s.timers.heap + 1) now [] s (omega arith) c.links)
      λ (s', fired) f. Expired-Fires now s s' fired f

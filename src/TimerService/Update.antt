-- ===== src/TimerService/Update.antt =====
-- update_timer gives a timer a new expiry time and cancels its waiters.
use corosio.Base.{
  ℕ, ◌+◌, ◌≤◌, ◌<◌, ◌≡◌, ◌≢◌, refl, Bool, true, none, some, List, [], ltb, ◌==◌, if◌then◌else◌,
  length, arith, sym, append-nil, Ensures, Ensures-if, Ensures-bind, ltb→lt, ltb→le, ◌&&◌, not,
  Bool-cases, inl, inr,
}
use corosio.TimerHeap.{TimerHeap, entry, time_at, npos}
use corosio.TimerHeap.Index.{IsIndexed, expiry_of}
use corosio.TimerHeap.Order.{IsHeap}
use corosio.TimerHeap.Insert.{Inserts, set_time-Inserts, root-le}
use corosio.TimerService.{
  Service, detach, nearest, update_timer, retime, post_canceled, refresh_cached_nearest, set_impl,
  set_timers, notify,
}
use corosio.TimerService.Waiters.{IsConsistent, detach_lem, post_canceled_lem}
use corosio.TimerService.Expire.{root_expiry}
use corosio.TimerService.Cancel.{Cancels, waiters_of}

-- If the nearest expiry gets earlier, but only the timer `t` was changed, `t` is the root.
pub sooner_root :
    (t : ℕ) (h h' : TimerHeap)
    → IsHeap h
    → IsIndexed h'
    → 0 < length h'.heap
    → ((u : ℕ) → u ≢ t → expiry_of h' u ≡ expiry_of h u)
    → nearest h' < nearest h
    → h'.heap_index t ≡ 0
unfolding nearest
sooner_root t h h' order index some_heap same less =
    let r = (entry h' 0).timer in
    ground (
      arith,
      index.placed 0 some_heap,
      root_expiry h' index some_heap,
      same r,
      root-le h r (time_at h' 0) order,
    )

-- The heap after the new time, and whether `t` is its root now.
record Retimes (t new_time : ℕ) (h h' : TimerHeap) (earliest : Bool) : Type 0 where
  order : IsHeap h'
  index : IsIndexed h'
  times :
      (u : ℕ)
      → expiry_of h' u ≡ (
          if ltb (h.heap_index t) (length h.heap) && (t == u) then some new_time else expiry_of h u)
  root : earliest ≡ (h'.heap_index t == 0)
  unchanged : length h.heap ≤ h.heap_index t → h' ≡ h

retime-Retimes :
    (t new_time : ℕ) (h : TimerHeap)
    → IsHeap h
    → IsIndexed h
    → Ensures (λ (h', b). Retimes t new_time h h' b) (retime t new_time h)
unfolding retime
retime-Retimes t new_time h order index =
    let P : TimerHeap × Bool → Type 0 = λ (h', b). Retimes t new_time h h' b in
    Ensures-if P (ltb (h.heap_index t) (length h.heap)) _ _
      (λ e.
        let inside = ltb→lt _ _ e in
        Ensures-bind (Inserts (entry h (h.heap_index t)).timer new_time h) P _ _
          (set_time-Inserts (h.heap_index t) new_time h index order inside)
          λ h' k. record {
            order = k.order;
            index = k.index;
            times = λ u. ground (arith, k.times u, index.found t inside);
            root = refl;
            unchanged = λ p. absurd (omega arith);
          })
      (λ e. record {
        order = order;
        index = index;
        times = λ u. ground arith;
        root = ground (arith, index.absent t);
        unchanged = λ p. refl;
      })

-- What update_timer leaves: all waiters of `t` canceled, `n` of them, a timer in the heap at its new
-- time, and a notification if `t` expires first then.
pub record Updates (t new_time : ℕ) (s s' : Service) (n : ℕ) : Type 0 where
  pub cancels : Cancels t (waiters_of s t) s s'
  pub counted : n ≡ length (waiters_of s t)
  pub emptied : waiters_of s' t ≡ []
  pub moved : (time : ℕ) → expiry_of s.timers t ≡ some time → expiry_of s'.timers t ≡ some new_time
  pub absent : expiry_of s.timers t ≡ none → expiry_of s'.timers t ≡ none
  pub woken : s'.cached_nearest < s.cached_nearest → s'.notified ≡ s.notified + 1

module _ (t new_time : ℕ) (s : Service) (c : IsConsistent s) (h : TimerHeap) (earliest : Bool)
    (r : Retimes t new_time s.timers h earliest) where
  abbrev ws : List ℕ
  ws = waiters_of s t

  abbrev before_post : Service
  before_post = record (set_impl t (record (s.impls t) { waiters = [] }) (set_timers h s)) {
    nodes = detach ws s.nodes;
  }

  abbrev after_update : Service
  after_update = notify earliest (post_canceled ws (refresh_cached_nearest before_post))

  notified_sooner : nearest h < nearest s.timers → earliest ≡ true
  notified_sooner less = elim (Bool-cases (ltb (s.timers.heap_index t) (length s.timers.heap))) [
    | inl e ↦
        let some_heap : 0 < length h.heap = ground (arith, r.times t) in
        let root =
          sooner_root t s.timers h c.links.order r.index some_heap
            (λ u p. ground (arith, r.times u)) less in
        ground (arith, r.root)
    | inr e ↦
        let same = r.unchanged (ltb→le _ _ e) in absurd (let less' = rw same at less in omega arith)
  ]

  after_update-Updates : Updates t new_time s after_update (length ws)
  unfolding refresh_cached_nearest
  after_update-Updates = rw (post_canceled_lem ws _) (record {
    cancels = record {
      consistent = record {
        links = record {
          order = r.order;
          index = r.index;
          linked = λ u w.
              ground (arith, detach_lem ws s.nodes w, c.links.linked t w, c.links.linked u w);
          scheduled = λ u p. ground (arith, r.times u, c.links.scheduled u);
          flagged = λ u p. ground (arith, c.links.flagged u);
        };
        cached = refl;
      };
      nodes = λ w. ground (arith, detach_lem ws s.nodes w);
      posted = refl;
      others = λ u p. (ground arith, ground (arith, r.times u));
    };
    counted = refl;
    emptied = ground arith;
    moved = λ time e. ground (arith, r.times t);
    absent = λ e. ground (arith, r.times t);
    woken = λ p. rw (notified_sooner (rw c.cached at p));
  })

-- On a consistent service update_timer ends and leaves a consistent service: the waiters of the timer
-- are unlinked and posted as canceled, and the result is their number; a timer in the heap expires at
-- the new time, and one that is not there stays out; the other waiters and timers are as they were;
-- and if the cached nearest expiry became earlier, on_earliest_changed was called.
pub update_timer-Updates :
    (t new_time : ℕ) (s : Service)
    → IsConsistent s
    → Ensures (λ (s', n). Updates t new_time s s' n) (update_timer t new_time s)
unfolding update_timer
update_timer-Updates t new_time s c =
    let P : Service × ℕ → Type 0 = λ (s', n). Updates t new_time s s' n in
    let i = s.impls t in
    Ensures-if P (s.timers.heap_index t == npos && not i.might_have_pending_waits) _ _
      (λ e.
        let none_waits : waiters_of s t ≡ [] = ground (arith, c.links.flagged t) in
        let out : s.timers.heap_index t ≡ npos = ground arith in
        record {
          cancels = record {
            consistent = c;
            nodes = λ w. rw none_waits;
            posted = rw none_waits (sym (append-nil s.posted));
            others = λ u p. (refl, refl);
          };
          counted = rw none_waits;
          emptied = none_waits;
          moved = λ time p. ground (arith, c.links.index.sized);
          absent = λ p. p;
          woken = λ p. absurd (omega arith);
        })
      (λ e.
        Ensures-bind (λ (h, b). Retimes t new_time s.timers h b) P _ _
          (retime-Retimes t new_time s.timers c.links.order c.links.index)
          λ (h, b) r. after_update-Updates t new_time s c h b r)

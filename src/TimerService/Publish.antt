-- ===== src/TimerService/Publish.antt =====
-- insert_waiter publishes a waiter, and completes it at once if its stop was requested before.
use corosio.Base.{
  ℕ, ◌+◌, ◌<◌, ◌≡◌, ◌≢◌, refl, ap, ◌∙◌, Bool, true, false, Option, none, some, List, [], ◌∷◌, ◌++◌,
  ◌==◌, if◌then◌else◌, length, update, arith, count, Ensures, Ensures-if, Ensures-bind, ◌>>=◌,
  Bool-cases, inl, inr, count-append,
}
use corosio.TimerHeap.{npos}
use corosio.TimerHeap.Index.{IsIndexed, expiry_of}
use corosio.TimerHeap.Order.{IsHeap}
use corosio.TimerHeap.Insert.{Inserts, push_timer-Inserts}
use corosio.TimerService.{
  Service, canceled, nearest, insert_waiter, enlist, withdraw, post_canceled,
  refresh_cached_nearest, set_impl, notify, remove,
}
use corosio.TimerService.Waiters.{IsConsistent, count-remove}
use corosio.TimerService.Update.{sooner_root}
use corosio.TimerService.Cancel.{CancelsOne, TakesOff, withdraw-CancelsOne, waiters_of}

-- The waiter `w` is ready to be published on `t`: it is on no list, and wait() has set the flag.
pub record IsReady (t w : ℕ) (s : Service) : Type 0 where
  pub unlinked : (s.nodes w).impl ≡ none
  pub flag : (s.impls t).might_have_pending_waits ≡ true
  pub room : length s.timers.heap < npos

abbrev pub expiry_or : Option ℕ → ℕ → ℕ
expiry_or none d = d
expiry_or (some time) d = time

-- The timer `t` is in the heap: it was there, or was pushed with its expiry.
record Enlists (t : ℕ) (s s' : Service) (earliest : Bool) : Type 0 where
  order : IsHeap s'.timers
  index : IsIndexed s'.timers
  rest : s' ≡ record s { timers = s'.timers; cached_nearest = s'.cached_nearest }
  cached : s'.cached_nearest ≡ nearest s'.timers
  times :
      (u : ℕ)
      → expiry_of s'.timers u ≡ (
          if t == u
          then some (expiry_or (expiry_of s.timers t) (s.impls t).expiry)
          else expiry_of s.timers u)
  sooner : s'.cached_nearest < s.cached_nearest → earliest ≡ true

enlist-Enlists :
    (t : ℕ) (s : Service)
    → IsHeap s.timers
    → IsIndexed s.timers
    → s.cached_nearest ≡ nearest s.timers
    → length s.timers.heap < npos
    → Ensures (λ (s', b). Enlists t s s' b) (enlist t s)
unfolding enlist refresh_cached_nearest
enlist-Enlists t s order index cached room =
    let P : Service × Bool → Type 0 = λ (s', b). Enlists t s s' b in
    Ensures-if P (s.timers.heap_index t == npos) _ _
      (λ e.
        let absent : s.timers.heap_index t ≡ npos = ground arith in
        Ensures-bind (Inserts t (s.impls t).expiry s.timers) P _ _
          (push_timer-Inserts t (s.impls t).expiry s.timers index order absent room)
          λ h k. record {
            order = k.order;
            index = k.index;
            rest = refl;
            cached = refl;
            times = λ u. ground (arith, k.times u);
            sooner = λ less.
                let some_heap : 0 < length h.heap = ground (arith, k.times t) in
                let root =
                  sooner_root t s.timers h order k.index some_heap
                    (λ u p. ground (arith, k.times u)) (rw cached at less) in
                ground arith;
          })
      (λ e. record {
        order = order;
        index = index;
        rest = refl;
        cached = cached;
        times = λ u. ground (arith, index.absent t);
        sooner = λ less. absurd (omega arith);
      })

-- The waiter `w` waits on `t`, behind those that waited before.
pub record Publishes (t w : ℕ) (s s' : Service) : Type 0 where
  pub consistent : IsConsistent s'
  pub nodes :
      (v : ℕ) → s'.nodes v ≡ (if w == v then record (s.nodes v) { impl = some t } else s.nodes v)
  pub behind : waiters_of s' t ≡ waiters_of s t ++ w ∷ []
  pub others : (u : ℕ) → u ≢ t → s'.impls u ≡ s.impls u
  pub times :
      (u : ℕ)
      → expiry_of s'.timers u ≡ (
          if t == u
          then some (expiry_or (expiry_of s.timers t) (s.impls t).expiry)
          else expiry_of s.timers u)
  pub posted : s'.posted ≡ s.posted
  pub woken : s'.cached_nearest < s.cached_nearest → s'.notified ≡ s.notified + 1

-- The waiter `w` is completed as canceled and on no list; the other waiters still wait.
pub record Declines (t w : ℕ) (s s' : Service) : Type 0 where
  pub consistent : IsConsistent s'
  pub nodes :
      (v : ℕ)
      → s'.nodes v
        ≡ (if w == v then record (s.nodes v) { impl = none; ec = canceled } else s.nodes v)
  pub waiting : (u : ℕ) → waiters_of s' u ≡ waiters_of s u
  pub times : (u : ℕ) → 0 < length (waiters_of s u) → expiry_of s'.timers u ≡ expiry_of s.timers u
  pub posted : s'.posted ≡ s.posted ++ w ∷ []

remove-append : (w : ℕ) (ws : List ℕ) → count w ws ≡ 0 → remove w (ws ++ w ∷ []) ≡ ws
unfolding remove
remove-append w [] h = ground arith
remove-append w (v ∷ ws) h = ground (arith, remove-append w ws)

module _ (t w : ℕ) (s : Service) (c : IsConsistent s) (ready : IsReady t w s) where
  abbrev pointed : Service
  pointed = record s { nodes = update s.nodes w (record (s.nodes w) { impl = some t }) }

  module _ (s1 : Service) (earliest : Bool) (e : Enlists t pointed s1 earliest) where
    abbrev listed : Service
    listed = set_impl t (record (s1.impls t) { waiters = waiters_of s1 t ++ w ∷ [] }) s1

    impls_kept : (u : ℕ) → s1.impls u ≡ s.impls u
    impls_kept u = ap (λ (x : Service). x.impls u) e.rest

    nodes_kept : (v : ℕ) → s1.nodes v ≡ pointed.nodes v
    nodes_kept v = ap (λ (x : Service). x.nodes v) e.rest

    posted_kept : s1.posted ≡ s.posted
    posted_kept = ap (λ (x : Service). x.posted) e.rest

    notified_kept : s1.notified ≡ s.notified
    notified_kept = ap (λ (x : Service). x.notified) e.rest

    listed-IsConsistent : IsConsistent listed
    listed-IsConsistent = record {
      links = record {
        order = e.order;
        index = e.index;
        linked = λ u v. ground (
          arith,
          impls_kept u,
          impls_kept t,
          nodes_kept v,
          c.links.linked u v,
          c.links.linked t v,
          ready.unlinked,
          count-append v (waiters_of s1 t) (w ∷ []),
        );
        scheduled = λ u p. ground (arith, impls_kept u, e.times u, c.links.scheduled u);
        flagged = λ u p. ground (arith, impls_kept u, impls_kept t, c.links.flagged u, ready.flag);
      };
      cached = e.cached;
    }

    listed-Publishes : Publishes t w s (notify earliest listed)
    listed-Publishes = record {
      consistent = record {
        links = record {
          order = e.order;
          index = e.index;
          linked = listed-IsConsistent.links.linked;
          scheduled = listed-IsConsistent.links.scheduled;
          flagged = listed-IsConsistent.links.flagged;
        };
        cached = e.cached;
      };
      nodes = λ v. ground (arith, nodes_kept v);
      behind = ground (arith, impls_kept t);
      others = λ u p. ground (arith, impls_kept u);
      times = e.times;
      posted = posted_kept;
      woken = λ p. rw (e.sooner p, notified_kept);
    }

    unlisted : count w (waiters_of s t) ≡ 0
    unlisted = ground (arith, c.links.linked t w, ready.unlinked)

    removed : remove w (waiters_of listed t) ≡ waiters_of s t
    removed = ground (arith, impls_kept t, remove-append w (waiters_of s t) unlisted)

    listed-TakesOff : TakesOff t w (remove w (waiters_of s1 t ++ w ∷ [])) listed
    listed-TakesOff = record {
      held = ground (arith, count-append w (waiters_of s1 t) (w ∷ []));
      less = λ u. ground (arith, count-remove u w (waiters_of s1 t ++ w ∷ []));
    }

    Declines-CancelsOne :
        (s' : Service)
        → CancelsOne t w (remove w (waiters_of s1 t ++ w ∷ [])) listed s'
        → Declines t w s s'
    Declines-CancelsOne s' k = record {
      consistent = k.cancels.consistent;
      nodes = λ v. ground (arith, k.cancels.nodes v, nodes_kept v);
      waiting = λ u. ground (arith, removed, impls_kept u, k.left, k.cancels.others u);
      times = λ u p.
          ground (arith, removed, k.expiry, k.cancels.others u, e.times u, c.links.scheduled u);
      posted = k.cancels.posted ∙ ap (λ (l : List ℕ). l ++ w ∷ []) posted_kept;
    }

    insert_waiter-listed :
        Ensures
          (λ s'. if (s.nodes w).stop_requested then Declines t w s s' else Publishes t w s s')
          (if (s.nodes w).stop_requested
            then (withdraw t w (remove w (waiters_of s1 t ++ w ∷ [])) listed >>= λ s3.
                some (post_canceled (w ∷ []) s3))
            else some (notify earliest listed))
    insert_waiter-listed = elim (Bool-cases (s.nodes w).stop_requested) [
      | inl stop ↦ rw stop (
          Ensures-bind
            (λ s'.
              CancelsOne t w (remove w (waiters_of s1 t ++ w ∷ [])) listed
                (post_canceled (w ∷ []) s'))
            (Declines t w s) _ _
            (withdraw-CancelsOne t w _ listed listed-IsConsistent listed-TakesOff)
            λ s3 k. Declines-CancelsOne (post_canceled (w ∷ []) s3) k)
      | inr go ↦ rw go listed-Publishes
    ]

-- The list of `t` with the waiter `w` behind the others; the rest of the timer is as before.
abbrev pub Lists : ℕ → ℕ → Service → Service → Type 0
Lists t w s s' = s'.impls t ≡ record (s.impls t) { waiters = waiters_of s t ++ w ∷ [] }

listed-Lists :
    (t w : ℕ) (s s1 : Service) (b : Bool) (stopped : Option Service)
    → s1.impls t ≡ s.impls t
    → (s.nodes w).stop_requested ≡ false
    → Ensures (Lists t w s) (
        if (s.nodes w).stop_requested
        then stopped
        else some (
            notify b (set_impl t (record (s1.impls t) { waiters = waiters_of s1 t ++ w ∷ [] }) s1)))
listed-Lists t w s s1 b stopped e go = rw go (ground (arith, e))

-- insert_waiter stores nothing of the timer but its list, so that it leaves a clear flag clear.
pub insert_waiter-impl :
    (t w : ℕ) (s : Service)
    → IsConsistent s
    → (s.nodes w).stop_requested ≡ false
    → length s.timers.heap < npos
    → Ensures (Lists t w s) (insert_waiter t w s)
unfolding insert_waiter
insert_waiter-impl t w s c go room =
    let s0 : Service = record s {
      nodes = update s.nodes w (record (s.nodes w) { impl = some t });
    } in
    Ensures-bind (λ (s1, b). Enlists t s0 s1 b) _ _ _
      (enlist-Enlists t s0 c.links.order c.links.index c.cached room)
      λ (s1, b) e. listed-Lists t w s s1 b _ (ap (λ (x : Service). x.impls t) e.rest) go

-- On a consistent service, for a waiter that is on no list, with the timer's flag set and room in the
-- heap for one more timer, insert_waiter ends and leaves a consistent service. If no stop of the
-- waiter was requested, it waits on the timer behind the others, the timer is in the heap, with its
-- expiry if it was not there, nothing is posted, and if the cached nearest expiry became earlier,
-- on_earliest_changed was called. If its stop was requested before, it is completed as canceled and
-- is on no list, and the other waiters wait on as before.
pub insert_waiter_lem :
    (t w : ℕ) (s : Service)
    → IsConsistent s
    → IsReady t w s
    → Ensures
        (λ s'. if (s.nodes w).stop_requested then Declines t w s s' else Publishes t w s s')
        (insert_waiter t w s)
unfolding insert_waiter
insert_waiter_lem t w s c ready =
    Ensures-bind (λ (s1, b). Enlists t (pointed t w s c ready) s1 b) _ _ _
      (enlist-Enlists t (pointed t w s c ready) c.links.order c.links.index c.cached ready.room)
      λ (s1, b) e. insert_waiter-listed t w s c ready s1 b e

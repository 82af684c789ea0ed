-- ===== src/TimerPool/Recycle.antt =====
-- destroy cancels the waits of a timer and recycles it.
use corosio.Base.{
  ℕ, ◌+◌, ◌≡◌, ◌≢◌, refl, sym, ap, ◌∙◌, subst, true, false, not, none, some, List, [], ◌∷◌, length,
  count, ◌==◌, if◌then◌else◌, ◌>>=◌, arith, Option-cases, inl, inr, Ensures, Ensures-bind,
  Ensures-if,
}
use corosio.TimerHeap.{npos}
use corosio.TimerHeap.Index.{expiry_of}
use corosio.TimerHeap.Remove.{Removes, remove_timer_impl-Removes}
use corosio.TimerService.{Service, cancel_timer, refresh_cached_nearest}
use corosio.TimerService.Waiters.{IsConsistent}
use corosio.TimerService.Cancel.{CancelsAll, waiters_of, cancel_timer-CancelsAll}
use corosio.TimerPool.{Pool, try_push_tl_cache, leave_heap, recycle, destroy_impl, destroy}

-- A timer that is not in the heap, and that nobody waits for.
pub record IsIdle (t : ℕ) (s : Service) : Type 0 where
  pub outside : s.timers.heap_index t ≡ npos
  pub alone : waiters_of s t ≡ []

-- The timer `t` left the heap, and nothing else changed.
record Leaves (t : ℕ) (s s' : Service) : Type 0 where
  consistent : IsConsistent s'
  idle : IsIdle t s'
  impls : s'.impls ≡ s.impls
  nodes : s'.nodes ≡ s.nodes
  posted : s'.posted ≡ s.posted
  others : (u : ℕ) → u ≢ t → expiry_of s'.timers u ≡ expiry_of s.timers u

leave_heap-Leaves :
    (t : ℕ) (s : Service)
    → IsConsistent s
    → waiters_of s t ≡ []
    → Ensures (Leaves t s) (leave_heap t s)
unfolding leave_heap refresh_cached_nearest
leave_heap-Leaves t s c e =
    Ensures-if (Leaves t s) (not (s.timers.heap_index t == npos)) _ _
      (λ f.
        Ensures-bind (Removes t s.timers) (Leaves t s) _ _
          (remove_timer_impl-Removes t s.timers c.links.index c.links.order)
          λ h r. record {
            consistent = record {
              links = record {
                order = r.order;
                index = r.index;
                linked = c.links.linked;
                scheduled = λ u p. ground (arith, c.links.scheduled u p, r.times u);
                flagged = c.links.flagged;
              };
              cached = refl;
            };
            idle = record { outside = r.index.absent t (ground (arith, r.times t)); alone = e };
            impls = refl;
            nodes = refl;
            posted = refl;
            others = λ u q. ground (arith, r.times u);
          })
      (λ f. record {
        consistent = c;
        idle = record { outside = ground arith; alone = e };
        impls = refl;
        nodes = refl;
        posted = refl;
        others = λ u q. refl;
      })

-- The timers that wait to be used again: the slot and the free list.
pub recycled : Pool → List ℕ
recycled p = elim p.tl_cached [ none ↦ p.free_list | some t ↦ t ∷ p.free_list ]

-- `t` was destroyed: its waiters were canceled, it is idle, and it is recycled once.
pub record Recycles (t : ℕ) (p p' : Pool) : Type 0 where
  pub cancels : CancelsAll t p.service p'.service (length (waiters_of p.service t))
  pub idle : IsIdle t p'.service
  pub kept : (u : ℕ) → count u (recycled p') ≡ count u (recycled p) + (if t == u then 1 else 0)

recycle-count :
    (t u : ℕ) (p : Pool)
    → count u (recycled (recycle t p)) ≡ count u (recycled p) + (if t == u then 1 else 0)
unfolding recycle try_push_tl_cache recycled
recycle-count t u p = elim (Option-cases p.tl_cached) [
  | inl e ↦ rw (e, recycle, recycled) (ground arith)
  | inr (v, e) ↦ rw (e, recycle, recycled) (ground arith)
]

recycle-service : (t : ℕ) (p : Pool) → (recycle t p).service ≡ p.service
unfolding recycle try_push_tl_cache
recycle-service t p = elim (Option-cases p.tl_cached) [
  | inl e ↦ rw (e, recycle) refl
  | inr (v, e) ↦ rw (e, recycle) refl
]

canceled-left :
    (t n : ℕ) (s s1 s2 : Service)
    → CancelsAll t s s1 n
    → Leaves t s1 s2
    → CancelsAll t s s2 (length (waiters_of s t))
canceled-left t n s s1 s2 c l = record {
  cancels = record {
    consistent = l.consistent;
    nodes = λ w. ap (λ f. f w) l.nodes ∙ c.cancels.nodes w;
    posted = l.posted ∙ c.cancels.posted;
    others = λ u q.
        (ap (λ f. f u) l.impls ∙ (c.cancels.others u q).0, l.others u q ∙ (c.cancels.others u q).1);
  };
  counted = refl;
  emptied = ap (λ f. (f t).waiters) l.impls ∙ c.emptied;
}

recycled-Recycles :
    (t n : ℕ) (p : Pool) (s1 s2 : Service)
    → CancelsAll t p.service s1 n
    → Leaves t s1 s2
    → Recycles t p (recycle t (record p { service = s2 }))
unfolding recycled
recycled-Recycles t n p s1 s2 k l =
    let p2 = record p { service = s2 } in
    let same = recycle-service t p2 in
    record {
      cancels =
          subst (λ x. CancelsAll t p.service x (length (waiters_of p.service t))) (sym same)
            (canceled-left t n p.service s1 s2 k l);
      idle = subst (IsIdle t) (sym same) l.idle;
      kept = λ u. recycle-count t u p2;
    }

-- Before the shutdown destroy ends on a consistent service and leaves a consistent service: the
-- waiters of the timer are unlinked and posted as canceled, the other waiters and timers are as they
-- were, the timer is not in the heap, and it is recycled once, in the thread's slot or on the free
-- list, where the timers recycled before stay.
pub destroy-Recycles :
    (t : ℕ) (p : Pool)
    → IsConsistent p.service
    → p.shutting_down ≡ false
    → Ensures (Recycles t p) (destroy t p)
unfolding destroy destroy_impl
destroy-Recycles t p c e =
    let s = p.service in
    let P = Recycles t p in
    let running : Ensures P (
        cancel_timer t s >>= λ x.
        leave_heap t x.0 >>= λ s2. some (recycle t (record p { service = s2 }))) =
      Ensures-bind (λ x. CancelsAll t s x.0 x.1) P _ _ (cancel_timer-CancelsAll t s c)
        λ x k.
          Ensures-bind (Leaves t x.0) P _ _ (leave_heap-Leaves t x.0 k.cancels.consistent k.emptied)
            λ s2 l. recycled-Recycles t x.1 p x.0 s2 k l in
    let stopped : p.shutting_down ≡ true → Ensures P (some p) = λ f. absurd (ground arith) in
    Ensures-if P p.shutting_down (some p) _ stopped
      λ f. Ensures-if P p.shutting_down (some p) _ stopped λ g. running

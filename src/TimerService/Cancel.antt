-- ===== src/TimerService/Cancel.antt =====
-- cancel_timer, cancel_one_waiter, cancel_waiter and update_timer.
use corosio.Base.{
  ℕ, ◌-◌, ◌<◌, ◌≡◌, ◌≢◌, refl, ap, false, none, some, List, [], ◌∷◌, ◌++◌, ◌==◌, if◌then◌else◌,
  length, arith, count, sym, append-nil, Ensures, Ensures-if, Ensures-bind, Ensures-then,
  count-le-length, Option-cases, inl, inr, subst,
}
use corosio.TimerHeap.{TimerHeap}
use corosio.TimerHeap.Index.{expiry_of}
use corosio.TimerHeap.Remove.{Removes, remove_timer_impl-Removes}
use corosio.TimerService.{
  Service, canceled, detach, cancel_timer, cancel_waiter, cancel_one_waiter, withdraw, retire,
  post_canceled, refresh_cached_nearest, clear_impl, set_timers, remove,
}
use corosio.TimerService.Waiters.{IsConsistent, member, detach_lem, post_canceled_lem, count-remove}

-- The waiters `ws` of the timer `t` were taken off, completed as canceled and posted in this order;
-- the other waiters and timers are as they were.
pub record Cancels (t : ℕ) (ws : List ℕ) (s s' : Service) : Type 0 where
  pub consistent : IsConsistent s'
  pub nodes :
      (w : ℕ)
      → s'.nodes w
        ≡ (if member w ws then record (s.nodes w) { impl = none; ec = canceled } else s.nodes w)
  pub posted : s'.posted ≡ s.posted ++ ws
  pub others :
      (u : ℕ) → u ≢ t → (s'.impls u ≡ s.impls u) × (expiry_of s'.timers u ≡ expiry_of s.timers u)

abbrev pub waiters_of : Service → ℕ → List ℕ
waiters_of s t = (s.impls t).waiters

-- All waiters of `t` were canceled, `n` of them.
pub record CancelsAll (t : ℕ) (s s' : Service) (n : ℕ) : Type 0 where
  pub cancels : Cancels t (waiters_of s t) s s'
  pub counted : n ≡ length (waiters_of s t)
  pub emptied : waiters_of s' t ≡ []

-- The waiter `w` of `t` was canceled, and `rest` is left. Without waiters the timer is not in the
-- heap and its flag is clear, and with some it expires as before.
pub record CancelsOne (t w : ℕ) (rest : List ℕ) (s s' : Service) : Type 0 where
  pub cancels : Cancels t (w ∷ []) s s'
  pub left : waiters_of s' t ≡ rest
  pub expiry : expiry_of s'.timers t ≡ (if length rest == 0 then none else expiry_of s.timers t)
  pub cleared : length rest ≡ 0 → (s'.impls t).might_have_pending_waits ≡ false

module _ (t : ℕ) (s : Service) (c : IsConsistent s) (h : TimerHeap) (r : Removes t s.timers h) where
  abbrev ws : List ℕ
  ws = (s.impls t).waiters

  abbrev after_cancel : Service
  after_cancel = post_canceled ws (
      refresh_cached_nearest (record (clear_impl t (set_timers h s)) { nodes = detach ws s.nodes }))

  after_cancel-CancelsAll : CancelsAll t s after_cancel (length ws)
  unfolding refresh_cached_nearest
  after_cancel-CancelsAll = rw (post_canceled_lem ws _) (record {
    cancels = record {
      consistent = record {
        links = record {
          order = r.order;
          index = r.index;
          linked = λ u w.
              ground (arith, detach_lem ws s.nodes w, c.links.linked t w, c.links.linked u w);
          scheduled = λ u p. ground (arith, r.times u, c.links.scheduled u);
          flagged = λ u p. ground (arith, c.links.flagged u);
        };
        cached = refl;
      };
      nodes = λ w. ground (arith, detach_lem ws s.nodes w);
      posted = refl;
      others = λ u p. (ground arith, ground (arith, r.times u));
    };
    counted = refl;
    emptied = ground arith;
  })

-- On a consistent service cancel_timer ends and leaves a consistent service: all waiters of the timer
-- are unlinked and posted as canceled, in the order of their waits, and the result is their number;
-- the other waiters and timers are as they were.
pub cancel_timer-CancelsAll :
    (t : ℕ) (s : Service)
    → IsConsistent s
    → Ensures (λ (s', n). CancelsAll t s s' n) (cancel_timer t s)
unfolding cancel_timer
cancel_timer-CancelsAll t s c =
    let P : Service × ℕ → Type 0 = λ (s', n). CancelsAll t s s' n in
    Ensures-if P (s.impls t).might_have_pending_waits _ _
      (λ e.
        Ensures-bind (Removes t s.timers) P _ _
          (remove_timer_impl-Removes t s.timers c.links.index c.links.order)
          λ h r. after_cancel-CancelsAll t s c h r)
      (λ e.
        let none_waits : waiters_of s t ≡ [] = ground (arith, c.links.flagged t) in
        record {
          cancels = record {
            consistent = c;
            nodes = λ w. rw none_waits;
            posted = rw none_waits (sym (append-nil s.posted));
            others = λ u p. (refl, refl);
          };
          counted = rw none_waits;
          emptied = none_waits;
        })

-- Taking `w` off the list of `t` leaves `rest`.
pub record TakesOff (t w : ℕ) (rest : List ℕ) (s : Service) : Type 0 where
  pub held : 0 < count w (waiters_of s t)
  pub less : (u : ℕ) → count u rest ≡ count u (waiters_of s t) - (if w == u then 1 else 0)

withdraw_last :
    (t w : ℕ) (s : Service)
    → IsConsistent s
    → TakesOff t w [] s
    → Ensures (λ s'. CancelsOne t w [] s (post_canceled (w ∷ []) s')) (withdraw t w [] s)
unfolding withdraw retire refresh_cached_nearest
withdraw_last t w s c o =
    Ensures-then (Removes t s.timers) _
      (remove_timer_impl-Removes t s.timers c.links.index c.links.order)
      λ h e r. rw e (
        rw (post_canceled_lem (w ∷ []) _) (record {
          cancels = record {
            consistent = record {
              links = record {
                order = r.order;
                index = r.index;
                linked =
                    λ u v. ground (arith, c.links.linked t v, c.links.linked u v, o.less v, o.held);
                scheduled = λ u p. ground (arith, r.times u, c.links.scheduled u);
                flagged = λ u p. ground (arith, c.links.flagged u);
              };
              cached = refl;
            };
            nodes = λ v. ground arith;
            posted = refl;
            others = λ u p. (ground arith, ground (arith, r.times u));
          };
          left = ground arith;
          expiry = ground (arith, r.times t);
          cleared = λ p. ground arith;
        }))

withdraw_more :
    (t w x : ℕ) (xs : List ℕ) (s : Service)
    → IsConsistent s
    → TakesOff t w (x ∷ xs) s
    → Ensures
        (λ s'. CancelsOne t w (x ∷ xs) s (post_canceled (w ∷ []) s'))
        (withdraw t w (x ∷ xs) s)
unfolding withdraw retire refresh_cached_nearest
withdraw_more t w x xs s c o = rw (post_canceled_lem (w ∷ []) _) (record {
  cancels = record {
    consistent = record {
      links = record {
        order = c.links.order;
        index = c.links.index;
        linked = λ u v. ground (arith, c.links.linked t v, c.links.linked u v, o.less v, o.held);
        scheduled = λ u p. ground (
          arith,
          c.links.scheduled u,
          c.links.scheduled t,
          o.held,
          count-le-length w (waiters_of s t),
        );
        flagged = λ u p. ground (
          arith,
          c.links.flagged u,
          c.links.flagged t,
          o.held,
          count-le-length w (waiters_of s t),
        );
      };
      cached = refl;
    };
    nodes = λ v. ground arith;
    posted = refl;
    others = λ u p. (ground arith, refl);
  };
  left = ground arith;
  expiry = ground arith;
  cleared = λ p. absurd (omega arith);
})

pub withdraw-CancelsOne :
    (t w : ℕ) (rest : List ℕ) (s : Service)
    → IsConsistent s
    → TakesOff t w rest s
    → Ensures (λ s'. CancelsOne t w rest s (post_canceled (w ∷ []) s')) (withdraw t w rest s)
withdraw-CancelsOne t w [] s c o = withdraw_last t w s c o
withdraw-CancelsOne t w (x ∷ xs) s c o = withdraw_more t w x xs s c o

-- On a consistent service cancel_waiter ends and leaves a consistent service. A waiter on the list of
-- a timer is unlinked and posted as canceled, and the others stay on the list; without them the timer
-- leaves the heap. For a waiter that is on no list nothing changes.
pub cancel_waiter-CancelsOne :
    (w : ℕ) (s : Service)
    → IsConsistent s
    → Ensures
        (λ s'.
          ((t : ℕ) → (s.nodes w).impl ≡ some t → CancelsOne t w (remove w (waiters_of s t)) s s')
          × ((s.nodes w).impl ≡ none → s' ≡ s))
        (cancel_waiter w s)
unfolding cancel_waiter
cancel_waiter-CancelsOne w s c = elim (Option-cases (s.nodes w).impl) [
  | inl e ↦ rw (e, cancel_waiter) ((λ t p. absurd (cc)), (λ p. refl))
  | inr (t, e) ↦
      rw (e, cancel_waiter)
        (Ensures-bind
          (λ s'. CancelsOne t w (remove w (waiters_of s t)) s (post_canceled (w ∷ []) s')) _ _ _
          (withdraw-CancelsOne t w (remove w (waiters_of s t)) s c (record {
            held = ground (arith, c.links.linked t w);
            less = λ u. ground (arith, count-remove u w (waiters_of s t));
          }))
          λ s1 k. (
            (λ u p.
                let same : t ≡ u = ground arith in
                subst
                  (λ v. CancelsOne v w (remove w (waiters_of s v)) s (post_canceled (w ∷ []) s1))
                  same k),
            (λ p. absurd (cc)),
          ))
]

abbrev pub CancelsFirst : ℕ → List ℕ → Service → Service → ℕ → Type 0
CancelsFirst t [] s s' n = (s' ≡ s) × (n ≡ 0)
CancelsFirst t (w ∷ rest) s s' n = CancelsOne t w rest s s' × (n ≡ 1)

cancel_one_of :
    (t : ℕ) (ws : List ℕ) (s : Service)
    → IsConsistent s
    → waiters_of s t ≡ ws
    → Ensures (λ (s', n). CancelsFirst t ws s s' n) (cancel_one_waiter t s)
unfolding cancel_one_waiter
cancel_one_of t [] s c e =
    Ensures-if (λ (s', n). CancelsFirst t [] s s' n) (s.impls t).might_have_pending_waits _ _
      (λ p. rw (e, cancel_one_waiter) (refl, refl)) (λ p. (refl, refl))
cancel_one_of t (w ∷ rest) s c e =
    Ensures-if (λ (s', n). CancelsFirst t (w ∷ rest) s s' n) (s.impls t).might_have_pending_waits _
      _
      (λ p.
        rw (e, cancel_one_waiter)
          (Ensures-bind (λ s'. CancelsOne t w rest s (post_canceled (w ∷ []) s'))
            (λ (s', n). CancelsFirst t (w ∷ rest) s s' n) _ _
            (withdraw-CancelsOne t w rest s c
              (record { held = rw e (ground arith); less = λ u. rw e (ground arith) }))
            λ s1 k. (k, refl)))
      (λ p. absurd (ground (arith, c.links.flagged t, ap length e)))

-- On a consistent service cancel_one_waiter ends and leaves a consistent service. Of a timer with
-- waiters the one that has waited longest is unlinked and posted as canceled, the others stay in
-- order, and the result is 1; of a timer without any nothing changes, and the result is 0.
pub cancel_one_waiter-CancelsFirst :
    (t : ℕ) (s : Service)
    → IsConsistent s
    → Ensures (λ (s', n). CancelsFirst t (waiters_of s t) s s' n) (cancel_one_waiter t s)
cancel_one_waiter-CancelsFirst t s c = cancel_one_of t (waiters_of s t) s c refl

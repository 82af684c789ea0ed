-- ===== src/Timer/Race.antt =====
-- The flag that wait sets without the lock of timer_service.
use corosio.Base.{
  ℕ, ◌<◌, ◌≡◌, ◌≢◌, refl, ap, true, false, Option, none, some, [], ◌∷◌, ◌++◌, length, arith, ◌∙◌,
  Ensures, Ensures-mono, subst, sym, update, ◌+◌, if_false,
}
use corosio.TimerHeap.{npos}
use corosio.TimerService.{
  Service, begin_wait, already_expired, cancel_waiter, insert_waiter, remove, set_impl,
}
use corosio.TimerService.Waiters.{IsConsistent, points}
use corosio.TimerService.Cancel.{CancelsOne, waiters_of, cancel_waiter-CancelsOne}
use corosio.TimerService.Publish.{Lists, insert_waiter-impl}
use corosio.Timer.{cancel, cancel_one}

-- The waiter `w` waits on `t`, but cancel and cancel_one find nothing to cancel.
abbrev pub IsMissed : ℕ → ℕ → Service → Type 0
IsMissed t w s =
    (waiters_of s t ≡ w ∷ []) × (cancel t s ≡ some (s, 0)) × (cancel_one t s ≡ some (s, 0))

unflagged :
    (t w : ℕ) (s : Service)
    → waiters_of s t ≡ w ∷ []
    → (s.impls t).might_have_pending_waits ≡ false
    → IsMissed t w s
unfolding cancel cancel_one
unflagged t w s e f = (e, rw f refl, rw f refl)

points_to : (t : ℕ) (o : Option ℕ) → points o t ≡ true → o ≡ some t
points_to t none p = absurd (cc)
points_to t (some u) p = ground arith

-- A timer with a waiter is in the heap, so that a wait on it is published; wait sets the flag, and
-- the service stays consistent.
module _ (t v w now : ℕ) (s : Service) (c : IsConsistent s) (waits : waiters_of s t ≡ v ∷ [])
    (unlinked : (s.nodes w).impl ≡ none) where
  inside : s.timers.heap_index t < length s.timers.heap
  inside = c.links.scheduled t (rw waits (omega arith))

  not_expired : already_expired t now s ≡ false
  unfolding already_expired
  not_expired = ground (arith, inside, c.links.index.sized)

  abbrev published : Service
  published = record (set_impl t (record (s.impls t) { might_have_pending_waits = true }) s) {
    nodes = update s.nodes w (record (s.nodes w) { impl = none });
    work = s.work + 1;
  }

  begin_wait-publishes : begin_wait t w now s ≡ (published, true)
  unfolding begin_wait
  begin_wait-publishes = if_false (already_expired t now s) _ (published, true) not_expired

  published-IsConsistent : IsConsistent published
  published-IsConsistent = record {
    links = record {
      order = c.links.order;
      index = c.links.index;
      linked = λ u x. ground (arith, c.links.linked u x, c.links.linked t x, unlinked);
      scheduled = λ u p. ground (arith, c.links.scheduled u);
      flagged = λ u p. ground (arith, c.links.flagged u);
    };
    cached = c.cached;
  }

  linked : (s.nodes v).impl ≡ some t
  linked = points_to t (s.nodes v).impl (ground (arith, c.links.linked t v, waits))

  waiter_cancels : (published.nodes v).impl ≡ some t
  waiter_cancels = ground (arith, linked, unlinked)

  other_waiter : v ≢ w
  other_waiter = ground (arith, linked, unlinked)

  same_list : waiters_of published t ≡ v ∷ []
  same_list = ground (arith, waits)

  module _ (s2 : Service) (k : CancelsOne t v (remove v (waiters_of published t)) published s2)
      (go : (s.nodes w).stop_requested ≡ false) (room : length s2.timers.heap < npos) where
    none_left : waiters_of s2 t ≡ []
    unfolding remove
    none_left = k.left ∙ ap (remove v) same_list ∙ ground arith

    clear : (s2.impls t).might_have_pending_waits ≡ false
    unfolding remove
    clear = k.cleared (ap length (ap (remove v) same_list) ∙ ground arith)

    goes : (s2.nodes w).stop_requested ≡ false
    goes = ground (arith, k.cancels.nodes w, other_waiter, go)

    missed : Ensures (IsMissed t w) (insert_waiter t w s2)
    missed =
        Ensures-mono (Lists t w s2) (IsMissed t w) (insert_waiter t w s2)
          (insert_waiter-impl t w s2 k.cancels.consistent goes room)
          λ s3 e.
            unflagged t w s3 (ap (λ i. i.waiters) e ∙ ap (λ ws. ws ++ w ∷ []) none_left)
              (ap (λ i. i.might_have_pending_waits) e ∙ clear)

-- On a consistent service let wait publish the waiter `w`, whose stop was not requested and which is
-- on no list, on a timer with the single waiter `v`, and let cancel_waiter of `v` run after wait
-- has stored the timer's flag and before insert_waiter takes the lock. Then, with room in the heap,
-- insert_waiter ends and leaves `w` waiting alone on the timer with the flag clear: cancel and
-- cancel_one return 0 and do nothing.
pub begin_wait-IsMissed :
    (t v w now : ℕ) (s s2 : Service)
    → IsConsistent s
    → waiters_of s t ≡ v ∷ []
    → (s.nodes w).impl ≡ none
    → (s.nodes w).stop_requested ≡ false
    → cancel_waiter v (begin_wait t w now s).0 ≡ some s2
    → length s2.timers.heap < npos
    → ((begin_wait t w now s).1 ≡ true) × Ensures (IsMissed t w) (insert_waiter t w s2)
begin_wait-IsMissed t v w now s s2 c waits unlinked go e room =
    let b = published t v w now s c waits unlinked in
    let eq = begin_wait-publishes t v w now s c waits unlinked in
    let k =
      subst
        (Ensures λ s'.
          ((u : ℕ) → (b.nodes v).impl ≡ some u → CancelsOne u v (remove v (waiters_of b u)) b s')
          × ((b.nodes v).impl ≡ none → s' ≡ b))
        (ap (λ r. cancel_waiter v r.0) (sym eq) ∙ e)
        (cancel_waiter-CancelsOne v b (published-IsConsistent t v w now s c waits unlinked)) in
    (
      ap (λ r. r.1) eq,
      missed t v w now s c waits unlinked s2 (k.0 t (waiter_cancels t v w now s c waits unlinked))
          go room,
    )

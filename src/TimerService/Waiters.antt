-- ===== src/TimerService/Waiters.antt =====
-- What the loops over waiter lists do to the nodes, and the invariant of the service.
use corosio.Base.{
  ℕ, ◌-◌, ◌<◌, ◌≡◌, refl, ap, ◌∙◌, Bool, true, false, Option, none, some, List, [], ◌∷◌, ◌++◌, ltb,
  ◌==◌, if◌then◌else◌, length, update, arith, count, sym, append_assoc, append-nil,
}
use corosio.TimerHeap.Index.{IsIndexed}
use corosio.TimerHeap.Order.{IsHeap}
use corosio.TimerService.{
  Service, Waiter, success, canceled, detach, release, post_canceled, remove, nearest,
}

abbrev pub member : ℕ → List ℕ → Bool
member w ws = ltb 0 (count w ws)

abbrev pub detached : List ℕ → (ℕ → Waiter) → ℕ → Waiter
detached ws nodes w = if member w ws then record (nodes w) { impl = none } else nodes w

abbrev pub released : List ℕ → (ℕ → Waiter) → ℕ → Waiter
released ws nodes w =
    if member w ws then record (nodes w) { impl = none; ec = success } else nodes w

abbrev pub as_canceled : List ℕ → (ℕ → Waiter) → ℕ → Waiter
as_canceled ws nodes w = if member w ws then record (nodes w) { ec = canceled } else nodes w

pub detach_lem :
    (ws : List ℕ) (nodes : ℕ → Waiter) (w : ℕ) → detach ws nodes w ≡ detached ws nodes w
unfolding detach
detach_lem [] nodes w = refl
detach_lem (v ∷ ws) nodes w =
    ground (arith, detach_lem ws (update nodes v (record (nodes v) { impl = none })) w)

pub release_lem :
    (ws : List ℕ) (nodes : ℕ → Waiter) (w : ℕ) → release ws nodes w ≡ released ws nodes w
unfolding release
release_lem [] nodes w = refl
release_lem (v ∷ ws) nodes w =
    ground
      (arith, release_lem ws (update nodes v (record (nodes v) { impl = none; ec = success })) w)

marked :
    (v w : ℕ) (ws : List ℕ) (nodes : ℕ → Waiter)
    → as_canceled ws (update nodes v (record (nodes v) { ec = canceled })) w
      ≡ as_canceled (v ∷ ws) nodes w
marked v w ws nodes = ground arith

-- The list is posted in its order, each node as canceled, and nothing else changes.
pub post_canceled_lem :
    (ws : List ℕ) (s : Service)
    → post_canceled ws s ≡ record s { nodes = as_canceled ws s.nodes; posted = s.posted ++ ws }
unfolding post_canceled
post_canceled_lem [] s = ap (λ (p : List ℕ). record s { posted = p }) (sym (append-nil s.posted))
post_canceled_lem (v ∷ ws) s =
    post_canceled_lem ws (record s {
      nodes = update s.nodes v (record (s.nodes v) { ec = canceled });
      posted = s.posted ++ v ∷ [];
    })
    ∙ λ i. record s {
      nodes = λ w. marked v w ws s.nodes i;
      posted = append_assoc s.posted (v ∷ []) ws i;
    }

pub count-remove :
    (v w : ℕ) (ws : List ℕ)
    → count v (remove w ws) ≡ (if w == v then count v ws - 1 else count v ws)
unfolding remove
count-remove v w [] = ground arith
count-remove v w (x ∷ ws) = ground (arith, count-remove v w ws)

abbrev pub points : Option ℕ → ℕ → Bool
points none t = false
points (some u) t = u == t

-- Every waiter node is on the list of the timer that it points to, once, and on no other. A timer
-- with waiters is in the heap and has its flag set. The heap is in order.
pub record IsLinked (s : Service) : Type 0 where
  pub order : IsHeap s.timers
  pub index : IsIndexed s.timers
  pub linked :
      (t w : ℕ) → count w (s.impls t).waiters ≡ (if points (s.nodes w).impl t then 1 else 0)
  pub scheduled :
      (t : ℕ) → 0 < length (s.impls t).waiters → s.timers.heap_index t < length s.timers.heap
  pub flagged :
      (t : ℕ) → 0 < length (s.impls t).waiters → (s.impls t).might_have_pending_waits ≡ true

-- And the cached nearest expiry is that of the heap.
pub record IsConsistent (s : Service) : Type 0 where
  pub links : IsLinked s
  pub cached : s.cached_nearest ≡ nearest s.timers

-- ===== src/TimerPool/Construct.antt =====
-- construct returns a timer like new.
use corosio.Base.{
  ℕ, ◌<◌, ◌≡◌, ◌≢◌, refl, sym, ap, subst, fun_ext, false, Option, none, some, List, [], ◌∷◌, ◌++◌,
  count, ◌==◌, update, arith, Bool-cases, inl, inr, if◌then◌else◌, if_true, if_false, ◌∙◌,
  append-nil,
}
use corosio.TimerHeap.{TimerHeap, npos}
use corosio.TimerService.{Service, Implementation, set_impl, set_timers}
use corosio.TimerService.Waiters.{IsConsistent}
use corosio.TimerPool.{
  Pool, epoch, initial_impl, try_pop_tl_cache, pop_cached, take_free, construct_from, reset,
  allocate, construct,
}
use corosio.TimerPool.Recycle.{IsIdle}

-- A timer like new: the clock's epoch as its expiry, no flag, no waiters, not in the heap.
pub record IsFresh (svc t : ℕ) (p : Pool) : Type 0 where
  pub owned : p.owner t ≡ svc
  pub impl : p.service.impls t ≡ initial_impl
  pub outside : p.service.timers.heap_index t ≡ npos

-- The service `svc` works, and the timers it would use again are idle.
pub record IsPool (svc : ℕ) (p : Pool) : Type 0 where
  pub consistent : IsConsistent p.service
  pub slot : (t : ℕ) → p.tl_cached ≡ some t → p.owner t ≡ svc → IsIdle t p.service
  pub free : (t : ℕ) → 0 < count t p.free_list → IsIdle t p.service

-- `t` was constructed: it is fresh, and the service works on with the other timers as they were.
pub record Constructs (svc t : ℕ) (s : Service) (p' : Pool) : Type 0 where
  pub fresh : IsFresh svc t p'
  pub consistent : IsConsistent p'.service
  pub others : (u : ℕ) → u ≢ t → p'.service.impls u ≡ s.impls u
  pub heap : p'.service.timers.heap ≡ s.timers.heap

-- The timers that construct uses again, in their order: the thread's slot if `svc` owns it, then the
-- free list.
abbrev pub supply : ℕ → Pool → List ℕ
supply svc p = elim p.tl_cached [
  | none ↦ p.free_list
  | some t ↦ if p.owner t == svc then t ∷ p.free_list else p.free_list
]

-- The impl in the thread's slot, if another service owns it.
abbrev pub foreign : ℕ → Pool → List ℕ
foreign svc p = elim p.tl_cached [ none ↦ [] | some t ↦ if p.owner t == svc then [] else t ∷ [] ]

abbrev pub first_or : ℕ → List ℕ → ℕ
first_or d [] = d
first_or d (t ∷ _) = t

abbrev pub rest_of : List ℕ → List ℕ
rest_of [] = []
rest_of (_ ∷ ts) = ts

-- `t` is the first timer of the supply, or the new one when there is none, and it has left the
-- supply; an impl of another service is deleted.
pub record Takes (svc new_impl : ℕ) (p : Pool) (t : ℕ) (p' : Pool) : Type 0 where
  pub origin : t ≡ first_or new_impl (supply svc p)
  pub slot : p'.tl_cached ≡ none
  pub free : p'.free_list ≡ rest_of (supply svc p)
  pub deleted : p'.deleted ≡ p.deleted ++ foreign svc p

-- Storing npos as the index of a timer that is not in the heap changes nothing.
index-same :
    (t : ℕ) (h : TimerHeap) → h.heap_index t ≡ npos → update h.heap_index t npos ≡ h.heap_index
index-same t h e = fun_ext λ u. ground arith

idle-set_impl :
    (t : ℕ) (i : Implementation) (s : Service)
    → IsConsistent s
    → IsIdle t s
    → i.waiters ≡ []
    → IsConsistent (set_impl t i s)
idle-set_impl t i s c d e = record {
  links = record {
    order = c.links.order;
    index = c.links.index;
    linked = λ u w. let a = d.alone in ground (arith, c.links.linked u w, c.links.linked t w);
    scheduled = λ u p. ground (arith, c.links.scheduled u);
    flagged = λ u p. ground (arith, c.links.flagged u);
  };
  cached = c.cached;
}

allocate-Constructs :
    (svc t : ℕ) (p : Pool)
    → IsConsistent p.service
    → IsIdle t p.service
    → Constructs svc t p.service (allocate svc t p)
unfolding allocate
allocate-Constructs svc t p c d = record {
  fresh = record { owned = ground arith; impl = ground arith; outside = ground arith };
  consistent =
      subst
        (λ f. IsConsistent (
          set_impl t initial_impl
            (set_timers (record p.service.timers { heap_index = f }) p.service)))
        (sym (index-same t p.service.timers d.outside))
        (idle-set_impl t initial_impl p.service c d refl);
  others = λ u q. ground arith;
  heap = refl;
}

-- A recycled timer has no waiters, so that construct leaves its list alone.
reset-allocate : (svc t : ℕ) (p : Pool) → IsIdle t p.service → reset svc t p ≡ allocate svc t p
unfolding reset allocate
reset-allocate svc t p d =
    ap
      (λ ws. record p {
        owner = update p.owner t svc;
        service =
            set_impl t (record { expiry = epoch; might_have_pending_waits = false; waiters = ws })
              (set_timers
                (record p.service.timers { heap_index = update p.service.timers.heap_index t npos })
                p.service);
      })
      d.alone

reset-Constructs :
    (svc t : ℕ) (p : Pool)
    → IsConsistent p.service
    → IsIdle t p.service
    → Constructs svc t p.service (reset svc t p)
reset-Constructs svc t p c d =
    subst (Constructs svc t p.service) (sym (reset-allocate svc t p d))
      (allocate-Constructs svc t p c d)

-- A timer and the pool that construct returns with it.
abbrev IsConstructed : ℕ → Service → ℕ × Pool → Type 0
IsConstructed svc s r = Constructs svc r.0 s r.1

take_free-IsConstructed :
    (svc new_impl : ℕ) (p : Pool) (free : List ℕ)
    → IsConsistent p.service
    → ((t : ℕ) → 0 < count t free → IsIdle t p.service)
    → IsIdle new_impl p.service
    → IsConstructed svc p.service (take_free svc new_impl free p)
unfolding take_free
take_free-IsConstructed svc new_impl p [] c f d = allocate-Constructs svc new_impl p c d
take_free-IsConstructed svc new_impl p (t ∷ rest) c f d =
    reset-Constructs svc t (record p { free_list = rest }) c (f t (ground arith))

pop_cached-IsConstructed :
    (svc new_impl : ℕ) (p : Pool) (cached : Option ℕ)
    → p.tl_cached ≡ cached
    → IsPool svc p
    → IsIdle new_impl p.service
    → let r = pop_cached svc cached p in
      IsConstructed svc p.service (construct_from svc new_impl r.0 r.1)
unfolding pop_cached construct_from
pop_cached-IsConstructed svc new_impl p none e v d =
    take_free-IsConstructed svc new_impl p p.free_list v.consistent v.free d
pop_cached-IsConstructed svc new_impl p (some t) e v d = elim (Bool-cases (p.owner t == svc)) [
  | inl f ↦ rw f (
      reset-Constructs svc t (record p { tl_cached = none }) v.consistent
        (v.slot t e (ground arith)))
  | inr f ↦
      let q = record p { tl_cached = none; deleted = p.deleted ++ t ∷ [] } in
      rw f (take_free-IsConstructed svc new_impl q q.free_list v.consistent v.free d)
]

takes_free :
    (svc new_impl : ℕ) (p : Pool) (free : List ℕ)
    → p.free_list ≡ free
    → let r = take_free svc new_impl free p in
      (r.0 ≡ first_or new_impl free)
      × (r.1.free_list ≡ rest_of free)
      × (r.1.tl_cached ≡ p.tl_cached)
      × (r.1.deleted ≡ p.deleted)
unfolding take_free allocate reset
takes_free svc new_impl p [] e = (refl, e, refl, refl)
takes_free svc new_impl p (t ∷ rest) e = (refl, refl, refl, refl)

foreign_if :
    (svc t : ℕ) (p : Pool)
    → p.tl_cached ≡ some t
    → foreign svc p ≡ (if p.owner t == svc then [] else t ∷ [])
foreign_if svc t p e = ap (λ c. foreign svc (record p { tl_cached = c })) e

slot-Takes :
    (svc new_impl : ℕ) (p : Pool) (cached : Option ℕ)
    → p.tl_cached ≡ cached
    → let popped = pop_cached svc cached p in
      let r = construct_from svc new_impl popped.0 popped.1 in Takes svc new_impl p r.0 r.1
unfolding pop_cached construct_from reset
slot-Takes svc new_impl p none e =
    let k = takes_free svc new_impl p p.free_list refl in
    record {
      origin = ground (arith, k.0);
      slot = k.2 ∙ e;
      free = ground (arith, k.1);
      deleted = ground (arith, k.3, append-nil p.deleted);
    }
slot-Takes svc new_impl p (some t) e = elim (Bool-cases (p.owner t == svc)) [
  | inl f ↦ rw f (record {
    origin = ground arith;
    slot = refl;
    free = ground arith;
    deleted =
        sym (append-nil p.deleted)
        ∙ ap (λ ts. p.deleted ++ ts)
            (sym (foreign_if svc t p e ∙ if_true (p.owner t == svc) [] (t ∷ []) f));
  })
  | inr f ↦
      let q : Pool = record p { tl_cached = none; deleted = p.deleted ++ t ∷ [] } in
      let k = takes_free svc new_impl q q.free_list refl in
      rw f (record {
        origin = ground (arith, k.0);
        slot = k.2;
        free = ground (arith, k.1);
        deleted =
            k.3
            ∙ ap (λ ts. p.deleted ++ ts)
                (sym (foreign_if svc t p e ∙ if_false (p.owner t == svc) [] (t ∷ []) f));
      })
]

-- On a consistent service whose recycled timers are idle construct returns the impl in the thread's
-- slot if the service owns it, else the first of the free list, else the unused address that `new`
-- returns. The slot is empty then, the timer has left the free list, and an impl of another service in
-- the slot is deleted. The timer is like new and owned by the service, which stays consistent, with
-- its heap and the other timers as they were.
pub construct-Constructs :
    (svc new_impl : ℕ) (p : Pool)
    → IsPool svc p
    → IsIdle new_impl p.service
    → let (t, p') = construct svc new_impl p in
      Takes svc new_impl p t p' × Constructs svc t p.service p'
unfolding construct try_pop_tl_cache
construct-Constructs svc new_impl p v d = (
  slot-Takes svc new_impl p p.tl_cached refl,
  pop_cached-IsConstructed svc new_impl p p.tl_cached refl v d,
)

-- ===== src/TimerPool/Shutdown.antt =====
-- shutdown destroys every wait and leaves nothing behind.
use corosio.Base.{
  ℕ, zero, suc, ◌+◌, ◌-◌, ◌<◌, ◌≡◌, refl, sym, ap, ◌∙◌, Bool, true, false, none, some, List, [],
  ◌∷◌, ◌++◌, length, get_or, count, count-append, ◌==◌, ltb, if◌then◌else◌, update, arith,
  Bool-cases, Option-cases, inl, inr,
}
use corosio.TimerHeap.{TimerHeap, HeapEntry, npos, no_entry}
use corosio.TimerHeap.Index.{IsIndexed}
use corosio.TimerService.{Service, set_impl, time_max}
use corosio.TimerService.Waiters.{IsConsistent, member}
use corosio.TimerService.Cancel.{waiters_of}
use corosio.TimerPool.{Pool, drain, detach_all, timers_of, invalidate_cache, shutdown}

detach_all_lem :
    (es : List HeapEntry) (index : ℕ → ℕ) (u : ℕ)
    → detach_all es index u ≡ (if member u (timers_of es) then npos else index u)
unfolding detach_all
detach_all_lem [] index u = refl
detach_all_lem (e ∷ es) index u = ground (arith, detach_all_lem es (update index e.timer npos) u)

entry-member :
    (es : List HeapEntry) (i : ℕ)
    → i < length es
    → member (get_or es i no_entry).timer (timers_of es) ≡ true
entry-member [] i h = absurd (omega arith)
entry-member (e ∷ es) zero h = ground arith
entry-member (e ∷ es) (suc i) h = ground (arith, entry-member es i)

-- A timer whose index is inside the heap is one of the heap's timers.
inside-member :
    (h : TimerHeap) (t : ℕ)
    → IsIndexed h
    → h.heap_index t < length h.heap
    → member t (timers_of h.heap) ≡ true
inside-member h t v p =
    let found = v.found t p in
    ap (λ u. member u (timers_of h.heap)) (sym found) ∙ entry-member h.heap (h.heap_index t) p

-- After the drain of one timer.
abbrev drained : ℕ → Pool → Pool
drained t p =
    let s = p.service in
    let ws = (s.impls t).waiters in
    record p {
      service = record (set_impl t (record (s.impls t) { waiters = [] }) s) {
        work = s.work - length ws;
      };
      destroyed = p.destroyed ++ ws;
      deleted = p.deleted ++ t ∷ [];
    }

drain-count :
    (ts : List ℕ) (p : Pool) (w t n : ℕ)
    → ((u : ℕ) → count w (waiters_of p.service u) ≡ (if t == u then n else 0))
    → count w (drain ts p).destroyed ≡ count w p.destroyed + (if member t ts then n else 0)
unfolding drain
drain-count [] p w t n h = omega arith
drain-count (u ∷ ts) p w t n h =
    let s = p.service in
    let q = drained u p in
    let split = count-append w p.destroyed (s.impls u).waiters in
    let this = h u in
    elim (Bool-cases (u == t)) [
      | inl e ↦ let r = drain-count ts q w t 0 (λ v. let hv = h v in ground arith) in ground arith
      | inr e ↦ let r = drain-count ts q w t n (λ v. let hv = h v in ground arith) in ground arith
    ]

drain-waiters :
    (ts : List ℕ) (p : Pool) (u : ℕ)
    → waiters_of (drain ts p).service u ≡ (if member u ts then [] else waiters_of p.service u)
unfolding drain
drain-waiters [] p u = refl
drain-waiters (t ∷ ts) p u = let r = drain-waiters ts (drained t p) u in ground arith

drain-timers : (ts : List ℕ) (p : Pool) → (drain ts p).service.timers ≡ p.service.timers
unfolding drain
drain-timers [] p = refl
drain-timers (t ∷ ts) p = drain-timers ts (drained t p)

-- Every wait was destroyed once, and no timer is left in the heap or with waiters.
pub record ShutsDown (p p' : Pool) : Type 0 where
  pub destroyed :
      (w : ℕ)
      → count w p'.destroyed
        ≡ count w p.destroyed + (elim (p.service.nodes w).impl [ none ↦ 0 | some t ↦ 1 ])
  pub heap : p'.service.timers.heap ≡ []
  pub outside : (t : ℕ) → p'.service.timers.heap_index t ≡ npos
  pub alone : (t : ℕ) → waiters_of p'.service t ≡ []
  pub closed : p'.shutting_down ≡ true
  pub recycled : (p'.free_list ≡ []) × (p'.tl_cached ≡ none)

drain-slots :
    (ts : List ℕ) (p : Pool)
    → ((drain ts p).tl_cached ≡ p.tl_cached) × ((drain ts p).shutting_down ≡ p.shutting_down)
unfolding drain
drain-slots [] p = (refl, refl)
drain-slots (t ∷ ts) p = drain-slots ts (drained t p)

-- A timer that is not in the heap has no waiters.
outside-alone :
    (t : ℕ) (s : Service)
    → IsConsistent s
    → member t (timers_of s.timers.heap) ≡ false
    → waiters_of s t ≡ []
outside-alone t s c e = elim (Bool-cases (ltb (s.timers.heap_index t) (length s.timers.heap))) [
  | inl f ↦ let m = inside-member s.timers t c.links.index (ground arith) in absurd (ground arith)
  | inr f ↦ let k = c.links.scheduled t in ground arith
]

outside-npos :
    (t : ℕ) (s : Service)
    → IsConsistent s
    → member t (timers_of s.timers.heap) ≡ false
    → s.timers.heap_index t ≡ npos
outside-npos t s c e = elim (Bool-cases (ltb (s.timers.heap_index t) (length s.timers.heap))) [
  | inl f ↦ let m = inside-member s.timers t c.links.index (ground arith) in absurd (ground arith)
  | inr f ↦ c.links.index.absent t (ground arith)
]

waits-member :
    (t w : ℕ) (s : Service)
    → IsConsistent s
    → (s.nodes w).impl ≡ some t
    → member t (timers_of s.timers.heap) ≡ true
waits-member t w s c e = elim (Bool-cases (member t (timers_of s.timers.heap))) [
  | inl f ↦ f
  | inr f ↦ let l = c.links.linked t w in let a = outside-alone t s c f in absurd (ground arith)
]

either_way {ℓ} :
    {A : Type ℓ} (b : Bool) (x y z : A)
    → (b ≡ true → x ≡ z)
    → (b ≡ false → y ≡ z)
    → (if b then x else y) ≡ z
either_way true x y z h k = h refl
either_way false x y z h k = k refl

-- On a consistent service shutdown destroys the coroutine frame of every waiter that waits on a timer,
-- once, and of no other; it leaves no timer in the heap, none with waiters, and none recycled.
pub shutdown-ShutsDown : (p : Pool) → IsConsistent p.service → ShutsDown p (shutdown p)
unfolding shutdown invalidate_cache
shutdown-ShutsDown p c =
    let s = p.service in
    let heap = s.timers.heap in
    let ts = timers_of heap in
    let q : Pool = record (invalidate_cache p) {
      shutting_down = true;
      service = record s {
        timers = record { heap = []; heap_index = detach_all heap s.timers.heap_index };
        cached_nearest = time_max;
      };
    } in
    let timers = drain-timers ts q in
    let slots = drain-slots ts q in
    record {
      destroyed = λ w. elim (Option-cases (s.nodes w).impl) [
        | inl e ↦ rw e (
            drain-count ts q w 0 0 (λ u. let l = c.links.linked u w in ground arith) ∙ ground arith)
        | inr (t, e) ↦ rw e (
            drain-count ts q w t 1 (λ u. let l = c.links.linked u w in ground arith)
            ∙ let m = waits-member t w s c e in ground arith)
      ];
      heap = ap (λ h. h.heap) timers;
      outside = λ t.
          ap (λ h. h.heap_index t) timers
          ∙ detach_all_lem heap s.timers.heap_index t
          ∙ either_way (member t ts) npos (s.timers.heap_index t) npos (λ e. refl)
              (outside-npos t s c);
      alone = λ t.
          drain-waiters ts q t
          ∙ either_way (member t ts) [] (waiters_of s t) [] (λ e. refl) (outside-alone t s c);
      closed = slots.1;
      recycled = (refl, slots.0);
    }

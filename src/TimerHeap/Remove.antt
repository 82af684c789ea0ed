-- ===== src/TimerHeap/Remove.antt =====
-- remove_timer_impl takes one timer out of the heap.
use corosio.Base.{
  ℕ, ◌+◌, ◌-◌, ◌<◌, ◌≡◌, ◌≢◌, Option, none, ltb, leb, ◌==◌, if◌then◌else◌, length, arith, Ensures,
  Ensures-if, Ensures-mono, ◌>>=◌, ltb→lt, ltb→le, leb→lt, length-drop_last, get_or-drop_last, ◌∙◌,
  ap,
}
use corosio.TimerHeap.{
  TimerHeap, entry, no_entry, time_at, parent, swap_heap, restore, pop_back, remove_timer_impl,
}
use corosio.TimerHeap.Index.{
  IsIndexed, expiry_of, swapped, swap_heap_lem, earlier_lem, length-swapped, entry-swapped,
  swapped-IsIndexed, swapped-SameTimers,
}
use corosio.TimerHeap.Order.{IsHeap, IsHeapBut, Restores}
use corosio.TimerHeap.Up.{up_heap-Restores}
use corosio.TimerHeap.Down.{down_heap-Restores}

-- One entry that may be out of order either way is sifted into place.
pub restore-Restores :
    (i : ℕ) (s : TimerHeap) → IsIndexed s → IsHeapBut i s → Ensures (Restores s) (restore i s)
unfolding restore
restore-Restores i s v b =
    Ensures-if (Restores s) (ltb 0 i) _ _
      (λ pos.
        let inside = b.inside in
        let hp : parent i < length s.heap = omega arith in
        rw (earlier_lem i (parent i) s inside hp) (
          Ensures-if (Restores s) (ltb (time_at s i) (time_at s (parent i))) _ _
            (λ less. up_heap-Restores i s v b λ c p q r.
              let l = ltb→lt _ _ less in
              let z = ltb→lt _ _ pos in omega (arith, b.across c p q r z))
            (λ more. down_heap-Restores i s v b (λ _. ltb→le _ _ more))))
      (λ root. down_heap-Restores i s v b (λ pos. absurd (ground arith)))

-- `s'` is a heap of the timers of `s` but `t`, with the same times.
pub record Removes (t : ℕ) (s s' : TimerHeap) : Type 0 where
  pub order : IsHeap s'
  pub index : IsIndexed s'
  pub times : (u : ℕ) → expiry_of s' u ≡ (if t == u then none else expiry_of s u)
  pub shrinks :
      length s'.heap + (if ltb (s.heap_index t) (length s.heap) then 1 else 0) ≡ length s.heap

module _ (t : ℕ) (s : TimerHeap) (v : IsIndexed s) (last : s.heap_index t + 1 ≡ length s.heap) where
  entry-pop_back : (c : ℕ) → c + 1 < length s.heap → entry (pop_back t s) c ≡ entry s c
  unfolding pop_back
  entry-pop_back c h = get_or-drop_last s.heap c no_entry (omega arith)

  length-pop_back : length (pop_back t s).heap ≡ length s.heap - 1
  unfolding pop_back
  length-pop_back = length-drop_last s.heap

  pop_back-IsIndexed : IsIndexed (pop_back t s)
  unfolding pop_back
  pop_back-IsIndexed = record {
    placed = λ c h. ground (arith, length-pop_back, entry-pop_back c, v.placed c);
    found =
        λ u h. ground (arith, length-pop_back, entry-pop_back (s.heap_index u), v.found u, v.sized);
    absent = λ u h. ground (arith, length-pop_back, v.absent u, v.found u, v.found t);
    sized = let z = v.sized in omega (arith, length-pop_back);
  }

  expiry_of-pop_back :
      (u : ℕ) → expiry_of (pop_back t s) u ≡ (if t == u then none else expiry_of s u)
  unfolding pop_back
  expiry_of-pop_back u =
      ground
        (arith, length-pop_back, entry-pop_back (s.heap_index u), v.found u, v.found t, v.sized)

Removes-Restores :
    (t : ℕ) (s p : TimerHeap) (m : Option TimerHeap)
    → length p.heap + 1 ≡ length s.heap
    → s.heap_index t < length s.heap
    → ((u : ℕ) → expiry_of p u ≡ (if t == u then none else expiry_of s u))
    → Ensures (Restores p) m
    → Ensures (Removes t s) m
Removes-Restores t s p m size inside times e = Ensures-mono (Restores p) (Removes t s) m e λ r k.
    record {
      order = k.order;
      index = k.index;
      times = λ u. k.same.times u ∙ times u;
      shrinks = ground (arith, k.same.size);
    }

-- The last entry is taken off.
remove_last :
    (t : ℕ) (s : TimerHeap)
    → IsIndexed s
    → IsHeap s
    → s.heap_index t + 1 ≡ length s.heap
    → Removes t s (pop_back t s)
remove_last t s v h last = record {
  order = λ c p q. ground (
    arith,
    length-pop_back t s v last,
    entry-pop_back t s v last c,
    entry-pop_back t s v last (parent c),
    h c,
  );
  index = pop_back-IsIndexed t s v last;
  times = expiry_of-pop_back t s v last;
  shrinks = ground (arith, length-pop_back t s v last);
}

module _ (t last : ℕ) (s : TimerHeap) (v : IsIndexed s) (h : IsHeap s)
    (inside : s.heap_index t < length s.heap) (is_last : last + 1 ≡ length s.heap)
    (differs : s.heap_index t ≢ last) where
  abbrev exchanged : TimerHeap
  exchanged = swapped (s.heap_index t) last s inside (omega arith)

  exchanged-IsIndexed : IsIndexed exchanged
  exchanged-IsIndexed = swapped-IsIndexed (s.heap_index t) last s inside (omega arith) v

  index-exchanged : exchanged.heap_index t + 1 ≡ length exchanged.heap
  index-exchanged =
      let at = entry-swapped (s.heap_index t) last s inside (omega arith) last in
      ground (arith, v.found t inside, length-swapped (s.heap_index t) last s inside (omega arith))

  popped-IsHeapBut : IsHeapBut (s.heap_index t) (pop_back t exchanged)
  popped-IsHeapBut =
      let i = s.heap_index t in
      let e = exchanged-IsIndexed in
      let x = index-exchanged in
      let size = length-swapped i last s inside (omega arith) in
      let popped = length-pop_back t exchanged e x in
      let at = entry-swapped i last s inside (omega arith) in
      let kept = entry-pop_back t exchanged e x in
      record {
        inside = omega arith;
        others = λ c p q r w.
            ground (arith, size, popped, at c, at (parent c), kept c, kept (parent c), h c);
        across = λ c p q r z.
            ground (arith, size, popped, at c, at (parent i), kept c, kept (parent i), h c, h i);
      }

  remove_inner :
      Ensures
        (Removes t s)
        (swap_heap (s.heap_index t) last s >>= λ e. restore (s.heap_index t) (pop_back t e))
  remove_inner =
      let i = s.heap_index t in
      let e = exchanged-IsIndexed in
      let x = index-exchanged in
      let size = length-swapped i last s inside (omega arith) in
      rw (swap_heap_lem i last s inside (omega arith)) (
        Removes-Restores t s (pop_back t exchanged) _
          (omega (arith, length-pop_back t exchanged e x, size)) inside
          (λ u.
            expiry_of-pop_back t exchanged e x u
            ∙ ap (λ o. if t == u then none else o)
                ((swapped-SameTimers i last s inside (omega arith) v).times u))
          (restore-Restores i (pop_back t exchanged) (pop_back-IsIndexed t exchanged e x)
            popped-IsHeapBut))

-- On a heap with right indices remove_timer_impl ends, reads nothing out of bounds, and gives a heap
-- with right indices that holds every other timer with the same time, and not this one. A timer that
-- is not in the heap is left out alike, and then nothing changes.
pub remove_timer_impl-Removes :
    (t : ℕ) (s : TimerHeap) → IsIndexed s → IsHeap s → Ensures (Removes t s) (remove_timer_impl t s)
unfolding remove_timer_impl
remove_timer_impl-Removes t s v h =
    Ensures-if (Removes t s) (leb (length s.heap) (s.heap_index t)) _ _
      (λ out. record { order = h; index = v; times = λ u. ground arith; shrinks = ground arith })
      (λ in_heap.
        let inside = leb→lt _ _ in_heap in
        Ensures-if (Removes t s) (s.heap_index t == length s.heap - 1) _ _
          (λ e. remove_last t s v h (ground arith))
          (λ e. remove_inner t (length s.heap - 1) s v h inside (omega arith) (ground arith)))

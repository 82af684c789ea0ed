-- ===== src/TimerHeap/Down.antt =====
-- down_heap restores the heap order where one entry may be too late.
use corosio.Base.{
  ℕ, zero, suc, ◌+◌, ◌-◌, ◌*◌, ◌≤◌, ◌<◌, ◌≡◌, ◌⊎◌, inl, inr, ltb, ◌==◌, length, arith, Ensures,
  Ensures-bind, Ensures-if, ltb→lt, ltb→le, Bool-cases,
}
use corosio.TimerHeap.{TimerHeap, time_at, parent, min_child, down_loop, down_heap}
use corosio.TimerHeap.Index.{
  IsIndexed, swapped, swap_heap_lem, earlier_lem, length-swapped, entry-swapped, swapped-IsIndexed,
}
use corosio.TimerHeap.Order.{IsHeapBut, IsBelow, Restores, settled, Restores-swapped}

-- `m` is the child of `i` that expires first.
pub record IsMinChild (i m : ℕ) (s : TimerHeap) : Type 0 where
  pub inside : m < length s.heap
  pub above : parent m ≡ i
  pub positive : 0 < m
  pub least : (c : ℕ) → 0 < c → c < length s.heap → parent c ≡ i → time_at s m ≤ time_at s c

children : (i c : ℕ) → 0 < c → parent c ≡ i → (c ≡ i * 2 + 1) ⊎ (c ≡ i * 2 + 1 + 1)
children i c p e = grind arith

min_child-IsMinChild :
    (i : ℕ) (s : TimerHeap)
    → i * 2 + 1 < length s.heap
    → Ensures (λ m. IsMinChild i m s) (min_child (i * 2 + 1) s)
unfolding min_child
min_child-IsMinChild i s h =
    Ensures-if (λ m. IsMinChild i m s) (i * 2 + 1 + 1 == length s.heap) _ _
      (λ only. record {
        inside = h;
        above = omega arith;
        positive = omega arith;
        least = λ c p q r. elim (children i c p r) [
          | inl e ↦ rw e (omega arith)
          | inr e ↦ absurd (ground arith)
        ];
      })
      (λ both.
        let h2 : i * 2 + 1 + 1 < length s.heap = ground arith in
        rw (earlier_lem (i * 2 + 1) (i * 2 + 1 + 1) s h h2)
          (elim (Bool-cases (ltb (time_at s (i * 2 + 1)) (time_at s (i * 2 + 1 + 1)))) [
            | inl e ↦ rw e (record {
              inside = h;
              above = omega arith;
              positive = omega arith;
              least = λ c p q r. elim (children i c p r) [
                | inl k ↦ rw k (omega arith)
                | inr k ↦ rw k (let l = ltb→lt _ _ e in omega arith)
              ];
            })
            | inr e ↦ rw e (record {
              inside = h2;
              above = omega arith;
              positive = omega arith;
              least = λ c p q r. elim (children i c p r) [
                | inl k ↦ rw k (ltb→le _ _ e)
                | inr k ↦ rw k (omega arith)
              ];
            })
          ]))

module _ (i m : ℕ) (s : TimerHeap) (b : IsHeapBut i s) (k : IsMinChild i m s) where
  sink-IsHeapBut :
      time_at s m ≤ time_at s i
      → IsBelow i s
      → IsHeapBut m (swapped i m s b.inside k.inside) × IsBelow m (swapped i m s b.inside k.inside)
  sink-IsHeapBut more below =
      let at = entry-swapped i m s b.inside k.inside in
      let size = length-swapped i m s b.inside k.inside in
      let up = k.above in
      let pos = k.positive in
      (
        record {
          inside = rw size k.inside;
          others = λ c p q r t. ground (
            arith,
            size,
            up,
            pos,
            at c,
            at (parent c),
            b.others c,
            b.across m k.positive k.inside,
            k.least c,
          );
          across = λ c p q r t. ground (arith, size, up, pos, at c, at (parent m), b.others c);
        },
        (λ p. ground (arith, size, up, pos, at m, at (parent m))),
      )

down_loop-Restores :
    (fuel i : ℕ) (s : TimerHeap)
    → length s.heap - i < fuel
    → IsIndexed s
    → IsHeapBut i s
    → IsBelow i s
    → Ensures (Restores s) (down_loop fuel i s)
unfolding down_loop
down_loop-Restores zero i s f v b below = absurd (omega arith)
down_loop-Restores (suc fuel) i s f v b below =
    Ensures-if (Restores s) (ltb (i * 2 + 1) (length s.heap)) _ _
      (λ e.
        Ensures-bind (λ m. IsMinChild i m s) (Restores s) _ _
          (min_child-IsMinChild i s (ltb→lt _ _ e))
          λ m k.
            rw (earlier_lem i m s b.inside k.inside, swap_heap_lem i m s b.inside k.inside)
              (Ensures-if (Restores s) (ltb (time_at s i) (time_at s m)) _ _
                (λ less.
                  settled i s v b
                    (λ c p q r. let l = ltb→lt _ _ less in omega (arith, k.least c p q r)) below)
                (λ more.
                  let moved = sink-IsHeapBut i m s b k (ltb→le _ _ more) below in
                  Restores-swapped i m s b.inside k.inside v _ (
                    down_loop-Restores fuel m (swapped i m s b.inside k.inside)
                      (let p = k.above in
                        let q = k.positive in
                        let r = b.inside in omega (arith, length-swapped i m s b.inside k.inside))
                      (swapped-IsIndexed i m s b.inside k.inside v) moved.0 moved.1))))
      (λ e. settled i s v b (λ c p q r. absurd (let l = ltb→le _ _ e in omega arith)) below)

-- From a heap whose entry at `i` may be later than its children, down_heap ends, reads nothing out
-- of bounds, and gives a heap of the same timers with the same times, at indices that they know.
pub down_heap-Restores :
    (i : ℕ) (s : TimerHeap)
    → IsIndexed s
    → IsHeapBut i s
    → IsBelow i s
    → Ensures (Restores s) (down_heap i s)
unfolding down_heap
down_heap-Restores i s v b below =
    down_loop-Restores (length s.heap + 1) i s (omega arith) v b below

-- ===== src/TimerHeap/Up.antt =====
-- up_heap restores the heap order where one entry may be too early.
use corosio.Base.{ℕ, zero, suc, ◌+◌, ◌<◌, ltb, length, arith, Ensures, Ensures-if, ltb→lt, ltb→le}
use corosio.TimerHeap.{TimerHeap, time_at, parent, up_loop, up_heap}
use corosio.TimerHeap.Index.{
  IsIndexed, swapped, swap_heap_lem, earlier_lem, length-swapped, entry-swapped, swapped-IsIndexed,
}
use corosio.TimerHeap.Order.{IsHeapBut, IsAbove, Restores, settled, Restores-swapped}

module _ (i : ℕ) (s : TimerHeap) (b : IsHeapBut i s) (hp : parent i < length s.heap) where
  rise-IsHeapBut :
      0 < i
      → time_at s i < time_at s (parent i)
      → IsAbove i s
      → IsHeapBut (parent i) (swapped i (parent i) s b.inside hp)
        × IsAbove (parent i) (swapped i (parent i) s b.inside hp)
  rise-IsHeapBut pos less above =
      let at = entry-swapped i (parent i) s b.inside hp in
      let size = length-swapped i (parent i) s b.inside hp in
      (
        record {
          inside = rw size hp;
          others = λ c p q r t.
              ground (arith, size, at c, at (parent c), b.others c, b.across c, above c);
          across = λ c p q r t.
              ground (arith, size, at c, at (parent (parent i)), b.others c, b.others (parent i));
        },
        (λ c p q r. ground (arith, size, at c, at (parent i), b.others c)),
      )

up_loop-Restores :
    (fuel i : ℕ) (s : TimerHeap)
    → i < fuel
    → IsIndexed s
    → IsHeapBut i s
    → IsAbove i s
    → Ensures (Restores s) (up_loop fuel i s)
unfolding up_loop
up_loop-Restores zero i s f v b above = absurd (omega arith)
up_loop-Restores (suc fuel) i s f v b above =
    let inside = b.inside in
    let hp : parent i < length s.heap = omega arith in
    rw (earlier_lem i (parent i) s inside hp, swap_heap_lem i (parent i) s inside hp)
      (Ensures-if (Restores s) (ltb 0 i) _ _
        (λ pos.
          Ensures-if (Restores s) (ltb (time_at s i) (time_at s (parent i))) _ _
            (λ less.
              let moved = rise-IsHeapBut i s b hp (ltb→lt 0 i pos) (ltb→lt _ _ less) above in
              Restores-swapped i (parent i) s inside hp v _ (
                up_loop-Restores fuel (parent i) (swapped i (parent i) s inside hp)
                  (let p = ltb→lt 0 i pos in omega arith)
                  (swapped-IsIndexed i (parent i) s inside hp v) moved.0 moved.1))
            (λ more. settled i s v b above (λ _. ltb→le _ _ more)))
        (λ root. settled i s v b above (λ pos. absurd (ground arith))))

-- From a heap whose entry at `i` may be earlier than its parent, up_heap ends, reads nothing out of
-- bounds, and gives a heap of the same timers with the same times, at indices that they know.
pub up_heap-Restores :
    (i : ℕ) (s : TimerHeap)
    → IsIndexed s
    → IsHeapBut i s
    → IsAbove i s
    → Ensures (Restores s) (up_heap i s)
unfolding up_heap
up_heap-Restores i s v b above = up_loop-Restores (i + 1) i s (omega arith) v b above

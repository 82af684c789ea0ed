-- ===== src/TimerHeap/Order.antt =====
-- up_heap and down_heap restore the heap order around one entry, and keep the timers.
use corosio.Base.{ℕ, ◌≤◌, ◌<◌, ◌≡◌, ◌≢◌, Option, length, arith, Ensures, Ensures-mono}
use corosio.TimerHeap.{TimerHeap, time_at, parent}
use corosio.TimerHeap.Index.{
  IsIndexed, SameTimers, SameTimers-refl, SameTimers-trans, swapped, swapped-SameTimers,
}

abbrev pub IsHeap : TimerHeap → Type 0
IsHeap s = (c : ℕ) → 0 < c → c < length s.heap → time_at s (parent c) ≤ time_at s c

-- The order, but for the edges at `i`, and across `i`.
pub record IsHeapBut (i : ℕ) (s : TimerHeap) : Type 0 where
  pub inside : i < length s.heap
  pub others :
      (c : ℕ)
      → 0 < c
      → c < length s.heap
      → c ≢ i
      → parent c ≢ i
      → time_at s (parent c) ≤ time_at s c
  pub across :
      (c : ℕ)
      → 0 < c
      → c < length s.heap
      → parent c ≡ i
      → 0 < i
      → time_at s (parent i) ≤ time_at s c

abbrev pub IsAbove : ℕ → TimerHeap → Type 0
IsAbove i s = (c : ℕ) → 0 < c → c < length s.heap → parent c ≡ i → time_at s i ≤ time_at s c

abbrev pub IsBelow : ℕ → TimerHeap → Type 0
IsBelow i s = 0 < i → time_at s (parent i) ≤ time_at s i

-- `s'` is a heap of the timers of `s`.
pub record Restores (s s' : TimerHeap) : Type 0 where
  pub order : IsHeap s'
  pub index : IsIndexed s'
  pub same : SameTimers s s'

pub settled :
    (i : ℕ) (s : TimerHeap) → IsIndexed s → IsHeapBut i s → IsAbove i s → IsBelow i s → Restores s s
settled i s v b above below = record {
  order = λ c p q. ground (arith, above c, b.others c);
  index = v;
  same = SameTimers-refl s;
}

pub Restores-swapped :
    (i j : ℕ) (s : TimerHeap) (hi : i < length s.heap) (hj : j < length s.heap)
    → IsIndexed s
    → (m : Option TimerHeap) → Ensures (Restores (swapped i j s hi hj)) m
    → Ensures (Restores s) m
Restores-swapped i j s hi hj v m e =
    Ensures-mono (Restores (swapped i j s hi hj)) (Restores s) m e λ t r. record {
      order = r.order;
      index = r.index;
      same = SameTimers-trans (swapped-SameTimers i j s hi hj v) r.same;
    }

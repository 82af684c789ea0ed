-- ===== src/TimerHeap/Index.antt =====
-- The indices that the timers keep, and the map from timers to expiry times that they give.
use corosio.Base.{
  ℕ, ◌≤◌, ◌<◌, ◌≡◌, refl, Option, none, some, ltb, if◌then◌else◌, length, arith, length-set,
  get_or-set, get_elem?-get_or, ◌==◌, ◌∙◌, set, update,
}
use corosio.TimerHeap.{TimerHeap, entry, time_at, swap_heap, no_entry, npos, earlier}

-- Each entry's timer knows its position, and a timer's index is a position of its own or npos.
pub record IsIndexed (s : TimerHeap) : Type 0 where
  pub placed : (i : ℕ) → i < length s.heap → s.heap_index (entry s i).timer ≡ i
  pub found : (t : ℕ) → s.heap_index t < length s.heap → (entry s (s.heap_index t)).timer ≡ t
  pub absent : (t : ℕ) → length s.heap ≤ s.heap_index t → s.heap_index t ≡ npos
  pub sized : length s.heap ≤ npos

-- The expiry time of a timer that is in the heap.
abbrev pub expiry_of : TimerHeap → ℕ → Option ℕ
expiry_of s t =
    if ltb (s.heap_index t) (length s.heap) then some (time_at s (s.heap_index t)) else none

-- `s'` holds the same timers with the same times.
pub record SameTimers (s s' : TimerHeap) : Type 0 where
  pub size : length s'.heap ≡ length s.heap
  pub times : (t : ℕ) → expiry_of s' t ≡ expiry_of s t

pub SameTimers-refl : (s : TimerHeap) → SameTimers s s
SameTimers-refl s = record { size = refl; times = λ t. refl }

pub SameTimers-trans : {s t u : TimerHeap} → SameTimers s t → SameTimers t u → SameTimers s u
SameTimers-trans h k = record { size = k.size ∙ h.size; times = λ x. k.times x ∙ h.times x }

module _ (i j : ℕ) (s : TimerHeap) (hi : i < length s.heap) (hj : j < length s.heap) where
  -- The heap after swap_heap.
  abbrev pub swapped : TimerHeap
  swapped = record {
    heap = set (set s.heap i (entry s j)) j (entry s i);
    heap_index = update (update s.heap_index (entry s j).timer i) (entry s i).timer j;
  }

  pub swap_heap_lem : swap_heap i j s ≡ some swapped
  unfolding swap_heap
  swap_heap_lem = rw (get_elem?-get_or s.heap i no_entry hi, get_elem?-get_or s.heap j no_entry hj)

  pub earlier_lem : earlier i j s ≡ some (ltb (time_at s i) (time_at s j))
  unfolding earlier
  earlier_lem = rw (get_elem?-get_or s.heap i no_entry hi, get_elem?-get_or s.heap j no_entry hj)

  pub length-swapped : length swapped.heap ≡ length s.heap
  length-swapped = simp length-set

  pub entry-swapped :
      (c : ℕ)
      → entry swapped c ≡ (if j == c then entry s i else if i == c then entry s j else entry s c)
  entry-swapped c = rw (
    get_or-set (set s.heap i (entry s j)) j c (entry s i) no_entry (rw length-set hj),
    get_or-set s.heap i c (entry s j) no_entry hi,
  )

  pub swapped-IsIndexed : IsIndexed s → IsIndexed swapped
  swapped-IsIndexed v = record {
    placed = λ c h.
        ground (arith, length-swapped, entry-swapped c, v.placed c, v.placed i hi, v.placed j hj);
    found = λ t h. ground (
      arith,
      length-swapped,
      entry-swapped i,
      entry-swapped j,
      entry-swapped (s.heap_index t),
      v.found t,
      v.placed i hi,
      v.placed j hj,
    );
    absent = λ t h. ground (arith, length-swapped, v.absent t);
    sized = rw length-swapped v.sized;
  }

  pub swapped-SameTimers : IsIndexed s → SameTimers s swapped
  swapped-SameTimers v = record {
    size = length-swapped;
    times = λ t. ground (
      arith,
      length-swapped,
      entry-swapped i,
      entry-swapped j,
      entry-swapped (s.heap_index t),
      v.found t,
      v.placed i hi,
      v.placed j hj,
    );
  }

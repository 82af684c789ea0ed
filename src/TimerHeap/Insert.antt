-- ===== src/TimerHeap/Insert.antt =====
-- push_timer puts a timer into the heap, set_time gives one a new time, and the root is the earliest.
use corosio.Base.{
  ℕ, zero, suc, ◌+◌, ◌≤◌, ◌<◌, ◌≡◌, Option, some, ltb, ◌==◌, if◌then◌else◌, length, arith, Ensures,
  Ensures-if, Ensures-mono, ◌∙◌, length-append, get_or-append, get_or-set, length-set,
  get_elem?-get_or, set, update, [], ◌∷◌, ◌++◌,
}
use corosio.TimerHeap.{TimerHeap, entry, no_entry, time_at, parent, npos, push_timer, set_time}
use corosio.TimerHeap.Index.{IsIndexed, expiry_of}
use corosio.TimerHeap.Order.{IsHeap, IsHeapBut, Restores}
use corosio.TimerHeap.Up.{up_heap-Restores}
use corosio.TimerHeap.Down.{down_heap-Restores}

-- `s'` is a heap of the timers of `s`, but that `t` expires at `time`.
pub record Inserts (t time : ℕ) (s s' : TimerHeap) : Type 0 where
  pub order : IsHeap s'
  pub index : IsIndexed s'
  pub times : (u : ℕ) → expiry_of s' u ≡ (if t == u then some time else expiry_of s u)
  pub size : length s'.heap ≤ length s.heap + 1

Inserts-Restores :
    (t time : ℕ) (s p : TimerHeap) (m : Option TimerHeap)
    → length p.heap ≤ length s.heap + 1
    → ((u : ℕ) → expiry_of p u ≡ (if t == u then some time else expiry_of s u))
    → Ensures (Restores p) m
    → Ensures (Inserts t time s) m
Inserts-Restores t time s p m size times e = Ensures-mono (Restores p) (Inserts t time s) m e λ r k.
    record {
      order = k.order;
      index = k.index;
      times = λ u. k.same.times u ∙ times u;
      size = let z = k.same.size in omega arith;
    }

module _ (t time : ℕ) (s : TimerHeap) (v : IsIndexed s) (h : IsHeap s)
    (absent : s.heap_index t ≡ npos) (room : length s.heap < npos) where
  abbrev pushed : TimerHeap
  pushed = record {
    heap = s.heap ++ (record { time = time; timer = t }) ∷ [];
    heap_index = update s.heap_index t (length s.heap);
  }

  entry-pushed :
      (c : ℕ)
      → entry pushed c ≡ (
          if ltb c (length s.heap)
          then entry s c
          else if c == length s.heap
          then record { time = time; timer = t }
          else no_entry)
  entry-pushed c = get_or-append s.heap (record { time = time; timer = t }) c no_entry

  length-pushed : length pushed.heap ≡ length s.heap + 1
  length-pushed = length-append s.heap _

  pushed-IsIndexed : IsIndexed pushed
  pushed-IsIndexed = record {
    placed = λ c p. ground (arith, length-pushed, entry-pushed c, v.placed c);
    found = λ u p. ground (
      arith,
      length-pushed,
      entry-pushed (length s.heap),
      entry-pushed (s.heap_index u),
      v.found u,
      v.absent u,
    );
    absent = λ u p. ground (arith, length-pushed, v.absent u);
    sized = omega (arith, length-pushed);
  }

  -- On a heap with right indices and room for one more, pushing a timer that is not there ends, reads
  -- nothing out of bounds, and gives a heap with right indices that holds the timer at its time and
  -- every other timer with the same time.
  pub push_timer-Inserts : Ensures (Inserts t time s) (push_timer t time s)
  unfolding push_timer
  push_timer-Inserts =
      Inserts-Restores t time s pushed _ (omega (arith, length-pushed))
        (λ u. ground (
          arith,
          length-pushed,
          entry-pushed (length s.heap),
          entry-pushed (s.heap_index u),
          v.found u,
          v.absent u,
        ))
        (up_heap-Restores (length s.heap) pushed pushed-IsIndexed
          (record {
            inside = omega (arith, length-pushed);
            others = λ c p q r w.
                ground (arith, length-pushed, entry-pushed c, entry-pushed (parent c), h c);
            across = λ c p q r z. absurd (omega (arith, length-pushed));
          })
          (λ c p q r. absurd (omega (arith, length-pushed))))

module _ (idx new_time : ℕ) (s : TimerHeap) (v : IsIndexed s) (h : IsHeap s)
    (inside : idx < length s.heap) where
  abbrev changed : TimerHeap
  changed = record s {
    heap = set s.heap idx (record { time = new_time; timer = (entry s idx).timer });
  }

  entry-changed :
      (c : ℕ)
      → entry changed c
        ≡ (if idx == c then record { time = new_time; timer = (entry s idx).timer } else entry s c)
  entry-changed c = get_or-set s.heap idx c _ no_entry inside

  length-changed : length changed.heap ≡ length s.heap
  length-changed = length-set s.heap idx _

  changed-IsIndexed : IsIndexed changed
  changed-IsIndexed = record {
    placed = λ c p. ground (arith, length-changed, entry-changed c, v.placed c);
    found = λ u p. ground (arith, length-changed, entry-changed (s.heap_index u), v.found u);
    absent = λ u p. ground (arith, length-changed, v.absent u);
    sized = let z = v.sized in omega (arith, length-changed);
  }

  changed-IsHeapBut : IsHeapBut idx changed
  changed-IsHeapBut = record {
    inside = omega (arith, length-changed);
    others =
        λ c p q r w. ground (arith, length-changed, entry-changed c, entry-changed (parent c), h c);
    across = λ c p q r z.
        ground (arith, length-changed, entry-changed c, entry-changed (parent idx), h c, h idx);
  }

  -- On a heap with right indices, giving the entry at an index within it a new time ends, reads nothing
  -- out of bounds, and gives a heap with right indices in which that timer has the new time and every
  -- other timer the same time.
  pub set_time-Inserts : Ensures (Inserts (entry s idx).timer new_time s) (set_time idx new_time s)
  unfolding set_time
  set_time-Inserts = rw (get_elem?-get_or s.heap idx no_entry inside) (
      Inserts-Restores (entry s idx).timer new_time s changed _ (omega (arith, length-changed))
        (λ u.
          ground
            (arith, length-changed, entry-changed (s.heap_index u), v.found u, v.placed idx inside))
        (Ensures-if (Restores changed) (ltb new_time (time_at s idx)) _ _
          (λ less.
            up_heap-Restores idx changed changed-IsIndexed changed-IsHeapBut
              λ c p q r. ground (arith, length-changed, entry-changed c, entry-changed idx, h c))
          (λ more. down_heap-Restores idx changed changed-IsIndexed changed-IsHeapBut λ p.
            ground (arith, length-changed, entry-changed idx, entry-changed (parent idx), h idx))))

root-le-below :
    (fuel i : ℕ) (s : TimerHeap)
    → IsHeap s
    → i < fuel
    → i < length s.heap
    → time_at s 0 ≤ time_at s i
root-le-below zero i s h f p = absurd (omega arith)
root-le-below (suc fuel) i s h f p = ground (arith, h i, root-le-below fuel (parent i) s h)

-- No timer in a heap expires before the entry at its root.
pub root-le :
    (s : TimerHeap) (t time : ℕ) → IsHeap s → expiry_of s t ≡ some time → time_at s 0 ≤ time
root-le s t time h e = ground (arith, root-le-below (suc (s.heap_index t)) (s.heap_index t) s h)

-- ===== src/ReadyQueue/Fifo.antt =====
-- The queue holds a list of entries: push appends, splice concatenates, pop takes the first.
use corosio.Base.{
  ℕ, ◌+◌, ◌%◌, ◌≤◌, ◌<◌, ◌≡◌, ◌≢◌, refl, true, false, List, [], ◌∷◌, ◌++◌, ◌==◌, if◌then◌else◌,
  arith, count, count-append, append-nil,
}
use corosio.Chain.{
  Spans, IsQueue, Linked-last_pos, Linked-frame, Spans-frame, Linked-append, Linked-last,
}
use corosio.ReadyQueue.{
  Memory, ReadyQueue, ready_is_continuation, ready_as_op, ready_as_cont, of_op, of_cont, next_of,
  set_next, push_entry, splice, pop, empty,
}

-- A link that is written is read back, and no other changes, whatever the tags.
pub next_of-set_next :
    (e n : ℕ) (m : Memory) (z : ℕ)
    → next_of (set_next e n m) z ≡ (if e == z then n else next_of m z)
unfolding next_of set_next
next_of-set_next e n m z = ground arith

-- The queue `q` over the memory `m` holds these entries, each once.
abbrev pub Holds : Memory → ReadyQueue → List ℕ → Type 0
Holds m q xs = IsQueue (next_of m) q.head q.tail xs

abbrev pub Disjoint : List ℕ → List ℕ → Type 0
Disjoint xs ys = (z : ℕ) → count z xs + count z ys ≤ 1

join :
    (q other : ReadyQueue) (m m' : Memory) (x : ℕ) (xs ys : List ℕ) (y : ℕ)
    → Holds m q (x ∷ xs)
    → Spans (next_of m) other.head other.tail (y ∷ ys)
    → Disjoint (x ∷ xs) (y ∷ ys)
    → ((z : ℕ) → next_of m' z ≡ (if q.tail == z then y else next_of m z))
    → Holds m' (record q { tail = other.tail }) (x ∷ xs ++ y ∷ ys)
join q other m m' x xs ys y h s d w =
    let last = Linked-last (next_of m) x xs q.tail h.spans.2 in
    record {
      spans = (
        h.spans.0,
        h.spans.1,
        Linked-append (next_of m) (next_of m') x xs q.tail y ys other.tail h.spans.2
            (Linked-frame (next_of m) (next_of m') y ys other.tail
              (λ z p. ground (arith, w z, d z, last)) s.2)
            s.1 h.distinct (λ z p. w z),
      );
      distinct = λ z. ground (arith, count-append z (x ∷ xs) (y ∷ ys), d z);
    }

-- Pushing an entry that is not in the queue puts it behind the others, and no other link changes but
-- that of the last entry.
pub push_entry-append :
    (e : ℕ) (q : ReadyQueue) (m : Memory) (xs : List ℕ)
    → Holds m q xs
    → 0 < e
    → count e xs ≡ 0
    → let (q', m') = push_entry e q m in
      Holds m' q' (xs ++ e ∷ [])
      × ((z : ℕ) → count z (xs ++ e ∷ []) ≡ 0 → next_of m' z ≡ next_of m z)
unfolding push_entry
push_entry-append e q m [] h p fresh =
    let w = next_of-set_next e 0 m in
    rw h.spans.1 (
      record { spans = (refl, p, (ground (arith, w e), refl)); distinct = λ z. ground arith },
      (λ z r. ground (arith, w z)),
    )
push_entry-append e q m (x ∷ xs) h p fresh =
    let w = next_of-set_next e 0 m in
    let m1 = set_next e 0 m in
    let w2 = next_of-set_next q.tail e m1 in
    let pos = Linked-last_pos (next_of m) x xs q.tail h.spans.1 h.spans.2 in
    let last = Linked-last (next_of m) x xs q.tail h.spans.2 in
    let some_tail : (q.tail == 0) ≡ false = ground arith in
    rw some_tail (
      join q (record { head = e; tail = e }) m1 (set_next q.tail e m1) x xs [] e
          (record {
            spans =
                Spans-frame (next_of m) (next_of m1) q.head q.tail (x ∷ xs)
                  (λ z r. ground (arith, w z)) h.spans;
            distinct = h.distinct;
          })
          (refl, p, (ground (arith, w e), refl)) (λ z. ground (arith, h.distinct z)) w2,
      (λ z r. ground (arith, w z, w2 z, count-append z (x ∷ xs) (e ∷ []))),
    )

abbrev pub first : List ℕ → ℕ
first [] = 0
first (x ∷ xs) = x

abbrev pub rest : List ℕ → List ℕ
rest [] = []
rest (x ∷ xs) = xs

-- pop returns the first entry and leaves the others in order; of an empty queue it returns 0 and
-- leaves it empty.
pub pop-first :
    (q : ReadyQueue) (m : Memory) (xs : List ℕ)
    → Holds m q xs
    → ((pop q m).0 ≡ first xs) × Holds m (pop q m).1 (rest xs)
unfolding pop
pop-first q m [] h = let no_head : (q.head == 0) ≡ true = ground arith in rw no_head (refl, h)
pop-first q m (x ∷ []) h =
    let some_head : (q.head == 0) ≡ false = ground arith in
    let last : (next_of m q.head == 0) ≡ true = ground arith in
    rw (some_head, last) (h.spans.0, record { spans = (refl, refl); distinct = λ z. ground arith })
pop-first q m (x ∷ y ∷ ys) h =
    let some_head : (q.head == 0) ≡ false = ground arith in
    let more : (next_of m q.head == 0) ≡ false = ground arith in
    rw (some_head, more)
      (
        h.spans.0,
        record {
          spans = (ground arith, h.spans.2.1, h.spans.2.2);
          distinct = λ z. ground (arith, h.distinct z);
        },
      )

-- splice moves all entries of a queue with other entries behind those of this one, in order, and
-- leaves it empty.
pub splice-append :
    (q other : ReadyQueue) (m : Memory) (xs ys : List ℕ)
    → Holds m q xs
    → Holds m other ys
    → Disjoint xs ys
    → let (q', other', m') = splice q other m in
      Holds m' q' (xs ++ ys)
      × Holds m' other' []
      × ((z : ℕ) → count z xs ≡ 0 → next_of m' z ≡ next_of m z)
unfolding splice empty
splice-append q other m xs [] h k d =
    let none_there : (other.head == 0) ≡ true = ground arith in
    rw (none_there, append-nil xs) (h, k, (λ z p. refl))
splice-append q other m [] (y ∷ ys) h k d =
    let some_there : (other.head == 0) ≡ false = ground arith in
    let no_tail : (q.tail == 0) ≡ true = ground arith in
    rw (some_there, no_tail)
      (k, record { spans = (refl, refl); distinct = λ z. ground arith }, (λ z p. refl))
splice-append q other m (x ∷ xs) (y ∷ ys) h k d =
    let some_there : (other.head == 0) ≡ false = ground arith in
    let pos = Linked-last_pos (next_of m) x xs q.tail h.spans.1 h.spans.2 in
    let last = Linked-last (next_of m) x xs q.tail h.spans.2 in
    let some_tail : (q.tail == 0) ≡ false = ground arith in
    let w = next_of-set_next q.tail other.head m in
    rw (some_there, some_tail)
      (
        join q other m (set_next q.tail other.head m) x xs ys y h k.spans d
            (λ z. ground (arith, w z, k.spans)),
        record { spans = (refl, refl); distinct = λ z. ground arith },
        (λ z p. ground (arith, w z)),
      )

-- Of an even address: a tagged operation is no continuation and a tagged continuation is one, both
-- give their address back, and an operation's entry is never a continuation's.
pub tags :
    (a b : ℕ)
    → a % 2 ≡ 0
    → b % 2 ≡ 0
    → (ready_is_continuation (of_op a) ≡ false)
      × (ready_as_op (of_op a) ≡ a)
      × (ready_is_continuation (of_cont b) ≡ true)
      × (ready_as_cont (of_cont b) ≡ b)
      × (of_op a ≢ of_cont b)
unfolding ready_is_continuation of_op of_cont ready_as_op ready_as_cont
tags a b p q = ground arith

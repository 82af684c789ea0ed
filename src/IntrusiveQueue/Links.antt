-- ===== src/IntrusiveQueue/Links.antt =====
-- The linked nodes of an intrusive_queue are a sequence: push appends, splice concatenates, pop takes
-- the first.
use corosio.Base.{
  ℕ, ◌+◌, ◌≤◌, ◌<◌, ◌≡◌, refl, true, false, List, [], ◌∷◌, ◌++◌, ◌==◌, arith, count, count-append,
  append-nil, update,
}
use corosio.Chain.{
  Spans, IsQueue, Linked-last_pos, Linked-frame, Spans-frame, Linked-append, Linked-last,
}
use corosio.IntrusiveQueue.{Queue, is_empty, push, splice, pop}

-- The queue `q` over the links `next` holds these nodes, each once.
abbrev pub Contains : (ℕ → ℕ) → Queue → List ℕ → Type 0
Contains next q xs = IsQueue next q.head q.tail xs

abbrev pub Apart : List ℕ → List ℕ → Type 0
Apart xs ys = (z : ℕ) → count z xs + count z ys ≤ 1

-- A chain whose last node is linked to the first of another one.
chained :
    (next : ℕ → ℕ) (head tail : ℕ) (x : ℕ) (xs : List ℕ) (y tail2 : ℕ) (ys : List ℕ)
    → IsQueue next head tail (x ∷ xs)
    → Spans next y tail2 (y ∷ ys)
    → Apart (x ∷ xs) (y ∷ ys)
    → IsQueue (update next tail y) head tail2 (x ∷ xs ++ y ∷ ys)
chained next head tail x xs y tail2 ys h s d =
    let last = Linked-last next x xs tail h.spans.2 in
    record {
      spans = (
        h.spans.0,
        h.spans.1,
        Linked-append next (update next tail y) x xs tail y ys tail2 h.spans.2
            (Linked-frame next (update next tail y) y ys tail2 (λ z p. ground (arith, d z, last))
              s.2)
            s.1 h.distinct (λ z p. refl),
      );
      distinct = λ z. ground (arith, count-append z (x ∷ xs) (y ∷ ys), d z);
    }

-- Pushing a node that is not in the queue puts it behind the others.
pub push-append :
    (w : ℕ) (q : Queue) (next : ℕ → ℕ) (xs : List ℕ)
    → Contains next q xs
    → 0 < w
    → count w xs ≡ 0
    → Contains (push w q next).1 (push w q next).0 (xs ++ w ∷ [])
unfolding push
push-append w q next [] h p fresh =
    let no_tail : (q.tail == 0) ≡ true = ground arith in
    rw no_tail (record { spans = (refl, p, (ground arith, refl)); distinct = λ z. ground arith })
push-append w q next (x ∷ xs) h p fresh =
    let next1 = update next w 0 in
    let pos = Linked-last_pos next x xs q.tail h.spans.1 h.spans.2 in
    let some_tail : (q.tail == 0) ≡ false = ground arith in
    rw some_tail (
      chained next1 q.head q.tail x xs w w []
        (record {
          spans = Spans-frame next next1 q.head q.tail (x ∷ xs) (λ z r. ground arith) h.spans;
          distinct = h.distinct;
        })
        (refl, p, (ground arith, refl)) λ z. ground (arith, h.distinct z))

-- splice moves the nodes of another queue without nodes in common behind those of this one, in order,
-- and leaves it empty.
pub splice-joins :
    (q other : Queue) (next : ℕ → ℕ) (xs ys : List ℕ)
    → Contains next q xs
    → Contains next other ys
    → Apart xs ys
    → let (q', other', next') = splice q other next in
      Contains next' q' (xs ++ ys) × Contains next' other' []
unfolding splice is_empty
splice-joins q other next xs [] h k d =
    let none_there : (other.head == 0) ≡ true = ground arith in
    rw (none_there, append-nil xs) (h, k)
splice-joins q other next [] (y ∷ ys) h k d =
    let some_there : (other.head == 0) ≡ false = ground arith in
    let no_tail : (q.tail == 0) ≡ true = ground arith in
    rw (some_there, no_tail) (k, record { spans = (refl, refl); distinct = λ z. ground arith })
splice-joins q other next (x ∷ xs) (y ∷ ys) h k d =
    let some_there : (other.head == 0) ≡ false = ground arith in
    let pos = Linked-last_pos next x xs q.tail h.spans.1 h.spans.2 in
    let some_tail : (q.tail == 0) ≡ false = ground arith in
    rw (some_there, some_tail, k.spans.0)
      (
        chained next q.head q.tail x xs y other.tail ys h (refl, k.spans.1, k.spans.2) d,
        record { spans = (refl, refl); distinct = λ z. ground arith },
      )

abbrev pub head_of : List ℕ → ℕ
head_of [] = 0
head_of (x ∷ xs) = x

abbrev pub tail_of : List ℕ → List ℕ
tail_of [] = []
tail_of (x ∷ xs) = xs

-- pop returns the first node and leaves the others in order, although it clears the link of the node;
-- of an empty queue it returns 0 and leaves it empty.
pub pop-takes :
    (q : Queue) (next : ℕ → ℕ) (xs : List ℕ)
    → Contains next q xs
    → let (w, q', next') = pop q next in (w ≡ head_of xs) × Contains next' q' (tail_of xs)
unfolding pop
pop-takes q next [] h = let no_head : (q.head == 0) ≡ true = ground arith in rw no_head (refl, h)
pop-takes q next (x ∷ []) h =
    let some_head : (q.head == 0) ≡ false = ground arith in
    let last : (next q.head == 0) ≡ true = ground arith in
    rw (some_head, last) (h.spans.0, record { spans = (refl, refl); distinct = λ z. ground arith })
pop-takes q next (x ∷ y ∷ ys) h =
    let some_head : (q.head == 0) ≡ false = ground arith in
    let more : (next q.head == 0) ≡ false = ground arith in
    rw (some_head, more)
      (
        h.spans.0,
        record {
          spans = (
            ground arith,
            h.spans.2.1,
            Linked-frame next (update next q.head 0) y ys q.tail
                (λ z p. let dz = h.distinct z in ground arith) h.spans.2.2,
          );
          distinct = λ z. ground (arith, h.distinct z);
        },
      )

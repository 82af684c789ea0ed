-- ===== src/IntrusiveList/Splice.antt =====
-- splice_back of intrusive_list.
use corosio.Base.{
  ℕ, ◌+◌, ◌≤◌, ◌<◌, ◌≡◌, refl, sym, subst, List, [], ◌∷◌, ◌++◌, append-nil, arith, count,
  count-append, if_false, if_true, update,
}
use corosio.Chain.{Distinct}
use corosio.IntrusiveList.{IntrusiveList, is_null, Spliced, join_back, splice_back}
use corosio.IntrusiveList.Links.{Doubly, Ends, Holds, Doubly-last, Doubly-positive, Doubly-lead}

abbrev pub Apart : List ℕ → List ℕ → Type 0
Apart xs ys = (z : ℕ) → count z xs + count z ys ≤ 1

Doubly-join :
    (next prev : ℕ → ℕ) (p x : ℕ) (xs : List ℕ) (t y : ℕ) (ys : List ℕ) (u : ℕ)
    → Apart (x ∷ xs) (y ∷ ys)
    → 0 < y
    → Doubly next prev p x xs t
    → Doubly next prev 0 y ys u
    → Doubly (update next t y) (update prev y t) p x (xs ++ y ∷ ys) u
Doubly-join next prev p x [] t y ys u d y0 l m = (
  ground (arith, l.0, d x),
  ground (arith, l.2),
  y0,
  Doubly-lead next (update next t y) prev (update prev y t) 0 x y ys u (ground (arith, l.2))
      (ground (arith, l.2, d x)) (λ z c. ground (arith, l.2, d z)) (λ z c. ground (arith, d z)) m,
)
Doubly-join next prev p x (v ∷ vs) t y ys u d y0 l m = (
  ground (arith, l.0, d x),
  ground (arith, l.1, d x, d t, Doubly-last next prev x v vs t l.3),
  l.2,
  Doubly-join next prev x v vs t y ys u (λ z. ground (arith, d z)) y0 l.3 m,
)

Apart-append : (xs ys : List ℕ) → Apart xs ys → Distinct (xs ++ ys)
Apart-append xs ys d z = ground (arith, count-append z xs ys, d z)

join_back-Holds :
    (l : IntrusiveList) (xs : List ℕ) (y : ℕ) (ys : List ℕ) (u : ℕ)
    → Ends l xs
    → Apart xs (y ∷ ys)
    → 0 < y
    → Doubly l.next l.prev 0 y ys u
    → Holds (join_back y u l) (xs ++ y ∷ ys)
unfolding join_back
join_back-Holds l [] y ys u e d y0 m =
    let alone = record l { head = y; tail = u } in
    let after = record l {
      next = update l.next l.tail y;
      prev = update l.prev y l.tail;
      tail = u;
    } in
    subst (λ k. Holds k (y ∷ ys)) (sym (if_true (is_null l.tail) alone after (ground (arith, e.1))))
      (record { ends = (refl, y0, m); distinct = λ z. ground (arith, d z) })
join_back-Holds l (x ∷ xs) y ys u e d y0 m =
    let alone = record l { head = y; tail = u } in
    let after = record l {
      next = update l.next l.tail y;
      prev = update l.prev y l.tail;
      tail = u;
    } in
    let t = Doubly-positive l.next l.prev 0 x xs l.tail e.1 e.2 in
    subst (λ k. Holds k (x ∷ xs ++ y ∷ ys))
      (sym (if_false (is_null l.tail) alone after (ground (arith, t))))
      (record {
        ends = (e.0, e.1, Doubly-join l.next l.prev 0 x xs l.tail y ys u d y0 e.2 m);
        distinct = Apart-append (x ∷ xs) (y ∷ ys) d;
      })

-- splice_back moves the nodes of the other list behind those of this one and empties the other, if
-- the lists share no node.
pub splice_back-Holds :
    (s : Spliced) (xs ys : List ℕ)
    → Holds s.list xs
    → Holds
        (record {
          next = s.list.next;
          prev = s.list.prev;
          head = s.other_head;
          tail = s.other_tail;
        })
        ys
    → Apart xs ys
    → let r = splice_back s in Holds r.list (xs ++ ys) × (r.other_head ≡ 0) × (r.other_tail ≡ 0)
unfolding splice_back
splice_back-Holds s xs [] h k d =
    let moved : Spliced = record {
      list = join_back s.other_head s.other_tail s.list;
      other_head = 0;
      other_tail = 0;
    } in
    subst (λ r. Holds r.list (xs ++ []) × (r.other_head ≡ 0) × (r.other_tail ≡ 0))
      (sym (if_true (is_null s.other_head) s moved (ground (arith, k.ends.0))))
      (subst (Holds s.list) (sym (append-nil xs)) h, k.ends.0, k.ends.1)
splice_back-Holds s xs (y ∷ ys) h k d =
    let moved : Spliced = record {
      list = join_back s.other_head s.other_tail s.list;
      other_head = 0;
      other_tail = 0;
    } in
    subst (λ r. Holds r.list (xs ++ y ∷ ys) × (r.other_head ≡ 0) × (r.other_tail ≡ 0))
      (sym (if_false (is_null s.other_head) s moved (ground (arith, k.ends.0, k.ends.1))))
      (
        subst (λ v. Holds (join_back v s.other_tail s.list) (xs ++ y ∷ ys)) (sym k.ends.0)
            (join_back-Holds s.list xs y ys s.other_tail h.ends d k.ends.1 k.ends.2),
        refl,
        refl,
      )

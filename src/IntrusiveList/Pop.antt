-- ===== src/IntrusiveList/Pop.antt =====
-- pop_front of intrusive_list.
use corosio.Base.{
  ℕ, ◌≡◌, refl, sym, subst, ap, ◌∙◌, List, [], ◌∷◌, ◌==◌, arith, false, if_false, if_true, update,
}
use corosio.IntrusiveList.{IntrusiveList, is_null, drop_front, Popped, detach_node, pop_front}
use corosio.IntrusiveList.Links.{Holds, Doubly-lead}

abbrev pub Takes : ℕ → List ℕ → Popped → Type 0
Takes x xs p = (p.node ≡ x) × Holds p.rest xs × (p.rest.next x ≡ 0) × (p.rest.prev x ≡ 0)

pop_front-is :
    (l : IntrusiveList)
    → (l.head == 0) ≡ false
    → pop_front l ≡ record { node = l.head; rest = detach_node l.head (drop_front l) }
unfolding pop_front
pop_front-is l h =
    if_false (is_null l.head) (record { node = 0; rest = l })
      (record { node = l.head; rest = detach_node l.head (drop_front l) }) h

-- pop_front takes the first node off and clears its links.
pub pop_front-Takes :
    (l : IntrusiveList) (x : ℕ) (xs : List ℕ) → Holds l (x ∷ xs) → Takes x xs (pop_front l)
unfolding drop_front
pop_front-Takes l x [] h =
    let hn = ap l.next h.ends.0 ∙ h.ends.2.1 in
    let alone : IntrusiveList = record l { head = l.next l.head; tail = 0 } in
    let more : IntrusiveList = record l {
      head = l.next l.head;
      prev = update l.prev (l.next l.head) 0;
    } in
    subst (Takes x []) (sym (pop_front-is l (ground (arith, h.ends.0, h.ends.1)))) (
      subst (λ d. Takes x [] (record { node = l.head; rest = detach_node l.head d }))
        (sym (if_true (is_null (l.next l.head)) alone more (ground (arith, hn))))
        (
          h.ends.0,
          record { ends = (hn, refl); distinct = λ z. ground arith },
          ground (arith, h.ends.0),
          ground (arith, h.ends.0),
        ))
pop_front-Takes l x (y ∷ ys) h =
    let hn = ap l.next h.ends.0 ∙ h.ends.2.1 in
    let alone : IntrusiveList = record l { head = l.next l.head; tail = 0 } in
    let more : IntrusiveList = record l {
      head = l.next l.head;
      prev = update l.prev (l.next l.head) 0;
    } in
    subst (Takes x (y ∷ ys)) (sym (pop_front-is l (ground (arith, h.ends.0, h.ends.1)))) (
      subst (λ d. Takes x (y ∷ ys) (record { node = l.head; rest = detach_node l.head d }))
        (sym (if_false (is_null (l.next l.head)) alone more (ground (arith, hn, h.ends.2.2))))
        (
          h.ends.0,
          record {
            ends = (
              hn,
              h.ends.2.2,
              Doubly-lead l.next (update l.next l.head 0) l.prev
                  (update (update l.prev (l.next l.head) 0) l.head 0) x 0 y ys l.tail
                  (ground (arith, hn, h.ends.0, h.distinct y))
                  (ground (arith, h.ends.0, h.distinct y))
                  (λ z c. ground (arith, h.ends.0, h.distinct z))
                  (λ z c. ground (arith, hn, h.ends.0, h.distinct z)) h.ends.2.3,
            );
            distinct = λ z. ground (arith, h.distinct z);
          },
          ground (arith, h.ends.0),
          ground (arith, h.ends.0),
        ))

pub pop_front-none :
    (l : IntrusiveList) → Holds l [] → ((pop_front l).node ≡ 0) × Holds (pop_front l).rest []
unfolding pop_front
pop_front-none l h =
    subst (λ (p : Popped). (p.node ≡ 0) × Holds p.rest [])
      (sym (
        if_true (is_null l.head) (record { node = 0; rest = l })
          (record { node = l.head; rest = detach_node l.head (drop_front l) })
          (ground (arith, h.ends.0))))
      (refl, h)

-- ===== src/IntrusiveList/First.antt =====
-- remove of the first node of an intrusive_list.
use corosio.Base.{
  ℕ, ◌≡◌, refl, sym, subst, ap, ◌∙◌, List, [], ◌∷◌, if◌then◌else◌, arith, Bool, true, false,
  if_false, if_true, update,
}
use corosio.IntrusiveList.{
  IntrusiveList, is_null, unlink_prev, unlink_next, is_detached, detach_node, remove,
}
use corosio.IntrusiveList.Links.{Holds, Doubly-lead}
use corosio.IntrusiveList.Unlink.{Doubly-prev}

-- The links that remove makes when `w` is the first node.
abbrev linked_ahead : ℕ → IntrusiveList → Bool → IntrusiveList
linked_ahead w l b =
    let l1 = record l { head = l.next w } in
    detach_node w (
      if b
      then record l1 { tail = l.prev w }
      else record l1 { prev = update l.prev (l.next w) (l.prev w) })

remove-ahead :
    (w : ℕ) (l : IntrusiveList)
    → l.head ≡ w
    → l.prev w ≡ 0
    → remove w l ≡ linked_ahead w l (is_null (l.next w))
unfolding remove unlink_prev unlink_next
remove-ahead w l h p =
    if_false (is_detached w l) l (detach_node w (unlink_next w (unlink_prev w l)))
      (ground (arith, h))
    ∙ ap (λ m. detach_node w (unlink_next w m))
        (if_true (is_null (l.prev w)) (record l { head = l.next w })
          (record l { next = update l.next (l.prev w) (l.next w) }) (ground (arith, p)))

first-held :
    (x : ℕ) (xs : List ℕ) (l : IntrusiveList) (b : Bool)
    → Holds l (x ∷ xs)
    → is_null (l.next x) ≡ b
    → Holds (linked_ahead x l b) xs
first-held x [] l true h e = record {
  ends = (h.ends.2.1, h.ends.2.0);
  distinct = λ z. ground arith;
}
first-held x [] l false h e = absurd (ground (arith, h.ends.2.1))
first-held x (y ∷ ys) l true h e = absurd (ground (arith, h.ends.2.1, h.ends.2.2))
first-held x (y ∷ ys) l false h e =
    let k = h.ends.2 in
    let m = linked_ahead x l false in
    record {
      ends = (
        k.1,
        k.2,
        Doubly-lead l.next m.next l.prev m.prev x 0 y ys l.tail
            (ground (arith, k.0, k.1, h.distinct y)) (ground (arith, h.distinct y))
            (λ z c. ground (arith, h.distinct z)) (λ z c. ground (arith, k.1, h.distinct z)) k.3,
      );
      distinct = λ z. ground (arith, h.distinct z);
    }

linked_ahead-clear :
    (w : ℕ) (l : IntrusiveList) (b : Bool)
    → ((linked_ahead w l b).next w ≡ 0) × ((linked_ahead w l b).prev w ≡ 0)
linked_ahead-clear w l true = (ground arith, ground arith)
linked_ahead-clear w l false = (ground arith, ground arith)

pub remove_first :
    (x : ℕ) (xs : List ℕ) (l : IntrusiveList)
    → Holds l (x ∷ xs)
    → Holds (remove x l) xs × ((remove x l).next x ≡ 0) × ((remove x l).prev x ≡ 0)
remove_first x xs l h =
    let b = is_null (l.next x) in
    let c = linked_ahead-clear x l b in
    subst (λ m. Holds m xs × (m.next x ≡ 0) × (m.prev x ≡ 0))
      (sym (remove-ahead x l h.ends.0 (Doubly-prev l.next l.prev 0 x xs l.tail h.ends.2)))
      (first-held x xs l b h refl, c.0, c.1)

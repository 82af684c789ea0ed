-- ===== src/IntrusiveList/Remove.antt =====
-- What remove of intrusive_list represents.
use corosio.Base.{
  ℕ, ◌<◌, ◌≡◌, refl, sym, subst, ap, ◌∙◌, List, [], ◌∷◌, ◌==◌, if◌then◌else◌, arith, count, Bool,
  true, false, not, ◌&&◌, if_false, if_true, update, Bool-cases, inl, inr,
}
use corosio.Chain.{Distinct}
use corosio.IntrusiveList.{
  IntrusiveList, is_null, unlink_prev, unlink_next, is_detached, detach_node, remove,
}
use corosio.IntrusiveList.Links.{Doubly, Holds, Doubly-last}
use corosio.IntrusiveList.First.{remove_first}
use corosio.IntrusiveList.Unlink.{
  erase, count-erase, prev-in, members, Unlinks, Doubly-erase, Doubly-prev,
}

prev-itself :
    (next prev : ℕ → ℕ) (p x : ℕ) (xs : List ℕ) (t w : ℕ)
    → Distinct (x ∷ xs)
    → 0 < count w xs
    → Doubly next prev p x xs t
    → (prev w == w) ≡ false
prev-itself next prev p x [] t w d c l = ground arith
prev-itself next prev p x (y ∷ ys) t w d c l = elim (Bool-cases (y == w)) [
  | inl e ↦ ground (arith, Doubly-prev next prev x y ys t l.3, congruent (ground arith), d w)
  | inr e ↦ prev-itself next prev x y ys t w (λ z. ground (arith, d z)) (ground arith) l.3
]
  where
    congruent : y ≡ w → prev y ≡ prev w
    congruent e = ap prev e

-- Only the last node has no next one.
last-null :
    (next prev : ℕ → ℕ) (p x : ℕ) (xs : List ℕ) (t w : ℕ)
    → Distinct (x ∷ xs)
    → 0 < count w (x ∷ xs)
    → Doubly next prev p x xs t
    → is_null (next w) ≡ (t == w)
last-null next prev p x [] t w d c l = ground (arith, l.1, l.2, congruent (ground arith))
  where
    congruent : x ≡ w → next x ≡ next w
    congruent e = ap next e
last-null next prev p x (y ∷ ys) t w d c l = elim (Bool-cases (x == w)) [
  | inl e ↦
      ground (arith, l.1, l.2, congruent (ground arith), d t, Doubly-last next prev x y ys t l.3)
  | inr e ↦ last-null next prev x y ys t w (λ z. ground (arith, d z)) (ground arith) l.3
]
  where
    congruent : x ≡ w → next x ≡ next w
    congruent e = ap next e

-- The links that remove makes of those of a list in which `w` is not the first node.
abbrev inside : ℕ → IntrusiveList → IntrusiveList
inside w l = record l { next = update l.next (l.prev w) (l.next w) }

abbrev linked_past : ℕ → IntrusiveList → Bool → IntrusiveList
linked_past w l b = detach_node w (
    if b
    then record (inside w l) { tail = l.prev w }
    else record (inside w l) { prev = update l.prev (l.next w) (l.prev w) })

remove-is :
    (w : ℕ) (l : IntrusiveList)
    → 0 < l.prev w
    → (l.prev w == w) ≡ false
    → remove w l ≡ linked_past w l (is_null (l.next w))
unfolding remove unlink_prev unlink_next
remove-is w l p n =
    if_false (is_detached w l) l (detach_node w (unlink_next w (unlink_prev w l)))
      (ground (arith, p))
    ∙ ap (λ m. detach_node w (unlink_next w m))
        (if_false (is_null (l.prev w)) (record l { head = l.next w }) (inside w l)
          (ground (arith, p)))
    ∙ ap
        (λ v. detach_node w (
          if is_null v
          then record (inside w l) { tail = l.prev w }
          else record (inside w l) { prev = update l.prev v (l.prev w) }))
        (if_false (l.prev w == w) (l.next w) (l.next w) n)

linked_past-Unlinks :
    (w : ℕ) (l : IntrusiveList) (b : Bool)
    → is_null (l.next w) ≡ b
    → Unlinks l.next (linked_past w l b).next l.prev (linked_past w l b).prev w
linked_past-Unlinks w l true e z z0 = (refl, ground arith)
linked_past-Unlinks w l false e z z0 = (refl, refl)

linked_past-tail :
    (w : ℕ) (l : IntrusiveList) (b : Bool)
    → (l.tail == w) ≡ b
    → (linked_past w l b).tail ≡ (if l.tail == w then l.prev w else l.tail)
linked_past-tail w l true e = ground arith
linked_past-tail w l false e = ground arith

linked_past-head : (w : ℕ) (l : IntrusiveList) (b : Bool) → (linked_past w l b).head ≡ l.head
linked_past-head w l true = refl
linked_past-head w l false = refl

linked_past-clear :
    (w : ℕ) (l : IntrusiveList) (b : Bool)
    → ((linked_past w l b).next w ≡ 0) × ((linked_past w l b).prev w ≡ 0)
linked_past-clear w l b = (ground arith, ground arith)

-- The list without `w`, whose links are cleared.
abbrev pub Without : ℕ → List ℕ → IntrusiveList → Type 0
Without w xs l = Holds l (erase w xs) × (l.next w ≡ 0) × (l.prev w ≡ 0)

Distinct-erase : (w : ℕ) (xs : List ℕ) → Distinct xs → Distinct (erase w xs)
Distinct-erase w xs d z = ground (arith, d z, count-erase z w xs)

remove_inside :
    (w x : ℕ) (xs : List ℕ) (l : IntrusiveList)
    → Holds l (x ∷ xs)
    → (x == w) ≡ false
    → 0 < count w xs
    → Without w (x ∷ xs) (remove w l)
remove_inside w x xs l h e c =
    let k = h.ends.2 in
    let b = is_null (l.next w) in
    let pin = prev-in l.next l.prev 0 x xs l.tail w k c in
    let p0 = members l.next l.prev 0 x xs l.tail (l.prev w) h.ends.1 k pin in
    let n = prev-itself l.next l.prev 0 x xs l.tail w h.distinct c k in
    let last = last-null l.next l.prev 0 x xs l.tail w h.distinct (ground arith) k in
    let m = linked_past w l b in
    let ends : Doubly m.next m.prev 0 x (erase w xs) m.tail =
      subst (Doubly m.next m.prev 0 x (erase w xs)) (sym (linked_past-tail w l b (sym last))) (
        Doubly-erase l.next m.next l.prev m.prev 0 x xs l.tail w h.distinct h.ends.1 c
          (linked_past-Unlinks w l b refl) k) in
    let dist : Distinct (x ∷ erase w xs) = λ z. ground (arith, h.distinct z, count-erase z w xs) in
    let held : Holds m (x ∷ erase w xs) = record {
      ends = (linked_past-head w l b ∙ h.ends.0, h.ends.1, ends);
      distinct = dist;
    } in
    subst (Without w (x ∷ xs)) (sym (remove-is w l p0 n)) (
      subst (Holds m) (sym (if_false (x == w) xs (x ∷ erase w xs) e)) held,
      (linked_past-clear w l b).0,
      (linked_past-clear w l b).1,
    )

-- remove takes a node out of a list that holds it, wherever it stands, keeps the order of the others,
-- and clears the links of the node.
pub remove-Without :
    (w : ℕ) (xs : List ℕ) (l : IntrusiveList)
    → Holds l xs
    → 0 < count w xs
    → Without w xs (remove w l)
remove-Without w [] l h c = ground arith
remove-Without w (x ∷ xs) l h c = elim (Bool-cases (x == w)) [
  | inl e ↦
      let q : x ≡ w = ground arith in
      let f =
        subst (λ v. Holds (remove v l) xs × ((remove v l).next v ≡ 0) × ((remove v l).prev v ≡ 0)) q
          (remove_first x xs l h) in
      (subst (Holds (remove w l)) (sym (if_true (x == w) xs (x ∷ erase w xs) e)) f.0, f.1, f.2)
  | inr e ↦ remove_inside w x xs l h e (ground arith)
]

apart-ends :
    (w : ℕ) (xs : List ℕ) (l : IntrusiveList)
    → Holds l xs
    → count w xs ≡ 0
    → 0 < w
    → (not (l.head == w) && not (l.tail == w)) ≡ true
apart-ends w [] l h c w0 = ground (arith, h.ends.0, h.ends.1)
apart-ends w (x ∷ xs) l h c w0 =
    let i = Doubly-last l.next l.prev 0 x xs l.tail h.ends.2 in
    elim (Bool-cases (l.tail == w)) [
      | inl e ↦ absurd (ground (arith, i, c, congruent (ground arith)))
      | inr e ↦ ground (arith, h.ends.0)
    ]
  where
    congruent : l.tail ≡ w → count l.tail (x ∷ xs) ≡ count w (x ∷ xs)
    congruent e = ap (λ v. count v (x ∷ xs)) e

-- Removing a node that no list holds and whose links are clear, as remove and pop_front leave them,
-- changes nothing.
pub remove-detached :
    (w : ℕ) (xs : List ℕ) (l : IntrusiveList)
    → Holds l xs
    → count w xs ≡ 0
    → 0 < w
    → l.next w ≡ 0
    → l.prev w ≡ 0
    → remove w l ≡ l
unfolding remove
remove-detached w xs l h c w0 n p =
    if_true (is_detached w l) l (detach_node w (unlink_next w (unlink_prev w l)))
      (ground (arith, n, p, apart-ends w xs l h c w0))

-- ===== src/IntrusiveList/Unlink.antt =====
-- remove of intrusive_list.
use corosio.Base.{
  ℕ, ◌≤◌, ◌<◌, ◌≡◌, sym, subst, ap, List, [], ◌∷◌, ◌==◌, if◌then◌else◌, arith, count, false,
  if_false, Bool-cases, inl, inr,
}
use corosio.Chain.{Distinct}
use corosio.IntrusiveList.Links.{Doubly, Doubly-last, Doubly-lead}

-- The list without the first occurrence of a node.
abbrev pub erase : ℕ → List ℕ → List ℕ
erase w [] = []
erase w (y ∷ ys) = if y == w then ys else y ∷ erase w ys

pub count-erase : (z w : ℕ) (xs : List ℕ) → count z (erase w xs) ≤ count z xs
count-erase z w [] = omega arith
count-erase z w (y ∷ ys) = elim (Bool-cases (y == w)) [
  | inl e ↦ rw (e) (ground arith)
  | inr e ↦ rw (e) (ground (arith, count-erase z w ys))
]

pub Doubly-prev :
    (next prev : ℕ → ℕ) (p x : ℕ) (xs : List ℕ) (t : ℕ) → Doubly next prev p x xs t → prev x ≡ p
Doubly-prev next prev p x [] t l = l.0
Doubly-prev next prev p x (y ∷ ys) t l = l.0

-- A node that is not the first has the node before it in the list.
pub prev-in :
    (next prev : ℕ → ℕ) (p x : ℕ) (xs : List ℕ) (t w : ℕ)
    → Doubly next prev p x xs t
    → 0 < count w xs
    → 0 < count (prev w) (x ∷ xs)
prev-in next prev p x [] t w l c = ground arith
prev-in next prev p x (y ∷ ys) t w l c = elim (Bool-cases (y == w)) [
  | inl e ↦ ground (arith, Doubly-prev next prev x y ys t l.3, at_y (ground arith))
  | inr e ↦ ground (arith, prev-in next prev x y ys t w l.3 (ground arith))
]
  where
    at_y : y ≡ w → prev y ≡ prev w
    at_y e = ap prev e

-- The node after a node is none or a later one of the list.
pub next-in :
    (next prev : ℕ → ℕ) (p x : ℕ) (xs : List ℕ) (t w : ℕ)
    → Doubly next prev p x xs t
    → 0 < count w (x ∷ xs)
    → 0 < next w
    → 0 < count (next w) xs
next-in next prev p x [] t w l c n = ground (arith, l.1, congruent (ground arith))
  where
    congruent : x ≡ w → next x ≡ next w
    congruent e = ap next e
next-in next prev p x (y ∷ ys) t w l c n = elim (Bool-cases (x == w)) [
  | inl e ↦ ground (arith, l.1, congruent (ground arith))
  | inr e ↦ ground (arith, next-in next prev x y ys t w l.3 (ground arith) n)
]
  where
    congruent : x ≡ w → next x ≡ next w
    congruent e = ap next e

-- No node is followed by the first one, and only the second one is preceded by it.
next-apart :
    (next prev : ℕ → ℕ) (p x : ℕ) (xs : List ℕ) (t w : ℕ)
    → Distinct (x ∷ xs)
    → 0 < x
    → 0 < count w (x ∷ xs)
    → Doubly next prev p x xs t
    → (next w == x) ≡ false
next-apart next prev p x xs t w d x0 c l = elim (Bool-cases (next w == x)) [
  | inl e ↦
      absurd
        (ground (arith, d (next w), next-in next prev p x xs t w l c (ground (arith, e, x0)), e))
  | inr e ↦ e
]

prev-apart :
    (next prev : ℕ → ℕ) (p x y : ℕ) (ys : List ℕ) (t w : ℕ)
    → Distinct (x ∷ y ∷ ys)
    → 0 < count w ys
    → Doubly next prev p y ys t
    → (prev w == x) ≡ false
prev-apart next prev p x y ys t w d c l =
    ground (arith, d (prev w), prev-in next prev p y ys t w l c)

-- What unlinking `w` makes of the links.
abbrev pub Unlinks : (ℕ → ℕ) → (ℕ → ℕ) → (ℕ → ℕ) → (ℕ → ℕ) → ℕ → Type 0
Unlinks next next' prev prev' w =
    (z : ℕ)
    → 0 < z
    → (next' z ≡ (if w == z then 0 else if prev w == z then next w else next z))
      × (prev' z ≡ (if w == z then 0 else if next w == z then prev w else prev z))

pub members :
    (next prev : ℕ → ℕ) (p x : ℕ) (xs : List ℕ) (t z : ℕ)
    → 0 < x
    → Doubly next prev p x xs t
    → 0 < count z (x ∷ xs)
    → 0 < z
members next prev p x [] t z x0 l c = ground arith
members next prev p x (y ∷ ys) t z x0 l c = elim (Bool-cases (x == z)) [
  | inl e ↦ ground arith
  | inr e ↦ members next prev x y ys t z l.2 l.3 (ground arith)
]

Doubly-skip :
    (next next' prev prev' : ℕ → ℕ) (p x y : ℕ) (ys : List ℕ) (t w : ℕ)
    → Distinct (x ∷ y ∷ ys)
    → 0 < x
    → y ≡ w
    → Unlinks next next' prev prev' w
    → Doubly next prev p x (y ∷ ys) t
    → Doubly next' prev' p x ys (if t == w then prev w else t)
Doubly-skip next next' prev prev' p x y [] t w d x0 e u l =
    let n = ap next e in
    let q = ap prev e in
    (
      ground (arith, (u x x0).1, d y, l.3.1, n, l.0),
      ground (arith, (u x x0).0, d y, l.3.0, l.3.1, n, q),
      ground (arith, l.3.0, l.3.2, q),
    )
Doubly-skip next next' prev prev' p x y (z ∷ zs) t w d x0 e u l =
    let n = ap next e in
    let q = ap prev e in
    let i = Doubly-last next prev y z zs t l.3.3 in
    let m : (v : ℕ) → 0 < count v zs → 0 < v =
      λ v c. members next prev y z zs t v l.3.2 l.3.3 (ground arith) in
    (
      ground (arith, (u x x0).1, d y, d x, l.3.1, n, l.0),
      ground (arith, (u x x0).0, d y, l.3.0, l.3.1, n, q),
      l.3.2,
      subst (Doubly next' prev' x z zs)
          (sym (if_false (t == w) (prev w) t (ground (arith, d y, d t, i))))
          (Doubly-lead next next' prev prev' y x z zs t
            (ground (arith, (u z l.3.2).1, d y, l.3.1, n, l.3.0, q))
            (ground (arith, (u z l.3.2).0, d y, d x, l.3.0, q))
            (λ v c. ground (arith, (u v (m v c)).0, d v, l.3.0, q))
            (λ v c. ground (arith, (u v (m v c)).1, d v, l.3.1, n)) l.3.3),
    )

-- Unlinking a node that is not the first leaves the chain without it.
pub Doubly-erase :
    (next next' prev prev' : ℕ → ℕ) (p x : ℕ) (xs : List ℕ) (t w : ℕ)
    → Distinct (x ∷ xs)
    → 0 < x
    → 0 < count w xs
    → Unlinks next next' prev prev' w
    → Doubly next prev p x xs t
    → Doubly next' prev' p x (erase w xs) (if t == w then prev w else t)
Doubly-erase next next' prev prev' p x [] t w d x0 c u l = ground arith
Doubly-erase next next' prev prev' p x (y ∷ ys) t w d x0 c u l = elim (Bool-cases (y == w)) [
  | inl e ↦ rw (e) (Doubly-skip next next' prev prev' p x y ys t w d x0 (ground arith) u l)
  | inr e ↦
      let c1 : 0 < count w ys = ground arith in
      rw (e) (
        ground (
          arith,
          (u x x0).1,
          d w,
          l.0,
          next-apart next prev p x (y ∷ ys) t w d x0 (ground arith) l,
        ),
        ground (arith, (u x x0).0, d w, l.1, prev-apart next prev x x y ys t w d c1 l.3),
        l.2,
        Doubly-erase next next' prev prev' x y ys t w (λ z. ground (arith, d z)) l.2 c1 u l.3,
      )
]

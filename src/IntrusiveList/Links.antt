-- ===== src/IntrusiveList/Links.antt =====
-- What the links of intrusive_list represent: push_back and pop_front.
use corosio.Base.{
  ℕ, ◌<◌, ◌≡◌, refl, sym, subst, ◌∙◌, List, [], ◌∷◌, ◌++◌, ◌==◌, if◌then◌else◌, arith, count,
  if_false, if_true, update, count-append,
}
use corosio.Chain.{Distinct}
use corosio.IntrusiveList.{IntrusiveList, is_null, push_back}

-- From the node `x` the links lead through `xs` and back, `p` is before `x`, and `t` is the last node.
abbrev pub Doubly : (ℕ → ℕ) → (ℕ → ℕ) → ℕ → ℕ → List ℕ → ℕ → Type 0
Doubly next prev p x [] t = (prev x ≡ p) × (next x ≡ 0) × (t ≡ x)
Doubly next prev p x (y ∷ ys) t = (prev x ≡ p) × (next x ≡ y) × (0 < y) × Doubly next prev x y ys t

abbrev pub Ends : IntrusiveList → List ℕ → Type 0
Ends l [] = (l.head ≡ 0) × (l.tail ≡ 0)
Ends l (x ∷ xs) = (l.head ≡ x) × (0 < x) × Doubly l.next l.prev 0 x xs l.tail

-- The list holds exactly these nodes in this order.
pub record Holds (l : IntrusiveList) (xs : List ℕ) : Type 0 where
  pub ends : Ends l xs
  pub distinct : Distinct xs

pub Doubly-frame :
    (next next' prev prev' : ℕ → ℕ) (p x : ℕ) (xs : List ℕ) (t : ℕ)
    → ((z : ℕ) → 0 < count z (x ∷ xs) → next' z ≡ next z)
    → ((z : ℕ) → 0 < count z (x ∷ xs) → prev' z ≡ prev z)
    → Doubly next prev p x xs t
    → Doubly next' prev' p x xs t
Doubly-frame next next' prev prev' p x [] t n q l =
    (ground (arith, q x, l.0), ground (arith, n x, l.1), l.2)
Doubly-frame next next' prev prev' p x (y ∷ ys) t n q l = (
  ground (arith, q x, l.0),
  ground (arith, n x, l.1),
  l.2,
  Doubly-frame next next' prev prev' x y ys t (λ z c. n z (ground arith))
      (λ z c. q z (ground arith)) l.3,
)

pub Doubly-last :
    (next prev : ℕ → ℕ) (p x : ℕ) (xs : List ℕ) (t : ℕ)
    → Doubly next prev p x xs t
    → 0 < count t (x ∷ xs)
Doubly-last next prev p x [] t l = ground (arith, l.2)
Doubly-last next prev p x (y ∷ ys) t l = ground (arith, Doubly-last next prev x y ys t l.3)

-- A new last node `w`.
Doubly-snoc :
    (next next' prev prev' : ℕ → ℕ) (p x : ℕ) (xs : List ℕ) (t w : ℕ)
    → Distinct (x ∷ xs)
    → count w (x ∷ xs) ≡ 0
    → 0 < w
    → ((z : ℕ) → next' z ≡ (if t == z then w else if w == z then 0 else next z))
    → ((z : ℕ) → prev' z ≡ (if w == z then t else prev z))
    → Doubly next prev p x xs t
    → Doubly next' prev' p x (xs ++ w ∷ []) w
Doubly-snoc next next' prev prev' p x [] t w d c w0 n q l = (
  ground (arith, q x, l.0),
  ground (arith, n x, l.2),
  w0,
  (ground (arith, q w, l.2), ground (arith, n w, l.2), refl),
)
Doubly-snoc next next' prev prev' p x (y ∷ ys) t w d c w0 n q l = (
  ground (arith, q x, l.0),
  ground (arith, n x, l.1, d x, Doubly-last next prev x y ys t l.3),
  l.2,
  Doubly-snoc next next' prev prev' x y ys t w (λ z. ground (arith, d z)) (ground arith) w0 n q l.3,
)

pub Doubly-positive :
    (next prev : ℕ → ℕ) (p x : ℕ) (xs : List ℕ) (t : ℕ) → 0 < x → Doubly next prev p x xs t → 0 < t
Doubly-positive next prev p x [] t h l = ground (arith, l.2)
Doubly-positive next prev p x (y ∷ ys) t h l = Doubly-positive next prev x y ys t l.2 l.3

Distinct-snoc : (xs : List ℕ) (w : ℕ) → Distinct xs → count w xs ≡ 0 → Distinct (xs ++ w ∷ [])
Distinct-snoc xs w d c z = ground (arith, count-append z xs (w ∷ []), d z, c)

-- push_back adds a node that the list does not hold at its end, whatever the node's links are.
pub push_back-appends :
    (l : IntrusiveList) (xs : List ℕ) (w : ℕ)
    → Holds l xs
    → count w xs ≡ 0
    → 0 < w
    → Holds (push_back w l) (xs ++ w ∷ [])
unfolding push_back
push_back-appends l [] w h c w0 =
    let prev1 = update l.prev w l.tail in
    let next1 = update l.next w 0 in
    let alone : IntrusiveList = record { next = next1; prev = prev1; head = w; tail = w } in
    let after : IntrusiveList = record {
      next = update next1 l.tail w;
      prev = prev1;
      head = l.head;
      tail = w;
    } in
    subst (λ m. Holds m (w ∷ []))
      (sym (if_true (is_null l.tail) alone after (ground (arith, h.ends.1))))
      (record {
        ends = (refl, w0, (ground (arith, h.ends.1), ground arith, refl));
        distinct = λ z. ground arith;
      })
push_back-appends l (x ∷ xs) w h c w0 =
    let prev1 = update l.prev w l.tail in
    let next1 = update l.next w 0 in
    let alone : IntrusiveList = record { next = next1; prev = prev1; head = w; tail = w } in
    let after : IntrusiveList = record {
      next = update next1 l.tail w;
      prev = prev1;
      head = l.head;
      tail = w;
    } in
    let t = Doubly-positive l.next l.prev 0 x xs l.tail h.ends.1 h.ends.2 in
    subst (λ m. Holds m (x ∷ xs ++ w ∷ []))
      (sym (if_false (is_null l.tail) alone after (ground (arith, t))))
      (record {
        ends = (
          h.ends.0,
          h.ends.1,
          Doubly-snoc l.next (update next1 l.tail w) l.prev prev1 0 x xs l.tail w h.distinct c w0
              (λ z. refl) (λ z. refl) h.ends.2,
        );
        distinct = Distinct-snoc (x ∷ xs) w h.distinct c;
      })

-- The first node is given another node before it, and the others stay.
pub Doubly-lead :
    (next next' prev prev' : ℕ → ℕ) (p p' x : ℕ) (xs : List ℕ) (t : ℕ)
    → prev' x ≡ p'
    → next' x ≡ next x
    → ((z : ℕ) → 0 < count z xs → next' z ≡ next z)
    → ((z : ℕ) → 0 < count z xs → prev' z ≡ prev z)
    → Doubly next prev p x xs t
    → Doubly next' prev' p' x xs t
Doubly-lead next next' prev prev' p p' x [] t a b n q l = (a, b ∙ l.1, l.2)
Doubly-lead next next' prev prev' p p' x (y ∷ ys) t a b n q l =
    (a, b ∙ l.1, l.2, Doubly-frame next next' prev prev' x y ys t n q l.3)

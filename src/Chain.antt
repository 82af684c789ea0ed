-- ===== src/Chain.antt =====
-- Chains of intrusive nodes, as the queues of include/boost/corosio/detail/intrusive.hpp and
-- ready_queue.hpp link them: every node holds the address of the next one, 0 at the end.
use corosio.Base.{ℕ, ◌≤◌, ◌<◌, ◌≡◌, List, [], ◌∷◌, ◌++◌, ◌==◌, if◌then◌else◌, arith, count}

-- From the node `x` the links lead through `xs`, and `t` is the last node.
abbrev pub Linked : (ℕ → ℕ) → ℕ → List ℕ → ℕ → Type 0
Linked next x [] t = (next x ≡ 0) × (t ≡ x)
Linked next x (y ∷ ys) t = (next x ≡ y) × (0 < y) × Linked next y ys t

-- `head` and `tail` are the ends of a chain of exactly these nodes.
abbrev pub Spans : (ℕ → ℕ) → ℕ → ℕ → List ℕ → Type 0
Spans next head tail [] = (head ≡ 0) × (tail ≡ 0)
Spans next head tail (x ∷ xs) = (head ≡ x) × (0 < x) × Linked next x xs tail

abbrev pub Distinct : List ℕ → Type 0
Distinct xs = (z : ℕ) → count z xs ≤ 1

-- A queue with these ends holds these nodes, each once.
pub record IsQueue (next : ℕ → ℕ) (head tail : ℕ) (xs : List ℕ) : Type 0 where
  pub spans : Spans next head tail xs
  pub distinct : Distinct xs

-- Links that agree on the nodes make the same chain.
pub Linked-frame :
    (next next' : ℕ → ℕ) (x : ℕ) (xs : List ℕ) (t : ℕ)
    → ((z : ℕ) → 0 < count z (x ∷ xs) → next' z ≡ next z)
    → Linked next x xs t
    → Linked next' x xs t
Linked-frame next next' x [] t same l = ground (arith, same x)
Linked-frame next next' x (y ∷ ys) t same l = (
  ground (arith, same x, l.0),
  l.1,
  Linked-frame next next' y ys t (λ z p. same z (ground arith)) l.2,
)

pub Spans-frame :
    (next next' : ℕ → ℕ) (head tail : ℕ) (xs : List ℕ)
    → ((z : ℕ) → 0 < count z xs → next' z ≡ next z)
    → Spans next head tail xs
    → Spans next' head tail xs
Spans-frame next next' head tail [] same s = s
Spans-frame next next' head tail (x ∷ xs) same s =
    (s.0, s.1, Linked-frame next next' x xs tail same s.2)

-- The last node is one of the nodes.
pub Linked-last :
    (next : ℕ → ℕ) (x : ℕ) (xs : List ℕ) (t : ℕ) → Linked next x xs t → 0 < count t (x ∷ xs)
Linked-last next x [] t l = ground arith
Linked-last next x (y ∷ ys) t l = ground (arith, Linked-last next y ys t l.2)

-- A chain whose last node is set to link to another one goes on with that.
pub Linked-append :
    (next next' : ℕ → ℕ) (x : ℕ) (xs : List ℕ) (t y : ℕ) (ys : List ℕ) (t2 : ℕ)
    → Linked next x xs t
    → Linked next' y ys t2
    → 0 < y
    → Distinct (x ∷ xs)
    → ((z : ℕ) → 0 < count z (x ∷ xs) → next' z ≡ (if t == z then y else next z))
    → Linked next' x (xs ++ y ∷ ys) t2
Linked-append next next' x [] t y ys t2 l m p d h = (ground (arith, h x, l.1), p, m)
Linked-append next next' x (v ∷ vs) t y ys t2 l m p d h =
    let last = Linked-last next v vs t l.2 in
    (
      ground (arith, h x, l.0, last, d t),
      l.1,
      Linked-append next next' v vs t y ys t2 l.2 m p (λ z. ground (arith, d z))
          (λ z q. h z (ground arith)),
    )

pub Linked-last_pos :
    (next : ℕ → ℕ) (x : ℕ) (xs : List ℕ) (t : ℕ) → 0 < x → Linked next x xs t → 0 < t
Linked-last_pos next x [] t p l = ground arith
Linked-last_pos next x (y ∷ ys) t p l = Linked-last_pos next y ys t l.1 l.2

-- ===== src/Endpoint/Order.antt =====
-- operator<=> of endpoint is a strict total order, consistent with operator==.
use corosio.Base.{
  ℕ, ◌≡◌, ◌↔◌, refl, sym, ap, ◌∙◌, Bool, true, false, ◌&&◌, not, List, [], ◌∷◌, ◌==◌, if◌then◌else◌,
  arith,
}
use Prim.Native.Nat.{compare, Ordering, lt, eq, gt}
use corosio.Endpoint.{Endpoint, equal_bytes, compare_bytes, equal, first_of, compare_endpoints}

abbrev pub reverse : Ordering → Ordering
reverse lt = gt
reverse eq = eq
reverse gt = lt

abbrev is_eq : Ordering → Bool
is_eq lt = false
is_eq eq = true
is_eq gt = false

compare_flip : (x y : ℕ) → compare y x ≡ reverse (compare x y)
compare_flip x y = ground arith

compare_equal : (x y : ℕ) → is_eq (compare x y) ≡ (x == y)
compare_equal x y = ground arith

first_of-flip :
    (o p o' p' : Ordering)
    → o' ≡ reverse o
    → p' ≡ reverse p
    → first_of o' p' ≡ reverse (first_of o p)
first_of-flip lt p o' p' h k = rw h refl
first_of-flip eq p o' p' h k = rw h k
first_of-flip gt p o' p' h k = rw h refl

bytes_flip : (a b : List ℕ) → compare_bytes b a ≡ reverse (compare_bytes a b)
unfolding compare_bytes
bytes_flip [] [] = refl
bytes_flip [] (y ∷ b) = refl
bytes_flip (x ∷ a) [] = refl
bytes_flip (x ∷ a) (y ∷ b) =
    first_of-flip (compare x y) (compare_bytes a b) (compare y x) (compare_bytes b a)
      (compare_flip x y) (bytes_flip a b)

first_of-eq : (o p : Ordering) → is_eq (first_of o p) ≡ is_eq o && is_eq p
first_of-eq lt p = refl
first_of-eq eq p = refl
first_of-eq gt p = refl

bytes_equal : (a b : List ℕ) → is_eq (compare_bytes a b) ≡ equal_bytes a b
unfolding compare_bytes equal_bytes
bytes_equal [] [] = refl
bytes_equal [] (y ∷ b) = refl
bytes_equal (x ∷ a) [] = refl
bytes_equal (x ∷ a) (y ∷ b) =
    first_of-eq (compare x y) (compare_bytes a b)
    ∙ ap (λ t. t && is_eq (compare_bytes a b)) (compare_equal x y)
    ∙ ap (λ t. (x == y) && t) (bytes_equal a b)

-- What two comparisons tell of a third.
record IsTrans (o p q : Ordering) : Type 0 where
  both : o ≡ lt → p ≡ lt → q ≡ lt
  left : o ≡ eq → q ≡ p
  right : p ≡ eq → q ≡ o

first_of-IsTrans :
    (o p q o' p' q' : Ordering)
    → IsTrans o p q
    → IsTrans o' p' q'
    → IsTrans (first_of o o') (first_of p p') (first_of q q')
first_of-IsTrans o p q o' p' q' h k = record {
  both = first_both o p q h;
  left = first_left o p q h;
  right = first_right o p q h;
}
  where
    first_both :
        (o p q : Ordering)
        → IsTrans o p q
        → first_of o o' ≡ lt
        → first_of p p' ≡ lt
        → first_of q q' ≡ lt
    first_both lt lt q h e f = rw (h.both refl refl) refl
    first_both lt eq q h e f = rw (h.right refl) refl
    first_both eq lt q h e f = rw (h.left refl) refl
    first_both eq eq q h e f = rw (h.left refl) (k.both e f)
    first_both gt p q h e f = absurd (ground arith)
    first_both lt gt q h e f = absurd (ground arith)
    first_both eq gt q h e f = absurd (ground arith)

    first_left :
        (o p q : Ordering) → IsTrans o p q → first_of o o' ≡ eq → first_of q q' ≡ first_of p p'
    first_left lt p q h e = absurd (ground arith)
    first_left eq p q h e = rw (h.left refl, k.left e) refl
    first_left gt p q h e = absurd (ground arith)

    first_right :
        (o p q : Ordering) → IsTrans o p q → first_of p p' ≡ eq → first_of q q' ≡ first_of o o'
    first_right o lt q h e = absurd (ground arith)
    first_right o eq q h e = rw (h.right refl, k.right e) refl
    first_right o gt q h e = absurd (ground arith)

compare-IsTrans : (x y z : ℕ) → IsTrans (compare x y) (compare y z) (compare x z)
compare-IsTrans x y z = record {
  both = λ h k. ground arith;
  left = λ h. let e : x ≡ y = ground arith in ap (λ t. compare t z) e;
  right = λ h. let e : y ≡ z = ground arith in ap (compare x) (sym e);
}

less_first : (p : Ordering) → IsTrans lt p lt
less_first p = record { both = λ h k. refl; left = λ h. absurd (ground arith); right = λ h. refl }

less_second : (o : Ordering) → IsTrans o lt lt
less_second o = record { both = λ h k. refl; left = λ h. refl; right = λ h. absurd (ground arith) }

greater_first : (p : Ordering) → IsTrans gt p gt
greater_first p = record {
  both = λ h k. absurd (ground arith);
  left = λ h. absurd (ground arith);
  right = λ h. refl;
}

greater_second : (o : Ordering) → IsTrans o gt gt
greater_second o = record {
  both = λ h k. absurd (ground arith);
  left = λ h. refl;
  right = λ h. absurd (ground arith);
}

less_greater : (q : Ordering) → IsTrans lt gt q
less_greater q = record {
  both = λ h k. absurd (ground arith);
  left = λ h. absurd (ground arith);
  right = λ h. absurd (ground arith);
}

greater_less : (q : Ordering) → IsTrans gt lt q
greater_less q = record {
  both = λ h k. absurd (ground arith);
  left = λ h. absurd (ground arith);
  right = λ h. absurd (ground arith);
}

bytes-IsTrans :
    (a b c : List ℕ) → IsTrans (compare_bytes a b) (compare_bytes b c) (compare_bytes a c)
unfolding compare_bytes
bytes-IsTrans [] [] c = record { both = λ h k. k; left = λ h. refl; right = λ h. h }
bytes-IsTrans [] (y ∷ b) [] = less_greater eq
bytes-IsTrans [] (y ∷ b) (z ∷ c) = less_first (compare_bytes (y ∷ b) (z ∷ c))
bytes-IsTrans (x ∷ a) [] [] = greater_first eq
bytes-IsTrans (x ∷ a) [] (z ∷ c) = greater_less (compare_bytes (x ∷ a) (z ∷ c))
bytes-IsTrans (x ∷ a) (y ∷ b) [] = greater_second (compare_bytes (x ∷ a) (y ∷ b))
bytes-IsTrans (x ∷ a) (y ∷ b) (z ∷ c) =
    first_of-IsTrans _ _ _ _ _ _ (compare-IsTrans x y z) (bytes-IsTrans a b c)

-- An endpoint with its family written out.
abbrev family : Bool → Endpoint → Endpoint
family v a = record a { is_v4 = v }

families-IsTrans :
    (u v w : Bool) (a b c : Endpoint)
    → IsTrans
        (compare_endpoints (family u a) (family v b))
        (compare_endpoints (family v b) (family w c))
        (compare_endpoints (family u a) (family w c))
unfolding compare_endpoints
families-IsTrans true true true a b c =
    first_of-IsTrans _ _ _ _ _ _
      (compare-IsTrans a.v4_address.addr b.v4_address.addr c.v4_address.addr)
      (compare-IsTrans a.port b.port c.port)
families-IsTrans false false false a b c =
    first_of-IsTrans _ _ _ _ _ _ (bytes-IsTrans a.v6_address b.v6_address c.v6_address)
      (compare-IsTrans a.port b.port c.port)
families-IsTrans true true false a b c = less_second _
families-IsTrans true false true a b c = less_greater _
families-IsTrans true false false a b c = less_first _
families-IsTrans false true true a b c = greater_first _
families-IsTrans false true false a b c = greater_less _
families-IsTrans false false true a b c = greater_second _

-- If one endpoint is less than a second and that is less than a third, the first is less than the
-- third.
pub compare_endpoints_trans :
    (a b c : Endpoint)
    → compare_endpoints a b ≡ lt
    → compare_endpoints b c ≡ lt
    → compare_endpoints a c ≡ lt
compare_endpoints_trans a b c h k = (families-IsTrans a.is_v4 b.is_v4 c.is_v4 a b c).both h k

families_flip :
    (v w : Bool) (a b : Endpoint)
    → compare_endpoints (family w b) (family v a)
      ≡ reverse (compare_endpoints (family v a) (family w b))
unfolding compare_endpoints
families_flip true true a b =
    first_of-flip _ _ _ _ (compare_flip a.v4_address.addr b.v4_address.addr)
      (compare_flip a.port b.port)
families_flip false false a b =
    first_of-flip _ _ _ _ (bytes_flip a.v6_address b.v6_address) (compare_flip a.port b.port)
families_flip true false a b = refl
families_flip false true a b = refl

and_swap : (p q : Bool) → p && q ≡ (if not q then false else p)
and_swap true true = refl
and_swap true false = refl
and_swap false true = refl
and_swap false false = refl

families_equal :
    (v w : Bool) (a b : Endpoint)
    → is_eq (compare_endpoints (family v a) (family w b)) ≡ equal (family v a) (family w b)
unfolding compare_endpoints equal
families_equal true true a b =
    first_of-eq _ _
    ∙ ap (λ t. t && is_eq (compare a.port b.port))
        (compare_equal a.v4_address.addr b.v4_address.addr)
    ∙ ap (λ t. (a.v4_address.addr == b.v4_address.addr) && t) (compare_equal a.port b.port)
    ∙ and_swap (a.v4_address.addr == b.v4_address.addr) (a.port == b.port)
families_equal false false a b =
    first_of-eq _ _
    ∙ ap (λ t. t && is_eq (compare a.port b.port)) (bytes_equal a.v6_address b.v6_address)
    ∙ ap (λ t. equal_bytes a.v6_address b.v6_address && t) (compare_equal a.port b.port)
    ∙ and_swap (equal_bytes a.v6_address b.v6_address) (a.port == b.port)
families_equal true false a b = refl
families_equal false true a b = refl

is_eq_iff : (o : Ordering) (b : Bool) → is_eq o ≡ b → (o ≡ eq) ↔ (b ≡ true)
is_eq_iff lt b e = (λ h. absurd (ground arith), λ h. absurd (ground arith))
is_eq_iff eq b e = (λ h. sym e, λ h. refl)
is_eq_iff gt b e = (λ h. absurd (ground arith), λ h. absurd (ground arith))

-- Any two endpoints compare: in the other order the result is the reverse, and it is equality
-- exactly if operator== holds.
pub compare_endpoints_total :
    (a b : Endpoint)
    → (compare_endpoints b a ≡ reverse (compare_endpoints a b))
      × (compare_endpoints a b ≡ eq ↔ equal a b ≡ true)
compare_endpoints_total a b = (
  families_flip a.is_v4 b.is_v4 a b,
  is_eq_iff (compare_endpoints a b) (equal a b) (families_equal a.is_v4 b.is_v4 a b),
)

-- ===== src/Ipv6/Bounds.antt =====
-- The accesses of the ipv6_address parser to its array, and its numbers.
use corosio.Base.{
  ℕ, zero, suc, ◌+◌, ◌*◌, ◌≤◌, ◌<◌, Option, none, some, List, [], ◌∷◌, ◌++◌, length, arith, All-set,
  All-append, All-take, All-drop, All-replicate, length-set, length-append, length-take,
  length-drop, length-replicate, replicate, take, drop, Option-cases, inl, inr,
}
use corosio.Ipv6.{
  IsAddress, Run, ok, invalid, fault, ◌>>=◌, store, memset, memmove, more_digits, parse_h16,
  hexdig_value,
}

-- The code does not fault, and a result that it returns has the property.
abbrev pub Safe {ℓ} : {A : Type ℓ} → (A → Type 0) → Run A → Type 0
Safe P (ok a) = P a
Safe P invalid = Unit {0}
Safe P fault = ⊥

pub Safe-bind {ℓ κ} :
    {A : Type ℓ} {B : Type κ} (P : A → Type 0) (Q : B → Type 0) (m : Run A) (f : A → Run B)
    → Safe P m
    → ((a : A) → P a → Safe Q (f a))
    → Safe Q (m >>= f)
Safe-bind P Q (ok a) f h k = k a h
Safe-bind P Q invalid f h k = tt
Safe-bind P Q fault f h k = h

pub store-Safe :
    (i v : ℕ) (a : List ℕ) → IsAddress a → i < 16 → v < 256 → Safe IsAddress (store i v a)
unfolding store
store-Safe i v a h p q =
    ground (arith, h.size, length-set a i v, All-set (λ x. x < 256) a i v h.bytes q)

pub memset-Safe :
    (at n : ℕ) (a : List ℕ) → IsAddress a → at + n ≤ 16 → Safe IsAddress (memset at n a)
unfolding memset
memset-Safe at n a h p =
    let kept = take at a in
    let end = drop (at + n) a in
    let zeros : List ℕ = replicate n 0 in
    ground (
      arith,
      h.size,
      length-append kept (zeros ++ end),
      length-append zeros end,
      length-take at a,
      length-drop (at + n) a,
      length-replicate {A = ℕ} n 0,
      All-append (λ x. x < 256) kept (zeros ++ end) (All-take (λ x. x < 256) at a h.bytes)
          (All-append (λ x. x < 256) zeros end (All-replicate (λ x. x < 256) n 0 (omega arith))
            (All-drop (λ x. x < 256) (at + n) a h.bytes)),
    )

pub memmove-Safe :
    (to from n : ℕ) (a : List ℕ)
    → IsAddress a
    → to + n ≤ 16
    → from + n ≤ 16
    → Safe IsAddress (memmove to from n a)
unfolding memmove
memmove-Safe to from n a h p q =
    let kept = take to a in
    let end = drop (to + n) a in
    let moved = take n (drop from a) in
    ground (
      arith,
      h.size,
      length-append kept (moved ++ end),
      length-append moved end,
      length-take to a,
      length-drop (to + n) a,
      length-take n (drop from a),
      length-drop from a,
      All-append (λ x. x < 256) kept (moved ++ end) (All-take (λ x. x < 256) to a h.bytes)
          (All-append (λ x. x < 256) moved end
            (All-take (λ x. x < 256) n (drop from a) (All-drop (λ x. x < 256) from a h.bytes))
            (All-drop (λ x. x < 256) (to + n) a h.bytes)),
    )

more_digits-le : (k v : ℕ) (s : List ℕ) → length (more_digits k v s).1 ≤ length s
unfolding more_digits
more_digits-le zero v s = omega arith
more_digits-le (suc k) v [] = omega arith
more_digits-le (suc k) v (c ∷ s) = elim (Option-cases (hexdig_value c)) [
  | inl e ↦ rw (e, more_digits, length) (omega arith)
  | inr (d, e) ↦
      rw (e, more_digits, length) (let r = more_digits-le k (v * 16 + d) s in omega arith)
]

-- What parse_h16 returns: two bytes, and a shorter text.
abbrev pub IsWord : List ℕ → Option (ℕ × ℕ × List ℕ) → Type 0
IsWord s none = Unit {0}
IsWord s (some (hi, lo, rest)) = (hi < 256) × (lo < 256) × (length rest < length s)

pub parse_h16-IsWord : (s : List ℕ) → IsWord s (parse_h16 s)
unfolding parse_h16
parse_h16-IsWord [] = tt
parse_h16-IsWord (c ∷ s) = elim (Option-cases (hexdig_value c)) [
  | inl e ↦ rw (e, parse_h16) tt
  | inr (d, e) ↦
      rw (e, parse_h16) (omega arith, omega arith, let r = more_digits-le 3 d s in omega arith)
]

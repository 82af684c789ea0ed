-- ===== src/Ipv6/Print/Fits.antt =====
-- The ipv6_address printer ends, stays within the address, and fits its buffer.
use corosio.Base.{
  ℕ, zero, suc, ◌+◌, ◌-◌, ◌*◌, ◌%◌, ◌≤◌, ◌<◌, ◌≡◌, refl, true, Option, none, some, List, [], ◌∷◌,
  ◌++◌, leb, ltb, ◌==◌, if◌then◌else◌, length, take, drop, arith, Bool-cases, inl, inr,
  length-append, length-take, length-drop,
}
use corosio.Ipv4
use corosio.Ipv4.RoundTrip.{to_buffer_fits}
use corosio.Ipv6.{IsAddress, Run, ok, invalid, fault, ◌>>=◌, is_v4_mapped}
use corosio.Ipv6.Print.{
  max_str_len, count_zeroes, print_hex, Best, find_run, is_at, closing, skip_run, print_words,
  print_first, print_v4, embedded_v4, print_impl, to_string, to_buffer,
}

-- The code returns a value, and the value has the property.
abbrev Returns {ℓ} : {A : Type ℓ} → (A → Type 0) → Run A → Type 0
Returns P (ok a) = P a
Returns P invalid = ⊥
Returns P fault = ⊥

Returns-bind {ℓ κ} :
    {A : Type ℓ} {B : Type κ} (P : A → Type 0) (Q : B → Type 0) (m : Run A) (f : A → Run B)
    → Returns P m
    → ((a : A) → P a → Returns Q (f a))
    → Returns Q (m >>= f)
Returns-bind P Q (ok a) f h k = k a h
Returns-bind P Q invalid f h k = h
Returns-bind P Q fault f h k = h

Returns-value {ℓ} :
    {A : Type ℓ} (P : A → Type 0) (m : Run A) → Returns P m → (a : A) × (m ≡ ok a) × P a
Returns-value P (ok a) h = (a, refl, h)
Returns-value P invalid h = absurd h
Returns-value P fault h = absurd h

length-print_hex : (v : ℕ) → length (print_hex v) ≤ 4
unfolding print_hex
length-print_hex v = ground arith

count_zeroes-le : (s : List ℕ) → (count_zeroes s ≤ length s) × (count_zeroes s % 2 ≡ 0)
unfolding count_zeroes
count_zeroes-le [] = ground arith
count_zeroes-le (x ∷ []) = ground arith
count_zeroes-le (x ∷ y ∷ s) = let r = count_zeroes-le s in ground arith

-- A run within the `total` bytes, of whole words.
record IsRun (total : ℕ) (best : Best) : Type 0 where
  even : best.best_len % 2 ≡ 0
  inside : (p : ℕ) → best.best_pos ≡ some p → (2 ≤ best.best_len) × (p + best.best_len ≤ total)

longer-IsRun :
    (total at n : ℕ) (best : Best)
    → IsRun total best
    → n % 2 ≡ 0
    → at + n ≤ total
    → IsRun total
        (if ltb best.best_len n then record { best_len = n; best_pos = some at } else best)
longer-IsRun total at n best r e h = elim (Bool-cases (ltb best.best_len n)) [
  | inl f ↦ rw f (record { even = e; inside = λ p q. (ground arith, ground arith) })
  | inr f ↦ rw f r
]

find_run-IsRun :
    (total fuel : ℕ) (it : List ℕ) (at : ℕ) (best : Best)
    → length it < fuel
    → length it % 2 ≡ 0
    → at + length it ≡ total
    → IsRun total best
    → Returns (IsRun total) (find_run fuel it at best)
unfolding find_run
find_run-IsRun total zero it at best h e p r = absurd (omega arith)
find_run-IsRun total (suc fuel) [] at best h e p r = r
find_run-IsRun total (suc fuel) (x ∷ []) at best h e p r = absurd (omega arith)
find_run-IsRun total (suc fuel) (x ∷ y ∷ s) at best h e p r =
    let it = x ∷ y ∷ s in
    let n = count_zeroes it in
    let le = count_zeroes-le it in
    let l = length-drop n it in
    elim (Bool-cases (n == 0)) [
      | inl f ↦
          rw (f, find_run)
            (find_run-IsRun total fuel s (at + 2) best (omega arith) (omega arith) (omega arith) r)
      | inr f ↦
          rw (f, find_run)
            (find_run-IsRun total fuel (drop n it) (at + n) _ (ground arith) (omega arith)
              (omega arith) (longer-IsRun total at n best r le.1 (omega arith)))
    ]

-- Five characters for each word, a word being two bytes.
abbrev Fit : List ℕ → List ℕ → Type 0
Fit it out = length out * 2 ≤ length it * 5

length-closing : (rest out : List ℕ) → length (closing rest ++ out) ≤ length out + 1
length-closing [] out = omega arith
length-closing (x ∷ s) out = omega arith

skip_run-Fit :
    (fuel at : ℕ) (it : List ℕ) (best : Best)
    → 2 ≤ best.best_len
    → best.best_len ≤ length it
    → Returns (Fit (drop best.best_len it)) (print_words fuel (drop best.best_len it) at best)
    → Returns (Fit it) (
        skip_run best it >>= λ rest.
        print_words fuel rest at best >>= λ out. ok (b':' ∷ (closing rest ++ out)))
unfolding skip_run
skip_run-Fit fuel at it best h k s =
    let n = best.best_len in
    let rest = drop n it in
    let l = length-drop n it in
    let e : leb n (length it) ≡ true = ground arith in
    rw (e, skip_run)
      (Returns-bind (Fit rest) (Fit it) _ _ s
        λ out g. let c = length-closing rest out in omega arith)

is_at-inside :
    (total at : ℕ) (best : Best)
    → IsRun total best
    → is_at at best.best_pos ≡ true
    → (2 ≤ best.best_len) × (at + best.best_len ≤ total)
is_at-inside total at best r e = go best.best_pos refl e
  where
    go :
        (p : Option ℕ)
        → best.best_pos ≡ p
        → is_at at p ≡ true
        → (2 ≤ best.best_len) × (at + best.best_len ≤ total)
    go none q f = absurd (ground arith)
    go (some p) q f = let i = r.inside p q in ground arith

print_words-Fit :
    (total fuel : ℕ) (it : List ℕ) (at : ℕ) (best : Best)
    → length it < fuel
    → length it % 2 ≡ 0
    → at + length it ≡ total
    → IsRun total best
    → Returns (Fit it) (print_words fuel it at best)
unfolding print_words
print_words-Fit total zero it at best h e p r = absurd (omega arith)
print_words-Fit total (suc fuel) [] at best h e p r = omega arith
print_words-Fit total (suc fuel) (x ∷ []) at best h e p r = absurd (omega arith)
print_words-Fit total (suc fuel) (x ∷ y ∷ s) at best h e p r =
    let it = x ∷ y ∷ s in
    let n = best.best_len in
    let l = length-drop n it in
    elim (Bool-cases (is_at at best.best_pos)) [
      | inl f ↦
          let i = is_at-inside total at best r f in
          let even = r.even in
          rw (f, print_words)
            (skip_run-Fit fuel (at + n) it best i.0 (omega arith) (
              print_words-Fit total fuel (drop n it) (at + n) best (omega arith) (omega arith)
                (omega arith) r))
      | inr f ↦
          rw (f, print_words)
            (Returns-bind (Fit s) (Fit it) _ _
              (print_words-Fit total fuel s (at + 2) best (omega arith) (omega arith) (omega arith)
                r)
              λ out g.
                let w = length-print_hex (x * 256 + y) in
                let a = length-append (print_hex (x * 256 + y)) out in omega arith)
    ]

print_first-Fit :
    (it : List ℕ) (best : Best)
    → 2 ≤ length it
    → length it % 2 ≡ 0
    → IsRun (length it) best
    → Returns (Fit it) (print_first it best)
unfolding print_first
print_first-Fit [] best h e r = absurd (omega arith)
print_first-Fit (x ∷ []) best h e r = absurd (omega arith)
print_first-Fit (x ∷ y ∷ s) best h e r =
    let it = x ∷ y ∷ s in
    let n = best.best_len in
    let l = length-drop n it in
    let fuel = length it + 1 in
    elim (Bool-cases (is_at 0 best.best_pos)) [
      | inl f ↦
          let i = is_at-inside (length it) 0 best r f in
          let even = r.even in
          rw (f, print_first)
            (skip_run-Fit fuel n it best i.0 (omega arith) (
              print_words-Fit (length it) fuel (drop n it) n best (omega arith) (omega arith)
                (omega arith) r))
      | inr f ↦
          rw (f, print_first)
            (Returns-bind (Fit s) (Fit it) _ _
              (print_words-Fit (length it) fuel s 2 best (omega arith) (omega arith) (omega arith)
                r)
              λ out g.
                let w = length-print_hex (x * 256 + y) in
                let a = length-append (print_hex (x * 256 + y)) out in omega arith)
    ]

print_v4-Fit : (a : List ℕ) → Returns (λ out. length out ≤ 16) (print_v4 a)
unfolding print_v4
print_v4-Fit a =
    let (low, high, fails, text) = to_buffer_fits (embedded_v4 a) Ipv4.max_str_len in
    rw (text (omega arith), print_v4) (omega arith)

text-Fit :
    (it : List ℕ) (tail : Run (List ℕ)) (k : ℕ)
    → 2 ≤ length it
    → length it % 2 ≡ 0
    → Returns (λ t. length t ≤ k) tail
    → length it * 5 + k * 2 ≤ 92
    → Returns
        (λ out. length out ≤ 46)
        (find_run (length it + 1) it 0 (record { best_len = 0; best_pos = none }) >>= λ best.
          print_first it best >>= λ words. tail >>= λ t. ok (words ++ t))
text-Fit it tail k p e s h =
    let total = length it in
    Returns-bind (IsRun total) (λ out. length out ≤ 46) _ _
      (find_run-IsRun total (total + 1) it 0 _ (omega arith) e (omega arith)
        (record { even = omega arith; inside = λ p q. absurd (ground arith) }))
      λ best r.
        Returns-bind (Fit it) (λ out. length out ≤ 46) _ _ (print_first-Fit it best p e r)
          λ words w.
            Returns-bind (λ t. length t ≤ k) (λ out. length out ≤ 46) tail _ s
              λ t f. let a = length-append words t in omega arith

print_impl-Fit : (a : List ℕ) → IsAddress a → Returns (λ out. length out ≤ 46) (print_impl a)
unfolding print_impl
print_impl-Fit a h =
    let size = h.size in
    let front = take (length a - 4) a in
    let l = length-take (length a - 4) a in
    elim (Bool-cases (is_v4_mapped a)) [
      | inl f ↦
          rw (f, print_impl)
            (text-Fit front (print_v4 a) 16 (ground arith) (ground arith) (print_v4-Fit a)
              (ground arith))
      | inr f ↦
          rw (f, print_impl)
            (text-Fit a (ok []) 0 (omega arith) (ground arith) (omega arith) (omega arith))
    ]

-- Every address of sixteen bytes has a text of at most 46 characters, which to_string returns: the
-- printer ends within its fuel, reads inside the address, and its buffer of 49 characters is large
-- enough. to_buffer returns the same text, or fails exactly if it is given fewer than 49.
pub to_string-Fits :
    (a : List ℕ) (dest_size : ℕ)
    → IsAddress a
    → (text : List ℕ) × (to_string a ≡ ok text)
      × (length text ≤ 46)
      × (to_buffer a dest_size ≡ (if ltb dest_size max_str_len then invalid else ok text))
unfolding to_string to_buffer
to_string-Fits a dest_size h =
    let (text, e, fits) =
      Returns-value (λ out. length out ≤ 46) (print_impl a) (print_impl-Fit a h) in
    let small : leb (length text) max_str_len ≡ true = ground arith in
    (
      text,
      rw (e, small, to_string) refl,
      fits,
      elim (Bool-cases (ltb dest_size max_str_len)) [
        | inl f ↦ rw (f, to_buffer) refl
        | inr f ↦
            let large : leb (length text) dest_size ≡ true = ground arith in
            rw (f, e, large, to_buffer) refl
      ],
    )

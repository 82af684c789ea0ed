-- ===== src/Endpoint/Port.antt =====
-- A port parses exactly as its decimal print.
use corosio.Base.{
  ℕ, zero, suc, ◌+◌, ◌-◌, ◌*◌, ◌/◌, ◌%◌, ◌≤◌, ◌<◌, ◌^◌, ◌≡◌, ◌↔◌, refl, sym, ap, ◌∙◌, true, false,
  ◌&&◌, none, some, List, [], ◌∷◌, ◌++◌, append_assoc, append-nil, leb, ltb, ◌==◌, if◌then◌else◌,
  length, arith, Bool-cases, inl, inr,
}
use corosio.Ipv4.{is_digit}
use corosio.Endpoint.{scan, from_chars, to_port, parse_port}

-- The decimal digits of `v`, on fuel.
unfoldable pub digits : ℕ → ℕ → List ℕ
digits zero v = []
digits (suc k) v =
    let front = digits k (v / 10) in
    if ltb v 10 then (b'0' + v) ∷ [] else front ++ (b'0' + v % 10) ∷ []

unfoldable pub decimal : ℕ → List ℕ
unfolding digits
decimal v = digits (suc v) v

digits-enough : (j k v : ℕ) → v < j → v < k → digits j v ≡ digits k v
unfolding digits
digits-enough zero k v p q = absurd (omega arith)
digits-enough (suc j) zero v p q = absurd (omega arith)
digits-enough (suc j) (suc k) v p q = elim (Bool-cases (ltb v 10)) [
  | inl e ↦ rw e refl
  | inr e ↦ rw e (
      ap (λ d. d ++ (b'0' + v % 10) ∷ [])
        (digits-enough j k (v / 10) (ground arith) (ground arith)))
]

digits-step :
    (k v : ℕ) → ltb v 10 ≡ false → digits (suc k) v ≡ digits k (v / 10) ++ (b'0' + v % 10) ∷ []
unfolding digits
digits-step k v e = rw e refl

decimal-snoc : (v d : ℕ) → 0 < v → d < 10 → decimal (v * 10 + d) ≡ decimal v ++ (b'0' + d) ∷ []
unfolding decimal
decimal-snoc v d p q =
    let n = v * 10 + d in
    let e : ltb n 10 ≡ false = ground arith in
    let quotient : n / 10 ≡ v = omega arith in
    let remainder : n % 10 ≡ d = omega arith in
    digits-step n n e
    ∙ ap (λ k. digits n (n / 10) ++ (b'0' + k) ∷ []) remainder
    ∙ ap (λ k. digits n k ++ (b'0' + d) ∷ []) quotient
    ∙ ap (λ k. k ++ (b'0' + d) ∷ []) (digits-enough n (suc v) v (omega arith) (omega arith))

decimal_digit : (d : ℕ) → d < 10 → decimal d ≡ (b'0' + d) ∷ []
unfolding decimal digits
decimal_digit d p = let e : ltb d 10 ≡ true = ground arith in rw e refl

digit-range : (c : ℕ) → is_digit c ≡ true → (48 ≤ c) × (c ≤ 57)
digit-range c e = ground arith

digit_back : (c : ℕ) → is_digit c ≡ true → b'0' + (c - b'0') ≡ c
digit_back c e = ground arith

-- What scan reads behind `v` stands behind the print of `v`.
scan-decimal :
    (v : ℕ) (s : List ℕ) → 0 < v → (scan v s).1 ≡ [] → decimal (scan v s).0 ≡ decimal v ++ s
unfolding scan
scan-decimal v [] p e = sym (append-nil (decimal v))
scan-decimal v (c ∷ s) p e = elim (Bool-cases (is_digit c)) [
  | inr f ↦ let e' : c ∷ s ≡ [] = rw (f, scan) at e in absurd (ground arith)
  | inl f ↦
      let d = c - b'0' in
      let e' : (scan (v * 10 + d) s).1 ≡ [] = rw (f, scan) at e in
      rw (f, scan)
        (scan-decimal (v * 10 + d) s (omega arith) e'
          ∙ ap (λ x. x ++ s) (decimal-snoc v d p (ground arith))
          ∙ ap (λ x. (decimal v ++ x ∷ []) ++ s) (digit_back c f)
          ∙ append_assoc (decimal v) (c ∷ []) s)
]

scan-digit :
    (v c : ℕ) (s : List ℕ) → is_digit c ≡ true → scan v (c ∷ s) ≡ scan (v * 10 + (c - b'0')) s
unfolding scan
scan-digit v c s f = rw (f, scan) refl

-- The other way: scan reads the digits that the print has.
scan-snoc :
    (v d : ℕ) (s : List ℕ)
    → (scan v s).1 ≡ []
    → d < 10
    → scan v (s ++ (b'0' + d) ∷ []) ≡ ((scan v s).0 * 10 + d, [])
unfolding scan
scan-snoc v d [] e p =
    let f : is_digit (b'0' + d) ≡ true = ground arith in
    let back : b'0' + d - b'0' ≡ d = omega arith in
    scan-digit v (b'0' + d) [] f ∙ ap (λ k. (v * 10 + k, [])) back
scan-snoc v d (c ∷ s) e p = elim (Bool-cases (is_digit c)) [
  | inr f ↦ let e' : c ∷ s ≡ [] = rw (f, scan) at e in absurd (ground arith)
  | inl f ↦
      let e' : (scan (v * 10 + (c - b'0')) s).1 ≡ [] = rw (f, scan) at e in
      rw (f, scan) (scan-snoc (v * 10 + (c - b'0')) d s e' p)
]

scan-digits : (k v : ℕ) → v < k → scan 0 (digits k v) ≡ (v, [])
unfolding digits scan
scan-digits zero v p = absurd (omega arith)
scan-digits (suc k) v p = elim (Bool-cases (ltb v 10)) [
  | inl e ↦
      let f : is_digit (b'0' + v) ≡ true = ground arith in
      let back : 0 * 10 + (b'0' + v - b'0') ≡ v = omega arith in
      rw e (scan-digit 0 (b'0' + v) [] f ∙ ap (λ x. (x, [])) back)
  | inr e ↦
      let r = scan-digits k (v / 10) (ground arith) in
      let back : v / 10 * 10 + v % 10 ≡ v = omega arith in
      rw e (
        scan-snoc 0 (v % 10) (digits k (v / 10)) (ap (λ x. x.1) r) (omega arith)
        ∙ ap (λ x. (x.0 * 10 + v % 10, [])) r
        ∙ ap (λ x. (x, [])) back)
]

to_port-some :
    (v : ℕ) (rest : List ℕ) (p : ℕ)
    → to_port (some (v, rest)) ≡ some p
    → (rest ≡ []) × (v ≡ p) × (p < 65536)
to_port-some v [] p e = (refl, ground arith, ground arith)
to_port-some v (c ∷ rest) p e = absurd (ground arith)

from_chars-some :
    (c : ℕ) (s : List ℕ) (p : ℕ)
    → to_port (from_chars (c ∷ s)) ≡ some p
    → (is_digit c ≡ true) × (to_port (some (scan 0 (c ∷ s))) ≡ some p)
unfolding from_chars
from_chars-some c s p e = elim (Bool-cases (is_digit c)) [
  | inr f ↦ let e' : none ≡ some p = rw (f, from_chars) at e in absurd (ground arith)
  | inl f ↦ elim (Bool-cases (leb (2 ^ 64) (scan 0 (c ∷ s)).0)) [
    | inl g ↦ let e' : none ≡ some p = rw (f, g, from_chars) at e in absurd (ground arith)
    | inr g ↦ (f, rw (f, g, from_chars) at e)
  ]
]

scan-front :
    (c : ℕ) (s : List ℕ)
    → is_digit c ≡ true
    → ltb 1 (length (c ∷ s)) && c == b'0' ≡ false
    → (scan 0 (c ∷ s)).1 ≡ []
    → decimal (scan 0 (c ∷ s)).0 ≡ c ∷ s
unfolding scan
scan-front c [] f g e =
    rw (f, scan)
      (decimal_digit (0 * 10 + (c - b'0')) (ground arith) ∙ ap (λ x. x ∷ []) (ground arith))
scan-front c (x ∷ s) f g e =
    let d = 0 * 10 + (c - b'0') in
    let e' : (scan d (x ∷ s)).1 ≡ [] = rw (f, scan) at e in
    rw (f, scan)
      (scan-decimal d (x ∷ s) (ground arith) e'
        ∙ ap (λ y. y ++ x ∷ s) (decimal_digit d (ground arith))
        ∙ ap (λ y. y ∷ x ∷ s) (ground arith))

parse_port-some : (s : List ℕ) (p : ℕ) → parse_port s ≡ some p → (p < 65536) × (decimal p ≡ s)
unfolding parse_port
parse_port-some [] p e = absurd (ground arith)
parse_port-some (c ∷ s) p e = elim (Bool-cases (ltb 1 (length (c ∷ s)) && c == b'0')) [
  | inl g ↦ let e' : none ≡ some p = rw (g, parse_port) at e in absurd (ground arith)
  | inr g ↦
      let (f, q) = from_chars-some c s p (rw (g, parse_port) at e) in
      let r = scan 0 (c ∷ s) in
      let (all, v, small) = to_port-some r.0 r.1 p q in
      (small, ap decimal (sym v) ∙ scan-front c s f g all)
]

digits-front :
    (k v : ℕ)
    → 0 < v
    → v < k
    → (c : ℕ) × (s : List ℕ) × (digits k v ≡ c ∷ s) × (b'1' ≤ c) × (c ≤ b'9')
unfolding digits
digits-front zero v p q = absurd (omega arith)
digits-front (suc k) v p q = elim (Bool-cases (ltb v 10)) [
  | inl e ↦ (b'0' + v, [], rw e refl, omega arith, ground arith)
  | inr e ↦
      let (c, s, r, lo, hi) = digits-front k (v / 10) (ground arith) (ground arith) in
      let end : List ℕ = (b'0' + v % 10) ∷ [] in (c, s ++ end, rw e (ap (λ x. x ++ end) r), lo, hi)
]

parse_port-run :
    (c : ℕ) (s : List ℕ) (v : ℕ)
    → b'1' ≤ c
    → c ≤ b'9'
    → scan 0 (c ∷ s) ≡ (v, [])
    → v < 65536
    → parse_port (c ∷ s) ≡ some v
unfolding parse_port from_chars
parse_port-run c s v lo hi e h =
    let f : is_digit c ≡ true = ground arith in
    let g : ltb 1 (length (c ∷ s)) && c == b'0' ≡ false = ground arith in
    let small : leb (2 ^ 64) v ≡ false = ground arith in
    let fits : ltb 65535 v ≡ false = ground arith in rw (g, f, e, small, fits, parse_port) refl

parse_port_zero : parse_port (decimal 0) ≡ some 0
unfolding decimal digits parse_port from_chars scan
parse_port_zero = refl

parse_port-decimal : (p : ℕ) → p < 65536 → parse_port (decimal p) ≡ some p
unfolding decimal
parse_port-decimal zero h = parse_port_zero
parse_port-decimal (suc n) h =
    let p = suc n in
    let (c, s, e, lo, hi) = digits-front (suc p) p (omega arith) (omega arith) in
    ap parse_port e
    ∙ parse_port-run c s p lo hi (ap (scan 0) (sym e) ∙ scan-digits (suc p) p (omega arith)) h

-- A text parses as a port exactly if the port is below 65536 and the text is its decimal print,
-- without a sign, a leading zero, or anything behind it.
pub parse_port_iff :
    (s : List ℕ) (p : ℕ) → (parse_port s ≡ some p) ↔ ((p < 65536) × (decimal p ≡ s))
parse_port_iff s p = (parse_port-some s p, λ (h, e). ap parse_port (sym e) ∙ parse_port-decimal p h)

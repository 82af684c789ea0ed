-- ===== src/Endpoint/Parse.antt =====
-- parse_endpoint returns endpoints in range, and reads what an IPv4 endpoint prints.
use corosio.Base.{
  ℕ, zero, suc, ◌+◌, ◌-◌, ◌/◌, ◌<◌, ◌≡◌, refl, ap, ◌∙◌, false, none, some, List, [], ◌∷◌, ◌++◌, ltb,
  ◌==◌, length, get_or, arith, Bool-cases, Option-cases, inl, inr, ◌⊎◌, All, All-append, count,
  count-append, take, drop, All-replicate,
}
use corosio.Ipv4
use corosio.Ipv4.{
  Ipv4Address, Bytes4, AreBytes, to_bytes, print_bytes, write, parse_ipv4_address, to_string, any,
}
use corosio.Ipv4.Bytes.{to_bytes-AreBytes}
use corosio.Ipv4.RoundTrip.{parse_ipv4_address_iff}
use corosio.Ipv6.{IsAddress, Run, ok, invalid, fault, parse_ipv6_address}
use corosio.Ipv6.Bounds.{Safe}
use corosio.Ipv6.Safe.{parse_ipv6_address-Safe}
use corosio.Endpoint.{
  Endpoint, of_v4_port, of_v6_port, detect_endpoint_format, parse_port, find, rfind,
  with_parsed_port, parse_v4_port, port_after, parse_bracketed, parse_as, is_empty, parse_endpoint,
  EndpointFormat, ipv4_no_port, ipv4_with_port, ipv6_no_port, ipv6_bracketed,
}
use corosio.Endpoint.Port.{digits, decimal, parse_port_iff}

pub record IsValid (e : Endpoint) : Type 0 where
  v4 : Ipv4.IsValid e.v4_address
  v6 : IsAddress e.v6_address
  port : e.port < 65536

-- The characters of an IPv4 endpoint before and behind its colon.
abbrev AreDigits : List ℕ → Type 0
AreDigits s = All (λ c. c < b':') s

digits-AreDigits : (k v : ℕ) → AreDigits (digits k v)
unfolding digits
digits-AreDigits zero v = tt
digits-AreDigits (suc k) v = elim (Bool-cases (ltb v 10)) [
  | inl e ↦ rw e (ground arith)
  | inr e ↦
      rw e (
        All-append (λ c. c < b':') (digits k (v / 10)) _ (digits-AreDigits k (v / 10))
          (omega arith))
]

write-AreDigits : (v : ℕ) → v < 256 → AreDigits (write v)
unfolding write
write-AreDigits v h = ground arith

print_bytes-AreDigits : (b : Bytes4) → AreBytes b → AreDigits (print_bytes b)
unfolding print_bytes
print_bytes-AreDigits b h =
    let P : ℕ → Type 0 = λ c. c < b':' in
    All-append P (write b.b0) _ (write-AreDigits b.b0 h.byte0) (
      omega arith,
      All-append P (write b.b1) _ (write-AreDigits b.b1 h.byte1) (
        omega arith,
        All-append P (write b.b2) _ (write-AreDigits b.b2 h.byte2)
            (omega arith, write-AreDigits b.b3 h.byte3),
      ),
    )

rfind-none : (s : List ℕ) → AreDigits s → rfind b':' s ≡ none
unfolding rfind
rfind-none [] h = refl
rfind-none (c ∷ s) h =
    let e : c == b':' ≡ false = ground arith in rw (rfind-none s h.1, e, rfind) refl

rfind-append : (s t : List ℕ) → AreDigits t → rfind b':' (s ++ b':' ∷ t) ≡ some (length s)
unfolding rfind
rfind-append [] t h = rw (rfind-none t h, rfind) refl
rfind-append (c ∷ s) t h = rw (rfind-append s t h, rfind) (ground arith)

count-none : (s : List ℕ) → AreDigits s → count b':' s ≡ 0
count-none [] h = refl
count-none (c ∷ s) h = let r = count-none s h.1 in ground arith

take-append : (s t : List ℕ) → take (length s) (s ++ t) ≡ s
take-append [] t = refl
take-append (c ∷ s) t = ap (λ x. c ∷ x) (take-append s t)

drop-append : (s t : List ℕ) (c n : ℕ) → n ≡ length s + 1 → drop n (s ++ c ∷ t) ≡ t
drop-append s t c zero e = absurd (omega arith)
drop-append [] t c (suc n) e = let z : n ≡ 0 = omega arith in rw z refl
drop-append (x ∷ s) t c (suc n) e = drop-append s t c n (omega arith)

-- A text that starts with a digit or '.', and has one ':', is an IPv4 address with a port.
detect_v4 :
    (s t : List ℕ)
    → AreDigits s
    → AreDigits t
    → detect_endpoint_format (s ++ b':' ∷ t) ≡ ipv4_with_port
unfolding detect_endpoint_format
detect_v4 [] t h k = let r = count-none t k in ground arith
detect_v4 (c ∷ s) t h k =
    let n = count-append b':' s (b':' ∷ t) in
    let z = count-none s h.1 in
    let r = count-none t k in
    let a : c == b'[' ≡ false = ground arith in
    let one : count b':' (c ∷ s ++ b':' ∷ t) ≡ 1 = ground arith in rw (a, one) refl

filled : (s t : List ℕ) (c : ℕ) → is_empty (s ++ c ∷ t) ≡ false
filled [] t c = refl
filled (x ∷ s) t c = refl

parse_v4_text :
    (s t : List ℕ) (a : Ipv4Address) (p : ℕ)
    → AreDigits s
    → AreDigits t
    → parse_ipv4_address s ≡ some a
    → parse_port t ≡ some p
    → parse_endpoint (s ++ b':' ∷ t) ≡ ok (of_v4_port a p)
unfolding parse_endpoint parse_as parse_v4_port with_parsed_port
parse_v4_text s t a p h k e f =
    let x : take (length s) (s ++ b':' ∷ t) ≡ s = take-append s (b':' ∷ t) in
    let y : drop (length s + 1) (s ++ b':' ∷ t) ≡ t = drop-append s t b':' (length s + 1) refl in
    let text = s ++ b':' ∷ t in
    let switched : parse_endpoint text ≡ parse_as (detect_endpoint_format text) text =
      rw (filled s t b':', parse_endpoint) refl in
    let address : parse_ipv4_address (take (length s) text) ≡ some a =
      ap parse_ipv4_address x ∙ e in
    let port : parse_port (drop (length s + 1) text) ≡ some p = ap parse_port y ∙ f in
    let parsed : parse_v4_port text ≡ ok (of_v4_port a p) =
      rw (rfind-append s t k, parse_v4_port) (rw address (rw port refl)) in
    switched ∙ ap (λ g. parse_as g text) (detect_v4 s t h k) ∙ parsed

-- An IPv4 address in range, printed, a colon, and the decimal print of a port parse as the endpoint
-- of that address and port.
pub parse_endpoint-print :
    (a : Ipv4Address) (p : ℕ)
    → Ipv4.IsValid a
    → p < 65536
    → parse_endpoint (to_string a ++ b':' ∷ decimal p) ≡ ok (of_v4_port a p)
unfolding to_string decimal
parse_endpoint-print a p h k =
    parse_v4_text (to_string a) (decimal p) a p
      (print_bytes-AreDigits (to_bytes a) (to_bytes-AreBytes a)) (digits-AreDigits (suc p) p)
      ((parse_ipv4_address_iff (to_string a) a).1 (h, refl))
      ((parse_port_iff (decimal p) p).1 (k, refl))

v4-IsValid :
    (s : List ℕ) (a : Ipv4Address) (p : ℕ)
    → parse_ipv4_address s ≡ some a
    → p < 65536
    → IsValid (of_v4_port a p)
v4-IsValid s a p e h = record {
  v4 = ((parse_ipv4_address_iff s a).0 e).0;
  v6 = record { size = refl; bytes = All-replicate (λ x. x < 256) 16 0 (omega arith) };
  port = h;
}

with_parsed_port-Safe :
    (s : List ℕ) (a : Ipv4Address) (t : List ℕ)
    → parse_ipv4_address s ≡ some a
    → Safe IsValid (with_parsed_port a (parse_port t))
unfolding with_parsed_port
with_parsed_port-Safe s a t e = elim (Option-cases (parse_port t)) [
  | inl f ↦ rw (f, with_parsed_port) tt
  | inr (p, f) ↦ rw (f, with_parsed_port) (v4-IsValid s a p e ((parse_port_iff t p).0 f).0)
]

parse_v4_port-Safe : (s : List ℕ) → Safe IsValid (parse_v4_port s)
unfolding parse_v4_port
parse_v4_port-Safe s = elim (Option-cases (rfind b':' s)) [
  | inl e ↦ rw (e, parse_v4_port) tt
  | inr (at, e) ↦
      rw (e, parse_v4_port)
        (elim (Option-cases (parse_ipv4_address (take at s))) [
          | inl f ↦ rw (f, parse_v4_port) tt
          | inr (a, f) ↦
              rw (f, parse_v4_port) (with_parsed_port-Safe (take at s) a (drop (at + 1) s) f)
        ])
]

v6-IsValid : (a : List ℕ) (p : ℕ) → IsAddress a → p < 65536 → IsValid (of_v6_port a p)
unfolding any
v6-IsValid a p h k = record { v4 = omega arith; v6 = h; port = k }

Safe-cases {ℓ} :
    {A : Type ℓ} (P : A → Type 0) (m : Run A)
    → Safe P m
    → (m ≡ invalid) ⊎ (a : A) × (m ≡ ok a) × P a
Safe-cases P (ok a) h = inr (a, refl, h)
Safe-cases P invalid h = inl refl
Safe-cases P fault h = absurd h

port_after-fits : (s : List ℕ) (p : ℕ) → port_after s ≡ some p → p < 65536
unfolding port_after
port_after-fits [] p e = ground arith
port_after-fits (c ∷ s) p e = elim (Bool-cases (c == b':')) [
  | inl f ↦ ((parse_port_iff s p).0 (rw (f, port_after) at e)).0
  | inr f ↦ let e' : none ≡ some p = rw (f, port_after) at e in absurd (ground arith)
]

parse_bracketed-Safe : (s : List ℕ) → Safe IsValid (parse_bracketed s)
unfolding parse_bracketed
parse_bracketed-Safe s = elim (Bool-cases (ltb (length s) 2)) [
  | inl e ↦ rw (e, parse_bracketed) tt
  | inr e ↦ elim (Bool-cases (get_or s 0 0 == b'[')) [
    | inr f ↦ rw (e, f, parse_bracketed) tt
    | inl f ↦ elim (Option-cases (find b']' s)) [
      | inl g ↦ rw (e, f, g, parse_bracketed) tt
      | inr (at, g) ↦
          let text = take (at - 1) (drop 1 s) in
          elim (Safe-cases IsAddress (parse_ipv6_address text) (parse_ipv6_address-Safe text)) [
            | inl k ↦ rw (e, f, g, k, parse_bracketed) tt
            | inr (a, k, v) ↦ elim (Option-cases (port_after (drop (at + 1) s))) [
              | inl q ↦ rw (e, f, g, k, q, parse_bracketed) tt
              | inr (p, q) ↦
                  rw (e, f, g, k, q, parse_bracketed)
                    (v6-IsValid a p v (port_after-fits (drop (at + 1) s) p q))
            ]
          ]
    ]
  ]
]

parse_as-Safe : (f : EndpointFormat) (s : List ℕ) → Safe IsValid (parse_as f s)
unfolding parse_as
parse_as-Safe ipv4_no_port s = elim (Option-cases (parse_ipv4_address s)) [
  | inl e ↦ rw (e, parse_as) tt
  | inr (a, e) ↦ rw (e, parse_as) (v4-IsValid s a 0 e (omega arith))
]
parse_as-Safe ipv4_with_port s = parse_v4_port-Safe s
parse_as-Safe ipv6_no_port s =
    elim (Safe-cases IsAddress (parse_ipv6_address s) (parse_ipv6_address-Safe s)) [
      | inl e ↦ rw (e, parse_as) tt
      | inr (a, e, h) ↦ rw (e, parse_as) (v6-IsValid a 0 h (omega arith))
    ]
parse_as-Safe ipv6_bracketed s = parse_bracketed-Safe s

-- On every text parse_endpoint ends without an access out of bounds: it rejects the text, or returns
-- an endpoint with a 32-bit IPv4 address, sixteen bytes as its IPv6 address, and a 16-bit port.
pub parse_endpoint-Safe : (s : List ℕ) → Safe IsValid (parse_endpoint s)
unfolding parse_endpoint
parse_endpoint-Safe s = elim (Bool-cases (is_empty s)) [
  | inl e ↦ rw (e, parse_endpoint) tt
  | inr e ↦ rw (e, parse_endpoint) (parse_as-Safe (detect_endpoint_format s) s)
]

-- ===== src/Ipv6.antt =====
-- ipv6_address: include/boost/corosio/ipv6_address.hpp and src/corosio/src/ipv6_address.cpp, the
-- address and its parser. Ipv6/Print.antt has the printer.
--
-- A text and an address are lists of bytes; an iterator is the rest of the text. Every access to the
-- array `bytes` is checked: `fault` stands for one out of bounds, and for fuel that ran out.
pub mod Bounds
pub mod Rounds
pub mod Safe
pub mod Print
mod Tests
use corosio.Base.{
  ℕ, zero, suc, ◌+◌, ◌-◌, ◌*◌, ◌/◌, ◌%◌, ◌≤◌, ◌<◌, ◌≡◌, Bool, true, false, ◌&&◌, ◌||◌, not, Option,
  none, some, List, [], ◌∷◌, ◌++◌, leb, ltb, ◌==◌, if◌then◌else◌, length, get_or, set, take, drop,
  replicate, All,
}
use corosio.Ipv4.{Ipv4Address, Bytes4, to_bytes, parse_ipv4_address, is_digit}

-- std::array<unsigned char, 16>
pub record IsAddress (a : List ℕ) : Type 0 where
  pub size : length a ≡ 16
  pub bytes : All (λ x. x < 256) a

abbrev pub unspecified : List ℕ
unspecified = replicate 16 0

pub loopback : List ℕ
loopback = set unspecified 15 1

pub of_v4 : Ipv4Address → List ℕ
of_v4 a = let v = to_bytes a in replicate 10 0 ++ 0xff ∷ 0xff ∷ v.b0 ∷ v.b1 ∷ v.b2 ∷ v.b3 ∷ []

pub is_multicast : List ℕ → Bool
is_multicast a = get_or a 0 0 == 0xff

all_zero : List ℕ → Bool
all_zero [] = true
all_zero (x ∷ xs) = x == 0 && all_zero xs

pub is_v4_mapped : List ℕ → Bool
unfolding all_zero
is_v4_mapped a = all_zero (take 10 a) && get_or a 10 0 == 0xff && get_or a 11 0 == 0xff

pub data Run {ℓ} (A : Type ℓ) : Type ℓ where
  ok : A → Run A
  invalid fault : Run A

infixl 5 ◌>>=◌
abbrev pub ◌>>=◌ {ℓ κ} : {A : Type ℓ} {B : Type κ} → Run A → (A → Run B) → Run B
ok a >>= f = f a
invalid >>= f = invalid
fault >>= f = fault

-- `bytes[i] = v`
pub store : ℕ → ℕ → List ℕ → Run (List ℕ)
store i v bytes = if ltb i (length bytes) then ok (set bytes i v) else fault

pub memset : ℕ → ℕ → List ℕ → Run (List ℕ)
memset at n bytes =
    if leb (at + n) (length bytes)
    then ok (take at bytes ++ (replicate n 0 ++ drop (at + n) bytes))
    else fault

pub memmove : ℕ → ℕ → ℕ → List ℕ → Run (List ℕ)
memmove to from n bytes =
    if leb (to + n) (length bytes) && leb (from + n) (length bytes)
    then ok (take to bytes ++ (take n (drop from bytes) ++ drop (to + n) bytes))
    else fault

-- `none` stands for -1.
pub hexdig_value : ℕ → Option ℕ
hexdig_value c =
    if leb b'0' c && leb c b'9'
    then some (c - b'0')
    else if leb b'a' c && leb c b'f'
    then some (c - b'a' + 10)
    else if leb b'A' c && leb c b'F'
    then some (c - b'A' + 10)
    else none

-- The digits after the first, at most so many; `(v << 4) | d` adds the digit to the shifted value.
pub more_digits : ℕ → ℕ → List ℕ → ℕ × List ℕ
more_digits zero v s = (v, s)
more_digits (suc k) v [] = (v, [])
more_digits (suc k) v (c ∷ s) = elim (hexdig_value c) [
  | none ↦ (v, c ∷ s)
  | some d ↦ more_digits k (v * 16 + d) s
]

-- The high byte, the low byte, and the rest of the text.
pub parse_h16 : List ℕ → Option (ℕ × ℕ × List ℕ)
parse_h16 [] = none
parse_h16 (c ∷ s) = elim (hexdig_value c) [
  | none ↦ none
  | some d ↦ let (v, rest) = more_digits 3 d s in some (v / 256 % 256, v % 256, rest)
]

pub maybe_octet : ℕ → ℕ → Bool
maybe_octet hi lo =
    let word = hi * 256 + lo in
    if ltb 0x255 word
    then false
    else if ltb 9 (word / 16 % 16)
    then false
    else if ltb 9 (word % 16)
    then false
    else true

-- The variables of the loop; `b` is `none` for -1.
pub record State : Type 0 where
  pub it : List ℕ
  pub prev : List ℕ
  pub n : ℕ
  pub b : Option ℕ
  pub c : Bool
  pub bytes : List ℕ

-- A round ends by `continue`, by `break`, or by an error.
pub data Round : Type 0 where
  again done : State → Round
  failed crashed : Round

abbrev pub after : {A : Type 0} → Run A → (A → Round) → Round
after (ok a) k = k a
after invalid k = failed
after fault k = crashed

-- `prev = it; parse_h16(...); bytes[2 * (8 - n)] = hi; ...; --n; if (n == 0) break;`
pub read_word : State → Round
unfolding store
read_word st = elim (parse_h16 st.it) [
  | none ↦ failed
  | some (hi, lo, rest) ↦
      let stored : Run (List ℕ) = do
        bytes ← store (2 * (8 - st.n)) hi st.bytes
        store (2 * (8 - st.n) + 1) lo bytes
      in after stored λ bytes.
        let next = record st { it = rest; prev = st.it; n = st.n - 1; bytes = bytes } in
        if st.n - 1 == 0 then done next else again (record next { c = true })
]

-- The first "::"; the text goes on behind it.
pub elide : List ℕ → State → Round
elide s st = elim st.b [
  | some _ ↦ failed
  | none ↦
      let next = record st { it = s; n = st.n - 1; b = some (st.n - 1) } in
      if st.n - 1 == 0 then done next else again (record next { c = false })
]

-- Behind a ':'.
pub colon : List ℕ → State → Round
unfolding elide read_word
colon [] st = failed
colon (d ∷ s) st =
    let word = read_word (record st { it = d ∷ s }) in
    if d == b':' then elide s st else if st.c then word else failed

-- `*v4_it == '.' || (*v4_it >= '0' && *v4_it <= '9')`, for as long as it holds, and the rest.
pub span_v4 : List ℕ → List ℕ × List ℕ
span_v4 [] = ([], [])
span_v4 (c ∷ s) =
    let (text, rest) = span_v4 s in
    if c == b'.' || is_digit c then (c ∷ text, rest) else ([], c ∷ s)

pub store4 : ℕ → Bytes4 → List ℕ → Run (List ℕ)
unfolding store
store4 at v bytes = do
  bytes1 ← store at v.b0 bytes
  bytes2 ← store (at + 1) v.b1 bytes1
  bytes3 ← store (at + 2) v.b2 bytes2
  store (at + 3) v.b3 bytes3

-- The rewound text as an IPv4 address.
pub embed : State → Round
unfolding store4 span_v4
embed st =
    let (text, rest) = span_v4 st.prev in
    elim (parse_ipv4_address st.prev) [
      | none ↦ failed
      | some _ ↦ elim (parse_ipv4_address text) [
        | none ↦ failed
        | some v4 ↦
            after (store4 (2 * (7 - st.n)) (to_bytes v4) st.bytes)
              λ bytes. done (record st { it = rest; n = st.n - 1; bytes = bytes })
      ]
    ]

abbrev pub is_none : Option ℕ → Bool
is_none none = true
is_none (some x) = false

-- At a '.'. The index 2 * (7 - n) is computed in std::size_t: past the array if n is 8.
pub dot : State → Round
unfolding embed
dot st =
    let at = 2 * (7 - st.n) in
    if is_none st.b && ltb 1 st.n
    then failed
    else if ltb 7 st.n || leb (length st.bytes) (at + 1)
    then crashed
    else if maybe_octet (get_or st.bytes at 0) (get_or st.bytes (at + 1) 0)
    then embed st
    else failed

-- One round of `for (;;)`.
pub round : State → Round
unfolding colon dot
round st = elim st.it [
  | [] ↦ if is_none st.b then failed else done st
  | ch ∷ s ↦
      if ch == b':'
      then colon s st
      else if ch == b'.'
      then dot st
      else if not (is_none st.b) && is_none (hexdig_value ch)
      then done st
      else if not st.c
      then read_word st
      else failed
]

pub parse_loop : ℕ → State → Run State
parse_loop zero st = fault
parse_loop (suc fuel) st = elim (round st) [
  | again next ↦ parse_loop fuel next
  | done last ↦ ok last
  | failed ↦ invalid
  | crashed ↦ fault
]

-- What follows the loop once all text is read: the words behind "::" move to the end.
pub expand : ℕ → ℕ → List ℕ → Run (List ℕ)
unfolding memset memmove
expand b n bytes =
    let first : Run (List ℕ) = do
      moved ← memmove (16 - 2 * (b - n)) 2 (2 * (b - n)) bytes
      memset 0 (16 - 2 * (b - n)) moved
    in let middle : Run (List ℕ) = do
      moved ← memmove (16 - 2 * (b - n)) (2 * (7 - b) + 2) (2 * (b - n)) bytes
      memset (2 * (7 - b)) (16 - (2 * (7 - b) + 2 * (b - n))) moved
      in if b == n
        then memset (2 * (7 - n)) (16 - 2 * (7 - n)) bytes
        else if b == 7
        then first
        else middle

pub finish : State → Run (List ℕ)
unfolding expand
finish st = elim st.it [
  | c ∷ s ↦ invalid
  | [] ↦ elim st.b [ none ↦ ok st.bytes | some b ↦ expand b st.n st.bytes ]
]

pub parse_ipv6_address : List ℕ → Run (List ℕ)
unfolding parse_loop round finish
parse_ipv6_address s = do
  st ←
      parse_loop (length s + 1)
        (record { it = s; prev = s; n = 8; b = none; c = false; bytes = unspecified })
  finish st

-- ===== src/Endpoint.antt =====
-- endpoint: include/boost/corosio/endpoint.hpp and src/corosio/src/endpoint.cpp.
--
-- A text is the list of its bytes; an error is `invalid`, and the parse of an IPv6 address can fault
-- as the parser in Ipv6.antt says.
pub mod Port
pub mod Order
pub mod Parse
mod Tests
use corosio.Base.{
  ℕ, zero, suc, ◌+◌, ◌-◌, ◌*◌, ◌<◌, ◌^◌, Bool, true, false, ◌&&◌, not, Option, none, some, List, [],
  ◌∷◌, leb, ltb, ◌==◌, if◌then◌else◌, length, get_or, take, drop, count, ◌≡◌,
}
use Prim.Native.Nat.{compare, Ordering, lt, eq, gt}
use corosio.Ipv4.{Ipv4Address, parse_ipv4_address, any, is_digit}
use corosio.Ipv6.{Run, ok, invalid, fault, parse_ipv6_address, unspecified}

pub record Endpoint : Type 0 where
  pub v4_address : Ipv4Address
  pub v6_address : List ℕ
  pub port : ℕ
  pub is_v4 : Bool

abbrev pub of_v4_port : Ipv4Address → ℕ → Endpoint
of_v4_port addr p = record { v4_address = addr; v6_address = unspecified; port = p; is_v4 = true }

abbrev pub of_v6_port : List ℕ → ℕ → Endpoint
of_v6_port addr p = record { v4_address = any; v6_address = addr; port = p; is_v4 = false }

abbrev pub of_port : ℕ → Endpoint
of_port p = of_v4_port any p

abbrev pub with_port : Endpoint → ℕ → Endpoint
with_port ep p = record ep { port = p }

-- `if (auto c = ...; c != 0) return c;`
abbrev pub first_of : Ordering → Ordering → Ordering
first_of lt d = lt
first_of eq d = d
first_of gt d = gt

-- `==` and `<=>` of std::array
pub equal_bytes : List ℕ → List ℕ → Bool
equal_bytes [] [] = true
equal_bytes [] (y ∷ ys) = false
equal_bytes (x ∷ xs) [] = false
equal_bytes (x ∷ xs) (y ∷ ys) = x == y && equal_bytes xs ys

pub compare_bytes : List ℕ → List ℕ → Ordering
compare_bytes [] [] = eq
compare_bytes [] (y ∷ ys) = lt
compare_bytes (x ∷ xs) [] = gt
compare_bytes (x ∷ xs) (y ∷ ys) = first_of (compare x y) (compare_bytes xs ys)

abbrev pub same : Bool → Bool → Bool
same true b = b
same false b = not b

-- operator==
pub equal : Endpoint → Endpoint → Bool
unfolding equal_bytes
equal a b =
    if not (same a.is_v4 b.is_v4)
    then false
    else if not (a.port == b.port)
    then false
    else if a.is_v4
    then a.v4_address.addr == b.v4_address.addr
    else equal_bytes a.v6_address b.v6_address

-- operator<=>
pub compare_endpoints : Endpoint → Endpoint → Ordering
unfolding compare_bytes
compare_endpoints a b =
    if not (same a.is_v4 b.is_v4)
    then (if a.is_v4 then lt else gt)
    else first_of
        (if a.is_v4
          then compare a.v4_address.addr b.v4_address.addr
          else compare_bytes a.v6_address b.v6_address)
        (compare a.port b.port)

pub data EndpointFormat : Type 0 where
  ipv4_no_port ipv4_with_port ipv6_no_port ipv6_bracketed : EndpointFormat

unfoldable pub detect_endpoint_format : List ℕ → EndpointFormat
detect_endpoint_format [] = ipv4_no_port
detect_endpoint_format (c ∷ s) =
    let colon_count = count b':' (c ∷ s) in
    if c == b'['
    then ipv6_bracketed
    else if colon_count == 0
    then ipv4_no_port
    else if colon_count == 1
    then ipv4_with_port
    else ipv6_no_port

-- std::from_chars to an unsigned long: the value of the digits at the front, and the rest.
unfoldable pub scan : ℕ → List ℕ → ℕ × List ℕ
scan v [] = (v, [])
scan v (c ∷ s) = elim (is_digit c) [ true ↦ scan (v * 10 + (c - b'0')) s | false ↦ (v, c ∷ s) ]

-- `none` if there is no digit, or the value has more than 64 bits.
unfoldable pub from_chars : List ℕ → Option (ℕ × List ℕ)
from_chars [] = none
from_chars (c ∷ s) =
    let (v, rest) = scan 0 (c ∷ s) in
    if not (is_digit c) then none else if leb (2 ^ 64) v then none else some (v, rest)

-- `ptr != s.data() + s.size()`, and the range of a port.
abbrev pub to_port : Option (ℕ × List ℕ) → Option ℕ
to_port none = none
to_port (some (val, c ∷ rest)) = none
to_port (some (val, [])) = if ltb 65535 val then none else some val

-- s.empty()
abbrev pub is_empty : List ℕ → Bool
is_empty [] = true
is_empty (c ∷ s) = false

unfoldable pub parse_port : List ℕ → Option ℕ
parse_port s =
    if is_empty s
    then none
    else if ltb 1 (length s) && get_or s 0 0 == b'0'
    then none
    else to_port (from_chars s)

unfoldable pub find : ℕ → List ℕ → Option ℕ
find c [] = none
find c (x ∷ s) = elim (x == c) [
  | true ↦ some 0
  | false ↦ elim (find c s) [ none ↦ none | some i ↦ some (i + 1) ]
]

unfoldable pub rfind : ℕ → List ℕ → Option ℕ
rfind c [] = none
rfind c (x ∷ s) = elim (rfind c s) [
  | some i ↦ some (i + 1)
  | none ↦ if x == c then some 0 else none
]

unfoldable pub with_parsed_port : Ipv4Address → Option ℕ → Run Endpoint
with_parsed_port addr none = invalid
with_parsed_port addr (some port) = ok (of_v4_port addr port)

-- The case ipv4_with_port.
unfoldable pub parse_v4_port : List ℕ → Run Endpoint
parse_v4_port s = elim (rfind b':' s) [
  | none ↦ invalid
  | some colon_pos ↦ elim (parse_ipv4_address (take colon_pos s)) [
    | none ↦ invalid
    | some addr ↦ with_parsed_port addr (parse_port (drop (colon_pos + 1) s))
  ]
]

-- The port behind "]:", 0 if nothing follows the bracket.
unfoldable pub port_after : List ℕ → Option ℕ
port_after [] = some 0
port_after (c ∷ s) = let port = parse_port s in if c == b':' then port else none

-- The case ipv6_bracketed.
unfoldable pub parse_bracketed : List ℕ → Run Endpoint
parse_bracketed s =
    let bracketed : Run Endpoint = elim (find b']' s) [
      | none ↦ invalid
      | some close_bracket ↦ elim (parse_ipv6_address (take (close_bracket - 1) (drop 1 s))) [
        | invalid ↦ invalid
        | fault ↦ fault
        | ok addr ↦ elim (port_after (drop (close_bracket + 1) s)) [
          | none ↦ invalid
          | some port ↦ ok (of_v6_port addr port)
        ]
      ]
    ] in
    if ltb (length s) 2 then invalid else if get_or s 0 0 == b'[' then bracketed else invalid

-- The cases of the switch.
unfoldable pub parse_as : EndpointFormat → List ℕ → Run Endpoint
parse_as ipv4_no_port s = elim (parse_ipv4_address s) [
  | none ↦ invalid
  | some addr ↦ ok (of_v4_port addr 0)
]
parse_as ipv4_with_port s = parse_v4_port s
parse_as ipv6_no_port s = elim (parse_ipv6_address s) [
  | invalid ↦ invalid
  | fault ↦ fault
  | ok addr ↦ ok (of_v6_port addr 0)
]
parse_as ipv6_bracketed s = parse_bracketed s

unfoldable pub parse_endpoint : List ℕ → Run Endpoint
parse_endpoint s = if is_empty s then invalid else parse_as (detect_endpoint_format s) s

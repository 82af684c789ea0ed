-- ===== src/Ipv4.antt =====
-- ipv4_address: include/boost/corosio/ipv4_address.hpp and src/corosio/src/ipv4_address.cpp.
--
-- A text is the list of its bytes. An iterator that the source advances by reference is the rest of
-- the text that it returns.
pub mod Octet
pub mod Bytes
pub mod RoundTrip
mod Tests
use corosio.Base.{
  ℕ, ◌+◌, ◌-◌, ◌*◌, ◌/◌, ◌%◌, ◌^◌, ◌<◌, Bool, true, false, ◌&&◌, Option, none, some, List, [], ◌∷◌,
  ◌++◌, leb, ltb, ◌==◌, if◌then◌else◌, ◌>>=◌,
}

pub record Ipv4Address : Type 0 where
  pub addr : ℕ

-- uint_type is std::uint32_t.
abbrev pub IsValid : Ipv4Address → Type 0
IsValid a = a.addr < 2 ^ 32

-- std::array<unsigned char, 4>
pub record Bytes4 : Type 0 where
  pub b0 : ℕ
  pub b1 : ℕ
  pub b2 : ℕ
  pub b3 : ℕ

pub record AreBytes (b : Bytes4) : Type 0 where
  pub byte0 : b.b0 < 256
  pub byte1 : b.b1 < 256
  pub byte2 : b.b2 < 256
  pub byte3 : b.b3 < 256

-- The four shifted bytes have no bit in common, so `|` adds them.
unfoldable pub of_bytes : Bytes4 → Ipv4Address
of_bytes b = record { addr = b.b0 * 2 ^ 24 + b.b1 * 2 ^ 16 + b.b2 * 2 ^ 8 + b.b3 }

unfoldable pub to_bytes : Ipv4Address → Bytes4
to_bytes a = record {
  b0 = a.addr / 2 ^ 24 % 256;
  b1 = a.addr / 2 ^ 16 % 256;
  b2 = a.addr / 2 ^ 8 % 256;
  b3 = a.addr % 256;
}

-- `x & mask` for the mask whose bits from `k` to 31 are set.
abbrev high_bits : ℕ → ℕ → ℕ
high_bits x k = x % 2 ^ 32 / 2 ^ k * 2 ^ k

pub is_loopback : Ipv4Address → Bool
is_loopback a = high_bits a.addr 24 == 0x7F000000

pub is_unspecified : Ipv4Address → Bool
is_unspecified a = a.addr == 0

pub is_multicast : Ipv4Address → Bool
is_multicast a = high_bits a.addr 28 == 0xE0000000

unfoldable pub any : Ipv4Address
any = record { addr = 0 }

pub loopback : Ipv4Address
loopback = record { addr = 0x7F000001 }

pub broadcast : Ipv4Address
broadcast = record { addr = 0xFFFFFFFF }

-- The lambda `write` of print_impl.
unfoldable pub write : ℕ → List ℕ
write v =
    if leb 100 v
    then (b'0' + v / 100) ∷ (b'0' + v % 100 / 10) ∷ (b'0' + v % 100 % 10) ∷ []
    else if leb 10 v
    then (b'0' + v / 10) ∷ (b'0' + v % 10) ∷ []
    else (b'0' + v) ∷ []

unfoldable pub print_bytes : Bytes4 → List ℕ
print_bytes b = write b.b0 ++ b'.' ∷ (write b.b1 ++ b'.' ∷ (write b.b2 ++ b'.' ∷ write b.b3))

-- to_string; print_impl writes the same bytes into a buffer and returns their number.
unfoldable pub to_string : Ipv4Address → List ℕ
unfolding print_bytes to_bytes
to_string a = print_bytes (to_bytes a)

abbrev pub max_str_len : ℕ
max_str_len = 15

-- `none` stands for std::length_error.
unfoldable pub to_buffer : Ipv4Address → ℕ → Option (List ℕ)
to_buffer a dest_size = if ltb dest_size max_str_len then none else some (to_string a)

abbrev pub is_digit : ℕ → Bool
is_digit c = leb b'0' c && leb c b'9'

-- `it != end && *it >= '0' && *it <= '9'`
abbrev pub at_digit : List ℕ → Bool
at_digit [] = false
at_digit (c ∷ s) = is_digit c

third_digit : ℕ → List ℕ → Option (ℕ × List ℕ)
third_digit v [] = some (v, [])
third_digit v (c ∷ s) =
    if is_digit c
    then if at_digit s then none else some (v * 10 + (c - b'0'), s)
    else some (v, c ∷ s)

second_digit : ℕ → List ℕ → Option (ℕ × List ℕ)
second_digit v [] = some (v, [])
second_digit v (c ∷ s) = if is_digit c then third_digit (v * 10 + (c - b'0')) s else some (v, c ∷ s)

-- `if (v > 255) return false;`
to_octet : Option (ℕ × List ℕ) → Option (ℕ × List ℕ)
to_octet none = none
to_octet (some (v, s)) = if ltb 255 v then none else some (v, s)

unfoldable pub parse_dec_octet : List ℕ → Option (ℕ × List ℕ)
unfolding to_octet second_digit third_digit
parse_dec_octet [] = none
parse_dec_octet (c ∷ s) =
    if is_digit c
    then if c - b'0' == 0
      then if at_digit s then none else some (0, s)
      else to_octet (second_digit (c - b'0') s)
    else none

skip_dot : List ℕ → Option (List ℕ)
skip_dot [] = none
skip_dot (c ∷ s) = if c == b'.' then some s else none

-- One round of the loop over the octets after the first.
next_octet : List ℕ → Option (ℕ × List ℕ)
next_octet s = do t ← skip_dot s; parse_dec_octet t

at_end : List ℕ → Ipv4Address → Option Ipv4Address
at_end [] a = some a
at_end (c ∷ s) a = none

-- `none` stands for std::errc::invalid_argument, the only error of the function.
unfoldable pub parse_ipv4_address : List ℕ → Option Ipv4Address
unfolding next_octet skip_dot at_end of_bytes
parse_ipv4_address s = do
  (o0, s0) ← parse_dec_octet s
  (o1, s1) ← next_octet s0
  (o2, s2) ← next_octet s1
  (o3, s3) ← next_octet s2
  at_end s3 (of_bytes (record { b0 = o0; b1 = o1; b2 = o2; b3 = o3 }))

-- ===== src/Ipv6/Print.antt =====
-- ipv6_address::print_impl, to_string and to_buffer of src/corosio/src/ipv6_address.cpp.
--
-- `it` is the rest of the array up to `end`, beside its index. `fault` stands for an access out of
-- bounds, an iterator past the end, an exception that leaves the function, and fuel that ran out.
pub mod Fits
use corosio.Base.{
  ℕ, zero, suc, ◌+◌, ◌-◌, ◌*◌, ◌/◌, ◌%◌, Bool, true, false, ◌&&◌, Option, none, some, List, [], ◌∷◌,
  ◌++◌, leb, ltb, ◌==◌, if◌then◌else◌, length, get_or, take, drop,
}
use corosio.Ipv4
use corosio.Ipv6.{Run, ok, invalid, fault, ◌>>=◌, is_v4_mapped}

abbrev pub max_str_len : ℕ
max_str_len = 49

-- The number of bytes in the words that are 0 at the front.
unfoldable pub count_zeroes : List ℕ → ℕ
count_zeroes [] = 0
count_zeroes (x ∷ []) = 0
count_zeroes (x ∷ y ∷ s) = let n = count_zeroes s in if x == 0 && y == 0 then n + 2 else 0

-- `dig[k]`, for k < 16
unfoldable pub dig : ℕ → ℕ
dig k = if ltb k 10 then b'0' + k else b'a' + (k - 10)

-- The masks keep the lower 12, 8 and 4 bits.
unfoldable pub print_hex : ℕ → List ℕ
print_hex v =
    if leb 0x1000 v
    then dig (v / 4096) ∷ dig (v % 4096 / 256) ∷ dig (v % 256 / 16) ∷ dig (v % 16) ∷ []
    else if leb 0x100 v
    then dig (v / 256) ∷ dig (v % 256 / 16) ∷ dig (v % 16) ∷ []
    else if leb 0x10 v
    then dig (v / 16) ∷ dig (v % 16) ∷ []
    else dig v ∷ []

-- `best_pos` is `none` for -1.
pub record Best : Type 0 where
  pub best_len : ℕ
  pub best_pos : Option ℕ

-- The search for the longest run of zeroes.
unfoldable pub find_run : ℕ → List ℕ → ℕ → Best → Run Best
find_run zero it at best = fault
find_run (suc fuel) [] at best = ok best
find_run (suc fuel) (x ∷ []) at best = fault
find_run (suc fuel) (x ∷ y ∷ s) at best =
    let n = count_zeroes (x ∷ y ∷ s) in
    let longer =
      if ltb best.best_len n then record { best_len = n; best_pos = some at } else best in
    elim (n == 0) [
      | true ↦ find_run fuel s (at + 2) best
      | false ↦ find_run fuel (drop n (x ∷ y ∷ s)) (at + n) longer
    ]

abbrev pub is_at : ℕ → Option ℕ → Bool
is_at at none = false
is_at at (some p) = at == p

-- A second ':' if the run reaches the end.
abbrev pub closing : List ℕ → List ℕ
closing [] = b':' ∷ []
closing (x ∷ s) = []

-- `it += best_len`
unfoldable pub skip_run : Best → List ℕ → Run (List ℕ)
skip_run best it = if leb best.best_len (length it) then ok (drop best.best_len it) else fault

-- The loop that prints the words behind the first.
unfoldable pub print_words : ℕ → List ℕ → ℕ → Best → Run (List ℕ)
print_words zero it at best = fault
print_words (suc fuel) [] at best = ok []
print_words (suc fuel) (x ∷ s) at best = elim (is_at at best.best_pos) [
  | true ↦ do
    rest ← skip_run best (x ∷ s)
    out ← print_words fuel rest (at + best.best_len) best
    ok (b':' ∷ (closing rest ++ out))
  | false ↦ elim s [
    | [] ↦ fault
    | y ∷ t ↦ do
      out ← print_words fuel t (at + 2) best
      ok (b':' ∷ (print_hex (x * 256 + y) ++ out))
  ]
]

-- The first word, or the run that stands first, and the loop.
unfoldable pub print_first : List ℕ → Best → Run (List ℕ)
print_first it best =
    let fuel = length it + 1 in
    elim (is_at 0 best.best_pos) [
      | true ↦ do
        rest ← skip_run best it
        out ← print_words fuel rest best.best_len best
        ok (b':' ∷ (closing rest ++ out))
      | false ↦ elim it [
        | x ∷ y ∷ t ↦ do out ← print_words fuel t 2 best; ok (print_hex (x * 256 + y) ++ out)
        | _ ↦ fault
      ]
    ]

-- The IPv4 address of a mapped one
abbrev pub embedded_v4 : List ℕ → Ipv4.Ipv4Address
embedded_v4 a =
    Ipv4.of_bytes
      (record { b0 = get_or a 12 0; b1 = get_or a 13 0; b2 = get_or a 14 0; b3 = get_or a 15 0 })

-- `to_buffer` throws if its buffer is too small.
unfoldable pub print_v4 : List ℕ → Run (List ℕ)
print_v4 a = elim (Ipv4.to_buffer (embedded_v4 a) Ipv4.max_str_len) [
  | none ↦ fault
  | some sv ↦ ok (b':' ∷ sv)
]

unfoldable pub print_impl : List ℕ → Run (List ℕ)
print_impl a =
    let v4 = is_v4_mapped a in
    let it = if v4 then take (length a - 4) a else a in
    do
      best ← find_run (length it + 1) it 0 (record { best_len = 0; best_pos = none })
      words ← print_first it best
      tail ← if v4 then print_v4 a else ok []
      ok (words ++ tail)

-- The buffer of max_str_len characters is filled no further than its size.
unfoldable pub to_string : List ℕ → Run (List ℕ)
to_string a = do text ← print_impl a; if leb (length text) max_str_len then ok text else fault

-- `invalid` stands for std::length_error.
pub to_buffer : List ℕ → ℕ → Run (List ℕ)
to_buffer a dest_size =
    if ltb dest_size max_str_len
    then invalid
    else do text ← print_impl a; if leb (length text) dest_size then ok text else fault

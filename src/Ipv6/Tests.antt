-- ===== src/Ipv6/Tests.antt =====
-- Runs of the ipv6_address parser and printer, and the theorems at concrete inputs.
use corosio.Base.{
  ℕ, ◌≤◌, length, ltb, if◌then◌else◌, arith, ◌≡◌, refl, List, [], ◌∷◌, ◌++◌, replicate,
}
use corosio.Ipv4.{to_buffer, write, of_bytes, to_bytes, parse_ipv4_address, parse_dec_octet}
use corosio.Ipv6.{
  IsAddress, invalid, ok, parse_ipv6_address, parse_h16, hexdig_value, more_digits, maybe_octet,
  loopback, is_v4_mapped,
}
use corosio.Ipv6.Bounds.{Safe}
use corosio.Ipv6.Safe.{parse_ipv6_address-Safe}
use corosio.Ipv6.Print
use corosio.Ipv6.Print.Fits.{to_string-Fits}
use corosio.Ipv6.Print.{
  to_string, print_impl, find_run, count_zeroes, print_first, print_words, print_hex, dig, skip_run,
  print_v4,
}

-- ::ffff:1.2.3.4
abbrev mapped_text : List ℕ
mapped_text =
    b':' ∷ b':' ∷ b'f' ∷ b'f' ∷ b'f' ∷ b'f' ∷ b':' ∷ b'1' ∷ b'.' ∷ b'2' ∷ b'.' ∷ b'3' ∷ b'.' ∷ b'4'
    ∷ []

abbrev mapped : List ℕ
mapped = replicate 10 0 ++ 255 ∷ 255 ∷ 1 ∷ 2 ∷ 3 ∷ 4 ∷ []

-- 1:20::a:3
abbrev middle_text : List ℕ
middle_text = b'1' ∷ b':' ∷ b'2' ∷ b'0' ∷ b':' ∷ b':' ∷ b'a' ∷ b':' ∷ b'3' ∷ []

abbrev middle : List ℕ
middle = 0 ∷ 1 ∷ 0 ∷ 32 ∷ 0 ∷ 0 ∷ 0 ∷ 0 ∷ 0 ∷ 0 ∷ 0 ∷ 0 ∷ 0 ∷ 10 ∷ 0 ∷ 3 ∷ []

parse_loopback : parse_ipv6_address (b':' ∷ b':' ∷ b'1' ∷ []) ≡ ok loopback
unfolding parse_ipv6_address parse_h16 hexdig_value more_digits loopback
parse_loopback = refl

parse_middle : parse_ipv6_address middle_text ≡ ok middle
unfolding parse_ipv6_address parse_h16 hexdig_value more_digits
parse_middle = refl

parse_mapped : parse_ipv6_address mapped_text ≡ ok mapped
unfolding parse_ipv6_address parse_h16 hexdig_value more_digits parse_ipv4_address parse_dec_octet
    maybe_octet to_bytes
parse_mapped = refl

two_elisions : parse_ipv6_address (b':' ∷ b':' ∷ b'1' ∷ b':' ∷ b':' ∷ []) ≡ invalid
unfolding parse_ipv6_address parse_h16 hexdig_value more_digits
two_elisions = refl

print_middle : to_string middle ≡ ok middle_text
unfolding to_string print_impl find_run count_zeroes print_first print_words print_hex dig skip_run
    print_v4 is_v4_mapped
print_middle = refl

print_mapped : to_string mapped ≡ ok mapped_text
unfolding to_string print_impl find_run count_zeroes print_first print_words print_hex dig skip_run
    print_v4 is_v4_mapped to_buffer write of_bytes corosio.Ipv4.to_string
print_mapped = refl

parse_ipv6_address-Safe_example : Safe IsAddress (parse_ipv6_address mapped_text)
parse_ipv6_address-Safe_example = parse_ipv6_address-Safe mapped_text

mapped-IsAddress : IsAddress mapped
mapped-IsAddress = record { size = refl; bytes = omega arith }

to_string-Fits_example :
    (text : List ℕ) × (to_string mapped ≡ ok text)
    × (length text ≤ 46)
    × (Print.to_buffer mapped 40 ≡ (if ltb 40 Print.max_str_len then invalid else ok text))
to_string-Fits_example = to_string-Fits mapped 40 mapped-IsAddress

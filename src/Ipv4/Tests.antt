-- ===== src/Ipv4/Tests.antt =====
-- Runs of the address functions, and the theorems at concrete inputs.
use corosio.Base.{ℕ, ◌≡◌, ◌↔◌, refl, none, some, List, [], ◌∷◌}
use corosio.Ipv4.{
  Ipv4Address, IsValid, Bytes4, to_string, parse_ipv4_address, parse_dec_octet, write,
}
use corosio.Ipv4.RoundTrip.{parse_ipv4_address_iff}

abbrev text : List ℕ
text = b'1' ∷ b'.' ∷ b'2' ∷ b'.' ∷ b'0' ∷ b'.' ∷ b'2' ∷ b'5' ∷ b'5' ∷ []

abbrev sample : Ipv4Address
sample = record { addr = 0x010200FF }

parse_text : parse_ipv4_address text ≡ some sample
unfolding parse_ipv4_address parse_dec_octet
parse_text = refl

print_sample : to_string sample ≡ text
unfolding to_string write
print_sample = refl

leading_zero : parse_ipv4_address (b'0' ∷ text) ≡ none
unfolding parse_ipv4_address parse_dec_octet
leading_zero = refl

parse_ipv4_address_iff_example :
    (parse_ipv4_address text ≡ some sample) ↔ (IsValid sample × (to_string sample ≡ text))
parse_ipv4_address_iff_example = parse_ipv4_address_iff text sample

abbrev octets : Bytes4
octets = record { b0 = 239; b1 = 255; b2 = 0; b3 = 7 }

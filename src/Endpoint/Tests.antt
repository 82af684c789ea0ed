-- ===== src/Endpoint/Tests.antt =====
-- Runs of the endpoint functions, and the theorems at concrete inputs.
use corosio.Base.{ℕ, ◌<◌, ◌≡◌, ◌↔◌, refl, some, List, [], ◌∷◌, ◌++◌, arith}
use corosio.Ipv4.{Ipv4Address, to_string}
use corosio.Ipv6.{ok}
use Prim.Native.Nat.{lt}
use corosio.Endpoint.{
  Endpoint, of_v4_port, parse_port, parse_endpoint, compare_endpoints, of_v6_port,
}
use corosio.Endpoint.Port.{decimal, parse_port_iff}
use corosio.Endpoint.Parse.{parse_endpoint-print}

abbrev port_text : List ℕ
port_text = b'8' ∷ b'0' ∷ b'8' ∷ b'0' ∷ []

-- [::1]:8080
abbrev bracketed : List ℕ
bracketed = b'[' ∷ b':' ∷ b':' ∷ b'1' ∷ b']' ∷ b':' ∷ port_text

abbrev local_host : Ipv4Address
local_host = record { addr = 0x7F000001 }

parse_port_iff_example :
    (parse_port port_text ≡ some 8080) ↔ ((8080 < 65536) × (decimal 8080 ≡ port_text))
parse_port_iff_example = parse_port_iff port_text 8080

parse_endpoint-print_example :
    parse_endpoint (to_string local_host ++ b':' ∷ decimal 8080) ≡ ok (of_v4_port local_host 8080)
parse_endpoint-print_example = parse_endpoint-print local_host 8080 (omega arith) (omega arith)

abbrev plain : Endpoint
plain = of_v4_port local_host 80

abbrev proxy : Endpoint
proxy = of_v4_port local_host 8080

abbrev six : Endpoint
six = of_v6_port (0 ∷ 1 ∷ []) 80

plain-proxy : compare_endpoints plain proxy ≡ lt
unfolding compare_endpoints
plain-proxy = refl

proxy-six : compare_endpoints proxy six ≡ lt
unfolding compare_endpoints
proxy-six = refl

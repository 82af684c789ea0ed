-- ===== src/Ipv4/Octet.antt =====
-- Reading and writing one decimal octet: parse_dec_octet and the lambda `write` of print_impl.
use corosio.Base.{ℕ, ◌≤◌, ◌<◌, ◌≡◌, some, List, [], ◌∷◌, ◌++◌, arith, false, length}
use corosio.Ipv4.{write, parse_dec_octet, at_digit}

-- What `write` puts out is read back, if no digit follows.
pub parse_dec_octet-write :
    (v : ℕ) (s : List ℕ)
    → v < 256
    → at_digit s ≡ false
    → parse_dec_octet (write v ++ s) ≡ some (v, s)
unfolding parse_dec_octet write
parse_dec_octet-write v [] h e = ground arith
parse_dec_octet-write v (c ∷ s) h e = ground arith

-- What is read is a byte, and the text read is the one that `write` puts out.
pub parse_dec_octet_sound :
    (s t : List ℕ) (v : ℕ)
    → parse_dec_octet s ≡ some (v, t)
    → (s ≡ write v ++ t) × (v < 256) × (at_digit t ≡ false)
unfolding parse_dec_octet write
parse_dec_octet_sound [] t v e = ground arith
parse_dec_octet_sound (a ∷ []) t v e = ground arith
parse_dec_octet_sound (a ∷ b ∷ []) t v e = ground arith
parse_dec_octet_sound (a ∷ b ∷ c ∷ []) t v e = ground arith
parse_dec_octet_sound (a ∷ b ∷ c ∷ d ∷ s) t v e = ground arith

pub length-write : (v : ℕ) → (1 ≤ length (write v)) × (length (write v) ≤ 3)
unfolding write
length-write v = ground arith

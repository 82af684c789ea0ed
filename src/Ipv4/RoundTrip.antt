-- ===== src/Ipv4/RoundTrip.antt =====
-- Text to address and back: to_string, to_buffer and parse_ipv4_address.
use corosio.Base.{
  ℕ, ◌≤◌, ◌<◌, ◌≡◌, ◌↔◌, refl, sym, ap, ◌∙◌, none, some, List, [], ◌∷◌, ◌++◌, arith, false, length,
  length-append, append-nil, subst, >>=-then, ◌+◌,
}
use corosio.Ipv4.{
  Ipv4Address, IsValid, Bytes4, AreBytes, of_bytes, to_bytes, to_string, print_bytes, to_buffer,
  write, max_str_len, parse_ipv4_address, parse_dec_octet, next_octet, skip_dot, at_end, at_digit,
}
use corosio.Ipv4.Octet.{parse_dec_octet-write, parse_dec_octet_sound, length-write}
use corosio.Ipv4.Bytes.{to_bytes-AreBytes, of_bytes-IsValid, of_bytes-to_bytes, to_bytes-of_bytes}

next_octet-write :
    (v : ℕ) (s : List ℕ)
    → v < 256
    → at_digit s ≡ false
    → next_octet (b'.' ∷ (write v ++ s)) ≡ some (v, s)
unfolding next_octet skip_dot
next_octet-write v s h e = parse_dec_octet-write v s h e

next_octet_sound :
    (s t : List ℕ) (v : ℕ)
    → next_octet s ≡ some (v, t)
    → (s ≡ b'.' ∷ (write v ++ t)) × (v < 256) × (at_digit t ≡ false)
unfolding next_octet skip_dot
next_octet_sound [] t v e = ground arith
next_octet_sound (c ∷ s) t v e = ground (arith, parse_dec_octet_sound s t v)

parse-print_bytes :
    (b : Bytes4) → AreBytes b → parse_ipv4_address (print_bytes b) ≡ some (of_bytes b)
unfolding parse_ipv4_address print_bytes
parse-print_bytes b h =
    let last = rw (append-nil (write b.b3)) at (next_octet-write b.b3 [] h.byte3 refl) in
    rw (
      parse_dec_octet-write b.b0 _ h.byte0 refl,
      next_octet-write b.b1 _ h.byte1 refl,
      next_octet-write b.b2 _ h.byte2 refl,
      last,
    )

at_end_sound : (s : List ℕ) (a b : Ipv4Address) → at_end s a ≡ some b → (s ≡ []) × (a ≡ b)
unfolding at_end
at_end_sound [] a b e = ground arith
at_end_sound (c ∷ s) a b e = ground arith

-- A text that parses is the print of four bytes, whose address is the result.
parse_bytes :
    (s : List ℕ) (a : Ipv4Address)
    → parse_ipv4_address s ≡ some a
    → (b : Bytes4) × AreBytes b × (print_bytes b ≡ s) × (of_bytes b ≡ a)
unfolding parse_ipv4_address print_bytes
parse_bytes s a e = >>=-then (parse_dec_octet s) _ e λ (o0, s0) p0 e0.
    >>=-then (next_octet s0) _ e0 λ (o1, s1) p1 e1. >>=-then (next_octet s1) _ e1 λ (o2, s2) p2 e2.
      >>=-then (next_octet s2) _ e2 λ (o3, s3) p3 e3.
        let r0 = parse_dec_octet_sound s s0 o0 p0 in
        let r1 = next_octet_sound s0 s1 o1 p1 in
        let r2 = next_octet_sound s1 s2 o2 p2 in
        let r3 = next_octet_sound s2 s3 o3 p3 in
        let r4 = at_end_sound s3 _ a e3 in
        (
          record { b0 = o0; b1 = o1; b2 = o2; b3 = o3 },
          record { byte0 = r0.1; byte1 = r1.1; byte2 = r2.1; byte3 = r3.1 },
          cc (r0.0, r1.0, r2.0, r3.0, r4.0, append-nil (write o3)),
          r4.1,
        )

-- A text parses as an address exactly if the address is a 32-bit number and the text is its print.
pub parse_ipv4_address_iff :
    (s : List ℕ) (a : Ipv4Address)
    → (parse_ipv4_address s ≡ some a) ↔ (IsValid a × (to_string a ≡ s))
unfolding to_string
parse_ipv4_address_iff s a = (
  (λ e.
      let (b, h, p, q) = parse_bytes s a e in
      (
        subst IsValid q (of_bytes-IsValid b h),
        ap print_bytes (ap to_bytes (sym q) ∙ to_bytes-of_bytes b h) ∙ p,
      )),
  (λ (h, p).
      subst (λ t. parse_ipv4_address t ≡ some a) p
        (parse-print_bytes (to_bytes a) (to_bytes-AreBytes a) ∙ ap some (of_bytes-to_bytes a h))),
)

length-print_bytes :
    (b : Bytes4)
    → length (print_bytes b)
      ≡ length (write b.b0) + length (write b.b1) + length (write b.b2) + length (write b.b3) + 3
unfolding print_bytes
length-print_bytes b = simp length-append (omega arith)

-- The print of an address has 7 to 15 bytes, so max_str_len bytes hold it, and to_buffer fails
-- exactly on a smaller buffer.
pub to_buffer_fits :
    (a : Ipv4Address) (dest_size : ℕ)
    → (7 ≤ length (to_string a))
      × (length (to_string a) ≤ max_str_len)
      × (to_buffer a dest_size ≡ none ↔ dest_size < max_str_len)
      × (max_str_len ≤ dest_size → to_buffer a dest_size ≡ some (to_string a))
unfolding to_buffer to_string
to_buffer_fits a dest_size =
    let b = to_bytes a in
    let l = length-print_bytes b in
    let w0 = length-write b.b0 in
    let w1 = length-write b.b1 in
    let w2 = length-write b.b2 in
    let w3 = length-write b.b3 in (omega arith, omega arith, ground arith, ground arith)

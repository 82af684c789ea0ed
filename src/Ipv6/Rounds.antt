-- ===== src/Ipv6/Rounds.antt =====
-- A round of the ipv6_address parser keeps its state in range.
use corosio.Base.{
  ℕ, ◌+◌, ◌-◌, ◌*◌, ◌≤◌, ◌<◌, ◌≡◌, refl, Bool, true, false, Option, some, List, [], ◌∷◌, length,
  ltb, leb, ◌==◌, if◌then◌else◌, arith, Bool-cases, Option-cases, inl, inr, ◌&&◌, ◌||◌, not,
}
use corosio.Ipv4.{Bytes4, AreBytes, to_bytes, parse_ipv4_address}
use corosio.Ipv4.Bytes.{to_bytes-AreBytes}
use corosio.Ipv6.{
  IsAddress, Run, ok, invalid, fault, ◌>>=◌, store, parse_h16, State, Round, again, done, failed,
  crashed, after, read_word, elide, colon, span_v4, store4, embed, is_none, dot, round,
  hexdig_value, maybe_octet,
}
use corosio.Ipv6.Bounds.{Safe, Safe-bind, store-Safe, IsWord, parse_h16-IsWord}

-- The loop's state: the array is whole, and `n` and `b` are in range.
pub record IsSafe (low : ℕ) (st : State) : Type 0 where
  pub array : IsAddress st.bytes
  pub low_n : low ≤ st.n
  pub high_n : st.n ≤ 8
  pub order : (k : ℕ) → st.b ≡ some k → (st.n ≤ k) × (k ≤ 7)

-- A round that goes on leaves a shorter text than `len`.
abbrev pub RoundOk : ℕ → Round → Type 0
RoundOk len (again st) = IsSafe 1 st × (length st.it < len)
RoundOk len (done st) = IsSafe 0 st
RoundOk len failed = Unit {0}
RoundOk len crashed = ⊥

after-RoundOk :
    {A : Type 0} (P : A → Type 0) (len : ℕ) (m : Run A) (k : A → Round)
    → Safe P m
    → ((a : A) → P a → RoundOk len (k a))
    → RoundOk len (after m k)
after-RoundOk P len (ok a) k h f = f a h
after-RoundOk P len invalid k h f = tt
after-RoundOk P len fault k h f = h

store_word-Safe :
    (i hi lo : ℕ) (a : List ℕ)
    → IsAddress a
    → i + 1 < 16
    → hi < 256
    → lo < 256
    → Safe IsAddress (store i hi a >>= store (i + 1) lo)
store_word-Safe i hi lo a h p q r =
    Safe-bind IsAddress IsAddress (store i hi a) (store (i + 1) lo)
      (store-Safe i hi a h (omega arith) q) λ b k. store-Safe (i + 1) lo b k p r

stored_word :
    (st : State) (rest : List ℕ) (a : List ℕ)
    → IsSafe 1 st
    → IsAddress a
    → length rest < length st.it
    → let next = record st { it = rest; prev = st.it; n = st.n - 1; bytes = a } in
      RoundOk (length st.it) (if st.n - 1 == 0 then done next else again (record next { c = true }))
stored_word st rest a s h p =
    let low = s.low_n in
    let high = s.high_n in
    elim (Bool-cases (st.n - 1 == 0)) [
      | inl e ↦ rw e (record {
        array = h;
        low_n = omega arith;
        high_n = omega arith;
        order = λ k q. let o = s.order k q in (omega arith, o.1);
      })
      | inr e ↦ rw e (
        record {
          array = h;
          low_n = ground arith;
          high_n = omega arith;
          order = λ k q. let o = s.order k q in (omega arith, o.1);
        },
        p,
      )
    ]

read_word-RoundOk : (st : State) → IsSafe 1 st → RoundOk (length st.it) (read_word st)
unfolding read_word
read_word-RoundOk st s = elim (Option-cases (parse_h16 st.it)) [
  | inl e ↦ rw (e, read_word) tt
  | inr ((hi, lo, rest), e) ↦
      let w : IsWord st.it (some (hi, lo, rest)) = rw e at (parse_h16-IsWord st.it) in
      let low = s.low_n in
      rw (e, read_word)
        (after-RoundOk IsAddress (length st.it) _ _
          (store_word-Safe (2 * (8 - st.n)) hi lo st.bytes s.array (omega arith) w.0 w.1)
          λ a h. stored_word st rest a s h w.2)
]

elide-RoundOk :
    (text : List ℕ) (st : State) (len : ℕ)
    → IsSafe 1 st
    → length text < len
    → RoundOk len (elide text st)
unfolding elide
elide-RoundOk text st len s h =
    let low = s.low_n in
    let high = s.high_n in
    elim (Option-cases st.b) [
      | inr (k, e) ↦ rw (e, elide) tt
      | inl e ↦
          rw (e, elide)
            (elim (Bool-cases (st.n - 1 == 0)) [
              | inl z ↦ rw z (record {
                array = s.array;
                low_n = omega arith;
                high_n = omega arith;
                order = λ k q. (ground arith, ground arith);
              })
              | inr z ↦ rw z (
                record {
                  array = s.array;
                  low_n = ground arith;
                  high_n = omega arith;
                  order = λ k q. (ground arith, ground arith);
                },
                h,
              )
            ])
    ]

RoundOk-mono : (m n : ℕ) (r : Round) → m ≤ n → RoundOk m r → RoundOk n r
RoundOk-mono m n (again st) h k = (k.0, omega arith)
RoundOk-mono m n (done st) h k = k
RoundOk-mono m n failed h k = tt
RoundOk-mono m n crashed h k = k

RoundOk-if :
    (len : ℕ) (b : Bool) (r q : Round)
    → (b ≡ true → RoundOk len r)
    → (b ≡ false → RoundOk len q)
    → RoundOk len (if b then r else q)
RoundOk-if len true r q h k = h refl
RoundOk-if len false r q h k = k refl

moved_on : (text : List ℕ) (st : State) → IsSafe 1 st → IsSafe 1 (record st { it = text })
moved_on text st s = record { array = s.array; low_n = s.low_n; high_n = s.high_n; order = s.order }

colon-RoundOk :
    (text : List ℕ) (st : State) (len : ℕ)
    → IsSafe 1 st
    → length text < len
    → RoundOk len (colon text st)
unfolding colon
colon-RoundOk [] st len s h = tt
colon-RoundOk (d ∷ text) st len s h =
    RoundOk-if len (d == b':') _ _ (λ e. elide-RoundOk text st len s (omega arith))
      λ e.
        RoundOk-if len st.c _ _
          (λ f.
            RoundOk-mono (length (d ∷ text)) len _ (omega arith)
              (read_word-RoundOk (record st { it = d ∷ text }) (moved_on (d ∷ text) st s)))
          λ f. tt

store4-Safe :
    (at : ℕ) (v : Bytes4) (a : List ℕ)
    → AreBytes v
    → IsAddress a
    → at + 3 < 16
    → Safe IsAddress (store4 at v a)
unfolding store4
store4-Safe at v a b h p =
    Safe-bind IsAddress IsAddress _ _ (store-Safe at v.b0 a h (omega arith) b.byte0) λ a1 h1.
      Safe-bind IsAddress IsAddress _ _ (store-Safe (at + 1) v.b1 a1 h1 (omega arith) b.byte1)
        λ a2 h2.
          Safe-bind IsAddress IsAddress _ _ (store-Safe (at + 2) v.b2 a2 h2 (omega arith) b.byte2)
            λ a3 h3. store-Safe (at + 3) v.b3 a3 h3 p b.byte3

embed-RoundOk : (st : State) (len : ℕ) → IsSafe 1 st → st.n ≤ 7 → RoundOk len (embed st)
unfolding embed
embed-RoundOk st len s h =
    let low = s.low_n in
    elim (Option-cases (parse_ipv4_address st.prev)) [
      | inl e ↦ rw (e, embed) tt
      | inr (v, e) ↦
          rw (e, embed)
            (elim (Option-cases (parse_ipv4_address (span_v4 st.prev).0)) [
              | inl f ↦ rw (f, embed) tt
              | inr (v4, f) ↦
                  rw (f, embed)
                    (after-RoundOk IsAddress len _ _
                      (store4-Safe (2 * (7 - st.n)) (to_bytes v4) st.bytes (to_bytes-AreBytes v4)
                        s.array (omega arith))
                      λ a k. record {
                        array = k;
                        low_n = omega arith;
                        high_n = omega arith;
                        order = λ j q. let o = s.order j q in (omega arith, o.1);
                      })
            ])
    ]

dot-RoundOk : (st : State) (len : ℕ) → IsSafe 1 st → RoundOk len (dot st)
unfolding dot
dot-RoundOk st len s =
    let size = s.array.size in
    let low = s.low_n in
    RoundOk-if len (is_none st.b && ltb 1 st.n) _ _ (λ e. tt)
      λ e.
        let small : st.n ≤ 7 = elim (Option-cases st.b) [
          | inl f ↦ let e' : ltb 1 st.n ≡ false = ground arith in ground arith
          | inr (k, f) ↦ let o = s.order k f in omega arith
        ] in
        RoundOk-if len (ltb 7 st.n || leb (length st.bytes) (2 * (7 - st.n) + 1)) _ _
          (λ f. absurd (ground arith))
          λ f. RoundOk-if len (maybe_octet _ _) _ _ (λ g. embed-RoundOk st len s small) λ g. tt

done-RoundOk : (len : ℕ) (st : State) → IsSafe 1 st → RoundOk len (done st)
done-RoundOk len st s =
    let low = s.low_n in
    record { array = s.array; low_n = omega arith; high_n = s.high_n; order = s.order }

pub round-RoundOk :
    (it prev : List ℕ) (n : ℕ) (b : Option ℕ) (c : Bool) (bytes : List ℕ)
    → let st : State = record { it = it; prev = prev; n = n; b = b; c = c; bytes = bytes } in
      IsSafe 1 st → RoundOk (length it) (round st)
unfolding round
round-RoundOk [] prev n b c bytes s = RoundOk-if 0 (is_none b) _ _ (λ f. tt) λ f. done-RoundOk 0 _ s
round-RoundOk (ch ∷ rest) prev n b c bytes s =
    let len = length (ch ∷ rest) in
    RoundOk-if len (ch == b':') _ _ (λ f. colon-RoundOk rest _ len s (omega arith))
      λ f.
        RoundOk-if len (ch == b'.') _ _ (λ g. dot-RoundOk _ len s)
          λ g.
            RoundOk-if len (not (is_none b) && is_none (hexdig_value ch)) _ _
              (λ h. done-RoundOk len _ s)
              λ h. RoundOk-if len (not c) _ _ (λ k. read_word-RoundOk _ s) λ k. tt

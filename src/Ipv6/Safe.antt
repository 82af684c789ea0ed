-- ===== src/Ipv6/Safe.antt =====
-- The ipv6_address parser stays within its array and ends.
use corosio.Base.{
  ℕ, zero, suc, ◌+◌, ◌≤◌, ◌<◌, ◌≡◌, refl, List, [], ◌∷◌, length, ◌==◌, arith, All-replicate,
  Bool-cases, Option-cases, inl, inr,
}
use corosio.Ipv6.{
  IsAddress, Run, ok, invalid, fault, State, Round, again, done, failed, crashed, round, parse_loop,
  expand, finish, parse_ipv6_address, unspecified,
}
use corosio.Ipv6.Bounds.{Safe, Safe-bind, memset-Safe, memmove-Safe}
use corosio.Ipv6.Rounds.{IsSafe, RoundOk, round-RoundOk}

-- How the loop goes on after a round.
abbrev proceed : ℕ → Round → Run State
proceed fuel (again next) = parse_loop fuel next
proceed fuel (done last) = ok last
proceed fuel failed = invalid
proceed fuel crashed = fault

proceed-Safe :
    (fuel len : ℕ) (r : Round)
    → ((next : State)
        → IsSafe 1 next
        → length next.it < fuel
        → Safe (IsSafe 0) (parse_loop fuel next))
    → len ≤ fuel
    → RoundOk len r
    → Safe (IsSafe 0) (proceed fuel r)
proceed-Safe fuel len (again next) f h k = f next k.0 (let l = k.1 in omega arith)
proceed-Safe fuel len (done last) f h k = k
proceed-Safe fuel len failed f h k = tt
proceed-Safe fuel len crashed f h k = k

parse_loop-Safe :
    (fuel : ℕ) (st : State)
    → IsSafe 1 st
    → length st.it < fuel
    → Safe (IsSafe 0) (parse_loop fuel st)
unfolding parse_loop
parse_loop-Safe zero st s h = absurd (omega arith)
parse_loop-Safe (suc fuel) st s h =
    let split : (r : Round)
        → Safe (IsSafe 0) (proceed fuel r)
        → Safe (IsSafe 0) (elim r [
          | again next ↦ parse_loop fuel next
          | done last ↦ ok last
          | failed ↦ invalid
          | crashed ↦ fault
        ]) =
      λ r. elim r [
        | again next ↦ λ k. k
        | done last ↦ λ k. k
        | failed ↦ λ k. k
        | crashed ↦ λ k. k
      ] in
    split (round st) (
      proceed-Safe fuel (length st.it) (round st) (parse_loop-Safe fuel) (omega arith)
        (round-RoundOk st.it st.prev st.n st.b st.c st.bytes s))

expand-Safe : (b n : ℕ) (a : List ℕ) → IsAddress a → n ≤ b → b ≤ 7 → Safe IsAddress (expand b n a)
unfolding expand
expand-Safe b n a h p q = elim (Bool-cases (b == n)) [
  | inl e ↦ rw (e, expand) (memset-Safe _ _ a h (ground arith))
  | inr e ↦ elim (Bool-cases (b == 7)) [
    | inl f ↦
        rw (e, f, expand)
          (Safe-bind IsAddress IsAddress _ _ (memmove-Safe _ _ _ a h (omega arith) (ground arith))
            λ c k. memset-Safe _ _ c k (omega arith))
    | inr f ↦
        rw (e, f, expand)
          (Safe-bind IsAddress IsAddress _ _ (memmove-Safe _ _ _ a h (omega arith) (ground arith))
            λ c k. memset-Safe _ _ c k (ground arith))
  ]
]

finish-Safe : (st : State) → IsSafe 0 st → Safe IsAddress (finish st)
unfolding finish
finish-Safe st s = go st.it refl
  where
    go : (text : List ℕ) → st.it ≡ text → Safe IsAddress (finish st)
    go (c ∷ rest) e = rw (e, finish) tt
    go [] e = elim (Option-cases st.b) [
      | inl f ↦ rw (e, f, finish) s.array
      | inr (k, f) ↦
          let o = s.order k f in rw (e, f, finish) (expand-Safe k st.n st.bytes s.array o.0 o.1)
    ]

unspecified-IsAddress : IsAddress unspecified
unspecified-IsAddress = record {
  size = refl;
  bytes = All-replicate (λ x. x < 256) 16 0 (omega arith);
}

-- On every text the parser ends within its fuel without an access outside its array: it either
-- rejects the text or returns sixteen bytes.
pub parse_ipv6_address-Safe : (s : List ℕ) → Safe IsAddress (parse_ipv6_address s)
unfolding parse_ipv6_address
parse_ipv6_address-Safe s =
    Safe-bind (IsSafe 0) IsAddress _ finish
      (parse_loop-Safe (length s + 1) _
        (record {
          array = unspecified-IsAddress;
          low_n = omega arith;
          high_n = omega arith;
          order = λ k e. absurd (ground arith);
        })
        (omega arith))
      finish-Safe

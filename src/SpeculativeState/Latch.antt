-- ===== src/SpeculativeState/Latch.antt =====
-- When reads are given up, and that they stay so.
use corosio.Base.{ℕ, suc, ◌≤◌, ◌≡◌, refl, ap, Bool, true, not, ◌||◌, List, [], ◌∷◌, leb, arith, ◌∙◌}
use corosio.SpeculativeState.{
  SpeculativeState, Event, read_exhausted, read_success, write_exhausted, async_read_ready,
  async_write_ready, max_read_failures, may_speculate_read, step, run,
}

-- Reads are given up once the streak has reached its limit, and it stays within the limit.
pub record IsValid (s : SpeculativeState) : Type 0 where
  pub bounded : s.read_eagain_streak ≤ max_read_failures
  pub given_up : s.read_eagain_streak ≡ max_read_failures → s.perma_off_read ≡ true

step-IsValid : (e : Event) (s : SpeculativeState) → IsValid s → IsValid (step e s)
unfolding step
step-IsValid read_exhausted s v = ground arith
step-IsValid e s v = ground arith

run-IsValid : (es : List Event) (s : SpeculativeState) → IsValid s → IsValid (run es s)
unfolding run
run-IsValid [] s v = v
run-IsValid (e ∷ es) s v = run-IsValid es (step e s) (step-IsValid e s v)

-- Whether four reads in a row are exhausted, after a streak of `n`.
abbrev pub stalls : ℕ → List Event → Bool
stalls n [] = leb max_read_failures n
stalls n (read_exhausted ∷ es) = stalls (suc n) es
stalls n (read_success ∷ es) = leb max_read_failures n || stalls 0 es
stalls n (write_exhausted ∷ es) = stalls n es
stalls n (async_read_ready ∷ es) = stalls n es
stalls n (async_write_ready ∷ es) = stalls n es

abbrev gives_up : SpeculativeState → List Event → Bool
gives_up s es = s.perma_off_read || stalls s.read_eagain_streak es

stalls_from_limit : (es : List Event) (n : ℕ) → max_read_failures ≤ n → stalls n es ≡ true
stalls_from_limit [] n h = ground arith
stalls_from_limit (read_exhausted ∷ es) n h = stalls_from_limit es (suc n) (omega arith)
stalls_from_limit (read_success ∷ es) n h = ground arith
stalls_from_limit (write_exhausted ∷ es) n h = stalls_from_limit es n h
stalls_from_limit (async_read_ready ∷ es) n h = stalls_from_limit es n h
stalls_from_limit (async_write_ready ∷ es) n h = stalls_from_limit es n h

exhausted-gives_up :
    (es : List Event) (s : SpeculativeState)
    → IsValid s
    → gives_up (step read_exhausted s) es ≡ gives_up s (read_exhausted ∷ es)
unfolding step
exhausted-gives_up es s v =
    ground (arith, v.bounded, v.given_up, stalls_from_limit es (suc s.read_eagain_streak))

success-gives_up :
    (es : List Event) (s : SpeculativeState)
    → IsValid s
    → gives_up (step read_success s) es ≡ gives_up s (read_success ∷ es)
unfolding step
success-gives_up es s v = ground (arith, v.bounded, v.given_up)

ready-gives_up :
    (es : List Event) (s : SpeculativeState)
    → gives_up (step async_read_ready s) es ≡ gives_up s (async_read_ready ∷ es)
unfolding step
ready-gives_up es s = ground arith

write_exhausted-gives_up :
    (es : List Event) (s : SpeculativeState)
    → gives_up (step write_exhausted s) es ≡ gives_up s (write_exhausted ∷ es)
unfolding step
write_exhausted-gives_up es s = refl

write_ready-gives_up :
    (es : List Event) (s : SpeculativeState)
    → gives_up (step async_write_ready s) es ≡ gives_up s (async_write_ready ∷ es)
unfolding step
write_ready-gives_up es s = refl

ready_read :
    (s : SpeculativeState)
    → IsValid s
    → may_speculate_read (step async_read_ready s) ≡ not (gives_up s [])
unfolding step may_speculate_read
ready_read s v = ground (arith, v.bounded, v.given_up)

-- From a valid state, after any calls, the state is valid, and a signal of readiness makes a
-- speculative read worth a try exactly if reads had not been given up before and the calls have no
-- four exhausted reads in a row, the streak before them included, without a successful one between.
pub gives_up_iff :
    (es : List Event) (s : SpeculativeState)
    → IsValid s
    → IsValid (run es s)
      × (may_speculate_read (step async_read_ready (run es s))
          ≡ not (s.perma_off_read || stalls s.read_eagain_streak es))
unfolding run
gives_up_iff [] s v = (v, ready_read s v)
gives_up_iff (read_exhausted ∷ es) s v =
    let k = gives_up_iff es (step read_exhausted s) (step-IsValid read_exhausted s v) in
    (k.0, k.1 ∙ ap not (exhausted-gives_up es s v))
gives_up_iff (read_success ∷ es) s v =
    let k = gives_up_iff es (step read_success s) (step-IsValid read_success s v) in
    (k.0, k.1 ∙ ap not (success-gives_up es s v))
gives_up_iff (write_exhausted ∷ es) s v =
    let k = gives_up_iff es (step write_exhausted s) (step-IsValid write_exhausted s v) in
    (k.0, k.1 ∙ ap not (write_exhausted-gives_up es s))
gives_up_iff (async_read_ready ∷ es) s v =
    let k = gives_up_iff es (step async_read_ready s) (step-IsValid async_read_ready s v) in
    (k.0, k.1 ∙ ap not (ready-gives_up es s))
gives_up_iff (async_write_ready ∷ es) s v =
    let k = gives_up_iff es (step async_write_ready s) (step-IsValid async_write_ready s v) in
    (k.0, k.1 ∙ ap not (write_ready-gives_up es s))

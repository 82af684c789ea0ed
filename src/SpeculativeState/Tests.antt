-- ===== src/SpeculativeState/Tests.antt =====
-- Four exhausted reads in a row, and a successful one that breaks the streak.
use corosio.Base.{◌≡◌, not, ◌||◌, List, [], ◌∷◌, arith}
use corosio.SpeculativeState.{
  Event, read_exhausted, read_success, async_read_ready, write_exhausted, initial,
  may_speculate_read, step, run,
}
use corosio.SpeculativeState.Latch.{IsValid, stalls, gives_up_iff}

abbrev calls : List Event
calls =
    read_exhausted ∷ read_success ∷ read_exhausted ∷ async_read_ready ∷ read_exhausted
    ∷ write_exhausted ∷ read_exhausted ∷ read_exhausted ∷ []

initial-IsValid : IsValid initial
unfolding initial
initial-IsValid = record { bounded = omega arith; given_up = λ e. absurd (omega arith) }

gives_up_iff_example :
    IsValid (run calls initial)
    × (may_speculate_read (step async_read_ready (run calls initial))
        ≡ not (initial.perma_off_read || stalls initial.read_eagain_streak calls))
gives_up_iff_example = gives_up_iff calls initial initial-IsValid

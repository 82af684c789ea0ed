-- ===== src/SpeculativeState.antt =====
-- speculative_state of include/boost/corosio/native/detail/speculative_state.hpp: whether a
-- non-blocking read or write is worth a try. The atomics are relaxed hints; each method is a step.
pub mod Latch
mod Tests
use corosio.Base.{
  ℕ, ◌+◌, Bool, true, false, not, ◌&&◌, List, [], ◌∷◌, ltb, leb, ◌==◌, if◌then◌else◌,
}

pub record SpeculativeState : Type 0 where
  pub try_read : Bool
  pub try_write : Bool
  pub read_eagain_streak : ℕ
  pub perma_off_read : Bool

abbrev pub max_read_failures : ℕ
max_read_failures = 4

pub initial : SpeculativeState
initial = record {
  try_read = true;
  try_write = true;
  read_eagain_streak = 0;
  perma_off_read = false;
}

pub may_speculate_read : SpeculativeState → Bool
may_speculate_read s = s.try_read && not s.perma_off_read

pub may_speculate_write : SpeculativeState → Bool
may_speculate_write s = s.try_write

pub on_read_exhausted : SpeculativeState → SpeculativeState
on_read_exhausted s =
    let streak = s.read_eagain_streak + 1 in
    if ltb s.read_eagain_streak max_read_failures
    then record s {
      try_read = false;
      read_eagain_streak = streak;
      perma_off_read = if leb max_read_failures streak then true else s.perma_off_read;
    }
    else record s { try_read = false }

pub on_read_success : SpeculativeState → SpeculativeState
on_read_success s =
    if not (s.read_eagain_streak == 0) then record s { read_eagain_streak = 0 } else s

pub on_write_exhausted : SpeculativeState → SpeculativeState
on_write_exhausted s = record s { try_write = false }

pub on_async_read_ready : SpeculativeState → SpeculativeState
on_async_read_ready s = if not s.perma_off_read then record s { try_read = true } else s

pub on_async_write_ready : SpeculativeState → SpeculativeState
on_async_write_ready s = record s { try_write = true }

-- The calls that a socket makes.
pub data Event : Type 0 where
  read_exhausted read_success write_exhausted async_read_ready async_write_ready : Event

pub step : Event → SpeculativeState → SpeculativeState
unfolding on_read_exhausted on_read_success on_write_exhausted on_async_read_ready
    on_async_write_ready
step read_exhausted s = on_read_exhausted s
step read_success s = on_read_success s
step write_exhausted s = on_write_exhausted s
step async_read_ready s = on_async_read_ready s
step async_write_ready s = on_async_write_ready s

pub run : List Event → SpeculativeState → SpeculativeState
run [] s = s
run (e ∷ es) s = run es (step e s)

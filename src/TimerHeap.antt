-- ===== src/TimerHeap.antt =====
-- The min-heap of timer_service (include/boost/corosio/detail/timer_service.hpp): the vector
-- `heap_` and the `heap_index_` that each timer implementation keeps.
--
-- A timer implementation is the number that stands for its address. A time point is its 64-bit tick
-- count plus 2^63, so that the order of signed ticks is the order of numbers below 2^64. `none`
-- stands for a read out of the vector's bounds, or for fuel that ran out.
pub mod Order
pub mod Up
pub mod Down
pub mod Remove
pub mod Insert
mod Tests
pub mod Index
use corosio.Base.{
  ℕ, zero, suc, ◌+◌, ◌-◌, ◌*◌, ◌/◌, Bool, ◌&&◌, ◌||◌, Option, none, some, List, [], ◌∷◌, ◌++◌, leb,
  ltb, ◌==◌, if◌then◌else◌, ◌>>=◌, length, get_elem?, get_or, set, drop_last, update,
}

pub record HeapEntry : Type 0 where
  pub time : ℕ
  pub timer : ℕ

pub record TimerHeap : Type 0 where
  pub heap : List HeapEntry
  pub heap_index : ℕ → ℕ

-- std::numeric_limits<std::size_t>::max()
abbrev pub npos : ℕ
npos = 0xFFFFFFFFFFFFFFFF

-- Statements name an entry by `entry`; the code reads by get_elem?, which fails out of bounds.
abbrev pub no_entry : HeapEntry
no_entry = record { time = 0; timer = 0 }

abbrev pub entry : TimerHeap → ℕ → HeapEntry
entry s i = get_or s.heap i no_entry

abbrev pub time_at : TimerHeap → ℕ → ℕ
time_at s i = (entry s i).time

abbrev pub parent : ℕ → ℕ
parent i = (i - 1) / 2

pub swap_heap : ℕ → ℕ → TimerHeap → Option TimerHeap
swap_heap i1 i2 s = do
  e1 ← get_elem? s.heap i1
  e2 ← get_elem? s.heap i2
  some (record {
    heap = set (set s.heap i1 e2) i2 e1;
    heap_index = update (update s.heap_index e2.timer i1) e1.timer i2;
  })

-- `heap_[i].time_ < heap_[j].time_`
pub earlier : ℕ → ℕ → TimerHeap → Option Bool
earlier i j s = do a ← get_elem? s.heap i; b ← get_elem? s.heap j; some (ltb a.time b.time)

pub up_loop : ℕ → ℕ → TimerHeap → Option TimerHeap
up_loop zero index s = none
up_loop (suc fuel) index s =
    let rise = swap_heap index (parent index) s >>= up_loop fuel (parent index) in
    let step = earlier index (parent index) s >>= λ less. if less then rise else some s in
    if ltb 0 index then step else some s

pub up_heap : ℕ → TimerHeap → Option TimerHeap
up_heap index s = up_loop (index + 1) index s

-- `(child + 1 == heap_.size() || heap_[child].time_ < heap_[child + 1].time_) ? child : child + 1`
pub min_child : ℕ → TimerHeap → Option ℕ
min_child child s =
    let compared : Option ℕ = do
      less ← earlier child (child + 1) s
      some (if less then child else child + 1)
    in if child + 1 == length s.heap then some child else compared

pub down_loop : ℕ → ℕ → TimerHeap → Option TimerHeap
down_loop zero index s = none
down_loop (suc fuel) index s =
    let step : Option TimerHeap = do
      child ← min_child (index * 2 + 1) s
      less ← earlier index child s
      let sink = swap_heap index child s >>= down_loop fuel child
      if less then some s else sink
    in if ltb (index * 2 + 1) (length s.heap) then step else some s

pub down_heap : ℕ → TimerHeap → Option TimerHeap
down_heap index s = down_loop (length s.heap + 1) index s

-- `heap_index_.store(npos)` and `heap_.pop_back()`
unfoldable pub pop_back : ℕ → TimerHeap → TimerHeap
pop_back t s = record { heap = drop_last s.heap; heap_index = update s.heap_index t npos }

-- `index > 0 && heap_[index].time_ < heap_[(index - 1) / 2].time_`
pub restore : ℕ → TimerHeap → Option TimerHeap
unfolding up_heap down_heap
restore index s =
    let checked : Option TimerHeap = do
      less ← earlier index (parent index) s
      if less then up_heap index s else down_heap index s
    in if ltb 0 index then checked else down_heap index s

unfoldable pub remove_timer_impl : ℕ → TimerHeap → Option TimerHeap
remove_timer_impl t s =
    let index = s.heap_index t in
    let last = length s.heap - 1 in
    let moved : Option TimerHeap = do
      swapped ← swap_heap index last s
      restore index (pop_back t swapped)
    in if leb (length s.heap) index
      then some s
      else if index == last
      then some (pop_back t s)
      else moved

-- `heap_index_.store(heap_.size()); heap_.push_back(...); up_heap(heap_.size() - 1)`
pub push_timer : ℕ → ℕ → TimerHeap → Option TimerHeap
push_timer t time s = up_heap (length s.heap) (record {
  heap = s.heap ++ (record { time = time; timer = t }) ∷ [];
  heap_index = update s.heap_index t (length s.heap);
})

-- The part of update_timer that gives the entry at `idx` a new time.
pub set_time : ℕ → ℕ → TimerHeap → Option TimerHeap
set_time idx new_time s = do
  old ← get_elem? s.heap idx
  let changed : TimerHeap = record s {
    heap = set s.heap idx (record { time = new_time; timer = old.timer });
  }
  if ltb new_time old.time then up_heap idx changed else down_heap idx changed

-- ===== src/Scheduler.antt =====
-- reactor_scheduler: include/boost/corosio/native/detail/reactor/reactor_scheduler.hpp.
--
-- The scheduler is seen from one thread: `ctx` is the frame that reactor_find_context gives that
-- thread. What blocks or leaves the scheduler (run_task, the handlers, a wait) is a parameter.
-- outstanding_work_ and state_ are 64-bit words. An int that would overflow is `none`.
pub mod Queue
pub mod Loop
pub mod Work
pub mod Settle
pub mod Poll
pub mod Enter
pub mod Budget
pub mod Signal
mod Tests
use corosio.Base.{
  ℕ, ◌+◌, ◌-◌, ◌*◌, ◌%◌, ◌^◌, ◌≡◌, Bool, true, false, ◌&&◌, ◌||◌, not, Option, none, some, List, [],
  ◌∷◌, ◌++◌, ◌==◌, ltb, if◌then◌else◌,
}

-- An entry of the ready queue: the sentinel, an operation or a continuation, whose work is counted
-- when it is posted, or a descriptor's state, which the reactor queues without counting.
pub data Entry : Type 0 where
  task : Entry
  op cont descriptor : ℕ → Entry

pub record Context : Type 0 where
  pub private_queue : List Entry
  pub private_outstanding_work : ℕ
  pub inline_budget : ℕ
  pub inline_budget_max : ℕ
  pub unassisted : Bool

pub record Config : Type 0 where
  pub max_events_per_poll : ℕ
  pub inline_budget_initial : ℕ
  pub inline_budget_max : ℕ
  pub unassisted_budget : ℕ

pub record Scheduler : Type 0 where
  pub completed_ops : List Entry
  pub outstanding_work : ℕ
  pub stopped : Bool
  pub task_running : Bool
  pub task_interrupted : Bool
  pub one_thread : Bool
  pub config : Config
  pub state : ℕ
  -- The calls of notify_one, notify_all and interrupt_reactor.
  pub notified_one : ℕ
  pub notified_all : ℕ
  pub interrupts : ℕ

-- The scheduler and the frame of the calling thread.
pub record Thread : Type 0 where
  pub sched : Scheduler
  pub ctx : Option Context

abbrev pub int_max : ℕ
int_max = 2147483647

-- fetch_add on a 64-bit counter.
abbrev pub add64 : ℕ → ℕ → ℕ
add64 a b = (a + b) % 18446744073709551616

abbrev pub sub64 : ℕ → ℕ → ℕ
sub64 a b = (a + (18446744073709551616 - b)) % 18446744073709551616

pub data Configured : Type 0 where
  out_of_range : Configured
  configured : Config → Configured

-- `if (x > m) x = m;`
abbrev pub clamp : ℕ → ℕ → ℕ
clamp m x = if ltb m x then m else x

unfoldable pub configure_reactor : ℕ → ℕ → ℕ → ℕ → Configured
configure_reactor max_events budget_init budget_max unassisted =
    if ltb max_events 1 || ltb int_max max_events
    then out_of_range
    else if ltb int_max budget_max
    then out_of_range
    else configured (record {
      max_events_per_poll = max_events;
      inline_budget_initial = clamp budget_max budget_init;
      inline_budget_max = budget_max;
      unassisted_budget = clamp budget_max unassisted;
    })

-- The constructor of reactor_scheduler_context.
unfoldable pub make_context : Config → Context
make_context c = record {
  private_queue = [];
  private_outstanding_work = 0;
  inline_budget = 0;
  inline_budget_max = c.inline_budget_initial;
  unassisted = false;
}

-- `(std::min)((std::max)(1, m) * 2, limit)`
abbrev pub ramp_up : ℕ → ℕ → Option ℕ
ramp_up limit m =
    let doubled = (if ltb m 1 then 1 else m) * 2 in
    if ltb int_max doubled then none else some (if ltb doubled limit then doubled else limit)

-- The new inline_budget_max of a frame that is not unassisted.
unfoldable pub next_budget_max : Config → Context → Option ℕ
next_budget_max c x =
    if x.inline_budget == 0
    then ramp_up c.inline_budget_max x.inline_budget_max
    else some (
        if ltb x.inline_budget x.inline_budget_max
        then c.inline_budget_initial
        else x.inline_budget_max)

abbrev pub set_budget : Context → Option ℕ → Option Context
set_budget x none = none
set_budget x (some m) = some (record x { inline_budget_max = m; inline_budget = m })

-- reset_inline_budget on the thread's frame.
unfoldable pub reset_inline_budget : Config → Context → Option Context
unfolding next_budget_max
reset_inline_budget c x =
    if c.inline_budget_max == 0
    then some x
    else set_budget x (if x.unassisted then some c.unassisted_budget else next_budget_max c x)

pub record Consumed : Type 0 where
  pub took : Bool
  pub frame : Option Context

-- try_consume_inline_budget
unfoldable pub try_consume_inline_budget : Config → Option Context → Consumed
try_consume_inline_budget c none = record { took = false; frame = none }
try_consume_inline_budget c (some x) =
    if not (c.inline_budget_max == 0) && ltb 0 x.inline_budget
    then record { took = true; frame = some (record x { inline_budget = x.inline_budget - 1 }) }
    else record { took = false; frame = some x }

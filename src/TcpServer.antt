-- ===== src/TcpServer.antt =====
-- tcp_server of include/boost/corosio/tcp_server.hpp and src/corosio/src/tcp_server.cpp: its lists of
-- workers and the operations on them. The accept loops are in TcpServer/Loops.
--
-- A worker is its address, 0 is the null pointer; the idle list and the active list share the
-- workers' next_. An accept loop is the number of its port.
pub mod Idle
pub mod Active
pub mod Workers
pub mod Returns
pub mod Loops
pub mod Held
pub mod Sound
pub mod Kept
pub mod Steps
pub mod Runs
pub mod Join
pub mod Drain
pub mod Ends
pub mod Stop
pub mod Setup
mod Tests
use corosio.Base.{
  ℕ, suc, zero, ◌+◌, ◌-◌, Bool, true, false, not, ◌&&◌, ◌==◌, if◌then◌else◌, List, [], ◌∷◌, Option,
  none, some, update,
}

-- `stops` is whether stop was requested of the worker's stop_; `waiters` are the accept loops that
-- wait for a worker, the head first.
pub record TcpServer : Type 0 where
  pub next : ℕ → ℕ
  pub prev : ℕ → ℕ
  pub stops : ℕ → Bool
  pub idle_head : ℕ
  pub active_head : ℕ
  pub active_tail : ℕ
  pub waiters : List ℕ
  pub active_accepts : ℕ
  pub is_running : Bool
  pub stop_requested : Bool
  pub ports : ℕ

unfoldable pub idle_push : ℕ → TcpServer → TcpServer
idle_push w s = record s { next = update s.next w s.idle_head; idle_head = w }

pub record Picked : Type 0 where
  pub worker : ℕ
  pub server : TcpServer

unfoldable pub idle_pop : TcpServer → Picked
idle_pop s =
    let w = s.idle_head in
    if w == 0
    then record { worker = w; server = s }
    else record { worker = w; server = record s { idle_head = s.next w } }

abbrev pub idle_empty : TcpServer → Bool
idle_empty s = s.idle_head == 0

unfoldable pub active_push : ℕ → TcpServer → TcpServer
active_push w s =
    let next1 = update s.next w 0 in
    let prev1 = update s.prev w s.active_tail in
    if s.active_tail == 0
    then record s { next = next1; prev = prev1; active_head = w; active_tail = w }
    else record s { next = update next1 s.active_tail w; prev = prev1; active_tail = w }

abbrev pub is_inactive : ℕ → TcpServer → Bool
is_inactive w s = not (w == s.active_head) && (s.prev w == 0)

unfoldable pub unlink_before : ℕ → TcpServer → TcpServer
unlink_before w s =
    if s.prev w == 0
    then record s { active_head = s.next w }
    else record s { next = update s.next (s.prev w) (s.next w) }

unfoldable pub unlink_after : ℕ → TcpServer → TcpServer
unlink_after w s =
    if s.next w == 0
    then record s { active_tail = s.prev w }
    else record s { prev = update s.prev (s.next w) (s.prev w) }

-- `w->prev_ = nullptr;`
abbrev pub mark_inactive : ℕ → TcpServer → TcpServer
mark_inactive w s = record s { prev = update s.prev w 0 }

unfoldable pub active_remove : ℕ → TcpServer → TcpServer
unfolding unlink_before unlink_after
active_remove w s =
    if is_inactive w s then s else mark_inactive w (unlink_after w (unlink_before w s))

-- A worker that comes back, and the accept loop that is given it, if one waits.
pub record Returned : Type 0 where
  pub server : TcpServer
  pub woken : Option ℕ

-- The end of push and of push_sync, once the worker is not active.
unfoldable pub hand_over : ℕ → TcpServer → List ℕ → Returned
unfolding idle_push
hand_over w s [] = record { server = idle_push w s; woken = none }
hand_over w s (i ∷ rest) = record { server = record s { waiters = rest }; woken = some i }

unfoldable pub push_sync : ℕ → TcpServer → Returned
unfolding active_remove hand_over
push_sync w s = let t = active_remove w s in hand_over w t t.waiters

-- The suspension of pop: the accept loop `i` waits.
abbrev pub suspend_pop : ℕ → TcpServer → TcpServer
suspend_pop i s = record s { waiters = i ∷ s.waiters }

-- await_resume of pop, for the worker that its waiter was given, 0 if it did not wait.
unfoldable pub resume_pop : ℕ → TcpServer → Picked
unfolding idle_pop
resume_pop given s = if given == 0 then idle_pop s else record { worker = given; server = s }

-- The launcher, called with a worker: the worker is active and has a fresh stop source.
unfoldable pub launch : ℕ → TcpServer → TcpServer
unfolding active_push
launch w s = let t = active_push w s in record t { stops = update t.stops w false }

abbrev pub push_all : List ℕ → TcpServer → TcpServer
push_all [] s = s
push_all (w ∷ ws) s = push_all ws (idle_push w s)

-- The workers' links and stop sources are those that they come with.
unfoldable pub set_workers : List ℕ → TcpServer → TcpServer
unfolding idle_push
set_workers ws s = push_all ws (record s { idle_head = 0; active_head = 0; active_tail = 0 })

-- bind, where the acceptor of the new port could be made or failed with an error code.
unfoldable pub bind : ℕ → TcpServer → TcpServer
bind err s = if err == 0 then record s { ports = s.ports + 1 } else s

-- What start does: nothing, a logic_error, or one accept loop for each port.
pub data Started : Type 0 where
  already_running not_joined : Started
  launched : TcpServer → Started

unfoldable pub start : TcpServer → Started
start s =
    if s.is_running
    then already_running
    else if not (s.active_accepts == 0)
    then not_joined
    else launched (record s { is_running = true; stop_requested = false; active_accepts = s.ports })

-- stop, and whether it posts do_stop.
unfoldable pub stop : TcpServer → TcpServer × Bool
stop s =
    if s.is_running
    then (record s { is_running = false; stop_requested = true }, true)
    else (s, false)

-- The loop of do_stop from a worker on, with fuel.
unfoldable pub stop_from : ℕ → ℕ → TcpServer → Option TcpServer
stop_from zero w s = none
stop_from (suc f) w s =
    let rest = stop_from f (s.next w) (record s { stops = update s.stops w true }) in
    if w == 0 then some s else rest

unfoldable pub do_stop : ℕ → TcpServer → Option TcpServer
unfolding stop_from
do_stop f s = stop_from f s.active_head s

-- The handler of an accept loop that has ended.
abbrev pub accept_done : TcpServer → TcpServer
accept_done s = record s { active_accepts = s.active_accepts - 1 }

-- The condition that join waits for.
abbrev pub is_joined : TcpServer → Bool
is_joined s = s.active_accepts == 0

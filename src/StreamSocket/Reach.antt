-- ===== src/StreamSocket/Reach.antt =====
-- A stream socket among the threads of a scheduler, as a step relation.
--
-- A state is that of the socket and of a thread that runs the scheduler; `running` is whether do_one
-- has called an entry whose work it has not settled yet. The coroutine that an entry resumes starts
-- and cancels operations in any order.
use corosio.Base.{
  ℕ, ◌≡◌, Bool, true, false, not, List, [], ◌∷◌, ◌++◌, Option, none, some, if◌then◌else◌,
}
use corosio.Descriptor.{
  Kind, conn, rd, wr, wait_rd, wait_er, Syscall, Kernel, Events, add_ready_events, code,
}
use corosio.Endpoint.{Endpoint}
use corosio.Scheduler.{Context, Entry, op, descriptor}
use corosio.Scheduler.Queue.{work_cleanup}
use corosio.StreamSocket.{Socket, Runtime, cancel_single_op, do_cancel, register_op}
use corosio.StreamSocket.Close.{do_close_socket}
use corosio.StreamSocket.Invoke.{invoke_deferred_io}
use corosio.StreamSocket.Start.{WaitType, do_read_some, do_write_some, do_connect, do_wait}

pub record System : Type 0 where
  pub runtime : Runtime
  pub running : Bool

-- What a caller asks of the socket; a read, a write or a connect is asked for once at a time.
pub data Request : Type 0 where
  read_some : Bool → Syscall → Request
  write_some : Bool → Syscall → Request
  connect : ℕ → Option Endpoint → Endpoint → Syscall → Request
  wait : WaitType → Request
  cancel_one : Kind → Request
  cancel close : Request

-- The operation that a request starts, which must not be parked.
abbrev pub starts : Request → Option Kind
starts (read_some e c) = some rd
starts (write_some e c) = some wr
starts (connect p n ep c) = some conn
starts (wait corosio.StreamSocket.Start.wait_read) = some wait_rd
starts (wait corosio.StreamSocket.Start.wait_error) = some wait_er
starts _ = none

abbrev pub is_free : Option Kind → Runtime → Bool
is_free none r = true
is_free (some k) r = not (r.socket.desc.parked k)

abbrev pub set_queue : List Entry → Runtime → Runtime
set_queue es r = let s = r.sched in record r { sched = record s { completed_ops = es } }

-- The reactor reports events, and queues the descriptor unless it is queued already.
unfoldable pub report : Events → ℕ → Runtime → Runtime
unfolding add_ready_events
report ev a r =
    let d = add_ready_events ev r.socket.desc in
    let s = r.socket in
    if d.is_enqueued
    then record r { socket = record s { desc = d } }
    else set_queue (r.sched.completed_ops ++ descriptor a ∷ [])
        (record r { socket = record s { desc = record d { is_enqueued = true } } })

-- The end of do_one for an entry that was called.
unfoldable pub settle : Runtime → Runtime
unfolding work_cleanup
settle r = let t = work_cleanup r.ctx r.sched in record r { ctx = t.ctx; sched = t.sched }

module _ (env : Kernel) (select : Bool) where
  unfoldable pub request : Request → Runtime → Runtime
  unfolding do_read_some do_write_some do_connect do_wait cancel_single_op do_cancel do_close_socket
  request (read_some e c) r = (do_read_some env e c r).runtime
  request (write_some e c) r = (do_write_some env select e c r).runtime
  request (connect p n ep c) r = (do_connect env select p n ep c r).runtime
  request (wait w) r = (do_wait env w r).runtime
  request (cancel_one k) r = cancel_single_op k r
  request cancel r = do_cancel r
  request close r = do_close_socket r

  pub data Moves : System → System → Type 0 where
    requests :
        (q : Request) (r : Runtime) (b : Bool)
        → is_free (starts q) r ≡ true
        → Moves
            (record { runtime = r; running = b })
            (record { runtime = request q r; running = b })
    reports :
        (ev : Events) (a : ℕ) (r : Runtime) (b : Bool)
        → Moves
            (record { runtime = r; running = b })
            (record { runtime = report ev a r; running = b })
    calls_descriptor :
        (a : ℕ) (es : List Entry) (x : Context) (r : Runtime)
        → r.ctx ≡ some x
        → r.sched.completed_ops ≡ descriptor a ∷ es
        → Moves
            (record { runtime = r; running = false })
            (record { runtime = (invoke_deferred_io env (set_queue es r)).runtime; running = true })
    calls_op :
        (k : Kind) (es : List Entry) (x : Context) (r : Runtime)
        → r.ctx ≡ some x
        → r.sched.completed_ops ≡ op (code k) ∷ es
        → Moves
            (record { runtime = r; running = false })
            (record { runtime = set_queue es r; running = true })
    settles :
        (r : Runtime)
        → Moves
            (record { runtime = r; running = true })
            (record { runtime = settle r; running = false })

  -- Any number of moves.
  pub data Reaches (s : System) : System → Type 0 where
    stays : Reaches s s
    moves : (t u : System) → Reaches s t → Moves t u → Reaches s u

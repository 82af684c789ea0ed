-- ===== src/StreamSocket/Start.antt =====
-- The operations that a stream socket starts: do_connect, do_read_some, do_write_some and do_wait of
-- reactor_stream_socket.hpp.
--
-- What the system call answers before the operation is parked is an argument; a call that is
-- repeated on EINTR answers anything else in the end.
use corosio.Base.{Bool, true, false, Option, none, some, ◌==◌, if◌then◌else◌, ℕ}
use corosio.Descriptor.{
  Kind, conn, rd, wr, wait_rd, wait_wr, wait_er, Op, Syscall, returns, fails, Kernel, complete,
  would_block,
}
use corosio.Endpoint.{Endpoint}
use corosio.Scheduler.{try_consume_inline_budget}
use corosio.Scheduler.Queue.{post}
use corosio.Scheduler.{op}
use corosio.Descriptor.{code}
use corosio.StreamSocket.{
  Socket, Runtime, set_sock_op, register_op, read_ready_flag, write_ready_flag, dummy_ready,
}

-- reset and start of an operation, and its keepalive.
abbrev pub start_op : Op
start_op = record { errn = 0; bytes_transferred = 0; cancelled = false; has_impl = true }

abbrev pub reset_op : Op
reset_op = record { errn = 0; bytes_transferred = 0; cancelled = false; has_impl = false }

abbrev pub reset_first : Kind → Runtime → Runtime
reset_first k r = record r { socket = set_sock_op k reset_op r.socket }

-- The coroutine goes on at once with a result, or it waits for its operation.
pub data Started : Type 0 where
  resumed : ℕ → ℕ → Started
  suspended : Started

pub record Begun : Type 0 where
  pub outcome : Started
  pub runtime : Runtime

-- `svc_.post(&op)`, without work of the socket's own
unfoldable pub post_ready : Kind → Op → Runtime → Runtime
unfolding post
post_ready k o r =
    let t = post (op (code k)) r.ctx r.sched in
    record { socket = set_sock_op k o r.socket; ctx = t.ctx; sched = t.sched }

-- A result that is known is given at once while the inline budget lasts, and posted after.
unfoldable pub give : Kind → ℕ → ℕ → Runtime → Begun
unfolding post_ready try_consume_inline_budget complete
give k err bytes r =
    let c = try_consume_inline_budget r.sched.config r.ctx in
    if c.took
    then record { outcome = resumed err bytes; runtime = record r { ctx = c.frame } }
    else record {
      outcome = suspended;
      runtime = post_ready k (complete err bytes start_op) (record r { ctx = c.frame });
    }

-- The operation waits for the reactor.
abbrev pub wait_for_reactor : Runtime → Begun
wait_for_reactor r = record { outcome = suspended; runtime = r }

abbrev pub begin_op : Kind → Runtime → Runtime
begin_op k r = record r { socket = set_sock_op k start_op r.socket }

-- do_read_some and do_write_some after the system call
unfoldable pub transfer : Kernel → Kind → Syscall → Runtime → Runtime → Begun
unfolding give
transfer env k (returns n) parking r = give k 0 n r
transfer env k (fails e) parking r =
    if would_block env e then wait_for_reactor parking else give k e 0 r

-- An empty buffer completes without a system call.
unfoldable pub do_read_some : Kernel → Bool → Syscall → Runtime → Begun
unfolding transfer post_ready register_op complete
do_read_some env empty call r =
    let parking = register_op env rd read_ready_flag false (begin_op rd r) in
    if empty
    then wait_for_reactor (post_ready rd (complete 0 0 start_op) r)
    else transfer env rd call parking (reset_first rd r)

unfoldable pub do_write_some : Kernel → Bool → Bool → Syscall → Runtime → Begun
unfolding transfer post_ready register_op complete
do_write_some env select empty call r =
    let parking = register_op env wr write_ready_flag select (begin_op wr r) in
    if empty
    then wait_for_reactor (post_ready wr (complete 0 0 start_op) r)
    else transfer env wr call parking (reset_first wr r)

-- What getsockname answers.
abbrev pub set_local : Option Endpoint → Socket → Socket
set_local none s = s
set_local (some e) s = record s { local_endpoint = e }

abbrev pub connected : Option Endpoint → Endpoint → Runtime → Runtime
connected name ep r =
    let s = set_local name r.socket in record r { socket = record s { remote_endpoint = ep } }

-- do_connect; `einprogress` is EINPROGRESS and `name` the answer of getsockname.
unfoldable pub do_connect :
    Kernel → Bool → ℕ → Option Endpoint → Endpoint → Syscall → Runtime → Begun
unfolding give register_op
do_connect env select einprogress name ep (returns n) r = give conn 0 0 (connected name ep r)
do_connect env select einprogress name ep (fails e) r =
    let parking = register_op env conn write_ready_flag select (begin_op conn r) in
    if e == einprogress then wait_for_reactor parking else give conn e 0 r

pub data WaitType : Type 0 where
  wait_read wait_write wait_error : WaitType

unfoldable pub do_wait : Kernel → WaitType → Runtime → Begun
unfolding give register_op
do_wait env wait_write r = give wait_wr 0 0 r
do_wait env wait_read r =
    wait_for_reactor (register_op env wait_rd read_ready_flag false (begin_op wait_rd r))
do_wait env wait_error r =
    wait_for_reactor (register_op env wait_er dummy_ready false (begin_op wait_er r))

-- ===== src/StreamSocket.antt =====
-- The sockets of the reactor backends: reactor_basic_socket.hpp and reactor_stream_socket.hpp in
-- include/boost/corosio/native/detail/reactor, with reset and start of reactor_op.hpp and
-- native/detail/coro_op.hpp.
--
-- An operation stands in the scheduler's queue as `op` of its code. The calls of the system are the
-- record Kernel; deregister_descriptor and ::close are logged in the order of the
-- calls.
pub mod Close
pub mod Start
pub mod Account
pub mod Edges
pub mod Cancel
pub mod Shut
pub mod Posting
pub mod Reach
pub mod Requests
pub mod Sound
pub mod Stale
pub mod Result
pub mod Invoke
mod Tests
use corosio.Base.{
  ℕ, ◌+◌, ◌-◌, ◌≡◌, Bool, true, false, ◌&&◌, ◌||◌, not, Option, none, some, List, [], ◌∷◌, ◌++◌,
  ◌==◌, if◌then◌else◌,
}
use corosio.Descriptor.{
  Kind, conn, rd, wr, wait_rd, wait_wr, wait_er, code, ◌is◌, put, Op, Kernel, Descriptor,
  perform_io, would_block,
}
use corosio.Endpoint.{Endpoint, of_port}
use corosio.Scheduler.{Context, Scheduler, Thread, op}
use corosio.Scheduler.Queue.{post, work_started, work_finished}

-- deregister_descriptor and ::close of a file.
pub data FileCall : Type 0 where
  deregisters closes : ℕ → FileCall

pub record Socket : Type 0 where
  pub desc : Descriptor
  pub ops : Kind → Op
  pub fd : Option ℕ
  -- Whether weak_from_this().lock() gives the socket.
  pub alive : Bool
  pub local_endpoint : Endpoint
  pub remote_endpoint : Endpoint
  pub file_calls : List FileCall
  -- The calls of notify_reactor.
  pub notified : ℕ

-- The socket, and the scheduler as the calling thread sees it.
pub record Runtime : Type 0 where
  pub socket : Socket
  pub ctx : Option Context
  pub sched : Scheduler

abbrev pub set_desc : Descriptor → Socket → Socket
set_desc d s = record s { desc = d }

abbrev pub set_sock_op : Kind → Op → Socket → Socket
set_sock_op k o s = record s { ops = put s.ops k o }

abbrev pub park : Kind → Bool → Socket → Socket
park k b s = record s { desc = record s.desc { parked = put s.desc.parked k b } }

abbrev pub set_cancel_pending : Kind → Bool → Socket → Socket
set_cancel_pending k b s = record s {
  desc = record s.desc { cancel_pending = put s.desc.cancel_pending k b };
}

-- `svc_.post(&op); svc_.work_finished();`
unfoldable pub post_op : Kind → Runtime → Runtime
unfolding post work_finished
post_op k r =
    let t = post (op (code k)) r.ctx r.sched in
    record r { ctx = t.ctx; sched = work_finished t.sched }

-- The flag that register_op is given: a cached edge, or the placeholder of an error wait.
pub data ReadyFlag : Type 0 where
  read_ready_flag write_ready_flag dummy_ready : ReadyFlag

abbrev pub is_ready : ReadyFlag → Descriptor → Bool
is_ready read_ready_flag d = d.read_ready
is_ready write_ready_flag d = d.write_ready
is_ready dummy_ready d = false

abbrev pub clear_ready : ReadyFlag → Descriptor → Descriptor
clear_ready read_ready_flag d = record d { read_ready = false }
clear_ready write_ready_flag d = record d { write_ready = false }
clear_ready dummy_ready d = d

pub record Tried : Type 0 where
  pub io_done : Bool
  pub socket : Socket

-- `if (ready_flag) ...` of register_op
unfoldable pub try_ready : Kernel → Kind → ReadyFlag → Socket → Tried
unfolding perform_io
try_ready env k f s =
    if is_ready f s.desc
    then (let o = perform_io env k (s.ops k) in
        let s1 = set_desc (clear_ready f s.desc) s in
        if would_block env o.errn
        then record { io_done = false; socket = set_sock_op k (record o { errn = 0 }) s1 }
        else record { io_done = true; socket = set_sock_op k o s1 })
    else record { io_done = false; socket = s }

-- `if (cancel_flag) ...` of register_op
unfoldable pub take_cancel : Kind → Socket → Socket
take_cancel k s =
    if s.desc.cancel_pending k
    then (let o = s.ops k in
        set_cancel_pending k false (set_sock_op k (record o { cancelled = true }) s))
    else s

-- The operation is parked; select rebuilds its sets for the write direction, if this backend asks
-- for it.
unfoldable pub park_op : Bool → Kind → Socket → Socket
park_op notifies k s =
    let s1 = park k true s in if notifies then record s1 { notified = s1.notified + 1 } else s1

-- The end of register_op.
unfoldable pub settle_op : Bool → Kind → Tried → Runtime → Runtime
unfolding post_op park_op
settle_op notifies k t r =
    if t.io_done || (t.socket.ops k).cancelled
    then post_op k (record r { socket = t.socket })
    else record r { socket = park_op notifies k t.socket }

-- register_op, under the lock once the work is counted; `notifies` is whether the backend is select
-- and the operation is in the write direction.
unfoldable pub register_op : Kernel → Kind → ReadyFlag → Bool → Runtime → Runtime
unfolding try_ready take_cancel settle_op
register_op env k f notifies r =
    let t = try_ready env k f r.socket in
    settle_op notifies k (record { io_done = t.io_done; socket = take_cancel k t.socket })
      (record r { sched = work_started r.sched })

abbrev pub request_cancel : Op → Op
request_cancel o = record o { cancelled = true }

abbrev pub hold : Op → Op
hold o = record o { has_impl = true }

-- An operation that was claimed is posted with the socket held.
unfoldable pub post_claimed : Kind → Runtime → Runtime
unfolding post_op
post_claimed k r = post_op k (record r { socket = set_sock_op k (hold (r.socket.ops k)) r.socket })

-- cancel_single_op, of one of the socket's operations
unfoldable pub cancel_single_op : Kind → Runtime → Runtime
unfolding post_claimed
cancel_single_op k r =
    let s = set_sock_op k (request_cancel (r.socket.ops k)) r.socket in
    if not r.socket.alive
    then r
    else if r.socket.desc.parked k
    then post_claimed k (record r { socket = park k false s })
    else record r { socket = set_cancel_pending k true s }

-- for_each_desc_entry
abbrev pub kinds : List Kind
kinds = conn ∷ rd ∷ wr ∷ wait_rd ∷ wait_wr ∷ wait_er ∷ []

abbrev pub parked_of : (Kind → Bool) → List Kind → List Kind
parked_of p [] = []
parked_of p (k ∷ ks) = if p k then k ∷ parked_of p ks else parked_of p ks

abbrev pub post_all : List Kind → Runtime → Runtime
unfolding post_claimed
post_all [] r = r
post_all (k ∷ ks) r = post_all ks (post_claimed k r)

-- Every operation has its cancellation requested and every slot is emptied.
abbrev pub cancel_slots : Socket → Socket
cancel_slots s = record s {
  ops = λ k. request_cancel (s.ops k);
  desc = record s.desc { parked = λ k. false };
}

unfoldable pub do_cancel : Runtime → Runtime
unfolding post_all
do_cancel r =
    if r.socket.alive
    then post_all (parked_of r.socket.desc.parked kinds)
        (record r { socket = cancel_slots r.socket })
    else r

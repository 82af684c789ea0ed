-- ===== src/Descriptor.antt =====
-- reactor_descriptor_state: include/boost/corosio/native/detail/reactor/reactor_descriptor_state.hpp,
-- with reactor_op_base.hpp and the operations of reactor_op.hpp, as a reactor_stream_socket fills it.
--
-- A stream socket has six operations and a slot of the descriptor for each, which holds its own
-- operation or null: a slot is whether its operation is parked. The queue of completed operations is
-- the sequence of its entries. The kernel's answers are the record Kernel.
pub mod Conserve
pub mod Errors
pub mod Edges
mod Tests
use corosio.Base.{
  ℕ, ◌+◌, ◌-◌, ◌≡◌, Bool, true, false, ◌&&◌, ◌||◌, not, Option, none, some, List, [], ◌∷◌, ◌++◌,
  ◌==◌, if◌then◌else◌,
}

-- The members conn_, rd_, wr_, wait_rd_, wait_wr_ and wait_er_.
pub data Kind : Type 0 where
  conn rd wr wait_rd wait_wr wait_er : Kind

abbrev pub code : Kind → ℕ
code conn = 0
code rd = 1
code wr = 2
code wait_rd = 3
code wait_wr = 4
code wait_er = 5

infix 50 ◌is◌
abbrev pub ◌is◌ : Kind → Kind → Bool
a is b = code a == code b

-- A table with one value changed.
abbrev pub put {ℓ} : {A : Type ℓ} → (Kind → A) → Kind → A → Kind → A
put f k v j = if k is j then v else f j

abbrev pub count_kind : Kind → List Kind → ℕ
count_kind k [] = 0
count_kind k (x ∷ xs) = (if x is k then 1 else 0) + count_kind k xs

-- reactor_op_base; `has_impl` is whether impl_ptr holds the socket.
pub record Op : Type 0 where
  pub errn : ℕ
  pub bytes_transferred : ℕ
  pub cancelled : Bool
  pub has_impl : Bool

-- A system call's result, or its errno.
pub data Syscall : Type 0 where
  returns fails : ℕ → Syscall

-- What the system answers: the call that each operation makes, getsockopt for SO_ERROR, and the
-- values of EAGAIN, EWOULDBLOCK and EIO.
pub record Kernel : Type 0 where
  pub io : Kind → Syscall
  pub so_error : Syscall
  pub eagain : ℕ
  pub ewouldblock : ℕ
  pub eio : ℕ

-- The mask of ready events; `other` stands for the bits that this code does not read.
pub record Events : Type 0 where
  pub read : Bool
  pub write : Bool
  pub error : Bool
  pub other : Bool

abbrev pub no_events : Events
no_events = record { read = false; write = false; error = false; other = false }

-- `ev == 0`
abbrev pub is_none : Events → Bool
is_none e = not (e.read || e.write || e.error || e.other)

pub record Descriptor : Type 0 where
  pub parked : Kind → Bool
  pub read_ready : Bool
  pub write_ready : Bool
  pub cancel_pending : Kind → Bool
  pub registered : Bool
  pub ready_events : Events
  pub is_enqueued : Bool
  pub impl_ref : Bool

-- fetch_or on the mask.
unfoldable pub add_ready_events : Events → Descriptor → Descriptor
add_ready_events ev d = record d {
  ready_events = record {
    read = d.ready_events.read || ev.read;
    write = d.ready_events.write || ev.write;
    error = d.ready_events.error || ev.error;
    other = d.ready_events.other || ev.other;
  };
}

-- The state that the locked part of invoke_deferred_io works on.
pub record Deferred : Type 0 where
  pub desc : Descriptor
  pub ops : Kind → Op
  pub local_ops : List Kind

-- reactor_op_base::complete
unfoldable pub complete : ℕ → ℕ → Op → Op
complete err bytes op = record op { errn = err; bytes_transferred = bytes }

abbrev pub is_wait : Kind → Bool
is_wait wait_rd = true
is_wait wait_wr = true
is_wait wait_er = true
is_wait _ = false

-- perform_io of the operations: the system call, of which a wait makes none. connect asks for
-- SO_ERROR and returns what it is told.
unfoldable pub record_result : Kind → Syscall → Op → Op
unfolding complete
record_result conn (returns err) op = complete err 0 op
record_result k (returns n) op = complete 0 n op
record_result k (fails e) op = complete e 0 op

unfoldable pub perform_io : Kernel → Kind → Op → Op
unfolding record_result complete
perform_io env k op = if is_wait k then complete 0 0 op else record_result k (env.io k) op

abbrev pub would_block : Kernel → ℕ → Bool
would_block env e = e == env.eagain || e == env.ewouldblock

abbrev pub set_op : Kind → Op → Deferred → Deferred
set_op k op s = record s { ops = put s.ops k op }

-- `local_ops.push(std::exchange(slot, nullptr))`
unfoldable pub finish : Kind → Deferred → Deferred
finish k s = record s {
  desc = record s.desc { parked = put s.desc.parked k false };
  local_ops = s.local_ops ++ k ∷ [];
}

-- `if (err) op->complete(err, 0); else op->perform_io();`
unfoldable pub attempt : Kernel → ℕ → Kind → Op → Op
unfolding perform_io complete
attempt env err k op = if err == 0 then perform_io env k op else complete err 0 op

-- An operation that would block stays in its slot.
unfoldable pub try_io : Kernel → ℕ → Kind → Deferred → Deferred
unfolding attempt finish
try_io env err k s =
    let op = attempt env err k (s.ops k) in
    if would_block env op.errn
    then set_op k (record op { errn = 0 }) s
    else finish k (set_op k op s)

-- `if (op) { op->complete(err, 0); local_ops.push(std::exchange(op, nullptr)); }`
unfoldable pub complete_parked : ℕ → Kind → Deferred → Deferred
unfolding finish complete
complete_parked err k s =
    if s.desc.parked k then finish k (set_op k (complete err 0 (s.ops k)) s) else s

-- `if (ev & reactor_event_read)`
unfoldable pub read_part : Kernel → ℕ → Deferred → Deferred
unfolding try_io complete_parked
read_part env err s = complete_parked err wait_rd (
    if s.desc.parked rd
    then try_io env err rd s
    else record s { desc = record s.desc { read_ready = true } })

-- connect_op leaves its slot whatever it reports.
unfoldable pub finish_connect : Kernel → ℕ → Deferred → Deferred
unfolding attempt finish
finish_connect env err s =
    if s.desc.parked conn
    then finish conn (set_op conn (attempt env err conn (s.ops conn)) s)
    else s

-- `if (write_op)`
unfoldable pub finish_write : Kernel → ℕ → Deferred → Deferred
unfolding try_io
finish_write env err s = if s.desc.parked wr then try_io env err wr s else s

-- `if (!had_write_op) write_ready = true;`
unfoldable pub note_write : Bool → Deferred → Deferred
note_write had_write_op s =
    if had_write_op then s else record s { desc = record s.desc { write_ready = true } }

-- `if (ev & reactor_event_write)`
unfoldable pub write_part : Kernel → ℕ → Deferred → Deferred
unfolding finish_connect finish_write note_write complete_parked
write_part env err s = complete_parked err wait_wr (
    note_write (s.desc.parked conn || s.desc.parked wr)
      (finish_write env err (finish_connect env err s)))

-- `if (err)`
unfoldable pub error_part : ℕ → Deferred → Deferred
unfolding complete_parked
error_part err s = complete_parked err wait_wr (
    complete_parked err wait_rd
      (complete_parked err conn (complete_parked err wr (complete_parked err rd s))))

-- The error of the socket: getsockopt may fail, and 0 becomes EIO.
unfoldable pub socket_error : Kernel → Syscall → ℕ
socket_error env (returns err) = if err == 0 then env.eio else err
socket_error env (fails err) = if err == 0 then env.eio else err

unfoldable pub event_error : Kernel → Events → ℕ
unfolding socket_error
event_error env ev = if ev.error then socket_error env env.so_error else 0

-- The operations that the events concern, `err` being the error of the socket or 0.
unfoldable pub dispatch_with : Kernel → Events → ℕ → Deferred → Deferred
unfolding read_part write_part error_part complete_parked
dispatch_with env ev err s =
    let s1 = if ev.read then read_part env err s else s in
    let s2 = if ev.write then write_part env err s1 else s1 in
    let s3 = if ev.error || not (err == 0) then complete_parked err wait_er s2 else s2 in
    if err == 0 then s3 else error_part err s3

-- The part under the lock, once the events are taken.
unfoldable pub dispatch_events : Kernel → Events → Deferred → Deferred
unfolding dispatch_with event_error
dispatch_events env ev s = dispatch_with env ev (event_error env ev) s

-- `is_enqueued_.store(false)`, `ready_events_.exchange(0)` and the move of impl_ref_.
unfoldable pub take_events : Descriptor → Descriptor
take_events d = record d { is_enqueued = false; ready_events = no_events; impl_ref = false }

-- invoke_deferred_io up to the end of the lock.
unfoldable pub deferred_io : Kernel → Descriptor → (Kind → Op) → Deferred
unfolding dispatch_events take_events
deferred_io env d ops =
    let s : Deferred = record { desc = take_events d; ops = ops; local_ops = [] } in
    if is_none d.ready_events then s else dispatch_events env d.ready_events s

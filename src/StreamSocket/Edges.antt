-- ===== src/StreamSocket/Edges.antt =====
-- register_op: the cached edge and the pending cancellation.
use corosio.Base.{◌≡◌, refl, ◌∙◌, Bool, true, false, ◌||◌, arith, Bool-cases, inl, inr}
use corosio.Descriptor.{Kind, conn, rd, wr, wait_rd, wait_wr, wait_er, Kernel}
use corosio.Descriptor.Edges.{edges_ok}
use corosio.Scheduler.Queue.{work_started}
use corosio.StreamSocket.{
  Socket, Runtime, post_op, ReadyFlag, read_ready_flag, write_ready_flag, dummy_ready, is_ready,
  Tried, try_ready, take_cancel, park_op, settle_op, register_op,
}

-- The flag that each operation is registered with.
abbrev pub flag_of : Kind → ReadyFlag
flag_of conn = write_ready_flag
flag_of wr = write_ready_flag
flag_of rd = read_ready_flag
flag_of wait_rd = read_ready_flag
flag_of _ = dummy_ready

try_ready-edges :
    (env : Kernel) (k : Kind) (f : ReadyFlag) (s : Socket)
    → edges_ok s.desc ≡ true
    → edges_ok (try_ready env k f s).socket.desc ≡ true
unfolding try_ready
try_ready-edges env k read_ready_flag s e = ground arith
try_ready-edges env k write_ready_flag s e = ground arith
try_ready-edges env k dummy_ready s e = e

try_ready-clears :
    (env : Kernel) (k : Kind) (f : ReadyFlag) (s : Socket)
    → is_ready f (try_ready env k f s).socket.desc ≡ false
unfolding try_ready
try_ready-clears env k read_ready_flag s = ground arith
try_ready-clears env k write_ready_flag s = ground arith
try_ready-clears env k dummy_ready s = refl

take_cancel-edges : (k : Kind) (s : Socket) → edges_ok (take_cancel k s).desc ≡ edges_ok s.desc
unfolding take_cancel
take_cancel-edges k s = ground arith

take_cancel-ready :
    (k : Kind) (f : ReadyFlag) (s : Socket) → is_ready f (take_cancel k s).desc ≡ is_ready f s.desc
unfolding take_cancel
take_cancel-ready k read_ready_flag s = ground arith
take_cancel-ready k write_ready_flag s = ground arith
take_cancel-ready k dummy_ready s = refl

park_op-edges :
    (b : Bool) (k : Kind) (s : Socket)
    → is_ready (flag_of k) s.desc ≡ false
    → edges_ok s.desc ≡ true
    → edges_ok (park_op b k s).desc ≡ true
unfolding park_op
park_op-edges b conn s f e = ground arith
park_op-edges b rd s f e = ground arith
park_op-edges b wr s f e = ground arith
park_op-edges b wait_rd s f e = ground arith
park_op-edges b wait_wr s f e = ground arith
park_op-edges b wait_er s f e = ground arith

settle_op-edges :
    (b : Bool) (k : Kind) (t : Tried) (r : Runtime)
    → is_ready (flag_of k) t.socket.desc ≡ false
    → edges_ok t.socket.desc ≡ true
    → edges_ok (settle_op b k t r).socket.desc ≡ true
unfolding settle_op post_op
settle_op-edges b k t r f e = elim (Bool-cases (t.io_done || (t.socket.ops k).cancelled)) [
  | inl c ↦ rw (c) e
  | inr c ↦ rw (c) (park_op-edges b k t.socket f e)
]

-- register_op parks no operation beside a cached edge that it would complete: the edge is consumed by
-- an attempt first.
pub register_op-edges :
    (env : Kernel) (k : Kind) (b : Bool) (r : Runtime)
    → edges_ok r.socket.desc ≡ true
    → edges_ok (register_op env k (flag_of k) b r).socket.desc ≡ true
unfolding register_op
register_op-edges env k b r e =
    let t = try_ready env k (flag_of k) r.socket in
    settle_op-edges b k (record { io_done = t.io_done; socket = take_cancel k t.socket })
      (record r { sched = work_started r.sched })
      (take_cancel-ready k (flag_of k) t.socket ∙ try_ready-clears env k (flag_of k) r.socket)
      (take_cancel-edges k t.socket ∙ try_ready-edges env k (flag_of k) r.socket e)

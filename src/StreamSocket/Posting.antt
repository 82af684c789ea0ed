-- ===== src/StreamSocket/Posting.antt =====
-- The work of a stream socket as operations start and the socket closes.
use corosio.Base.{
  ℕ, ◌+◌, ◌≡◌, refl, ap, Bool, true, false, not, ◌&&◌, Option, none, some, ◌==◌, if◌then◌else◌,
  arith, Bool-cases, inl, inr, ltb,
}
use corosio.Descriptor.{Kind, code, Op, Kernel, Syscall, returns, fails, would_block}
use corosio.Scheduler.{Context, Scheduler, op}
use corosio.Scheduler.Work.{Balanced, post-Balanced}
use corosio.StreamSocket.Close.{abandon, drop_flags, do_close_socket, drop_fd}
use corosio.StreamSocket.Start.{
  start_op, Begun, resumed, suspended, post_ready, give, wait_for_reactor, transfer,
}
use corosio.Scheduler.{Config, try_consume_inline_budget}
use corosio.Descriptor.{complete}
use corosio.StreamSocket.{Socket, Runtime, parked_of, kinds, post_all, cancel_slots}
use corosio.StreamSocket.Account.{Acc, Acc-if, count_parked, length-parked_of, post_all-account}

pub begun-if :
    (n : ℕ) (b : Bool) (x y : Begun)
    → Acc n x.runtime
    → Acc n y.runtime
    → Acc n (if b then x else y).runtime
begun-if n true x y p q = p
begun-if n false x y p q = q

-- Every claim of do_close_socket and do_release_socket, before the file is dropped.
pub abandon-account : (n : ℕ) (r : Runtime) → Acc n r → Acc n (abandon r)
unfolding abandon
abandon-account n r a =
    let ks = parked_of r.socket.desc.parked kinds in
    let s = cancel_slots r.socket in
    let dropped = record r { socket = record s { desc = drop_flags s.desc } } in
    Acc-if n r.socket.alive (post_all ks dropped) r
      (λ e. post_all-account n ks dropped (ground (arith, length-parked_of r.socket.desc.parked)))
      (λ e. a)

drop_fd-parked :
    (c : Bool) (fd : Option ℕ) (s : Socket) → (drop_fd c fd s).desc.parked ≡ s.desc.parked
drop_fd-parked c none s = refl
drop_fd-parked c (some m) s = ground arith

pub do_close_socket-account : (n : ℕ) (r : Runtime) → Acc n r → Acc n (do_close_socket r)
unfolding do_close_socket
do_close_socket-account n r a =
    let s = (abandon r).socket in
    ground (arith, abandon-account n r a, ap count_parked (drop_fd-parked true s.fd s))

-- A completed operation is posted with work of its own.
pub post_ready-account :
    (n : ℕ) (k : Kind) (o : Op) (r : Runtime) → Acc n r → Acc n (post_ready k o r)
unfolding post_ready
post_ready-account n k o r a =
    post-Balanced (op (code k)) (count_parked r.socket.desc.parked + n) r.ctx r.sched refl a

consume-Balanced :
    (h : ℕ) (c : Config) (x : Option Context) (s : Scheduler)
    → Balanced h x s
    → Balanced h (try_consume_inline_budget c x).frame s
unfolding try_consume_inline_budget
consume-Balanced h c none s b = b
consume-Balanced h c (some x) s b =
    elim (Bool-cases (not (c.inline_budget_max == 0) && ltb 0 x.inline_budget)) [
      | inl e ↦ rw (e) b
      | inr e ↦ rw (e) b
    ]

pub give-account :
    (n : ℕ) (k : Kind) (err bytes : ℕ) (r : Runtime) → Acc n r → Acc n (give k err bytes r).runtime
unfolding give
give-account n k err bytes r a =
    let c = try_consume_inline_budget r.sched.config r.ctx in
    let r1 = record r { ctx = c.frame } in
    let a1 =
      consume-Balanced (count_parked r.socket.desc.parked + n) r.sched.config r.ctx r.sched a in
    begun-if n c.took (record { outcome = resumed err bytes; runtime = r1 })
      (record { outcome = suspended; runtime = post_ready k (complete err bytes start_op) r1 }) a1
      (post_ready-account n k (complete err bytes start_op) r1 a1)

pub transfer-account :
    (n : ℕ) (env : Kernel) (k : Kind) (call : Syscall) (p r : Runtime)
    → Acc n p
    → Acc n r
    → Acc n (transfer env k call p r).runtime
unfolding transfer
transfer-account n env k (returns m) p r a b = give-account n k 0 m r b
transfer-account n env k (fails e) p r a b =
    begun-if n (would_block env e) (wait_for_reactor p) (give k e 0 r) a (give-account n k e 0 r b)

-- ===== src/StreamSocket/Account.antt =====
-- The work of a stream socket: one piece for each parked operation.
use corosio.Base.{
  ℕ, ◌+◌, ◌≡◌, refl, ap, ◌∙◌, Bool, true, false, not, ◌||◌, List, [], ◌∷◌, if◌then◌else◌, arith,
  Bool-cases, inl, inr, length,
}
use corosio.Descriptor.{Kind, conn, rd, wr, wait_rd, wait_wr, wait_er, code, put, Kernel}
use corosio.Descriptor.Conserve.{bit}
use corosio.Scheduler.{op}
use corosio.Scheduler.Queue.{post, work_started}
use corosio.Scheduler.Work.{Balanced, post-Balanced, work_started-Balanced, work_finished-Balanced}
use corosio.StreamSocket.{
  Socket, Runtime, request_cancel, read_ready_flag, write_ready_flag, dummy_ready, park,
  set_sock_op, set_cancel_pending, post_op, ReadyFlag, Tried, try_ready, take_cancel, park_op,
  settle_op, register_op, post_claimed, cancel_single_op, parked_of, kinds, post_all, cancel_slots,
  do_cancel, hold,
}

abbrev pub count_parked : (Kind → Bool) → ℕ
count_parked p =
    bit (p conn) + bit (p rd) + bit (p wr) + bit (p wait_rd) + bit (p wait_wr) + bit (p wait_er)

-- The scheduler's count of work is that of its queues, of the parked operations of the socket, and of
-- `n` pieces more.
abbrev pub Acc : ℕ → Runtime → Type 0
Acc n r = Balanced (count_parked r.socket.desc.parked + n) r.ctx r.sched

pub Acc-if :
    (n : ℕ) (b : Bool) (r1 r2 : Runtime)
    → (b ≡ true → Acc n r1)
    → (b ≡ false → Acc n r2)
    → Acc n (if b then r1 else r2)
Acc-if n true r1 r2 x y = x refl
Acc-if n false r1 r2 x y = y refl

pub parked-put-true :
    (p : Kind → Bool) (k : Kind) → p k ≡ false → count_parked (put p k true) ≡ count_parked p + 1
parked-put-true p conn e = ground arith
parked-put-true p rd e = ground arith
parked-put-true p wr e = ground arith
parked-put-true p wait_rd e = ground arith
parked-put-true p wait_wr e = ground arith
parked-put-true p wait_er e = ground arith

pub parked-put-false :
    (p : Kind → Bool) (k : Kind) → p k ≡ true → count_parked (put p k false) + 1 ≡ count_parked p
parked-put-false p conn e = ground arith
parked-put-false p rd e = ground arith
parked-put-false p wr e = ground arith
parked-put-false p wait_rd e = ground arith
parked-put-false p wait_wr e = ground arith
parked-put-false p wait_er e = ground arith

pub length-parked_of : (p : Kind → Bool) → length (parked_of p kinds) ≡ count_parked p
length-parked_of p = ground arith

post_op-account : (n : ℕ) (k : Kind) (r : Runtime) → Acc (n + 1) r → Acc n (post_op k r)
unfolding post_op
post_op-account n k r b =
    let h = count_parked r.socket.desc.parked + n in
    let t = post (op (code k)) r.ctx r.sched in
    work_finished-Balanced h t.ctx t.sched
      (post-Balanced (op (code k)) (h + 1) r.ctx r.sched refl (ground arith))

pub post_claimed-account :
    (n : ℕ) (k : Kind) (r : Runtime) → Acc (n + 1) r → Acc n (post_claimed k r)
unfolding post_claimed
post_claimed-account n k r b =
    post_op-account n k (record r { socket = set_sock_op k (hold (r.socket.ops k)) r.socket }) b

pub post_all-account :
    (n : ℕ) (ks : List Kind) (r : Runtime) → Acc (n + length ks) r → Acc n (post_all ks r)
unfolding post_all
post_all-account n [] r b = ground arith
post_all-account n (k ∷ ks) r b =
    post_all-account n ks (post_claimed k r)
      (post_claimed-account (n + length ks) k r (ground arith))

pub try_ready-parked :
    (env : Kernel) (k : Kind) (f : ReadyFlag) (s : Socket)
    → (try_ready env k f s).socket.desc.parked ≡ s.desc.parked
unfolding try_ready
try_ready-parked env k read_ready_flag s = ground arith
try_ready-parked env k write_ready_flag s = ground arith
try_ready-parked env k dummy_ready s = refl

pub take_cancel-parked : (k : Kind) (s : Socket) → (take_cancel k s).desc.parked ≡ s.desc.parked
unfolding take_cancel
take_cancel-parked k s = ground arith

park_op-parked :
    (b : Bool) (k : Kind) (s : Socket) → (park_op b k s).desc.parked ≡ put s.desc.parked k true
unfolding park_op
park_op-parked true k s = refl
park_op-parked false k s = refl

settle_op-account :
    (n : ℕ) (b : Bool) (k : Kind) (t : Tried) (r : Runtime)
    → t.socket.desc.parked ≡ r.socket.desc.parked
    → r.socket.desc.parked k ≡ false
    → Acc (n + 1) r
    → Acc n (settle_op b k t r)
unfolding settle_op
settle_op-account n b k t r e f a = elim (Bool-cases (t.io_done || (t.socket.ops k).cancelled)) [
  | inl c ↦
      rw (c)
        (post_op-account n k (record r { socket = t.socket }) (ground (arith, ap count_parked e)))
  | inr c ↦ rw (c) (
      ground (
        arith,
        ap count_parked (park_op-parked b k t.socket),
        ap (λ p. count_parked (put p k true)) e,
        parked-put-true r.socket.desc.parked k f,
      ))
]

-- Registering an operation that is not parked keeps the account: it is parked or posted, with its
-- piece of work counted once.
pub register_op-account :
    (n : ℕ) (env : Kernel) (k : Kind) (f : ReadyFlag) (b : Bool) (r : Runtime)
    → r.socket.desc.parked k ≡ false
    → Acc n r
    → Acc n (register_op env k f b r)
unfolding register_op
register_op-account n env k f b r p a =
    let t = try_ready env k f r.socket in
    let r1 = record r { sched = work_started r.sched } in
    let e = take_cancel-parked k t.socket ∙ try_ready-parked env k f r.socket in
    let w = work_started-Balanced (count_parked r.socket.desc.parked + n) r.ctx r.sched a in
    settle_op-account n b k (record { io_done = t.io_done; socket = take_cancel k t.socket }) r1 e p
      (ground (arith, w))

pub cancel_single_op-account :
    (n : ℕ) (k : Kind) (r : Runtime) → Acc n r → Acc n (cancel_single_op k r)
unfolding cancel_single_op
cancel_single_op-account n k r a =
    let s = set_sock_op k (request_cancel (r.socket.ops k)) r.socket in
    let claimed = record r { socket = park k false s } in
    let pending = record r { socket = set_cancel_pending k true s } in
    Acc-if n (not r.socket.alive) r
      (if r.socket.desc.parked k then post_claimed k claimed else pending) (λ e. a)
      (λ e.
        Acc-if n (r.socket.desc.parked k) (post_claimed k claimed) pending
          (λ f.
            post_claimed-account n k claimed
              (ground (arith, parked-put-false r.socket.desc.parked k f)))
          (λ f. a))

pub do_cancel-account : (n : ℕ) (r : Runtime) → Acc n r → Acc n (do_cancel r)
unfolding do_cancel
do_cancel-account n r a =
    let ks = parked_of r.socket.desc.parked kinds in
    let cancelled = record r { socket = cancel_slots r.socket } in
    Acc-if n r.socket.alive (post_all ks cancelled) r
      (λ e. post_all-account n ks cancelled (ground (arith, length-parked_of r.socket.desc.parked)))
      (λ e. a)

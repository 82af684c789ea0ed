-- ===== src/StreamSocket/Stale.antt =====
-- A cancellation that finds its operation in no slot.
use corosio.Base.{
  if_false, ◌≡◌, refl, ap, ◌∙◌, Bool, true, false, not, ◌||◌, [], ◌∷◌, ◌++◌, Option, none, some,
  if◌then◌else◌, arith,
}
use corosio.Descriptor.{Kind, put, Kernel}
use corosio.Descriptor.Conserve.{is_refl}
use corosio.Scheduler.{Context}
use corosio.Scheduler.Queue.{work_started}
use corosio.StreamSocket.{
  Socket, Runtime, park, set_sock_op, set_cancel_pending, post_op, ReadyFlag, read_ready_flag,
  write_ready_flag, dummy_ready, Tried, try_ready, take_cancel, park_op, settle_op, register_op,
  cancel_single_op, post_claimed, request_cancel,
}
use corosio.StreamSocket.Account.{try_ready-parked, take_cancel-parked}
use corosio.StreamSocket.Cancel.{queued, queued_in, entry, post_op-queued}
use corosio.StreamSocket.Start.{begin_op}

try_ready-pending :
    (env : Kernel) (k : Kind) (f : ReadyFlag) (s : Socket)
    → (try_ready env k f s).socket.desc.cancel_pending ≡ s.desc.cancel_pending
unfolding try_ready
try_ready-pending env k read_ready_flag s = ground arith
try_ready-pending env k write_ready_flag s = ground arith
try_ready-pending env k dummy_ready s = refl

take_cancel-takes :
    (k : Kind) (s : Socket)
    → s.desc.cancel_pending k ≡ true
    → (((take_cancel k s).ops k).cancelled ≡ true)
      × ((take_cancel k s).desc.cancel_pending k ≡ false)
unfolding take_cancel
take_cancel-takes k s p = (ground (arith, is_refl k), ground (arith, is_refl k))

if_or {ℓ} : {A : Type ℓ} (b c : Bool) (x y : A) → c ≡ true → (if b || c then x else y) ≡ x
if_or true c x y e = refl
if_or false true x y e = refl
if_or false false x y e = ground arith

settle_op-cancelled :
    (b : Bool) (k : Kind) (t : Tried) (r : Runtime)
    → (t.socket.ops k).cancelled ≡ true
    → settle_op b k t r ≡ post_op k (record r { socket = t.socket })
unfolding settle_op
settle_op-cancelled b k t r e =
    if_or t.io_done (t.socket.ops k).cancelled (post_op k (record r { socket = t.socket }))
      (record r { socket = park_op b k t.socket }) e

started-queued : (r : Runtime) → queued (record r { sched = work_started r.sched }) ≡ queued r
unfolding work_started
started-queued r = go r.ctx
  where
    go : (x : Option Context) → queued_in x (work_started r.sched) ≡ queued_in x r.sched
    go none = refl
    go (some x) = refl

-- The operation that is registered while a cancellation is pending for its slot.
pub register_op-pending :
    (env : Kernel) (k : Kind) (f : ReadyFlag) (b : Bool) (r : Runtime)
    → r.socket.desc.cancel_pending k ≡ true
    → r.socket.desc.parked k ≡ false
    → let t = register_op env k f b r in
      (t.socket.desc.parked k ≡ false)
      × ((t.socket.ops k).cancelled ≡ true)
      × (t.socket.desc.cancel_pending k ≡ false)
      × (queued t ≡ queued r ++ entry k ∷ [])
unfolding register_op post_op
register_op-pending env k f b r p q =
    let t = try_ready env k f r.socket in
    let s = take_cancel k t.socket in
    let taken =
      take_cancel-takes k t.socket (ap (λ g. g k) (try_ready-pending env k f r.socket) ∙ p) in
    let tried : Tried = record { io_done = t.io_done; socket = s } in
    let r1 = record r { sched = work_started r.sched } in
    let posted = settle_op-cancelled b k tried r1 taken.0 in
    (
      ap (λ u. u.socket.desc.parked k) posted
          ∙ ap (λ g. g k) (take_cancel-parked k t.socket ∙ try_ready-parked env k f r.socket)
          ∙ q,
      ap (λ u. (u.socket.ops k).cancelled) posted ∙ taken.0,
      ap (λ u. u.socket.desc.cancel_pending k) posted ∙ taken.1,
      ap queued posted
          ∙ post_op-queued k (record r1 { socket = s })
          ∙ ap (λ es. es ++ entry k ∷ []) (started-queued r),
    )

cancel_single_op-pending :
    (k : Kind) (r : Runtime)
    → r.socket.alive ≡ true
    → r.socket.desc.parked k ≡ false
    → cancel_single_op k r ≡ record r {
      socket = set_cancel_pending k true (set_sock_op k (request_cancel (r.socket.ops k)) r.socket);
    }
unfolding cancel_single_op
cancel_single_op-pending k r a p =
    let s = set_sock_op k (request_cancel (r.socket.ops k)) r.socket in
    let claimed = post_claimed k (record r { socket = park k false s }) in
    let pending = record r { socket = set_cancel_pending k true s } in
    if_false (not r.socket.alive) r (if r.socket.desc.parked k then claimed else pending) (ap not a)
    ∙ if_false (r.socket.desc.parked k) claimed pending p

-- Cancelling an operation of a live socket that is not parked, whether it has been started or not,
-- changes no queue, and it cancels the next operation registered in that slot, whose result the system
-- decides otherwise: that operation is posted as cancelled and is not parked.
pub cancel_single_op-lingers :
    (env : Kernel) (k : Kind) (f : ReadyFlag) (b : Bool) (r : Runtime)
    → r.socket.alive ≡ true
    → r.socket.desc.parked k ≡ false
    → let t = register_op env k f b (begin_op k (cancel_single_op k r)) in
      (queued (cancel_single_op k r) ≡ queued r)
      × (t.socket.desc.parked k ≡ false)
      × ((t.socket.ops k).cancelled ≡ true)
      × (queued t ≡ queued r ++ entry k ∷ [])
cancel_single_op-lingers env k f b r a p =
    let c = cancel_single_op-pending k r a p in
    let r1 = begin_op k (cancel_single_op k r) in
    let pending = ap (λ u. u.socket.desc.cancel_pending k) c ∙ put-same k in
    let free = ap (λ u. u.socket.desc.parked k) c ∙ p in
    let q = register_op-pending env k f b r1 pending free in
    (ap queued c, q.0, q.1, q.3 ∙ ap (λ u. queued u ++ entry k ∷ []) c)
  where
    put-same : (k : Kind) → put r.socket.desc.cancel_pending k true k ≡ true
    put-same k = ground (arith, is_refl k)

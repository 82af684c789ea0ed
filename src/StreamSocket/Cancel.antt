-- ===== src/StreamSocket/Cancel.antt =====
-- Cancelling every operation of a socket, and closing it.
use corosio.Base.{
  if_true, ℕ, ◌≡◌, refl, ap, sym, subst, ◌∙◌, Bool, true, false, ◌||◌, Option, none, some, List, [],
  ◌∷◌, ◌++◌, map, append_assoc, append-nil, arith,
}
use corosio.Descriptor.{Kind, conn, rd, wr, wait_rd, wait_wr, wait_er, code, ◌is◌}
use corosio.Descriptor.Conserve.{same_value}
use corosio.Scheduler.{Context, Scheduler, Entry, op}
use corosio.Scheduler.Queue.{post, push, work_started, work_finished}
use corosio.Scheduler.Work.{wake-queue, work_finished-queue}
use corosio.StreamSocket.{
  Socket, Runtime, post_op, post_claimed, parked_of, kinds, post_all, cancel_slots, do_cancel, hold,
  set_sock_op, request_cancel,
}
use corosio.StreamSocket.Close.{abandon, drop_flags, drop_fd}

-- What waits to run, in the scheduler's queue and then in the thread's own.
abbrev pub queued_in : Option Context → Scheduler → List Entry
queued_in none s = s.completed_ops
queued_in (some x) s = s.completed_ops ++ x.private_queue

abbrev pub queued : Runtime → List Entry
queued r = queued_in r.ctx r.sched

abbrev pub entry : Kind → Entry
entry k = op (code k)

post-queued :
    (e : Entry) (x : Option Context) (s : Scheduler)
    → queued_in (post e x s).ctx (post e x s).sched ≡ queued_in x s ++ e ∷ []
unfolding post work_started
post-queued e none s = wake-queue (push e (work_started s))
post-queued e (some x) s = sym (append_assoc s.completed_ops x.private_queue (e ∷ []))

finished-queued :
    (x : Option Context) (s : Scheduler) → queued_in x (work_finished s) ≡ queued_in x s
finished-queued none s = work_finished-queue s
finished-queued (some x) s = ap (λ q. q ++ x.private_queue) (work_finished-queue s)

pub post_op-queued : (k : Kind) (r : Runtime) → queued (post_op k r) ≡ queued r ++ entry k ∷ []
unfolding post_op
post_op-queued k r =
    let t = post (op (code k)) r.ctx r.sched in
    finished-queued t.ctx t.sched ∙ post-queued (op (code k)) r.ctx r.sched

post_claimed-queued :
    (k : Kind) (r : Runtime) → queued (post_claimed k r) ≡ queued r ++ entry k ∷ []
unfolding post_claimed
post_claimed-queued k r =
    post_op-queued k (record r { socket = set_sock_op k (hold (r.socket.ops k)) r.socket })

post_all-queued : (ks : List Kind) (r : Runtime) → queued (post_all ks r) ≡ queued r ++ map entry ks
unfolding post_all
post_all-queued [] r = sym (append-nil (queued r))
post_all-queued (k ∷ ks) r =
    post_all-queued ks (post_claimed k r)
    ∙ ap (λ q. q ++ map entry ks) (post_claimed-queued k r)
    ∙ append_assoc (queued r) (entry k ∷ []) (map entry ks)

post_claimed-desc : (k : Kind) (r : Runtime) → (post_claimed k r).socket.desc ≡ r.socket.desc
unfolding post_claimed post_op
post_claimed-desc k r = refl

pub post_all-desc : (ks : List Kind) (r : Runtime) → (post_all ks r).socket.desc ≡ r.socket.desc
unfolding post_all
post_all-desc [] r = refl
post_all-desc (k ∷ ks) r = post_all-desc ks (post_claimed k r) ∙ post_claimed-desc k r

post_claimed-cancelled :
    (k j : Kind) (r : Runtime)
    → ((post_claimed k r).socket.ops j).cancelled ≡ (r.socket.ops j).cancelled
unfolding post_claimed post_op
post_claimed-cancelled k j r = ground (arith, same_value (λ i. (r.socket.ops i).cancelled) j k)

post_all-cancelled :
    (ks : List Kind) (j : Kind) (r : Runtime)
    → ((post_all ks r).socket.ops j).cancelled ≡ (r.socket.ops j).cancelled
unfolding post_all
post_all-cancelled [] j r = refl
post_all-cancelled (k ∷ ks) j r =
    post_all-cancelled ks j (post_claimed k r) ∙ post_claimed-cancelled k j r

abbrev is_in : Kind → List Kind → Bool
is_in j [] = false
is_in j (k ∷ ks) = j is k || is_in j ks

post_claimed-holds :
    (k j : Kind) (r : Runtime) (b : Bool)
    → ((r.socket.ops j).has_impl || (j is k || b)) ≡ true
    → (((post_claimed k r).socket.ops j).has_impl || b) ≡ true
unfolding post_claimed post_op
post_claimed-holds k j r b h = ground arith

post_all-holds :
    (ks : List Kind) (j : Kind) (r : Runtime)
    → ((r.socket.ops j).has_impl || is_in j ks) ≡ true
    → ((post_all ks r).socket.ops j).has_impl ≡ true
unfolding post_all
post_all-holds [] j r h = ground arith
post_all-holds (k ∷ ks) j r h =
    post_all-holds ks j (post_claimed k r) (post_claimed-holds k j r (is_in j ks) h)

parked-is_in : (p : Kind → Bool) (j : Kind) → p j ≡ true → is_in j (parked_of p kinds) ≡ true
parked-is_in p conn h = ground arith
parked-is_in p rd h = ground arith
parked-is_in p wr h = ground arith
parked-is_in p wait_rd h = ground arith
parked-is_in p wait_wr h = ground arith
parked-is_in p wait_er h = ground arith

-- Every slot is empty, every operation's cancellation is requested, and the operations that were
-- parked in `r` hold the socket and are queued after what was queued, in the order of the slots.
abbrev pub Claimed : Runtime → Runtime → Type 0
Claimed r t =
    ((k : Kind) → t.socket.desc.parked k ≡ false)
    × ((k : Kind) → (t.socket.ops k).cancelled ≡ true)
    × ((k : Kind) → r.socket.desc.parked k ≡ true → (t.socket.ops k).has_impl ≡ true)
    × (queued t ≡ queued r ++ map entry (parked_of r.socket.desc.parked kinds))

Claimed-all :
    (r : Runtime) (s : Socket)
    → s.ops ≡ (λ k. request_cancel (r.socket.ops k))
    → ((k : Kind) → s.desc.parked k ≡ false)
    → Claimed r (post_all (parked_of r.socket.desc.parked kinds) (record r { socket = s }))
Claimed-all r s o p =
    let ks = parked_of r.socket.desc.parked kinds in
    let r1 = record r { socket = s } in
    (
      (λ k. ap (λ d. d.parked k) (post_all-desc ks r1) ∙ p k),
      (λ k. post_all-cancelled ks k r1 ∙ ap (λ f. (f k).cancelled) o),
      (λ k h. post_all-holds ks k r1 (ground (arith, parked-is_in r.socket.desc.parked k h))),
      post_all-queued ks r1,
    )

-- do_cancel on a live socket claims every parked operation and posts each exactly once.
pub do_cancel-claims : (r : Runtime) → r.socket.alive ≡ true → Claimed r (do_cancel r)
unfolding do_cancel
do_cancel-claims r a =
    let ks = parked_of r.socket.desc.parked kinds in
    let cancelled = record r { socket = cancel_slots r.socket } in
    subst (Claimed r) (sym (if_true r.socket.alive (post_all ks cancelled) r a))
      (Claimed-all r (cancel_slots r.socket) refl (λ k. refl))

pub abandon-posts :
    (r : Runtime)
    → r.socket.alive ≡ true
    → let s = cancel_slots r.socket in
      abandon r
      ≡ post_all
          (parked_of r.socket.desc.parked kinds)
          (record r { socket = record s { desc = drop_flags s.desc } })
unfolding abandon
abandon-posts r a =
    let s = cancel_slots r.socket in
    if_true r.socket.alive
      (post_all (parked_of r.socket.desc.parked kinds)
        (record r { socket = record s { desc = drop_flags s.desc } }))
      r a

pub abandon-claims : (r : Runtime) → r.socket.alive ≡ true → Claimed r (abandon r)
abandon-claims r a =
    let s = cancel_slots r.socket in
    subst (Claimed r) (sym (abandon-posts r a))
      (Claimed-all r (record s { desc = drop_flags s.desc }) refl (λ k. refl))

pub abandon-desc :
    (r : Runtime)
    → r.socket.alive ≡ true
    → (abandon r).socket.desc ≡ drop_flags (cancel_slots r.socket).desc
abandon-desc r a =
    let s = cancel_slots r.socket in
    ap (λ t. t.socket.desc) (abandon-posts r a)
    ∙ post_all-desc (parked_of r.socket.desc.parked kinds)
        (record r { socket = record s { desc = drop_flags s.desc } })

pub drop_fd-desc : (c : Bool) (fd : Option ℕ) (s : Socket) → (drop_fd c fd s).desc ≡ s.desc
drop_fd-desc c none s = refl
drop_fd-desc c (some n) s = ground arith

-- ===== src/StreamSocket/Requests.antt =====
-- What each request of a stream socket keeps.
use corosio.Base.{
  ℕ, ◌+◌, ◌≡◌, refl, ap, ◌∙◌, Bool, true, false, not, [], ◌∷◌, ◌==◌, Option, none, some, arith,
  if◌then◌else◌,
}
use corosio.Descriptor.{
  Kind, conn, rd, wr, wait_rd, wait_wr, wait_er, Syscall, returns, fails, Kernel, Events,
  Descriptor, add_ready_events, would_block, complete,
}
use corosio.Descriptor.Edges.{edges_ok}
use corosio.Scheduler.{descriptor, try_consume_inline_budget}
use corosio.Scheduler.Work.{counted-append, work_cleanup-Balanced}
use corosio.StreamSocket.{
  Socket, Runtime, cancel_single_op, do_cancel, register_op, parked_of, kinds, post_all,
  cancel_slots, post_claimed, post_op, park, set_sock_op, set_cancel_pending, request_cancel,
}
use corosio.StreamSocket.Account.{
  Acc, count_parked, register_op-account, cancel_single_op-account, do_cancel-account,
}
use corosio.StreamSocket.Cancel.{post_all-desc}
use corosio.StreamSocket.Close.{do_close_socket, abandon, drop_flags, drop_fd}
use corosio.StreamSocket.Edges.{flag_of, register_op-edges}
use corosio.StreamSocket.Posting.{
  begun-if, do_close_socket-account, post_ready-account, give-account, transfer-account,
}
use corosio.StreamSocket.Reach.{
  Request, read_some, write_some, connect, wait, cancel_one, cancel, close, starts, is_free,
  request, report, settle,
}
use corosio.StreamSocket.Start.{
  WaitType, connected, resumed, suspended, wait_for_reactor, Begun, begin_op, start_op, give,
  post_ready, transfer, do_read_some, do_write_some, do_connect, do_wait, reset_first,
}

module _ (env : Kernel) (select : Bool) where
  register-account :
      (n : ℕ) (k : Kind) (b : Bool) (r : Runtime)
      → r.socket.desc.parked k ≡ false
      → Acc n r
      → Acc n (register_op env k (flag_of k) b (begin_op k r))
  register-account n k b r p a = register_op-account n env k (flag_of k) b (begin_op k r) p a

  pub request-account :
      (n : ℕ) (q : Request) (r : Runtime)
      → is_free (starts q) r ≡ true
      → Acc n r
      → Acc n (request env select q r)
  unfolding request do_read_some do_write_some do_connect do_wait
  request-account n (read_some true c) r f a = post_ready-account n rd (complete 0 0 start_op) r a
  request-account n (read_some false c) r f a =
      transfer-account n env rd c (register_op env rd (flag_of rd) false (begin_op rd r))
        (reset_first rd r) (register-account n rd false r (ground arith) a) a
  request-account n (write_some true c) r f a = post_ready-account n wr (complete 0 0 start_op) r a
  request-account n (write_some false c) r f a =
      transfer-account n env wr c (register_op env wr (flag_of wr) select (begin_op wr r))
        (reset_first wr r) (register-account n wr select r (ground arith) a) a
  request-account n (connect p none ep (returns v)) r f a =
      give-account n conn 0 0 (connected none ep r) a
  request-account n (connect p (some e) ep (returns v)) r f a =
      give-account n conn 0 0 (connected (some e) ep r) a
  request-account n (connect p m ep (fails e)) r f a =
      begun-if n (e == p)
        (wait_for_reactor (register_op env conn (flag_of conn) select (begin_op conn r)))
        (give conn e 0 r) (register-account n conn select r (ground arith) a)
        (give-account n conn e 0 r a)
  request-account n (wait corosio.StreamSocket.Start.wait_write) r f a =
      give-account n wait_wr 0 0 r a
  request-account n (wait corosio.StreamSocket.Start.wait_read) r f a =
      register-account n wait_rd false r (ground arith) a
  request-account n (wait corosio.StreamSocket.Start.wait_error) r f a =
      register-account n wait_er false r (ground arith) a
  request-account n (cancel_one k) r f a = cancel_single_op-account n k r a
  request-account n cancel r f a = do_cancel-account n r a
  request-account n close r f a = do_close_socket-account n r a

  pub report-account : (n : ℕ) (ev : Events) (x : ℕ) (r : Runtime) → Acc n r → Acc n (report ev x r)
  unfolding report add_ready_events
  report-account n ev x r a =
      ground (arith, counted-append r.sched.completed_ops (descriptor x ∷ []))

  pub settle-account : (r : Runtime) → Acc 1 r → Acc 0 (settle r)
  unfolding settle
  settle-account r a =
      work_cleanup-Balanced (count_parked r.socket.desc.parked + 0) r.ctx r.sched (ground arith)

  begun-edges :
      (b : Bool) (x y : Begun)
      → edges_ok x.runtime.socket.desc ≡ true
      → edges_ok y.runtime.socket.desc ≡ true
      → edges_ok (if b then x else y).runtime.socket.desc ≡ true
  begun-edges true x y p q = p
  begun-edges false x y p q = q

  begun-desc :
      (b : Bool) (x y : Begun) (d : Descriptor)
      → x.runtime.socket.desc ≡ d
      → y.runtime.socket.desc ≡ d
      → (if b then x else y).runtime.socket.desc ≡ d
  begun-desc true x y d p q = p
  begun-desc false x y d p q = q

  give-desc :
      (k : Kind) (err bytes : ℕ) (r : Runtime)
      → (give k err bytes r).runtime.socket.desc ≡ r.socket.desc
  unfolding give post_ready
  give-desc k err bytes r =
      let c = try_consume_inline_budget r.sched.config r.ctx in
      let r1 = record r { ctx = c.frame } in
      begun-desc c.took (record { outcome = resumed err bytes; runtime = r1 })
        (record { outcome = suspended; runtime = post_ready k (complete err bytes start_op) r1 })
        r.socket.desc refl refl

  -- A known result leaves the descriptor as it was; the other outcome is that of `p`.
  transfer-edges :
      (k : Kind) (call : Syscall) (p r : Runtime)
      → edges_ok p.socket.desc ≡ true
      → edges_ok r.socket.desc ≡ true
      → edges_ok (transfer env k call p r).runtime.socket.desc ≡ true
  unfolding transfer
  transfer-edges k (returns m) p r a b = ap edges_ok (give-desc k 0 m r) ∙ b
  transfer-edges k (fails e) p r a b =
      begun-edges (would_block env e) (wait_for_reactor p) (give k e 0 r) a
        (ap edges_ok (give-desc k e 0 r) ∙ b)

  register-edges :
      (k : Kind) (b : Bool) (r : Runtime)
      → edges_ok r.socket.desc ≡ true
      → edges_ok (register_op env k (flag_of k) b (begin_op k r)).socket.desc ≡ true
  register-edges k b r e = register_op-edges env k b (begin_op k r) e

  drop_fd-edges :
      (c : Bool) (fd : Option ℕ) (s : Socket) → edges_ok (drop_fd c fd s).desc ≡ edges_ok s.desc
  drop_fd-edges c none s = refl
  drop_fd-edges c (some m) s = ground arith

  edges-if :
      (b : Bool) (x y : Runtime)
      → edges_ok x.socket.desc ≡ true
      → edges_ok y.socket.desc ≡ true
      → edges_ok (if b then x else y).socket.desc ≡ true
  edges-if true x y p q = p
  edges-if false x y p q = q

  cancelled-edges :
      (r : Runtime) (s : Socket)
      → edges_ok s.desc ≡ true
      → edges_ok
          (post_all (parked_of r.socket.desc.parked kinds) (record r { socket = s })).socket.desc
        ≡ true
  cancelled-edges r s e =
      ap edges_ok (post_all-desc (parked_of r.socket.desc.parked kinds) (record r { socket = s }))
      ∙ e

  cancel-edges :
      (r : Runtime) → edges_ok r.socket.desc ≡ true → edges_ok (do_cancel r).socket.desc ≡ true
  unfolding do_cancel
  cancel-edges r e =
      let s = cancel_slots r.socket in
      edges-if r.socket.alive
        (post_all (parked_of r.socket.desc.parked kinds) (record r { socket = s })) r
        (cancelled-edges r s (ground arith)) e

  abandon-edges :
      (r : Runtime) → edges_ok r.socket.desc ≡ true → edges_ok (abandon r).socket.desc ≡ true
  unfolding abandon
  abandon-edges r e =
      let s = cancel_slots r.socket in
      let s1 = record s { desc = drop_flags s.desc } in
      edges-if r.socket.alive
        (post_all (parked_of r.socket.desc.parked kinds) (record r { socket = s1 })) r
        (cancelled-edges r s1 (ground arith)) e

  close-edges :
      (r : Runtime)
      → edges_ok r.socket.desc ≡ true
      → edges_ok (do_close_socket r).socket.desc ≡ true
  unfolding do_close_socket
  close-edges r e = let s = (abandon r).socket in drop_fd-edges true s.fd s ∙ abandon-edges r e

  cancel_one-edges :
      (k : Kind) (r : Runtime)
      → edges_ok r.socket.desc ≡ true
      → edges_ok (cancel_single_op k r).socket.desc ≡ true
  unfolding cancel_single_op post_claimed post_op
  cancel_one-edges k r e =
      let s = set_sock_op k (request_cancel (r.socket.ops k)) r.socket in
      let claimed = record r { socket = park k false s } in
      let pending = record r { socket = set_cancel_pending k true s } in
      edges-if (not r.socket.alive) r
        (if r.socket.desc.parked k then post_claimed k claimed else pending) e
        (edges-if (r.socket.desc.parked k) (post_claimed k claimed) pending (ground arith) e)

  pub request-edges :
      (q : Request) (r : Runtime)
      → edges_ok r.socket.desc ≡ true
      → edges_ok (request env select q r).socket.desc ≡ true
  unfolding request do_read_some do_write_some do_connect do_wait post_ready
  request-edges (read_some true c) r e = e
  request-edges (read_some false c) r e =
      transfer-edges rd c (register_op env rd (flag_of rd) false (begin_op rd r)) (reset_first rd r)
        (register-edges rd false r e) e
  request-edges (write_some true c) r e = e
  request-edges (write_some false c) r e =
      transfer-edges wr c (register_op env wr (flag_of wr) select (begin_op wr r))
        (reset_first wr r) (register-edges wr select r e) e
  request-edges (connect p none ep (returns v)) r e =
      ap edges_ok (give-desc conn 0 0 (connected none ep r)) ∙ e
  request-edges (connect p (some m) ep (returns v)) r e =
      ap edges_ok (give-desc conn 0 0 (connected (some m) ep r)) ∙ e
  request-edges (connect p m ep (fails v)) r e =
      begun-edges (v == p)
        (wait_for_reactor (register_op env conn (flag_of conn) select (begin_op conn r)))
        (give conn v 0 r) (register-edges conn select r e) (ap edges_ok (give-desc conn v 0 r) ∙ e)
  request-edges (wait corosio.StreamSocket.Start.wait_write) r e =
      ap edges_ok (give-desc wait_wr 0 0 r) ∙ e
  request-edges (wait corosio.StreamSocket.Start.wait_read) r e = register-edges wait_rd false r e
  request-edges (wait corosio.StreamSocket.Start.wait_error) r e = register-edges wait_er false r e
  request-edges (cancel_one k) r e = cancel_one-edges k r e
  request-edges cancel r e = cancel-edges r e
  request-edges close r e = close-edges r e

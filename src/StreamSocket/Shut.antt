-- ===== src/StreamSocket/Shut.antt =====
-- What do_close_socket and do_release_socket leave.
use corosio.Base.{
  ℕ, ◌≡◌, refl, ap, sym, ◌∙◌, Bool, true, false, Option, none, some, List, [], ◌∷◌, ◌++◌,
  append-nil, append_assoc, if◌then◌else◌, arith,
}
use corosio.Descriptor.{Kind, Op, Descriptor}
use corosio.Endpoint.{of_port}
use corosio.StreamSocket.{
  Socket, Runtime, FileCall, deregisters, closes, post_op, post_claimed, parked_of, kinds, post_all,
  cancel_slots,
}
use corosio.StreamSocket.Close.{
  abandon, drop_flags, do_close_socket, do_release_socket, forget_file, drop_fd,
}
use corosio.StreamSocket.Cancel.{Claimed, abandon-claims, abandon-desc, abandon-posts, drop_fd-desc}

-- Posting changes nothing of the socket but its operations.
post_all-rest {ℓ} :
    {A : Type ℓ} (f : Socket → A)
    → ((s : Socket) (o : Kind → Op) → f (record s { ops = o }) ≡ f s)
    → (ks : List Kind) (r : Runtime) → f (post_all ks r).socket ≡ f r.socket
unfolding post_all post_claimed post_op
post_all-rest f h [] r = refl
post_all-rest f h (k ∷ ks) r =
    post_all-rest f h ks (post_claimed k r) ∙ h r.socket (post_claimed k r).socket.ops

abandon-rest {ℓ} :
    {A : Type ℓ} (f : Socket → A)
    → ((s : Socket) (o : Kind → Op) → f (record s { ops = o }) ≡ f s)
    → (r : Runtime) → r.socket.alive ≡ true
    → f (abandon r).socket ≡ f (record r.socket { desc = drop_flags (cancel_slots r.socket).desc })
abandon-rest f h r a =
    let s = cancel_slots r.socket in
    let s1 = record s { desc = drop_flags s.desc } in
    ap (λ t. f t.socket) (abandon-posts r a)
    ∙ post_all-rest f h (parked_of r.socket.desc.parked kinds) (record r { socket = s1 })
    ∙ h (record r.socket { desc = drop_flags s.desc }) s.ops

-- The calls that drop a file: a registered one is deregistered, and then the file is closed, if it is
-- to be closed.
abbrev pub calls_to_drop : Bool → Bool → Option ℕ → List FileCall
calls_to_drop registered closing none = []
calls_to_drop true true (some fd) = deregisters fd ∷ closes fd ∷ []
calls_to_drop true false (some fd) = deregisters fd ∷ []
calls_to_drop false true (some fd) = closes fd ∷ []
calls_to_drop false false (some fd) = []

-- No cached edge, no pending cancellation and no file is left.
abbrev pub IsShut : Socket → Type 0
IsShut s =
    (s.fd ≡ none)
    × (s.desc.registered ≡ false)
    × (s.desc.read_ready ≡ false)
    × (s.desc.write_ready ≡ false)
    × ((k : Kind) → s.desc.cancel_pending k ≡ false)
    × (s.local_endpoint ≡ of_port 0)

drop_fd-ops : (c : Bool) (fd : Option ℕ) (s : Socket) → (drop_fd c fd s).ops ≡ s.ops
drop_fd-ops c none s = refl
drop_fd-ops c (some n) s = ground arith

drop_fd-fd : (c : Bool) (fd : Option ℕ) (s : Socket) → fd ≡ s.fd → (drop_fd c fd s).fd ≡ none
drop_fd-fd c none s e = sym e
drop_fd-fd c (some n) s e = refl

log-calls :
    (b c : Bool) (n : ℕ) (xs : List FileCall)
    → (let ys = if b then xs ++ deregisters n ∷ [] else xs in if c then ys ++ closes n ∷ [] else ys)
      ≡ xs ++ calls_to_drop b c (some n)
log-calls true true n xs = append_assoc xs (deregisters n ∷ []) (closes n ∷ [])
log-calls true false n xs = refl
log-calls false true n xs = refl
log-calls false false n xs = sym (append-nil xs)

drop_fd-calls :
    (c : Bool) (fd : Option ℕ) (s : Socket)
    → (drop_fd c fd s).file_calls ≡ s.file_calls ++ calls_to_drop s.desc.registered c fd
drop_fd-calls c none s = sym (append-nil s.file_calls)
drop_fd-calls c (some n) s = ground (arith, log-calls s.desc.registered c n s.file_calls)

-- The file is dropped after what `r` was has been claimed.
abbrev pub Dropped : Bool → Runtime → Runtime → Type 0
Dropped closing r t =
    Claimed r t
    × IsShut t.socket
    × (t.socket.file_calls
        ≡ r.socket.file_calls ++ calls_to_drop r.socket.desc.registered closing r.socket.fd)
    × (r.socket.desc.is_enqueued ≡ true → t.socket.desc.impl_ref ≡ true)

forget_file-claims :
    (closing : Bool) (r t : Runtime)
    → Claimed r t
    → Claimed r (record t { socket = forget_file closing t.socket })
forget_file-claims closing r t c =
    let o = drop_fd-ops closing t.socket.fd t.socket in
    (
      (λ k. ap (λ d. d.parked k) (drop_fd-desc closing t.socket.fd t.socket) ∙ c.0 k),
      (λ k. ap (λ f. (f k).cancelled) o ∙ c.1 k),
      (λ k h. ap (λ f. (f k).has_impl) o ∙ c.2 k h),
      c.3,
    )

forget_file-IsShut :
    (closing : Bool) (s : Socket) (d : Descriptor)
    → s.desc ≡ drop_flags d
    → IsShut (forget_file closing s)
forget_file-IsShut closing s d e =
    let q = drop_fd-desc closing s.fd s ∙ e in
    (
      drop_fd-fd closing s.fd s refl,
      refl,
      ap (λ d. d.read_ready) q,
      ap (λ d. d.write_ready) q,
      (λ k. ap (λ d. d.cancel_pending k) q),
      refl,
    )

dropped :
    (closing : Bool) (r : Runtime)
    → r.socket.alive ≡ true
    → let t = abandon r in Dropped closing r (record t { socket = forget_file closing t.socket })
dropped closing r a =
    let t = abandon r in
    let q = drop_fd-desc closing t.socket.fd t.socket ∙ abandon-desc r a in
    (
      forget_file-claims closing r t (abandon-claims r a),
      forget_file-IsShut closing t.socket (cancel_slots r.socket).desc (abandon-desc r a),
      drop_fd-calls closing t.socket.fd t.socket
          ∙ abandon-rest (λ s. s.file_calls ++ calls_to_drop s.desc.registered closing s.fd)
              (λ s o. refl) r a,
      (λ e. ap (λ d. d.impl_ref) q ∙ kept r.socket.desc.is_enqueued r.socket.desc.impl_ref e),
    )
  where
    kept : (b c : Bool) → b ≡ true → (if b then true else c) ≡ true
    kept true c e = refl
    kept false c e = ground arith

-- do_close_socket on a live socket claims every parked operation and posts it once as cancelled,
-- leaves no cached edge and no pending cancellation, deregisters its file, if it is registered, and
-- then closes it, in this order and without another such call, forgets both endpoints, and lets a
-- queued descriptor keep the socket. Without a file it makes no such call.
pub do_close_socket-drops :
    (r : Runtime)
    → r.socket.alive ≡ true
    → let t = do_close_socket r in Dropped true r t × (t.socket.remote_endpoint ≡ of_port 0)
unfolding do_close_socket
do_close_socket-drops r a = (dropped true r a, refl)

-- do_release_socket on a live socket does the same but closes no file, and returns the file that the
-- socket had.
pub do_release_socket-drops :
    (r : Runtime)
    → r.socket.alive ≡ true
    → let t = do_release_socket r in Dropped false r t.runtime × (t.handle ≡ r.socket.fd)
unfolding do_release_socket
do_release_socket-drops r a = (dropped false r a, abandon-rest (λ s. s.fd) (λ s o. refl) r a)

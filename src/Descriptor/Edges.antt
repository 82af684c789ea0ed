-- ===== src/Descriptor/Edges.antt =====
-- The cached edges of a descriptor.
use corosio.Base.{
  ℕ, ◌≡◌, refl, ap, ◌∙◌, Bool, true, false, not, ◌&&◌, ◌||◌, [], ◌==◌, if◌then◌else◌, arith,
  Bool-cases, inl, inr,
}
use corosio.Descriptor.{
  Kind, conn, rd, wr, wait_rd, wait_wr, wait_er, Op, Kernel, Events, Descriptor, Deferred,
  would_block, attempt, set_op, finish, try_io, complete_parked, read_part, finish_connect,
  finish_write, note_write, write_part, error_part, event_error, dispatch_with, dispatch_events,
  take_events, deferred_io, is_none,
}

-- A cached edge and an operation that it would complete are not there together: an operation is only
-- parked after an attempt that follows the last edge.
abbrev pub edges_ok : Descriptor → Bool
edges_ok d =
    not (d.read_ready && d.parked rd) && not (d.write_ready && (d.parked conn || d.parked wr))

finish-edges :
    (k : Kind) (s : Deferred) → edges_ok s.desc ≡ true → edges_ok (finish k s).desc ≡ true
unfolding finish
finish-edges k s e = ground arith

complete_parked-edges :
    (err : ℕ) (k : Kind) (s : Deferred)
    → edges_ok s.desc ≡ true
    → edges_ok (complete_parked err k s).desc ≡ true
unfolding complete_parked finish
complete_parked-edges err k s e = elim (Bool-cases (s.desc.parked k)) [
  | inl h ↦ rw (h) (ground arith)
  | inr h ↦ rw (h) e
]

try_io-edges :
    (env : Kernel) (err : ℕ) (k : Kind) (s : Deferred)
    → edges_ok s.desc ≡ true
    → edges_ok (try_io env err k s).desc ≡ true
unfolding try_io
try_io-edges env err k s e =
    elim (Bool-cases (would_block env (attempt env err k (s.ops k)).errn)) [
      | inl b ↦ rw (b) e
      | inr b ↦ rw (b) (finish-edges k (set_op k (attempt env err k (s.ops k)) s) e)
    ]

read_part-edges :
    (env : Kernel) (err : ℕ) (s : Deferred)
    → edges_ok s.desc ≡ true
    → edges_ok (read_part env err s).desc ≡ true
unfolding read_part
read_part-edges env err s e = elim (Bool-cases (s.desc.parked rd)) [
  | inl h ↦
      rw (h) (complete_parked-edges err wait_rd (try_io env err rd s) (try_io-edges env err rd s e))
  | inr h ↦ rw (h) (
      complete_parked-edges err wait_rd (record s { desc = record s.desc { read_ready = true } })
        (ground arith))
]

finish_connect-edges :
    (env : Kernel) (err : ℕ) (s : Deferred)
    → edges_ok s.desc ≡ true
    → edges_ok (finish_connect env err s).desc ≡ true
unfolding finish_connect
finish_connect-edges env err s e = elim (Bool-cases (s.desc.parked conn)) [
  | inl h ↦ rw (h) (finish-edges conn (set_op conn (attempt env err conn (s.ops conn)) s) e)
  | inr h ↦ rw (h) e
]

finish_write-edges :
    (env : Kernel) (err : ℕ) (s : Deferred)
    → edges_ok s.desc ≡ true
    → edges_ok (finish_write env err s).desc ≡ true
unfolding finish_write
finish_write-edges env err s e = elim (Bool-cases (s.desc.parked wr)) [
  | inl h ↦ rw (h) (try_io-edges env err wr s e)
  | inr h ↦ rw (h) e
]

-- Without a connect or a write to complete, the write part leaves both slots empty.
write-idle :
    (env : Kernel) (err : ℕ) (s : Deferred)
    → (s.desc.parked conn || s.desc.parked wr) ≡ false
    → finish_write env err (finish_connect env err s) ≡ s
unfolding finish_write finish_connect
write-idle env err s h = rw (or_left h) (rw (or_right h) refl)
  where
    or_left : (s.desc.parked conn || s.desc.parked wr) ≡ false → s.desc.parked conn ≡ false
    or_left h = ground arith

    or_right : (s.desc.parked conn || s.desc.parked wr) ≡ false → s.desc.parked wr ≡ false
    or_right h = ground arith

note_write-edges :
    (b : Bool) (s : Deferred)
    → (b ≡ false → (s.desc.parked conn || s.desc.parked wr) ≡ false)
    → edges_ok s.desc ≡ true
    → edges_ok (note_write b s).desc ≡ true
unfolding note_write
note_write-edges true s h e = e
note_write-edges false s h e = ground (arith, h refl)

write_part-edges :
    (env : Kernel) (err : ℕ) (s : Deferred)
    → edges_ok s.desc ≡ true
    → edges_ok (write_part env err s).desc ≡ true
unfolding write_part
write_part-edges env err s e =
    let b = s.desc.parked conn || s.desc.parked wr in
    let s1 = finish_connect env err s in
    let s2 = finish_write env err s1 in
    complete_parked-edges err wait_wr (note_write b s2) (
      note_write-edges b s2
        (λ h. ap (λ t. t.desc.parked conn || t.desc.parked wr) (write-idle env err s h) ∙ h)
        (finish_write-edges env err s1 (finish_connect-edges env err s e)))

error_part-edges :
    (err : ℕ) (s : Deferred) → edges_ok s.desc ≡ true → edges_ok (error_part err s).desc ≡ true
unfolding error_part
error_part-edges err s e =
    let s1 = complete_parked err rd s in
    let s2 = complete_parked err wr s1 in
    let s3 = complete_parked err conn s2 in
    let s4 = complete_parked err wait_rd s3 in
    complete_parked-edges err wait_wr s4 (
      complete_parked-edges err wait_rd s3 (
        complete_parked-edges err conn s2
          (complete_parked-edges err wr s1 (complete_parked-edges err rd s e))))

edges-if :
    (b : Bool) (s t : Deferred)
    → edges_ok s.desc ≡ true
    → edges_ok t.desc ≡ true
    → edges_ok (if b then s else t).desc ≡ true
edges-if true s t p q = p
edges-if false s t p q = q

dispatch_with-edges :
    (env : Kernel) (ev : Events) (err : ℕ) (s : Deferred)
    → edges_ok s.desc ≡ true
    → edges_ok (dispatch_with env ev err s).desc ≡ true
unfolding dispatch_with
dispatch_with-edges env ev err s e =
    let s1 = if ev.read then read_part env err s else s in
    let s2 = if ev.write then write_part env err s1 else s1 in
    let s3 = if ev.error || not (err == 0) then complete_parked err wait_er s2 else s2 in
    let e1 = edges-if ev.read (read_part env err s) s (read_part-edges env err s e) e in
    let e2 = edges-if ev.write (write_part env err s1) s1 (write_part-edges env err s1 e1) e1 in
    let e3 =
      edges-if (ev.error || not (err == 0)) (complete_parked err wait_er s2) s2
        (complete_parked-edges err wait_er s2 e2) e2 in
    edges-if (err == 0) s3 (error_part err s3) e3 (error_part-edges err s3 e3)

-- invoke_deferred_io keeps it that no cached edge stands beside an operation that it would complete.
pub deferred_io-edges :
    (env : Kernel) (d : Descriptor) (ops : Kind → Op)
    → edges_ok d ≡ true
    → edges_ok (deferred_io env d ops).desc ≡ true
unfolding deferred_io take_events dispatch_events
deferred_io-edges env d ops e =
    let s : Deferred = record { desc = take_events d; ops = ops; local_ops = [] } in
    edges-if (is_none d.ready_events) s (dispatch_events env d.ready_events s) e
      (dispatch_with-edges env d.ready_events (event_error env d.ready_events) s e)

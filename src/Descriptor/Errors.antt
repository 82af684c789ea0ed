-- ===== src/Descriptor/Errors.antt =====
-- An error event in invoke_deferred_io.
use corosio.Base.{
  if_true, if_false, ℕ, ◌≡◌, Bool, true, false, not, ◌||◌, ◌&&◌, ◌==◌, if◌then◌else◌, arith, [], ap,
  ◌∙◌, Bool-cases, inl, inr,
}
use corosio.Descriptor.{
  complete, Syscall, returns, fails, Kind, conn, rd, wr, wait_rd, wait_wr, wait_er, ◌is◌, Op,
  Kernel, Events, Descriptor, Deferred, attempt, finish, try_io, complete_parked, read_part,
  finish_connect, finish_write, note_write, write_part, error_part, event_error, socket_error,
  dispatch_with, dispatch_events, take_events, deferred_io, is_none,
}
use corosio.Descriptor.Conserve.{same_value}

-- The operation is parked still, or its result is the error.
abbrev told : ℕ → Kind → Deferred → Bool
told err k s = s.desc.parked k || (s.ops k).errn == err

complete_parked-told :
    (err : ℕ) (k j : Kind) (s : Deferred)
    → told err j s ≡ true
    → told err j (complete_parked err k s) ≡ true
unfolding complete_parked finish complete
complete_parked-told err k j s t = elim (Bool-cases (s.desc.parked k)) [
  | inl e ↦ rw (e) (ground arith)
  | inr e ↦ rw (e) t
]

try_io-told :
    (env : Kernel) (err : ℕ) (k j : Kind) (s : Deferred)
    → (err == 0) ≡ false
    → s.desc.parked k ≡ true
    → told err j s ≡ true
    → told err j (try_io env err k s) ≡ true
unfolding try_io attempt finish complete
try_io-told env err k j s n p t = rw (n) (ground (arith, same_value s.desc.parked j k))

read_part-told :
    (env : Kernel) (err : ℕ) (j : Kind) (s : Deferred)
    → (err == 0) ≡ false
    → told err j s ≡ true
    → told err j (read_part env err s) ≡ true
unfolding read_part
read_part-told env err j s n t = elim (Bool-cases (s.desc.parked rd)) [
  | inl e ↦
      rw (e) (
        complete_parked-told err wait_rd j (try_io env err rd s) (try_io-told env err rd j s n e t))
  | inr e ↦ rw (e) (
      complete_parked-told err wait_rd j (record s { desc = record s.desc { read_ready = true } })
        t)
]

finish_connect-told :
    (env : Kernel) (err : ℕ) (j : Kind) (s : Deferred)
    → (err == 0) ≡ false
    → told err j s ≡ true
    → told err j (finish_connect env err s) ≡ true
unfolding finish_connect finish attempt complete
finish_connect-told env err j s n t = elim (Bool-cases (s.desc.parked conn)) [
  | inl e ↦ rw (e, n) (ground (arith, same_value s.desc.parked j conn))
  | inr e ↦ rw (e) t
]

finish_write-told :
    (env : Kernel) (err : ℕ) (j : Kind) (s : Deferred)
    → (err == 0) ≡ false
    → told err j s ≡ true
    → told err j (finish_write env err s) ≡ true
unfolding finish_write
finish_write-told env err j s n t = elim (Bool-cases (s.desc.parked wr)) [
  | inl e ↦ rw (e) (try_io-told env err wr j s n e t)
  | inr e ↦ rw (e) t
]

note_write-told :
    (b : Bool) (err : ℕ) (j : Kind) (s : Deferred)
    → told err j s ≡ true
    → told err j (note_write b s) ≡ true
unfolding note_write
note_write-told true err j s t = t
note_write-told false err j s t = t

write_part-told :
    (env : Kernel) (err : ℕ) (j : Kind) (s : Deferred)
    → (err == 0) ≡ false
    → told err j s ≡ true
    → told err j (write_part env err s) ≡ true
unfolding write_part
write_part-told env err j s n t =
    let s1 = finish_connect env err s in
    let s2 = finish_write env err s1 in
    let s3 = note_write (s.desc.parked conn || s.desc.parked wr) s2 in
    complete_parked-told err wait_wr j s3 (
      note_write-told (s.desc.parked conn || s.desc.parked wr) err j s2
        (finish_write-told env err j s1 n (finish_connect-told env err j s n t)))

error_part-told :
    (err : ℕ) (j : Kind) (s : Deferred) → told err j s ≡ true → told err j (error_part err s) ≡ true
unfolding error_part
error_part-told err j s t =
    let s1 = complete_parked err rd s in
    let s2 = complete_parked err wr s1 in
    let s3 = complete_parked err conn s2 in
    let s4 = complete_parked err wait_rd s3 in
    complete_parked-told err wait_wr j s4 (
      complete_parked-told err wait_rd j s3 (
        complete_parked-told err conn j s2
          (complete_parked-told err wr j s1 (complete_parked-told err rd j s t))))

complete_parked-parked :
    (err : ℕ) (k j : Kind) (s : Deferred)
    → (complete_parked err k s).desc.parked j ≡ s.desc.parked j && not (j is k)
unfolding complete_parked finish
complete_parked-parked err k j s = elim (Bool-cases (s.desc.parked k)) [
  | inl e ↦ rw (e) (ground arith)
  | inr e ↦ rw (e) (ground (arith, same_value s.desc.parked j k))
]

all_but_wait_er :
    (j : Kind) (b : Bool)
    → ((((b && not (j is rd)) && not (j is wr)) && not (j is conn)) && not (j is wait_rd))
        && not (j is wait_wr)
      ≡ b && (j is wait_er)
all_but_wait_er conn b = ground arith
all_but_wait_er rd b = ground arith
all_but_wait_er wr b = ground arith
all_but_wait_er wait_rd b = ground arith
all_but_wait_er wait_wr b = ground arith
all_but_wait_er wait_er b = ground arith

error_part-parked :
    (err : ℕ) (j : Kind) (s : Deferred)
    → (error_part err s).desc.parked j ≡ s.desc.parked j && (j is wait_er)
unfolding error_part
error_part-parked err j s =
    let s1 = complete_parked err rd s in
    let s2 = complete_parked err wr s1 in
    let s3 = complete_parked err conn s2 in
    let s4 = complete_parked err wait_rd s3 in
    rw
      (
        complete_parked-parked err wait_wr j s4,
        complete_parked-parked err wait_rd j s3,
        complete_parked-parked err conn j s2,
        complete_parked-parked err wr j s1,
        complete_parked-parked err rd j s,
      )
      (all_but_wait_er j (s.desc.parked j))

socket_error-nonzero :
    (env : Kernel) (r : Syscall) → (env.eio == 0) ≡ false → (socket_error env r == 0) ≡ false
unfolding socket_error
socket_error-nonzero env (returns err) n = ground arith
socket_error-nonzero env (fails err) n = ground arith

told-if :
    (b : Bool) (err : ℕ) (j : Kind) (s t : Deferred)
    → told err j s ≡ true
    → told err j t ≡ true
    → told err j (if b then s else t) ≡ true
told-if true err j s t p q = p
told-if false err j s t p q = q

abbrev Failed : ℕ → Kind → Deferred → Type 0
Failed err j s = (told err j s ≡ true) × (s.desc.parked j ≡ false)

failing_tail :
    (b c : Bool) (err : ℕ) (j : Kind) (s : Deferred)
    → b ≡ true
    → c ≡ false
    → told err j s ≡ true
    → let s3 = if b || not c then complete_parked err wait_er s else s in
      Failed err j (if c then s3 else error_part err s3)
failing_tail true false err j s p q t =
    let s3 = complete_parked err wait_er s in
    (
      error_part-told err j s3 (complete_parked-told err wait_er j s t),
      (rw (error_part-parked err j s3, complete_parked-parked err wait_er j s) (ground arith)),
    )
failing_tail true true err j s p q t = ground arith
failing_tail false c err j s p q t = ground arith

dispatch_failing :
    (env : Kernel) (ev : Events) (err : ℕ) (j : Kind) (s : Deferred)
    → (err == 0) ≡ false
    → ev.error ≡ true
    → told err j s ≡ true
    → Failed err j (dispatch_with env ev err s)
unfolding dispatch_with
dispatch_failing env ev err j s nz e t =
    let s1 = if ev.read then read_part env err s else s in
    let s2 = if ev.write then write_part env err s1 else s1 in
    let t1 = told-if ev.read err j (read_part env err s) s (read_part-told env err j s nz t) t in
    let t2 =
      told-if ev.write err j (write_part env err s1) s1 (write_part-told env err j s1 nz t1) t1 in
    failing_tail ev.error (err == 0) err j s2 e nz t2

abbrev taken : Descriptor → (Kind → Op) → Deferred
taken d ops = record { desc = take_events d; ops = ops; local_ops = [] }

deferred_io-on_error :
    (env : Kernel) (d : Descriptor) (ops : Kind → Op)
    → d.ready_events.error ≡ true
    → deferred_io env d ops
      ≡ dispatch_with env d.ready_events (socket_error env env.so_error) (taken d ops)
unfolding deferred_io dispatch_events event_error
deferred_io-on_error env d ops e =
    if_false (is_none d.ready_events) (taken d ops)
      (dispatch_events env d.ready_events (taken d ops)) (ground arith)
    ∙ ap (λ err. dispatch_with env d.ready_events err (taken d ops))
        (if_true d.ready_events.error (socket_error env env.so_error) 0 e)

taken-told :
    (err : ℕ) (d : Descriptor) (ops : Kind → Op) (k : Kind)
    → d.parked k ≡ true
    → told err k (taken d ops) ≡ true
unfolding take_events
taken-told err d ops k p = ground arith

-- If EIO is not 0 and an error event has come, then invoke_deferred_io leaves no operation parked
-- that was, and its result is the socket's error, which is not 0.
pub deferred_io-fails_all :
    (env : Kernel) (d : Descriptor) (ops : Kind → Op) (k : Kind)
    → (env.eio == 0) ≡ false
    → d.ready_events.error ≡ true
    → d.parked k ≡ true
    → let s = deferred_io env d ops in
      (s.desc.parked k ≡ false)
      × ((s.ops k).errn ≡ socket_error env env.so_error)
      × ((socket_error env env.so_error == 0) ≡ false)
deferred_io-fails_all env d ops k n e p =
    let err = socket_error env env.so_error in
    let nz = socket_error-nonzero env env.so_error n in
    let f =
      dispatch_failing env d.ready_events err k (taken d ops) nz e (taken-told err d ops k p) in
    rw (deferred_io-on_error env d ops e) (f.1, ground (arith, f.0, f.1), nz)

-- ===== src/StreamSocket/Result.antt =====
-- The result that a caller sees: make_err.hpp, decode_io_result of coro_op_complete.hpp, the handlers of
-- reactor_op_complete.hpp, and the results that reactor_stream_socket.hpp gives at once.
use corosio.Base.{
  ℕ, if_true, ◌≡◌, refl, ap, ◌∙◌, Bool, true, false, not, ◌&&◌, ◌==◌, if◌then◌else◌, arith, Option,
  none, some,
}
use corosio.Descriptor.{Kind, conn, rd, wr, wait_rd, wait_wr, wait_er, ◌is◌, Op, complete, is_wait}
use corosio.Descriptor.Conserve.{is_refl}
use corosio.Scheduler.{try_consume_inline_budget}
use corosio.StreamSocket.{Runtime}
use corosio.StreamSocket.Start.{Started, resumed, suspended, Begun, give, post_ready, start_op}

-- A std::error_code: none, an errno of the system, or one of capy's.
pub data ErrorCode : Type 0 where
  no_error canceled eof : ErrorCode
  system : ℕ → ErrorCode

-- make_err on POSIX; `ecanceled` is ECANCELED.
unfoldable pub make_err : ℕ → ℕ → ErrorCode
make_err ecanceled errn =
    if errn == 0 then no_error else if errn == ecanceled then canceled else system errn

abbrev pub is_error : ErrorCode → Bool
is_error no_error = false
is_error _ = true

unfoldable pub decode_io_result : Bool → ErrorCode → Bool → ℕ → Bool → ErrorCode
decode_io_result cancelled err is_read bytes empty_buffer =
    if cancelled
    then canceled
    else if is_error err
    then err
    else if is_read && (bytes == 0 && not empty_buffer)
    then eof
    else no_error

-- What the caller's pointers hold: the error code, and the byte count where one is stored.
pub record Result : Type 0 where
  pub ec : ErrorCode
  pub bytes_out : Option ℕ

abbrev pub handler_error : ℕ → Bool → ℕ → Op → ErrorCode
unfolding make_err decode_io_result
handler_error ecanceled is_read bytes o =
    decode_io_result o.cancelled (if o.errn == 0 then no_error else make_err ecanceled o.errn)
      is_read bytes false

-- What the handlers of completed operations store.
unfoldable pub complete_io_op : ℕ → Bool → Op → Result
complete_io_op ecanceled is_read o = record {
  ec = handler_error ecanceled is_read o.bytes_transferred o;
  bytes_out = some o.bytes_transferred;
}

unfoldable pub complete_wait_op : ℕ → Op → Result
complete_wait_op ecanceled o = record { ec = handler_error ecanceled false 0 o; bytes_out = none }

-- The endpoints that it caches are no result.
unfoldable pub complete_connect_op : ℕ → Op → Result
complete_connect_op ecanceled o = record {
  ec = handler_error ecanceled false 0 o;
  bytes_out = none;
}

-- The handler of each operation, operator() of the operations of reactor_stream_ops.hpp.
unfoldable pub handler_result : ℕ → Kind → Op → Result
handler_result ecanceled rd o = complete_io_op ecanceled true o
handler_result ecanceled wr o = complete_io_op ecanceled false o
handler_result ecanceled conn o = complete_connect_op ecanceled o
handler_result ecanceled _ o = complete_wait_op ecanceled o

-- What do_read_some, do_write_some, do_connect and do_wait store for a result that they give at once.
unfoldable pub read_result : ℕ → ℕ → ℕ → Result
unfolding make_err
read_result ecanceled err bytes = record {
  ec = if not (err == 0) then make_err ecanceled err else if bytes == 0 then eof else no_error;
  bytes_out = some bytes;
}

unfoldable pub write_result : ℕ → ℕ → ℕ → Result
unfolding make_err
write_result ecanceled err bytes = record {
  ec = if not (err == 0) then make_err ecanceled err else no_error;
  bytes_out = some bytes;
}

unfoldable pub connect_result : ℕ → ℕ → Result
unfolding make_err
connect_result ecanceled err = record {
  ec = if not (err == 0) then make_err ecanceled err else no_error;
  bytes_out = none;
}

unfoldable pub wait_result : Result
wait_result = record { ec = no_error; bytes_out = none }

abbrev pub inline_result : ℕ → Kind → ℕ → ℕ → Result
inline_result ecanceled rd err bytes = read_result ecanceled err bytes
inline_result ecanceled wr err bytes = write_result ecanceled err bytes
inline_result ecanceled conn err bytes = connect_result ecanceled err
inline_result ecanceled _ err bytes = wait_result

-- What the caller sees: at once, or when the handler of its operation runs.
abbrev pub reported : ℕ → Kind → Started → Op → Result
reported ecanceled k (resumed err bytes) o = inline_result ecanceled k err bytes
reported ecanceled k suspended o = handler_result ecanceled k o

abbrev pub seen : ℕ → Kind → Begun → Result
seen ecanceled k b = reported ecanceled k b.outcome (b.runtime.socket.ops k)

completed-result :
    (ecanceled : ℕ) (k : Kind) (err bytes : ℕ)
    → (is_wait k ≡ true → err ≡ 0)
    → handler_result ecanceled k (complete err bytes start_op) ≡ inline_result ecanceled k err bytes
unfolding handler_result complete_io_op complete_wait_op complete_connect_op read_result
    write_result connect_result wait_result make_err decode_io_result complete
completed-result ecanceled rd err bytes h = ground arith
completed-result ecanceled wr err bytes h = ground arith
completed-result ecanceled conn err bytes h = ground arith
completed-result ecanceled wait_rd err bytes h = let e = h refl in ground arith
completed-result ecanceled wait_wr err bytes h = let e = h refl in ground arith
completed-result ecanceled wait_er err bytes h = let e = h refl in ground arith

seen-if :
    (e : ℕ) (k : Kind) (b : Bool) (x y : Begun) (c : Result)
    → seen e k x ≡ c
    → seen e k y ≡ c
    → seen e k (if b then x else y) ≡ c
seen-if e k true x y c p q = p
seen-if e k false x y c p q = q

-- A result that is known when an operation starts, of a wait one without an error, is reported the
-- same, in its error code and in whether and which byte count is stored, whether the inline budget
-- lasts, so that the coroutine goes on at once, or the operation is posted and its handler reports it
-- uncancelled.
pub give-seen :
    (ecanceled : ℕ) (k : Kind) (err bytes : ℕ) (r : Runtime)
    → (is_wait k ≡ true → err ≡ 0)
    → seen ecanceled k (give k err bytes r) ≡ inline_result ecanceled k err bytes
unfolding give post_ready
give-seen ecanceled k err bytes r h =
    let c = try_consume_inline_budget r.sched.config r.ctx in
    let r1 = record r { ctx = c.frame } in
    seen-if ecanceled k c.took (record { outcome = resumed err bytes; runtime = r1 })
      (record { outcome = suspended; runtime = post_ready k (complete err bytes start_op) r1 })
      (inline_result ecanceled k err bytes) refl
      (ap (handler_result ecanceled k)
          (if_true (k is k) (complete err bytes start_op) (r.socket.ops k) (is_refl k))
        ∙ completed-result ecanceled k err bytes h)

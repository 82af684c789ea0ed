-- ===== src/Descriptor/Tests.antt =====
-- Runs of invoke_deferred_io.
use corosio.Base.{◌+◌, ◌≡◌, refl, true, false, ◌==◌, [], ◌∷◌, ◌||◌}
use corosio.Descriptor.{
  Kind, rd, wr, wait_rd, ◌is◌, Op, Syscall, returns, fails, Kernel, Events, no_events, Descriptor,
  socket_error, event_error, deferred_io, count_kind,
}
use corosio.Descriptor.Conserve.{bit, deferred_io-tally}
use corosio.Descriptor.Errors.{deferred_io-fails_all}

-- A system that has five bytes to read, no room to write, and ECONNRESET on its socket.
abbrev system_calls : Kind → Syscall
system_calls wr = fails 11
system_calls _ = returns 5

abbrev linux : Kernel
linux = record { io = system_calls; so_error = returns 104; eagain = 11; ewouldblock = 11; eio = 5 }

abbrev fresh : Kind → Op
fresh k = record { errn = 0; bytes_transferred = 0; cancelled = false; has_impl = true }

abbrev with_events : Events → Descriptor
with_events ev = record {
  parked = λ k. k is rd || k is wr || k is wait_rd;
  read_ready = false;
  write_ready = false;
  cancel_pending = λ k. false;
  registered = true;
  ready_events = ev;
  is_enqueued = true;
  impl_ref = true;
}

abbrev readable : Events
readable = record { read = true; write = true; error = false; other = false }

abbrev broken : Events
broken = record { read = true; write = false; error = true; other = true }

-- The read and the wait complete; the write would block and stays parked.
reads : (deferred_io linux (with_events readable) fresh).local_ops ≡ rd ∷ wait_rd ∷ []
unfolding deferred_io event_error
reads = refl

blocked : (deferred_io linux (with_events readable) fresh).desc.parked wr ≡ true
unfolding deferred_io event_error
blocked = refl

spurious : (deferred_io linux (with_events no_events) fresh).local_ops ≡ []
unfolding deferred_io event_error
spurious = refl

-- An error completes the write too.
breaks : (deferred_io linux (with_events broken) fresh).local_ops ≡ rd ∷ wait_rd ∷ wr ∷ []
unfolding deferred_io event_error
breaks = refl

deferred_io-tally_example :
    let s = deferred_io linux (with_events readable) fresh in
    count_kind rd s.local_ops + bit (s.desc.parked rd) ≡ bit ((with_events readable).parked rd)
deferred_io-tally_example = deferred_io-tally linux (with_events readable) fresh rd

deferred_io-fails_all_example :
    let s = deferred_io linux (with_events broken) fresh in
    (s.desc.parked wr ≡ false)
    × ((s.ops wr).errn ≡ socket_error linux linux.so_error)
    × ((socket_error linux linux.so_error == 0) ≡ false)
deferred_io-fails_all_example =
    deferred_io-fails_all linux (with_events broken) fresh wr refl refl refl

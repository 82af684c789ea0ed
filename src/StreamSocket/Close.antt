-- ===== src/StreamSocket/Close.antt =====
-- Opening, closing and releasing a socket: init_and_register, do_close_socket and do_release_socket.
use corosio.Base.{Bool, true, false, Option, none, some, [], ◌∷◌, ◌++◌, if◌then◌else◌, ℕ}
use corosio.Descriptor.{conn, rd, wr, put, Descriptor}
use corosio.Endpoint.{of_port}
use corosio.StreamSocket.{
  Socket, Runtime, deregisters, closes, cancel_slots, parked_of, kinds, post_all,
}

-- The cached edges and the pending cancellations are dropped, and a descriptor in the scheduler's
-- queue keeps the socket.
abbrev pub drop_flags : Descriptor → Descriptor
drop_flags d = record d {
  read_ready = false;
  write_ready = false;
  cancel_pending = λ k. false;
  impl_ref = if d.is_enqueued then true else d.impl_ref;
}

-- `if (self)`
unfoldable pub abandon : Runtime → Runtime
unfolding post_all
abandon r =
    let s = cancel_slots r.socket in
    if r.socket.alive
    then post_all (parked_of r.socket.desc.parked kinds)
        (record r { socket = record s { desc = drop_flags s.desc } })
    else r

abbrev pub deregister : ℕ → Socket → Socket
deregister fd s =
    if s.desc.registered then record s { file_calls = s.file_calls ++ deregisters fd ∷ [] } else s

-- `::close(fd)`
abbrev pub close_file : ℕ → Socket → Socket
close_file fd s = record s { file_calls = s.file_calls ++ closes fd ∷ [] }

-- `if (fd_ >= 0)`; `closing` is whether the file is closed.
abbrev pub drop_fd : Bool → Option ℕ → Socket → Socket
drop_fd closing none s = s
drop_fd closing (some fd) s =
    let s1 = deregister fd s in record (if closing then close_file fd s1 else s1) { fd = none }

-- What follows the cancellation; the remote endpoint is that of reactor_stream_socket.
abbrev pub forget_file : Bool → Socket → Socket
forget_file closing s =
    let s1 = drop_fd closing s.fd s in
    record s1 { desc = record s1.desc { registered = false }; local_endpoint = of_port 0 }

unfoldable pub do_close_socket : Runtime → Runtime
unfolding abandon
do_close_socket r =
    let r1 = abandon r in
    let s = forget_file true r1.socket in
    record r1 { socket = record s { remote_endpoint = of_port 0 } }

pub record Released : Type 0 where
  pub handle : Option ℕ
  pub runtime : Runtime

unfoldable pub do_release_socket : Runtime → Released
unfolding abandon
do_release_socket r =
    let r1 = abandon r in
    record { handle = r1.socket.fd; runtime = record r1 { socket = forget_file false r1.socket } }

-- init_and_register; `registers` is register_descriptor of the backend.
unfoldable pub init_and_register : (Descriptor → Descriptor) → ℕ → Socket → Socket
init_and_register registers fd s = record s {
  fd = some fd;
  desc =
      registers
        (record s.desc { parked = put (put (put s.desc.parked rd false) wr false) conn false });
}

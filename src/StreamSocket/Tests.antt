-- ===== src/StreamSocket/Tests.antt =====
-- Runs of a stream socket.
use corosio.Base.{ℕ, ◌≡◌, refl, Bool, true, false, ◌||◌, some, [], ◌∷◌, ◌++◌}
use corosio.Descriptor.{Kind, rd, wr, wait_er, ◌is◌, returns, fails, Kernel, Events, no_events}
use corosio.Endpoint.{of_port}
use corosio.Scheduler.{descriptor, Context, Scheduler}
use corosio.StreamSocket.{
  Socket, Runtime, read_ready_flag, cancel_single_op, register_op, do_cancel,
}
use corosio.StreamSocket.Cancel.{Claimed, queued, entry, do_cancel-claims}
use corosio.StreamSocket.Close.{do_close_socket}
use corosio.StreamSocket.Invoke.{invoke_deferred_io}
use corosio.StreamSocket.Reach.{
  read_some, close, request, set_queue, report, settle, requests, reports, calls_descriptor,
  settles, stays, moves,
}
use corosio.StreamSocket.Result.{seen, inline_result, give-seen}
use corosio.StreamSocket.Shut.{Dropped, do_close_socket-drops}
use corosio.StreamSocket.Sound.{IsSound, Reaches-IsSound}
use corosio.StreamSocket.Stale.{cancel_single_op-lingers}
use corosio.StreamSocket.Start.{begin_op, give}

abbrev linux : Kernel
linux = record { io = λ k. fails 11; so_error = returns 0; eagain = 11; ewouldblock = 11; eio = 5 }

abbrev with_parked : (Kind → Bool) → Socket
with_parked p = record {
  desc = record {
    parked = p;
    read_ready = false;
    write_ready = false;
    cancel_pending = λ k. false;
    registered = true;
    ready_events = no_events;
    is_enqueued = false;
    impl_ref = false;
  };
  ops = λ k. record { errn = 0; bytes_transferred = 0; cancelled = false; has_impl = true };
  fd = some 7;
  alive = true;
  local_endpoint = of_port 80;
  remote_endpoint = of_port 81;
  file_calls = [];
  notified = 0;
}

abbrev frame : Context
frame = record {
  private_queue = [];
  private_outstanding_work = 0;
  inline_budget = 0;
  inline_budget_max = 2;
  unassisted = false;
}

abbrev idle : ℕ → Scheduler
idle work = record {
  completed_ops = [];
  outstanding_work = work;
  stopped = false;
  task_running = false;
  task_interrupted = false;
  one_thread = false;
  config = record {
    max_events_per_poll = 128;
    inline_budget_initial = 2;
    inline_budget_max = 16;
    unassisted_budget = 4;
  };
  state = 0;
  notified_one = 0;
  notified_all = 0;
  interrupts = 0;
}

abbrev unused : Runtime
unused = record { socket = with_parked (λ k. false); ctx = some frame; sched = idle 0 }

-- A read and a wait for an error are parked.
abbrev waiting : Runtime
waiting = record {
  socket = with_parked (λ k. k is rd || k is wait_er);
  ctx = some frame;
  sched = idle 2;
}

-- A read that would block, an event that turns out to bring nothing, and the close.
abbrev asked : Runtime
unfolding request
asked = request linux false (read_some false (fails 11)) unused

abbrev readable : Events
readable = record { read = true; write = false; error = false; other = false }

abbrev reported_to : Runtime
unfolding report asked
reported_to = report readable 9 asked

parks : asked.socket.desc.parked rd ≡ true
unfolding asked request
parks = refl

queues : reported_to.sched.completed_ops ≡ descriptor 9 ∷ []
unfolding reported_to asked report request
queues = refl

has_frame : reported_to.ctx ≡ some frame
unfolding reported_to asked report request
has_frame = refl

abbrev invoked : Runtime
unfolding invoke_deferred_io reported_to
invoked = (invoke_deferred_io linux (set_queue [] reported_to)).runtime

abbrev settled : Runtime
unfolding settle invoked
settled = settle invoked

abbrev closed_down : Runtime
unfolding request settled
closed_down = request linux false close settled

unused-IsSound : IsSound (record { runtime = unused; running = false })
unused-IsSound = record { account = refl; edges = refl }

Reaches-IsSound_example : IsSound (record { runtime = closed_down; running = false })
unfolding asked reported_to invoked settled closed_down
Reaches-IsSound_example =
    Reaches-IsSound linux false (record { runtime = unused; running = false })
      (record { runtime = closed_down; running = false })
      (moves (record { runtime = settled; running = false }) _
        (moves (record { runtime = invoked; running = true }) _
          (moves (record { runtime = reported_to; running = false }) _
            (moves (record { runtime = asked; running = false }) _
              (moves _ _ stays (requests (read_some false (fails 11)) unused false refl))
              (reports readable 9 asked false))
            (calls_descriptor 9 [] frame reported_to has_frame queues))
          (settles invoked))
        (requests close settled false refl))
      unused-IsSound

do_cancel-claims_example : Claimed waiting (do_cancel waiting)
do_cancel-claims_example = do_cancel-claims waiting refl

do_close_socket-drops_example :
    let t = do_close_socket waiting in
    Dropped true waiting t × (t.socket.remote_endpoint ≡ of_port 0)
do_close_socket-drops_example = do_close_socket-drops waiting refl

cancel_single_op-lingers_example :
    let t =
      register_op linux wr read_ready_flag false (begin_op wr (cancel_single_op wr waiting)) in
    (queued (cancel_single_op wr waiting) ≡ queued waiting)
    × (t.socket.desc.parked wr ≡ false)
    × ((t.socket.ops wr).cancelled ≡ true)
    × (queued t ≡ queued waiting ++ entry wr ∷ [])
cancel_single_op-lingers_example =
    cancel_single_op-lingers linux wr read_ready_flag false waiting refl refl

give-seen_example : seen 125 rd (give rd 0 0 waiting) ≡ inline_result 125 rd 0 0
give-seen_example = give-seen 125 rd 0 0 waiting λ e. refl

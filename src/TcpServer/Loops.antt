-- ===== src/TcpServer/Loops.antt =====
-- The accept loops of a tcp_server, its workers' coroutines, and the calls of start and stop, as a
-- step relation. All but start and stop runs on the server's executor: what runs there between two
-- suspensions is one step.
use corosio.Base.{
  ℕ, suc, ◌<◌, ◌≡◌, true, not, if◌then◌else◌, List, Option, none, some, count, update, ltb,
}
use corosio.IntrusiveList.Links.{Holds}
use corosio.TcpServer.Active.{active}
use corosio.TcpServer.{
  TcpServer, idle_empty, suspend_pop, resume_pop, push_sync, launch, launched, bind, start, stop,
  do_stop, accept_done,
}

-- Where an accept loop is: at its test, waiting for a worker, resumed with one, waiting for a
-- connection, about to give the worker back, or at its end.
pub data Loop : Type 0 where
  testing waiting ended : Loop
  woken accepting returning : ℕ → Loop

-- `stopping` is the number of do_stop coroutines that have been posted and have not run.
pub record System : Type 0 where
  pub server : TcpServer
  pub loops : ℕ → Loop
  pub stopping : ℕ

abbrev pub set_loop : ℕ → Loop → System → System
set_loop i l s = record s { loops = update s.loops i l }

-- A waiter that is given a worker is resumed with it.
abbrev pub wake : ℕ → Option ℕ → (ℕ → Loop) → ℕ → Loop
wake w none ls = ls
wake w (some i) ls = update ls i (woken w)

unfoldable pub push : ℕ → System → System
unfolding push_sync
push w s =
    let r = push_sync w s.server in record s { server = r.server; loops = wake w r.woken s.loops }

-- `co_await pop()` of loop `i` that was given this worker, 0 for none.
unfoldable pub resume : ℕ → ℕ → System → System
unfolding resume_pop
resume i given s =
    let p = resume_pop given s.server in
    record s { server = p.server; loops = update s.loops i (accepting p.worker) }

-- The test of the loop, and pop up to its suspension.
unfoldable pub test : ℕ → System → System
unfolding resume
test i s =
    let ends : System = record s {
      server = accept_done s.server;
      loops = update s.loops i ended;
    } in
    let waits : System = record s {
      server = suspend_pop i s.server;
      loops = update s.loops i waiting;
    } in
    let pops : System = resume i 0 s in
    let goes_on : System = if not (idle_empty s.server) then pops else waits in
    if s.server.stop_requested then ends else goes_on

-- What the worker does with its launcher: it launches a coroutine, drops the launcher, or launches
-- it where the set-up throws, which it catches.
pub data Handling : Type 0 where
  launches drops throws : Handling

unfoldable pub run_worker : Handling → ℕ → System → System
unfolding push launch
run_worker launches w s = record s { server = launch w s.server }
run_worker drops w s = push w s
run_worker throws w s = push w (record s { server = launch w s.server })

-- The session that start begins.
abbrev pub begin_session : TcpServer → System → System
begin_session t s = record s { server = t; loops = λ i. if ltb i t.ports then testing else ended }

pub data Moves (s : System) : System → Type 0 where
  tests : (i : ℕ) → s.loops i ≡ testing → Moves s (test i s)
  resumes : (i w : ℕ) → s.loops i ≡ woken w → Moves s (resume i w s)
  accept_fails : (i w : ℕ) → s.loops i ≡ accepting w → Moves s (set_loop i (returning w) s)
  pushes : (i w : ℕ) → s.loops i ≡ returning w → Moves s (push w (set_loop i testing s))
  accepts :
      (h : Handling) (i w : ℕ)
      → s.loops i ≡ accepting w
      → Moves s (run_worker h w (set_loop i testing s))
  -- The coroutine of an active worker ends and gives it back.
  finishes :
      (w : ℕ) (ys : List ℕ) → Holds (active s.server) ys → 0 < count w ys → Moves s (push w s)
  binds : (err : ℕ) → Moves s (record s { server = bind err s.server })
  starts : (t : TcpServer) → start s.server ≡ launched t → Moves s (begin_session t s)
  stops :
      (stop s.server).1 ≡ true
      → Moves s (record s { server = (stop s.server).0; stopping = suc s.stopping })
  stops_workers :
      (n f : ℕ) (t : TcpServer)
      → s.stopping ≡ suc n
      → do_stop f s.server ≡ some t
      → Moves s (record s { server = t; stopping = n })

pub data Reaches (s : System) : System → Type 0 where
  stays : Reaches s s
  moves : (t u : System) → Reaches s t → Moves t u → Reaches s u

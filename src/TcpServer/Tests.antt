-- ===== src/TcpServer/Tests.antt =====
-- Runs of a tcp_server.
use corosio.Base.{ℕ, ◌≡◌, refl, true, false, List, [], ◌∷◌, ◌==◌, if◌then◌else◌, arith, Ensures}
use corosio.IntrusiveList.Links.{Holds}
use corosio.TcpServer.{
  TcpServer, is_joined, set_workers, idle_push, idle_pop, resume_pop, start, stop, do_stop,
  stop_from,
}
use corosio.TcpServer.Active.{active}
use corosio.TcpServer.Loops.{
  waiting, ended, accepting, System, resume, test, begin_session, Moves, tests, starts, stops,
  stops_workers, Reaches, stays, moves,
}
use corosio.TcpServer.Sound.{Staff, IsSound}
use corosio.TcpServer.Runs.{Reaches-keeps_workers}
use corosio.TcpServer.Join.{Joined, is_joined-Joined}
use corosio.TcpServer.Drain.{Stopping}
use corosio.TcpServer.Ends.{Joins, Drains, stopped-Joins}
use corosio.TcpServer.Stop.{Marks, do_stop-Marks}
use corosio.TcpServer.Setup.{set_workers-IsSound}

-- Two ports and no workers yet.
abbrev bound : System
bound = record {
  server = record {
    next = λ z. 0;
    prev = λ z. 0;
    stops = λ z. false;
    idle_head = 0;
    active_head = 0;
    active_tail = 0;
    waiters = [];
    active_accepts = 0;
    is_running = false;
    stop_requested = false;
    ports = 2;
  };
  loops = λ i. ended;
  stopping = 0;
}

abbrev staff : List ℕ
staff = 4 ∷ []

staff-Staff : Staff staff
staff-Staff = record { distinct = λ z. ground arith; positive = λ z c. ground arith }

abbrev hired : System
hired = record bound { server = set_workers staff bound.server }

hired-IsSound : IsSound staff hired
hired-IsSound = set_workers-IsSound staff bound staff-Staff (λ z. refl) (λ i. refl) refl refl

abbrev serving : TcpServer
serving =
    let s = hired.server in
    record s { is_running = true; stop_requested = false; active_accepts = 2 }

-- Loop 0 takes the worker, and loop 1 waits for one.
abbrev begun : System
begun = test 1 (test 0 (begin_session serving hired))

begun-Reaches : Reaches hired begun
unfolding start set_workers idle_push test resume resume_pop idle_pop
begun-Reaches =
    moves _ _ (moves _ _ (moves _ _ stays (starts serving refl)) (tests 0 refl)) (tests 1 refl)

loop_0_accepts : begun.loops 0 ≡ accepting 4
unfolding start set_workers idle_push test resume resume_pop idle_pop
loop_0_accepts = refl

loop_1_waits : begun.loops 1 ≡ waiting
unfolding start set_workers idle_push test resume resume_pop idle_pop
loop_1_waits = refl

Reaches-keeps_workers_example : IsSound staff begun
Reaches-keeps_workers_example =
    Reaches-keeps_workers staff hired begun staff-Staff begun-Reaches hired-IsSound

-- The join of a server that has not started returns.
is_joined-Joined_example : Joined staff hired
unfolding set_workers idle_push
is_joined-Joined_example = is_joined-Joined staff hired hired staff-Staff hired-IsSound stays refl

-- stop is called, and do_stop finds no active worker.
abbrev stopped : System
stopped = record begun { server = (stop begun.server).0; stopping = 0 }

stopped-Reaches : Reaches hired stopped
unfolding start stop do_stop stop_from set_workers idle_push test resume resume_pop idle_pop
stopped-Reaches =
    moves _ _ (moves _ _ begun-Reaches (stops refl))
      (stops_workers 0 1 (stop begun.server).0 refl refl)

stopped-Joins_example :
    Joins stopped
    × ((ys : List ℕ) × Stopping staff ys stopped
        × ((u : System)
            → is_joined stopped.server ≡ false
            → Moves stopped u
            → Drains staff ys stopped u))
unfolding start stop do_stop stop_from set_workers idle_push test resume resume_pop idle_pop
stopped-Joins_example =
    stopped-Joins staff hired stopped 4 staff-Staff hired-IsSound stopped-Reaches (omega arith) refl
      refl

abbrev two_active : TcpServer
two_active =
    let s = serving in
    record s {
      next = λ z. if z == 4 then 7 else 0;
      prev = λ z. if z == 7 then 4 else 0;
      active_head = 4;
      active_tail = 7;
    }

two_active-Holds : Holds (active two_active) (4 ∷ 7 ∷ [])
two_active-Holds = record {
  ends = (refl, omega arith, (refl, refl, omega arith, (refl, refl, refl)));
  distinct = λ z. ground arith;
}

do_stop-Marks_example : Ensures (Marks (4 ∷ 7 ∷ []) two_active) (do_stop 3 two_active)
do_stop-Marks_example = do_stop-Marks 3 two_active (4 ∷ 7 ∷ []) two_active-Holds (omega arith)

-- ===== src/TcpServer/Ends.antt =====
-- join of a tcp_server returns after stop.
use corosio.Base.{
  ℕ, zero, suc, ◌<◌, ◌≡◌, refl, ap, ◌∙◌, ◌⊎◌, inl, inr, true, false, List, count, arith, Bool-cases,
  some,
}
use corosio.TcpServer.{TcpServer, bind, stop, do_stop, is_joined}
use corosio.TcpServer.Loops.{
  Loop, testing, waiting, ended, woken, accepting, returning, System, set_loop, push, resume, test,
  Moves, tests, resumes, accept_fails, pushes, accepts, finishes, binds, starts, stops,
  stops_workers, Reaches, stays, moves,
}
use corosio.TcpServer.Held.{holds, live, is_waiting, total}
use corosio.TcpServer.Sound.{Staff, IsSound}
use corosio.TcpServer.Runs.{
  active-count, Stopped-Sound, stop_from-keeps, Reaches-keeps_workers, start-launches,
}
use corosio.TcpServer.Join.{Movable, no_deadlock}
use corosio.TcpServer.Drain.{
  effort, work_left, Stopping, Lowers, test-Lowers, resume-Lowers, accept_fails-Lowers, push-Lowers,
  finish-Lowers, accept-Lowers,
}

stop-no : (s : TcpServer) → s.is_running ≡ false → (stop s).1 ≡ false
unfolding stop
stop-no s e = ground (arith, e)

do_stop-Lowers :
    (ws ys : List ℕ) (s : System) (n f : ℕ) (t : TcpServer)
    → Stopping ws ys s
    → s.stopping ≡ suc n
    → do_stop f s.server ≡ some t
    → Lowers ws ys s (record s { server = t; stopping = n })
unfolding do_stop
do_stop-Lowers ws ys s n f t v e d =
    let (xs, u) = v.sound in
    let q = stop_from-keeps f s.server.active_head s.server t d in
    let r = record s.server { stops = q.0 } in
    (
      ys,
      record {
        sound = (
          xs,
          Stopped-Sound ws xs ys s t n u (q.0, s.server.is_running, s.server.stop_requested, q.1),
        );
        running = ap (λ (x : TcpServer). x.is_running) q.1 ∙ v.running;
        requested = ap (λ (x : TcpServer). x.stop_requested) q.1 ∙ v.requested;
      },
      omega (arith, e, ap (λ (x : TcpServer). total effort x.ports s.loops) q.1),
    )

-- What a step does to a stopped server whose join waits: it lowers what is left to do, or binds a
-- port.
abbrev pub Drains : List ℕ → List ℕ → System → System → Type 0
Drains ws ys s t = ((err : ℕ) × (t ≡ record s { server = bind err s.server })) ⊎ Lowers ws ys s t

Moves-Drains :
    (ws ys : List ℕ) (s t : System)
    → Staff ws
    → Stopping ws ys s
    → is_joined s.server ≡ false
    → Moves s t
    → Drains ws ys s t
Moves-Drains ws ys s _ f v j (tests i e) = inr (test-Lowers ws ys s f v i e)
Moves-Drains ws ys s _ f v j (resumes i w e) = inr (resume-Lowers ws ys s f v i w e)
Moves-Drains ws ys s _ f v j (accept_fails i w e) = inr (accept_fails-Lowers ws ys s f v i w e)
Moves-Drains ws ys s _ f v j (pushes i w e) = inr (
    push-Lowers ws ys s f v i w (ap live e) (ap is_waiting e) (λ z. ap (holds z) e)
      (omega (arith, ap effort e)))
Moves-Drains ws ys s _ f v j (accepts h i w e) = inr (accept-Lowers ws ys s f v h i w e)
Moves-Drains ws ys s _ f v j (finishes w zs h c) =
    let (xs, u) = v.sound in
    inr
      (finish-Lowers ws ys s f v w (omega (arith, c, active-count s.server zs ys w h u.lists.busy)))
Moves-Drains ws ys s _ f v j (binds err) = inl (err, refl)
Moves-Drains ws ys s _ f v j (starts t e) =
    absurd (ground (arith, j, (start-launches s.server t e).0))
Moves-Drains ws ys s _ f v j (stops e) = absurd (ground (arith, e, stop-no s.server v.running))
Moves-Drains ws ys s _ f v j (stops_workers n g t e d) = inr (do_stop-Lowers ws ys s n g t v e d)

-- A step that lowers what is left to do.
abbrev Step : List ℕ → List ℕ → System → Type 0
Step ws ys s = (t : System) × Moves s t × Lowers ws ys s t

loop-steps :
    (ws ys : List ℕ) (s : System) (i : ℕ) (l : Loop)
    → Staff ws
    → Stopping ws ys s
    → s.loops i ≡ l
    → Movable l
    → Step ws ys s
loop-steps ws ys s i testing f v e m = (test i s, tests i e, test-Lowers ws ys s f v i e)
loop-steps ws ys s i (woken w) f v e m =
    (resume i w s, resumes i w e, resume-Lowers ws ys s f v i w e)
loop-steps ws ys s i (accepting w) f v e m =
    (set_loop i (returning w) s, accept_fails i w e, accept_fails-Lowers ws ys s f v i w e)
loop-steps ws ys s i (returning w) f v e m = (
  push w (set_loop i testing s),
  pushes i w e,
  push-Lowers ws ys s f v i w (ap live e) (ap is_waiting e) (λ z. ap (holds z) e)
      (omega (arith, ap effort e)),
)
loop-steps ws ys s i waiting f v e m = absurd (omega (arith, m.1))
loop-steps ws ys s i ended f v e m = absurd (omega (arith, m.0))

some-Step :
    (ws ys : List ℕ) (s : System) (w : ℕ)
    → Staff ws
    → Stopping ws ys s
    → 0 < count w ws
    → is_joined s.server ≡ false
    → Step ws ys s
some-Step ws ys s w f v c j =
    let (xs, u) = v.sound in
    elim (no_deadlock ws s s w f (xs, ys, u) stays c j) [
      | inl (i, h, m) ↦ loop-steps ws ys s i (s.loops i) f v refl m
      | inr (qs, bs, z, l, k) ↦ (
        push z s,
        finishes z bs l.busy k,
        finish-Lowers ws ys s f v z
            (omega (arith, k, active-count s.server bs ys z l.busy u.lists.busy)),
      )
    ]

-- A run to the end of the join.
abbrev pub Joins : System → Type 0
Joins s = (t : System) × Reaches s t × (is_joined t.server ≡ true)

Reaches-before : (s t u : System) → Moves s t → Reaches t u → Reaches s u
Reaches-before s t _ m stays = moves s t stays m
Reaches-before s t u m (moves v _ r n) = moves v u (Reaches-before s t v m r) n

ends-within :
    (n : ℕ) (ws ys : List ℕ) (s : System) (w : ℕ)
    → work_left ys s < n
    → Staff ws
    → Stopping ws ys s
    → 0 < count w ws
    → Joins s
ends-within zero ws ys s w l f v c = absurd (omega arith)
ends-within (suc n) ws ys s w l f v c = elim (Bool-cases (is_joined s.server)) [
  | inl e ↦ (s, stays, e)
  | inr e ↦
      let (t, m, (zs, v', h)) = some-Step ws ys s w f v c e in
      let (u, r, j) = ends-within n ws zs t w (omega (arith, l, h)) f v' c in
      (u, Reaches-before s t u m r, j)
]

-- Whatever has happened since a server that has a worker was sound: if it has been stopped, some run
-- leads to a state in which join returns, and as long as join waits, every step but a bind lowers the
-- work that is left, which counts what the loops, the active workers and the calls of do_stop under
-- way have yet to do.
pub stopped-Joins :
    (ws : List ℕ) (s t : System) (w : ℕ)
    → Staff ws
    → IsSound ws s
    → Reaches s t
    → 0 < count w ws
    → t.server.is_running ≡ false
    → t.server.stop_requested ≡ true
    → Joins t
      × ((ys : List ℕ) × Stopping ws ys t
          × ((u : System) → is_joined t.server ≡ false → Moves t u → Drains ws ys t u))
stopped-Joins ws s t w f v r c n q =
    let (xs, ys, u) = Reaches-keeps_workers ws s t f r v in
    let k : Stopping ws ys t = record { sound = (xs, u); running = n; requested = q } in
    (
      ends-within (suc (work_left ys t)) ws ys t w (omega arith) f k c,
      (ys, k, λ x j m. Moves-Drains ws ys t x f k j m),
    )

-- ===== src/TcpServer/Drain.antt =====
-- After stop, the accept loops of a tcp_server come to their ends.
use corosio.Base.{
  ℕ, suc, ◌+◌, ◌≤◌, ◌<◌, ◌≡◌, refl, sym, subst, ap, ◌∙◌, inl, inr, true, false, ◌==◌, List, [], ◌∷◌,
  ◌++◌, count, count-append, length, length-append, arith, Bool-cases, update,
}
use corosio.IntrusiveList.Unlink.{erase}
use corosio.TcpServer.{TcpServer, active_push, Returned, push_sync, launch, accept_done, idle_empty}
use corosio.TcpServer.Returns.{Gives, push_sync-Gives, erase-absent, launch-keeps}
use corosio.TcpServer.Loops.{
  Loop, testing, waiting, ended, woken, accepting, returning, System, set_loop, wake, push, resume,
  test, Handling, launches, drops, throws, run_worker,
}
use corosio.TcpServer.Held.{holds, live, is_waiting, total, total-update}
use corosio.TcpServer.Sound.{Staff, IsSoundWith, Loose, below, first-waits, push-IsSoundWith}
use corosio.TcpServer.Kept.{Sound-set, held, loosen, resume-given, test-is}
use corosio.TcpServer.Steps.{test-IsSoundWith, loosen-active, launch-Sound}

launch-sets : (w : ℕ) (s : TcpServer) → (launch w s).is_running ≡ s.is_running
unfolding launch active_push
launch-sets w s = ground arith

-- How many steps a loop may have to make until it ends.
abbrev pub effort : Loop → ℕ
effort ended = 0
effort testing = 1
effort (returning w) = 2
effort (accepting w) = 3
effort (woken w) = 4
effort waiting = 5

-- What is left to do, with these workers active.
abbrev pub work_left : List ℕ → System → ℕ
work_left ys s = total effort s.server.ports s.loops + length ys + s.stopping

-- The server has been stopped.
pub record Stopping (ws ys : List ℕ) (s : System) : Type 0 where
  pub sound : IsSoundWith ws ys s
  pub running : s.server.is_running ≡ false
  pub requested : s.server.stop_requested ≡ true

abbrev pub Lowers : List ℕ → List ℕ → System → System → Type 0
Lowers ws ys s t = (zs : List ℕ) × Stopping ws zs t × (work_left zs t < work_left ys s)

length-erase : (w : ℕ) (ys : List ℕ) → 0 < count w ys → suc (length (erase w ys)) ≡ length ys
length-erase w [] c = absurd (omega arith)
length-erase w (y ∷ ys) c = elim (Bool-cases (y == w)) [
  | inl e ↦ rw (e) (ground arith)
  | inr e ↦ rw (e) (ground (arith, length-erase w ys))
]

-- What a returned worker leaves of the rest.
record Pushed (s t : System) : Type 0 where
  effort_le : total effort t.server.ports t.loops ≤ total effort s.server.ports s.loops
  stopping : t.stopping ≡ s.stopping
  running : t.server.is_running ≡ s.server.is_running
  requested : t.server.stop_requested ≡ s.server.stop_requested

Gives-Pushed :
    (w : ℕ) (us ws xs ys : List ℕ) (s : System) (r : Returned)
    → Loose w ws xs ys s
    → s.server.waiters ≡ us
    → Gives w xs ys s.server us r
    → Pushed s (record s { server = r.server; loops = wake w r.woken s.loops })
Gives-Pushed w [] ws xs ys s r v e (n, l, a) = record {
  effort_le = omega (
    arith,
    ap (λ o. total effort r.server.ports (wake w o s.loops)) n,
    ap (λ k. total effort k s.loops) a.ports,
  );
  stopping = refl;
  running = a.running;
  requested = a.stopped;
}
Gives-Pushed w (i ∷ rest) ws xs ys s r v e (n, l, a) =
    let h = first-waits i rest s v.looping e in
    record {
      effort_le = omega (
        arith,
        ap (λ o. total effort r.server.ports (wake w o s.loops)) n,
        ap (λ k. total effort k (update s.loops i (woken w))) a.ports,
        total-update effort s.server.ports s.loops i (woken w) h.1,
        ap effort h.0,
      );
      stopping = refl;
      running = a.running;
      requested = a.stopped;
    }

push-Pushed :
    (w : ℕ) (ws xs ys : List ℕ) (s : System) → Staff ws → Loose w ws xs ys s → Pushed s (push w s)
unfolding push
push-Pushed w ws xs ys s f v =
    let k = v.spread w in
    Gives-Pushed w s.server.waiters ws xs ys s (push_sync w s.server) v refl (
      push_sync-Gives w s.server xs ys v.lists (f.positive w (ground (arith, k)))
        (ground (arith, k, f.distinct w)))

module _ (ws ys : List ℕ) (s : System) (f : Staff ws) (v : Stopping ws ys s) where
  pub test-Lowers : (i : ℕ) → s.loops i ≡ testing → Lowers ws ys s (test i s)
  test-Lowers i e =
      let (xs, u) = v.sound in
      let h = below s i u.looping (ground (arith, e)) in
      let k = total-update effort s.server.ports s.loops i ended h in
      let q = test-is i s true (idle_empty s.server) v.requested refl in
      let r : Stopping ws ys
          (record s { server = accept_done s.server; loops = update s.loops i ended }) =
        record {
          sound = subst (IsSoundWith ws ys) q (test-IsSoundWith i ws xs ys s true e v.requested u);
          running = v.running;
          requested = v.requested;
        } in
      subst (Lowers ws ys s) (sym q) (ys, r, omega (arith, k, ap effort e))

  -- A loop that goes on with the worker that it has.
  set_loop-Lowers :
      (i : ℕ) (l : Loop)
      → live (s.loops i) ≡ 1
      → is_waiting (s.loops i) ≡ 0
      → live l ≡ 1
      → is_waiting l ≡ 0
      → ((z : ℕ) → holds z l ≡ holds z (s.loops i))
      → effort l < effort (s.loops i)
      → Lowers ws ys s (set_loop i l s)
  set_loop-Lowers i l a b c d e m =
      let (xs, u) = v.sound in
      let k =
        total-update effort s.server.ports s.loops i l (below s i u.looping (omega (arith, a))) in
      (
        ys,
        record {
          sound = (xs, Sound-set i l ws xs ys s u a b c d e);
          running = v.running;
          requested = v.requested;
        },
        omega (arith, k, m),
      )

  pub resume-Lowers : (i w : ℕ) → s.loops i ≡ woken w → Lowers ws ys s (resume i w s)
  resume-Lowers i w e =
      let (xs, u) = v.sound in
      let h = held w i ws xs ys s f u (ap live e) (ap (holds w) e ∙ ground arith) in
      subst (Lowers ws ys s) (sym (resume-given i w s h.positive)) (
        set_loop-Lowers i (accepting w) (ap live e) (ap is_waiting e) refl refl
          (λ z. sym (ap (holds z) e)) (omega (arith, ap effort e)))

  pub accept_fails-Lowers :
      (i w : ℕ) → s.loops i ≡ accepting w → Lowers ws ys s (set_loop i (returning w) s)
  accept_fails-Lowers i w e =
      set_loop-Lowers i (returning w) (ap live e) (ap is_waiting e) refl refl
        (λ z. sym (ap (holds z) e)) (omega (arith, ap effort e))

  -- A worker that a loop returns; it is not active.
  pub push-Lowers :
      (i w : ℕ)
      → live (s.loops i) ≡ 1
      → is_waiting (s.loops i) ≡ 0
      → ((z : ℕ) → holds z (s.loops i) ≡ count z (w ∷ []))
      → 1 < effort (s.loops i)
      → Lowers ws ys s (push w (set_loop i testing s))
  push-Lowers i w a b e m =
      let (xs, u) = v.sound in
      let h = held w i ws xs ys s f u a (e w ∙ ground arith) in
      let l = loosen w i ws xs ys s f u a b e in
      let p = push-Pushed w ws xs ys (set_loop i testing s) f l in
      (
        erase w ys,
        record {
          sound = push-IsSoundWith w ws xs ys (set_loop i testing s) f l;
          running = p.running ∙ v.running;
          requested = p.requested ∙ v.requested;
        },
        omega (
          arith,
          p.effort_le,
          p.stopping,
          m,
          ap length (erase-absent w ys h.not_active),
          total-update effort s.server.ports s.loops i testing h.in_range,
        ),
      )

  pub finish-Lowers : (w : ℕ) → 0 < count w ys → Lowers ws ys s (push w s)
  finish-Lowers w c =
      let (xs, u) = v.sound in
      let l = loosen-active w ws xs ys s f u c in
      let p = push-Pushed w ws xs ys s f l in
      (
        erase w ys,
        record {
          sound = push-IsSoundWith w ws xs ys s f l;
          running = p.running ∙ v.running;
          requested = p.requested ∙ v.requested;
        },
        omega (arith, p.effort_le, p.stopping, length-erase w ys c),
      )

  launch-Lowers :
      (i w : ℕ)
      → s.loops i ≡ accepting w
      → let t = set_loop i testing s in
        (zs : List ℕ) × Stopping ws zs (record t { server = launch w t.server })
        × (suc (work_left zs (record t { server = launch w t.server })) ≤ work_left ys s)
        × (0 < count w zs)
  launch-Lowers i w e =
      let (xs, u) = v.sound in
      let h = held w i ws xs ys s f u (ap live e) (ap (holds w) e ∙ ground arith) in
      let l = loosen w i ws xs ys s f u (ap live e) (ap is_waiting e) (λ z. ap (holds z) e) in
      let k = launch-keeps w s.server in
      (
        ys ++ w ∷ [],
        record {
          sound = (
            xs,
            launch-Sound w i ws xs ys (set_loop i testing s) l h.positive h.not_idle h.not_active,
          );
          running = launch-sets w s.server ∙ v.running;
          requested = k.2 ∙ v.requested;
        },
        omega (
          arith,
          ap effort e,
          length-append ys (w ∷ []),
          ap (λ n. total effort n (update s.loops i testing)) k.3,
          total-update effort s.server.ports s.loops i testing h.in_range,
        ),
        ground (arith, count-append w ys (w ∷ [])),
      )

-- After stop, a connection that is accepted in spite of it leaves less to do too.
pub accept-Lowers :
    (ws ys : List ℕ) (s : System)
    → Staff ws
    → Stopping ws ys s
    → (h : Handling) (i w : ℕ) → s.loops i ≡ accepting w
    → Lowers ws ys s (run_worker h w (set_loop i testing s))
unfolding run_worker
accept-Lowers ws ys s f v launches i w e =
    let (zs, u, k, c) = launch-Lowers ws ys s f v i w e in (zs, u, k)
accept-Lowers ws ys s f v drops i w e =
    push-Lowers ws ys s f v i w (ap live e) (ap is_waiting e) (λ z. ap (holds z) e)
      (omega (arith, ap effort e))
accept-Lowers ws ys s f v throws i w e =
    let (zs, u, k, c) = launch-Lowers ws ys s f v i w e in
    let (us, x, m) = finish-Lowers ws zs _ f u w c in (us, x, omega (arith, k, m))

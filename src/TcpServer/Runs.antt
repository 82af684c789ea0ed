-- ===== src/TcpServer/Runs.antt =====
-- Every run of a tcp_server keeps what holds of it: start, stop, do_stop, and all steps together.
use corosio.Base.{
  ℕ, zero, suc, ◌+◌, ◌≡◌, refl, sym, subst, ap, ◌∙◌, inl, inr, Bool, true, false, ◌==◌,
  if◌then◌else◌, List, [], ◌∷◌, count, ltb, update, arith, Bool-cases, some,
}
use corosio.IntrusiveList.Links.{Holds, Doubly}
use corosio.TcpServer.{TcpServer, launched, bind, start, stop, stop_from, do_stop}
use corosio.TcpServer.Active.{active}
use corosio.TcpServer.Loops.{
  Loop, testing, waiting, ended, woken, accepting, returning, System, set_loop, begin_session,
  Moves, tests, resumes, accept_fails, pushes, accepts, finishes, binds, starts, stops,
  stops_workers, Reaches, stays, moves,
}
use corosio.TcpServer.Held.{holds, live, is_waiting, total-ge, total-zero, total-all, total-next}
use corosio.TcpServer.Sound.{Staff, Looping, Sound, IsSound, IsSoundWith, push-IsSoundWith}
use corosio.TcpServer.Workers.{relist}
use corosio.TcpServer.Kept.{Sound-set, loosen}
use corosio.IntrusiveList.Unlink.{erase}
use corosio.TcpServer.Steps.{
  left_active, test-IsSoundWith, resume-IsSoundWith, finish-IsSoundWith, run_worker-IsSoundWith,
}

live-zero : (l : Loop) → live l ≡ 0 → l ≡ ended
live-zero ended e = refl
live-zero testing e = absurd (omega (arith, e))
live-zero waiting e = absurd (omega (arith, e))
live-zero (woken w) e = absurd (omega (arith, e))
live-zero (accepting w) e = absurd (omega (arith, e))
live-zero (returning w) e = absurd (omega (arith, e))

-- Without active accepts every loop has ended.
pub joined-ended :
    (s : System) (i : ℕ) → Looping s → s.server.active_accepts ≡ 0 → s.loops i ≡ ended
joined-ended s i l e = elim (Bool-cases (ltb i s.server.ports)) [
  | inl h ↦
      live-zero (s.loops i)
        (ground (arith, l.counted, total-ge live s.server.ports s.loops i (ground arith)))
  | inr h ↦ l.beyond i (ground arith)
]

pub start-launches :
    (s t : TcpServer)
    → start s ≡ launched t
    → (s.active_accepts ≡ 0)
      × (t ≡ record s { is_running = true; stop_requested = false; active_accepts = s.ports })
unfolding start
start-launches s t e = elim (Bool-cases s.is_running) [
  | inl f ↦ absurd (ground (arith, e, f))
  | inr f ↦ (ground (arith, e, f), ground (arith, e, f))
]

begin_session-Sound :
    (ws xs ys : List ℕ) (s : System) (t : TcpServer)
    → Sound ws xs ys s
    → start s.server ≡ launched t
    → Sound ws xs ys (begin_session t s)
begin_session-Sound ws xs ys s t v e =
    let u = s.server in
    let h = start-launches u t e in
    let ls : ℕ → Loop = λ i. if ltb i u.ports then testing else ended in
    subst (λ r. Sound ws xs ys (begin_session r s)) (sym h.1)
      (record {
        lists = relist s.server _ xs ys refl v.lists;
        looping = record {
          beyond = λ i b. ground arith;
          queue = λ i.
              v.looping.queue i ∙ ap is_waiting (joined-ended s i v.looping h.0) ∙ ground arith;
          counted = sym (total-all live u.ports ls (λ i l. ground arith));
        };
        spread = λ z. omega (
          arith,
          v.spread z,
          total-zero (holds z) u.ports ls (λ i l. ground arith),
          total-zero (holds z) u.ports s.loops
              (λ i l. ap (holds z) (joined-ended s i v.looping h.0)),
        );
        unserved = v.unserved;
      })

-- What stop and do_stop change does not concern the lists and the loops.
abbrev pub Stopped : TcpServer → TcpServer → Type 0
Stopped s t =
    (f : ℕ → Bool) × (b : Bool) × (c : Bool) × (t
      ≡ record s { stops = f; is_running = b; stop_requested = c })

stop-Stopped : (s : TcpServer) → Stopped s (stop s).0
unfolding stop
stop-Stopped s = elim (Bool-cases s.is_running) [
  | inl e ↦ (s.stops, false, true, ground (arith, e))
  | inr e ↦ (s.stops, s.is_running, s.stop_requested, ground (arith, e))
]

pub stop_from-keeps :
    (f w : ℕ) (s t : TcpServer)
    → stop_from f w s ≡ some t
    → (g : ℕ → Bool) × (t ≡ record s { stops = g })
unfolding stop_from
stop_from-keeps zero w s t e = absurd (cc)
stop_from-keeps (suc f) w s t e = elim (Bool-cases (w == 0)) [
  | inl h ↦ (s.stops, ground (arith, e, h))
  | inr h ↦
      let s1 : TcpServer = record s { stops = update s.stops w true } in
      let (g, q) = stop_from-keeps f (s.next w) s1 t (ground (arith, e, h)) in (g, q)
]

pub Stopped-Sound :
    (ws xs ys : List ℕ) (s : System) (t : TcpServer) (n : ℕ)
    → Sound ws xs ys s
    → Stopped s.server t
    → Sound ws xs ys (record s { server = t; stopping = n })
Stopped-Sound ws xs ys s t n v (f, b, c, e) =
    subst (λ u. Sound ws xs ys (record s { server = u; stopping = n })) (sym e)
      (record {
        lists = relist s.server _ xs ys refl v.lists;
        looping = record {
          beyond = v.looping.beyond;
          queue = v.looping.queue;
          counted = v.looping.counted;
        };
        spread = v.spread;
        unserved = v.unserved;
      })

add-Sound :
    (ws xs ys : List ℕ) (s : System)
    → Sound ws xs ys s
    → let u = s.server in Sound ws xs ys (record s { server = record u { ports = u.ports + 1 } })
add-Sound ws xs ys s v =
    let n = s.server.ports in
    let e = v.looping.beyond n (omega arith) in
    record {
      lists = relist s.server _ xs ys refl v.lists;
      looping = record {
        beyond = λ i b. v.looping.beyond i (omega (arith, b));
        queue = v.looping.queue;
        counted = omega (arith, v.looping.counted, total-next live n s.loops, ap live e);
      };
      spread = λ z. omega (arith, v.spread z, total-next (holds z) n s.loops, ap (holds z) e);
      unserved = v.unserved;
    }

pub bind-Sound :
    (err : ℕ) (ws xs ys : List ℕ) (s : System)
    → Sound ws xs ys s
    → Sound ws xs ys (record s { server = bind err s.server })
unfolding bind
bind-Sound err ws xs ys s v = elim (Bool-cases (err == 0)) [
  | inl e ↦ rw (e) (add-Sound ws xs ys s v)
  | inr e ↦ rw (e) v
]

-- Two sequences that the same links hold are alike.
Holds-count :
    (next prev : ℕ → ℕ) (p x : ℕ) (xs zs : List ℕ) (t u z : ℕ)
    → Doubly next prev p x xs t
    → Doubly next prev p x zs u
    → count z xs ≡ count z zs
Holds-count next prev p x [] [] t u z h k = refl
Holds-count next prev p x [] (y ∷ ys) t u z h k = absurd (ground (arith, h.1, k.1, k.2))
Holds-count next prev p x (y ∷ ys) [] t u z h k = absurd (ground (arith, k.1, h.1, h.2))
Holds-count next prev p x (y ∷ ys) (v ∷ vs) t u z h k =
    let e : v ≡ y = sym k.1 ∙ h.1 in
    let k3 : Doubly next prev x y vs u = subst (λ a. Doubly next prev x a vs u) e k.3 in
    ground (arith, e, Holds-count next prev x y ys vs t u z h.3 k3)

pub active-count :
    (s : TcpServer) (xs ys : List ℕ) (z : ℕ)
    → Holds (active s) xs
    → Holds (active s) ys
    → count z xs ≡ count z ys
active-count s [] [] z h k = refl
active-count s [] (y ∷ ys) z h k = absurd (ground (arith, h.ends.0, k.ends.0, k.ends.1))
active-count s (x ∷ xs) [] z h k = absurd (ground (arith, k.ends.0, h.ends.0, h.ends.1))
active-count s (x ∷ xs) (y ∷ ys) z h k =
    let e : y ≡ x = sym k.ends.0 ∙ h.ends.0 in
    let k2 : Doubly s.next s.prev 0 x ys s.active_tail =
      subst (λ a. Doubly s.next s.prev 0 a ys s.active_tail) e k.ends.2 in
    ground (arith, e, Holds-count s.next s.prev 0 x xs ys s.active_tail s.active_tail z h.ends.2 k2)

named : (ws ys : List ℕ) (s : System) → IsSoundWith ws ys s → IsSound ws s
named ws ys s (xs, v) = (xs, ys, v)

Moves-IsSound : (ws : List ℕ) (s t : System) → Staff ws → Moves s t → IsSound ws s → IsSound ws t
unfolding stop_from do_stop
Moves-IsSound ws s _ f (tests i e) (xs, ys, v) =
    named ws ys _ (test-IsSoundWith i ws xs ys s s.server.stop_requested e refl v)
Moves-IsSound ws s _ f (resumes i w e) (xs, ys, v) =
    named ws ys _ (resume-IsSoundWith i w ws xs ys s f e v)
Moves-IsSound ws s _ f (accept_fails i w e) (xs, ys, v) = (
  xs,
  ys,
  Sound-set i (returning w) ws xs ys s v (ap live e) (ap is_waiting e) refl refl
      (λ z. sym (ap (holds z) e)),
)
Moves-IsSound ws s _ f (pushes i w e) (xs, ys, v) = named ws (erase w ys) _ (
    push-IsSoundWith w ws xs ys (set_loop i testing s) f
      (loosen w i ws xs ys s f v (ap live e) (ap is_waiting e) (λ z. ap (holds z) e)))
Moves-IsSound ws s _ f (accepts h i w e) (xs, ys, v) =
    named ws (left_active h w ys) _ (run_worker-IsSoundWith h i w ws xs ys s f v e)
Moves-IsSound ws s _ f (finishes w zs h c) (xs, ys, v) = named ws (erase w ys) _ (
    finish-IsSoundWith w ws xs ys s f v
      (omega (arith, c, active-count s.server zs ys w h v.lists.busy)))
Moves-IsSound ws s _ f (binds err) (xs, ys, v) = (xs, ys, bind-Sound err ws xs ys s v)
Moves-IsSound ws s _ f (starts t e) (xs, ys, v) = (xs, ys, begin_session-Sound ws xs ys s t v e)
Moves-IsSound ws s _ f (stops e) (xs, ys, v) =
    (xs, ys, Stopped-Sound ws xs ys s (stop s.server).0 (suc s.stopping) v (stop-Stopped s.server))
Moves-IsSound ws s _ f (stops_workers n g t e d) (xs, ys, v) =
    let kept = stop_from-keeps g s.server.active_head s.server t d in
    (
      xs,
      ys,
      Stopped-Sound ws xs ys s t n v (kept.0, s.server.is_running, s.server.stop_requested, kept.1),
    )

-- Whatever the accept loops, the workers, and the callers of start and stop do, in any order: if each
-- worker of the pool was idle, active or with one accept loop, at one of these places and once, and
-- the links of the two lists, the waiters and active_accepts fitted, then that holds of the state that
-- is reached: no worker is lost or is in two places, and no loop waits while a worker is idle.
pub Reaches-keeps_workers :
    (ws : List ℕ) (s t : System) → Staff ws → Reaches s t → IsSound ws s → IsSound ws t
Reaches-keeps_workers ws s _ f stays v = v
Reaches-keeps_workers ws s u f (moves t _ r m) v =
    Moves-IsSound ws t u f m (Reaches-keeps_workers ws s t f r v)

-- ===== src/TcpServer/Kept.antt =====
-- The steps of the accept loops of a tcp_server keep what holds of it.
use corosio.Base.{
  ℕ, ◌≤◌, ◌<◌, ◌≡◌, refl, sym, subst, ap, ◌∙◌, Bool, true, false, not, if◌then◌else◌, List, [], ◌∷◌,
  count, update, arith,
}
use corosio.TcpServer.{TcpServer, idle_pop, resume_pop, idle_empty, suspend_pop, accept_done}
use corosio.TcpServer.Workers.{idle_pop-Lists}
use corosio.TcpServer.Returns.{erase-absent}
use corosio.TcpServer.Loops.{
  Loop, testing, waiting, ended, accepting, System, set_loop, resume, test,
}
use corosio.TcpServer.Held.{holds, live, is_waiting, total, total-update, total-ge}
use corosio.TcpServer.Sound.{Staff, Looping, Sound, Loose, below}

-- A loop that is live and does not wait goes to another such place.
pub Looping-set :
    (i : ℕ) (l : Loop) (s : System)
    → Looping s
    → live (s.loops i) ≡ 1
    → is_waiting (s.loops i) ≡ 0
    → live l ≡ 1
    → is_waiting l ≡ 0
    → Looping (set_loop i l s)
Looping-set i l s v a b c d =
    let h = below s i v (omega (arith, a)) in
    record {
      beyond = λ j e. ground (arith, v.beyond j);
      queue = λ j. ground (arith, v.queue j, ap is_waiting {x = s.loops i} {y = s.loops j});
      counted = omega (arith, v.counted, total-update live s.server.ports s.loops i l h, a, c);
    }

pub ends-Looping :
    (i : ℕ) (s : System)
    → Looping s
    → s.loops i ≡ testing
    → Looping (record s { server = accept_done s.server; loops = update s.loops i ended })
ends-Looping i s v e =
    let h = below s i v (ground (arith, e)) in
    record {
      beyond = λ j b. ground (arith, v.beyond j);
      queue = λ j. ground (arith, v.queue j, e);
      counted = ground (arith, v.counted, total-update live s.server.ports s.loops i ended h, e);
    }

pub waits-Looping :
    (i : ℕ) (s : System)
    → Looping s
    → s.loops i ≡ testing
    → Looping (record s { server = suspend_pop i s.server; loops = update s.loops i waiting })
waits-Looping i s v e =
    let h = below s i v (ground (arith, e)) in
    record {
      beyond = λ j b. ground (arith, v.beyond j);
      queue = λ j. ground (arith, v.queue j, e);
      counted = ground (arith, v.counted, total-update live s.server.ports s.loops i waiting h, e);
    }

-- A loop that keeps what it holds.
pub Sound-set :
    (i : ℕ) (l : Loop) (ws xs ys : List ℕ) (s : System)
    → Sound ws xs ys s
    → live (s.loops i) ≡ 1
    → is_waiting (s.loops i) ≡ 0
    → live l ≡ 1
    → is_waiting l ≡ 0
    → ((z : ℕ) → holds z l ≡ holds z (s.loops i))
    → Sound ws xs ys (set_loop i l s)
Sound-set i l ws xs ys s v a b c d e = record {
  lists = v.lists;
  looping = Looping-set i l s v.looping a b c d;
  spread = λ z. omega (
    arith,
    v.spread z,
    total-update (holds z) s.server.ports s.loops i l (below s i v.looping (omega (arith, a))),
    e z,
  );
  unserved = v.unserved;
}

-- A worker that a loop holds is no null pointer, and neither idle nor active.
pub record Held (w i : ℕ) (xs ys : List ℕ) (s : System) : Type 0 where
  pub positive : 0 < w
  pub not_idle : count w xs ≡ 0
  pub not_active : count w ys ≡ 0
  pub in_range : i < s.server.ports

pub held :
    (w i : ℕ) (ws xs ys : List ℕ) (s : System)
    → Staff ws
    → Sound ws xs ys s
    → live (s.loops i) ≡ 1
    → holds w (s.loops i) ≡ 1
    → Held w i xs ys s
held w i ws xs ys s f v a b =
    let h = below s i v.looping (omega (arith, a)) in
    let g = total-ge (holds w) s.server.ports s.loops i h in
    let k = v.spread w in
    record {
      positive = f.positive w (omega (arith, g, k, b));
      not_idle = omega (arith, f.distinct w, g, k, b);
      not_active = omega (arith, f.distinct w, g, k, b);
      in_range = h;
    }

-- The loop lets go of its worker.
pub loosen :
    (w i : ℕ) (ws xs ys : List ℕ) (s : System)
    → Staff ws
    → Sound ws xs ys s
    → live (s.loops i) ≡ 1
    → is_waiting (s.loops i) ≡ 0
    → ((z : ℕ) → holds z (s.loops i) ≡ count z (w ∷ []))
    → Loose w ws xs ys (set_loop i testing s)
loosen w i ws xs ys s f v a b e =
    let h = held w i ws xs ys s f v a (ground (arith, e w)) in
    record {
      lists = v.lists;
      looping = Looping-set i testing s v.looping a b refl refl;
      spread = λ z. omega (
        arith,
        v.spread z,
        total-update (holds z) s.server.ports s.loops i testing h.in_range,
        e z,
        ap (count z) (erase-absent w ys h.not_active),
      );
      unserved = v.unserved;
    }

pub resume-given : (i w : ℕ) (s : System) → 0 < w → resume i w s ≡ set_loop i (accepting w) s
unfolding resume resume_pop
resume-given i w s h = ground arith

resume-idle :
    (i : ℕ) (s : System)
    → resume i 0 s ≡ record s {
      server = (idle_pop s.server).server;
      loops = update s.loops i (accepting (idle_pop s.server).worker);
    }
unfolding resume resume_pop
resume-idle i s = ground arith

idle_pop-keeps :
    (s : TcpServer)
    → ((idle_pop s).server.waiters ≡ s.waiters)
      × ((idle_pop s).server.active_accepts ≡ s.active_accepts)
      × ((idle_pop s).server.ports ≡ s.ports)
unfolding idle_pop
idle_pop-keeps s = (ground arith, ground arith, ground arith)

-- A loop at its test takes the first idle worker.
pub pops-Sound :
    (i x : ℕ) (ws xs ys : List ℕ) (s : System)
    → s.loops i ≡ testing
    → Sound ws (x ∷ xs) ys s
    → Sound ws xs ys (resume i 0 s)
pops-Sound i x ws xs ys s e v =
    let p = idle_pop s.server in
    let k = idle_pop-keeps s.server in
    let q = idle_pop-Lists s.server x xs ys v.lists in
    let c =
      Looping-set i (accepting x) s v.looping (ground (arith, e)) (ground (arith, e)) refl refl in
    let h = below s i v.looping (ground (arith, e)) in
    subst (Sound ws xs ys) (sym (resume-idle i s)) (
      subst
        (λ w.
          Sound ws xs ys (record s { server = p.server; loops = update s.loops i (accepting w) }))
        (sym q.0)
        (record {
          lists = q.1;
          looping = record {
            beyond = λ j b. c.beyond j (subst (λ n. n ≤ j) k.2 b);
            queue = λ j. ap (count j) k.0 ∙ c.queue j;
            counted =
                k.1 ∙ c.counted ∙ ap (λ n. total live n (update s.loops i (accepting x))) (sym k.2);
          };
          spread = λ z. ground (
            arith,
            v.spread z,
            total-update (holds z) s.server.ports s.loops i (accepting x) h,
            ap (λ n. total (holds z) n (update s.loops i (accepting x))) k.2,
            e,
          );
          unserved = ground (arith, v.unserved, k.0);
        }))

pub test-is :
    (i : ℕ) (s : System) (b c : Bool)
    → s.server.stop_requested ≡ b
    → idle_empty s.server ≡ c
    → test i s ≡ (
        if b
        then record s { server = accept_done s.server; loops = update s.loops i ended }
        else if not c
        then resume i 0 s
        else record s { server = suspend_pop i s.server; loops = update s.loops i waiting })
unfolding test
test-is i s true c e f = ground (arith, e)
test-is i s false true e f = ground (arith, e, f)
test-is i s false false e f = ground (arith, e, f)

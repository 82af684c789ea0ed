-- ===== src/TcpServer/Setup.antt =====
-- set_workers of tcp_server.
use corosio.Base.{ℕ, ◌+◌, ◌≤◌, ◌<◌, ◌≡◌, refl, sym, ap, ◌∙◌, inl, List, [], ◌∷◌, count, arith}
use corosio.TcpServer.{TcpServer, idle_push, push_all, set_workers}
use corosio.TcpServer.Workers.{Lists, idle_push-Lists}
use corosio.TcpServer.Returns.{Agrees}
use corosio.TcpServer.Loops.{ended, System}
use corosio.TcpServer.Held.{holds, live, is_waiting, total-zero}
use corosio.TcpServer.Sound.{Staff, IsSound}

-- The workers in the order in which they were pushed, the last one first.
abbrev pub onto : List ℕ → List ℕ → List ℕ
onto [] xs = xs
onto (w ∷ ws) xs = onto ws (w ∷ xs)

count-onto : (z : ℕ) (ws xs : List ℕ) → count z (onto ws xs) ≡ count z ws + count z xs
count-onto z [] xs = omega arith
count-onto z (w ∷ ws) xs = omega (arith, count-onto z ws (w ∷ xs))

push_all-Lists :
    (ws xs : List ℕ) (s : TcpServer)
    → Lists xs [] s
    → ((z : ℕ) → count z ws + count z xs ≤ 1)
    → ((z : ℕ) → 0 < count z ws → 0 < z)
    → Lists (onto ws xs) [] (push_all ws s)
push_all-Lists [] xs s h d p = h
push_all-Lists (w ∷ ws) xs s h d p =
    push_all-Lists ws (w ∷ xs) (idle_push w s)
      (idle_push-Lists w s xs [] h (p w (ground arith)) (ground (arith, d w)) refl)
      (λ z. omega (arith, d z)) (λ z c. p z (omega (arith, c)))

push_all-Agrees : (ws : List ℕ) (s : TcpServer) → Agrees s (push_all ws s)
unfolding idle_push
push_all-Agrees [] s = record {
  waiters = refl;
  accepts = refl;
  stopped = refl;
  running = refl;
  ports = refl;
  stops = refl;
}
push_all-Agrees (w ∷ ws) s =
    let a = push_all-Agrees ws (idle_push w s) in
    record {
      waiters = a.waiters;
      accepts = a.accepts;
      stopped = a.stopped;
      running = a.running;
      ports = a.ports;
      stops = a.stops;
    }

-- set_workers with distinct workers that are in no list, on a server whose accept loops have all
-- ended and that has no waiters, leaves a sound server: all the workers are idle.
pub set_workers-IsSound :
    (ws : List ℕ) (s : System)
    → Staff ws
    → ((z : ℕ) → s.server.prev z ≡ 0)
    → ((i : ℕ) → s.loops i ≡ ended)
    → s.server.waiters ≡ []
    → s.server.active_accepts ≡ 0
    → IsSound ws (record s { server = set_workers ws s.server })
unfolding set_workers
set_workers-IsSound ws s f p l e a =
    let u = s.server in
    let base : TcpServer = record u { idle_head = 0; active_head = 0; active_tail = 0 } in
    let k = push_all-Agrees ws base in
    let empty : Lists [] [] base = record {
      idle = refl;
      busy = record { ends = (refl, refl); distinct = λ z. omega arith };
      apart = λ z. omega arith;
      unmarked = λ z c. p z;
    } in
    (
      onto ws [],
      [],
      record {
        lists = push_all-Lists ws [] base empty (λ z. omega (arith, f.distinct z)) f.positive;
        looping = record {
          beyond = λ i b. l i;
          queue = λ i. ap (count i) (k.waiters ∙ e) ∙ sym (ap is_waiting (l i));
          counted =
              k.accepts
              ∙ a
              ∙ sym (total-zero live (push_all ws base).ports s.loops (λ i b. ap live (l i)));
        };
        spread = λ z. omega (
          arith,
          count-onto z ws [],
          total-zero (holds z) (push_all ws base).ports s.loops (λ i b. ap (holds z) (l i)),
        );
        unserved = inl (k.waiters ∙ e);
      },
    )

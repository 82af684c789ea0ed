-- ===== src/TcpServer/Sound.antt =====
-- What holds of a tcp_server between the steps on its executor.
use corosio.Base.{
  ℕ, ◌+◌, ◌≤◌, ◌<◌, ◌≡◌, refl, sym, subst, ap, ◌∙◌, ◌⊎◌, inl, inr, List, [], ◌∷◌, count, ltb,
  update, arith, Bool-cases,
}
use corosio.Chain.{Distinct}
use corosio.IntrusiveList.Unlink.{erase}
use corosio.TcpServer.{TcpServer, Returned, push_sync}
use corosio.TcpServer.Workers.{Lists}
use corosio.TcpServer.Returns.{Agrees, Gives, push_sync-Gives}
use corosio.TcpServer.Loops.{
  Loop, testing, waiting, ended, woken, accepting, returning, System, wake, push,
}
use corosio.TcpServer.Held.{holds, live, is_waiting, total, total-update}

-- The workers of a pool: each of them once, none of them null.
pub record Staff (ws : List ℕ) : Type 0 where
  pub distinct : Distinct ws
  pub positive : (z : ℕ) → 0 < count z ws → 0 < z

-- Of what the loops do: those beyond the ports are none, the waiters are those that wait, each once,
-- and active_accepts is the number of those that have not ended.
pub record Looping (s : System) : Type 0 where
  pub beyond : (i : ℕ) → s.server.ports ≤ i → s.loops i ≡ ended
  pub queue : (i : ℕ) → count i s.server.waiters ≡ is_waiting (s.loops i)
  pub counted : s.server.active_accepts ≡ total live s.server.ports s.loops

-- The workers are where these say: idle, active, or with a loop; and no loop waits while a worker is
-- idle.
pub record Sound (ws xs ys : List ℕ) (s : System) : Type 0 where
  pub lists : Lists xs ys s.server
  pub looping : Looping s
  pub spread :
      (z : ℕ) → count z xs + count z ys + total (holds z) s.server.ports s.loops ≡ count z ws
  pub unserved : (s.server.waiters ≡ []) ⊎ (xs ≡ [])

abbrev pub IsSound : List ℕ → System → Type 0
IsSound ws s = (xs : List ℕ) × (ys : List ℕ) × Sound ws xs ys s

-- The same, with the active workers named.
abbrev pub IsSoundWith : List ℕ → List ℕ → System → Type 0
IsSoundWith ws ys s = (xs : List ℕ) × Sound ws xs ys s

-- The same while one worker, which may still be active, is on its way back.
pub record Loose (w : ℕ) (ws xs ys : List ℕ) (s : System) : Type 0 where
  pub lists : Lists xs ys s.server
  pub looping : Looping s
  pub spread :
      (z : ℕ)
      → count z xs
          + count z (erase w ys)
          + total (holds z) s.server.ports s.loops
          + count z (w ∷ [])
        ≡ count z ws
  pub unserved : (s.server.waiters ≡ []) ⊎ (xs ≡ [])

waiting-is : (l : Loop) → 0 < is_waiting l → l ≡ waiting
waiting-is waiting h = refl
waiting-is testing h = absurd (omega arith)
waiting-is ended h = absurd (omega arith)
waiting-is (woken w) h = absurd (omega arith)
waiting-is (accepting w) h = absurd (omega arith)
waiting-is (returning w) h = absurd (omega arith)

pub below : (s : System) (i : ℕ) → Looping s → 0 < live (s.loops i) → i < s.server.ports
below s i l h = elim (Bool-cases (ltb i s.server.ports)) [
  | inl e ↦ ground arith
  | inr e ↦ absurd (ground (arith, ap live (l.beyond i (ground arith))))
]

Looping-same :
    (s : System) (t : TcpServer) → Looping s → Agrees s.server t → Looping (record s { server = t })
Looping-same s t l a = record {
  beyond = λ i h. l.beyond i (subst (λ k. k ≤ i) a.ports h);
  queue = λ i. ap (count i) a.waiters ∙ l.queue i;
  counted = a.accepts ∙ l.counted ∙ ap (λ k. total live k s.loops) (sym a.ports);
}

given_idle :
    (w : ℕ) (ws xs ys : List ℕ) (s : System) (t : TcpServer)
    → Loose w ws xs ys s
    → s.server.waiters ≡ []
    → Lists (w ∷ xs) (erase w ys) t
    → Agrees s.server t
    → Sound ws (w ∷ xs) (erase w ys) (record s { server = t })
given_idle w ws xs ys s t v e l a = record {
  lists = l;
  looping = Looping-same s t v.looping a;
  spread = λ z. omega (arith, v.spread z, ap (λ k. total (holds z) k s.loops) a.ports);
  unserved = inl (a.waiters ∙ e);
}

-- The first waiter is a loop that waits.
pub first-waits :
    (i : ℕ) (rest : List ℕ) (s : System)
    → Looping s
    → s.server.waiters ≡ i ∷ rest
    → (s.loops i ≡ waiting) × (i < s.server.ports)
first-waits i rest s l e =
    let h = waiting-is (s.loops i) (ground (arith, l.queue i, ap (count i) e)) in
    (h, below s i l (ground (arith, h)))

waiter-Looping :
    (w i : ℕ) (rest : List ℕ) (s : System) (t : TcpServer)
    → Looping s
    → s.server.waiters ≡ i ∷ rest
    → let u = s.server in
      Agrees (record u { waiters = rest }) t
      → Looping (record s { server = t; loops = update s.loops i (woken w) })
waiter-Looping w i rest s t l e a =
    let h = first-waits i rest s l e in
    record {
      beyond = λ j b. ground (arith, l.beyond j, a.ports, h.1);
      queue =
          λ j. ap (count j) a.waiters ∙ ground (arith, l.queue j, l.queue i, ap (count j) e, h.0);
      counted = ground (
        arith,
        a.accepts,
        l.counted,
        total-update live s.server.ports s.loops i (woken w),
        ap (λ k. total live k (update s.loops i (woken w))) a.ports,
        h.0,
        h.1,
      );
    }

given_waiter :
    (w i : ℕ) (rest ws xs ys : List ℕ) (s : System) (t : TcpServer)
    → Loose w ws xs ys s
    → s.server.waiters ≡ i ∷ rest
    → Lists xs (erase w ys) t
    → let u = s.server in
      Agrees (record u { waiters = rest }) t
      → Sound ws xs (erase w ys) (record s { server = t; loops = update s.loops i (woken w) })
given_waiter w i rest ws xs ys s t v e l a =
    let h = first-waits i rest s v.looping e in
    record {
      lists = l;
      looping = waiter-Looping w i rest s t v.looping e a;
      spread = λ z. ground (
        arith,
        v.spread z,
        total-update (holds z) s.server.ports s.loops i (woken w),
        ap (λ k. total (holds z) k (update s.loops i (woken w))) a.ports,
        h.0,
        h.1,
      );
      unserved = ground (arith, v.unserved, e);
    }

Gives-IsSoundWith :
    (w : ℕ) (us ws xs ys : List ℕ) (s : System) (r : Returned)
    → Loose w ws xs ys s
    → s.server.waiters ≡ us
    → Gives w xs ys s.server us r
    → IsSoundWith ws (erase w ys) (record s { server = r.server; loops = wake w r.woken s.loops })
Gives-IsSoundWith w [] ws xs ys s r v e (n, l, a) =
    subst
      (λ o. IsSoundWith ws (erase w ys) (record s { server = r.server; loops = wake w o s.loops }))
      (sym n) (w ∷ xs, given_idle w ws xs ys s r.server v e l a)
Gives-IsSoundWith w (i ∷ rest) ws xs ys s r v e (n, l, a) =
    subst
      (λ o. IsSoundWith ws (erase w ys) (record s { server = r.server; loops = wake w o s.loops }))
      (sym n) (xs, given_waiter w i rest ws xs ys s r.server v e l a)

-- A worker that comes back is given to a loop that waits, or becomes idle.
pub push-IsSoundWith :
    (w : ℕ) (ws xs ys : List ℕ) (s : System)
    → Staff ws
    → Loose w ws xs ys s
    → IsSoundWith ws (erase w ys) (push w s)
unfolding push
push-IsSoundWith w ws xs ys s f v =
    let k = v.spread w in
    Gives-IsSoundWith w s.server.waiters ws xs ys s (push_sync w s.server) v refl (
      push_sync-Gives w s.server xs ys v.lists (f.positive w (ground (arith, k)))
        (ground (arith, k, f.distinct w)))

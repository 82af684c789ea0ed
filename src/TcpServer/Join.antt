-- ===== src/TcpServer/Join.antt =====
-- What join of a tcp_server waits for.
use corosio.Base.{
  ℕ, zero, suc, ◌+◌, ◌<◌, ◌≡◌, refl, ap, ◌∙◌, ◌⊎◌, inl, inr, true, false, List, [], ◌∷◌, count, ltb,
  arith, Bool-cases,
}
use corosio.TcpServer.{TcpServer, launched, start, is_joined}
use corosio.TcpServer.Workers.{Lists}
use corosio.TcpServer.Loops.{
  Loop, testing, waiting, ended, woken, accepting, returning, System, Reaches,
}
use corosio.TcpServer.Held.{holds, live, is_waiting, total, total-zero}
use corosio.TcpServer.Sound.{Staff, Sound, IsSound}
use corosio.TcpServer.Runs.{Reaches-keeps_workers, joined-ended}

no_waiters : (s : System) (us : List ℕ) → ((i : ℕ) → count i us ≡ 0) → us ≡ []
no_waiters s [] h = refl
no_waiters s (i ∷ us) h = absurd (ground (arith, h i))

start-begins :
    (s : TcpServer)
    → s.is_running ≡ false
    → s.active_accepts ≡ 0
    → (t : TcpServer) × (start s ≡ launched t)
unfolding start
start-begins s r e = (
  record s { is_running = true; stop_requested = false; active_accepts = s.ports },
  ground (arith, r, e),
)

-- What holds when join returns.
pub record Joined (ws : List ℕ) (s : System) : Type 0 where
  pub all_ended : (i : ℕ) → s.loops i ≡ ended
  pub none_waits : s.server.waiters ≡ []
  pub returned :
      (xs : List ℕ) × (ys : List ℕ) × Lists xs ys s.server
      × ((z : ℕ) → count z xs + count z ys ≡ count z ws)
  pub restarts : s.server.is_running ≡ false → (t : TcpServer) × (start s.server ≡ launched t)

-- Whatever has happened since the server was sound with these workers: when join returns, every
-- accept loop has ended, none waits for a worker, every worker is once in the idle or the active
-- list, and a server that is stopped can be started again.
pub is_joined-Joined :
    (ws : List ℕ) (s t : System)
    → Staff ws
    → IsSound ws s
    → Reaches s t
    → is_joined t.server ≡ true
    → Joined ws t
is_joined-Joined ws s t f v r j =
    let (xs, ys, u) = Reaches-keeps_workers ws s t f r v in
    let e : t.server.active_accepts ≡ 0 = ground arith in
    let ends = λ (i : ℕ). joined-ended t i u.looping e in
    record {
      all_ended = ends;
      none_waits = no_waiters t t.server.waiters (λ i. u.looping.queue i ∙ ap is_waiting (ends i));
      returned = (
        xs,
        ys,
        u.lists,
        λ z. omega (
          arith,
          u.spread z,
          total-zero (holds z) t.server.ports t.loops (λ i l. ap (holds z) (ends i)),
        ),
      );
      restarts = λ h. start-begins t.server h e;
    }

-- A sum that is not zero has a loop that counts.
total-some :
    (f : Loop → ℕ) (n : ℕ) (ls : ℕ → Loop) → 0 < total f n ls → (i : ℕ) × (i < n) × (0 < f (ls i))
total-some f zero ls h = absurd (omega arith)
total-some f (suc n) ls h = elim (Bool-cases (ltb 0 (f (ls n)))) [
  | inl e ↦ (n, omega arith, ground arith)
  | inr e ↦ let (i, l, k) = total-some f n ls (ground arith) in (i, omega arith, k)
]

-- A loop that does not depend on a worker's return.
abbrev pub Movable : Loop → Type 0
Movable l = (live l ≡ 1) × (is_waiting l ≡ 0)

live-cases : (l : Loop) → 0 < live l → (l ≡ waiting) ⊎ Movable l
live-cases waiting h = inl refl
live-cases testing h = inr (refl, refl)
live-cases ended h = absurd (omega arith)
live-cases (woken w) h = inr (refl, refl)
live-cases (accepting w) h = inr (refl, refl)
live-cases (returning w) h = inr (refl, refl)

holder-Movable : (z : ℕ) (l : Loop) → 0 < holds z l → Movable l
holder-Movable z (woken w) h = (refl, refl)
holder-Movable z (accepting w) h = (refl, refl)
holder-Movable z (returning w) h = (refl, refl)
holder-Movable z waiting h = absurd (omega arith)
holder-Movable z testing h = absurd (omega arith)
holder-Movable z ended h = absurd (omega arith)

-- A loop that can go on, or a worker that is active.
abbrev pub Progress : System → Type 0
Progress s =
    ((i : ℕ) × (i < s.server.ports) × Movable (s.loops i))
    ⊎ ((xs : List ℕ) × (ys : List ℕ) × (w : ℕ) × Lists xs ys s.server × (0 < count w ys))

unserved-Progress :
    (ws xs ys : List ℕ) (s : System) (w : ℕ)
    → Sound ws xs ys s
    → xs ≡ []
    → 0 < count w ws
    → Progress s
unserved-Progress ws xs ys s w v e c = elim (Bool-cases (ltb 0 (count w ys))) [
  | inl h ↦ inr (xs, ys, w, v.lists, ground arith)
  | inr h ↦
      let (i, l, k) =
        total-some (holds w) s.server.ports s.loops (ground (arith, v.spread w, ap (count w) e)) in
      inl (i, l, holder-Movable w (s.loops i) k)
]

-- Whatever has happened since a server that has a worker was sound: as long as its join would wait,
-- some accept loop has not ended and does not wait for a worker, or some worker is active.
pub no_deadlock :
    (ws : List ℕ) (s t : System) (w : ℕ)
    → Staff ws
    → IsSound ws s
    → Reaches s t
    → 0 < count w ws
    → is_joined t.server ≡ false
    → Progress t
no_deadlock ws s t w f v r c j =
    let (xs, ys, u) = Reaches-keeps_workers ws s t f r v in
    let (i, l, k) = total-some live t.server.ports t.loops (ground (arith, u.looping.counted)) in
    elim (live-cases (t.loops i) k) [
      | inr m ↦ inl (i, l, m)
      | inl e ↦ elim u.unserved [
        | inr x ↦ unserved-Progress ws xs ys t w u x c
        | inl q ↦ absurd (ground (arith, u.looping.queue i, ap (count i) q, ap is_waiting e))
      ]
    ]

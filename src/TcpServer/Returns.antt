-- ===== src/TcpServer/Returns.antt =====
-- push and push_sync of tcp_server on the two lists.
use corosio.Base.{
  ℕ, ◌≤◌, ◌<◌, ◌≡◌, refl, sym, subst, ap, ◌∙◌, List, [], ◌∷◌, ◌++◌, ◌==◌, arith, count, false,
  if_false, Bool-cases, inl, inr, none, some,
}
use corosio.IntrusiveList.Unlink.{erase, count-erase}
use corosio.TcpServer.{
  TcpServer, idle_push, active_push, unlink_before, unlink_after, active_remove, Returned,
  hand_over, push_sync, launch,
}
use corosio.TcpServer.Idle.{Leads, Leads-frame}
use corosio.TcpServer.Active.{
  member-is_inactive, active_remove-Holds, active_remove-skips, count-erase_self,
}
use corosio.TcpServer.Workers.{
  Lists, idle_push-Lists, active_remove-elsewhere, active_remove-idle_head, active_remove-prev,
  active_push-Lists,
}

-- The fields that the worker lists do not concern.
pub record Agrees (s t : TcpServer) : Type 0 where
  pub waiters : t.waiters ≡ s.waiters
  pub accepts : t.active_accepts ≡ s.active_accepts
  pub stopped : t.stop_requested ≡ s.stop_requested
  pub running : t.is_running ≡ s.is_running
  pub ports : t.ports ≡ s.ports
  pub stops : t.stops ≡ s.stops

active_remove-Agrees : (w : ℕ) (s : TcpServer) → Agrees s (active_remove w s)
unfolding active_remove unlink_before unlink_after
active_remove-Agrees w s = record {
  waiters = ground arith;
  accepts = ground arith;
  stopped = ground arith;
  running = ground arith;
  ports = ground arith;
  stops = ground arith;
}

-- How often an element that is not removed is left.
pub count-erase_other :
    (z w : ℕ) (xs : List ℕ) → (w == z) ≡ false → count z (erase w xs) ≡ count z xs
count-erase_other z w [] e = refl
count-erase_other z w (y ∷ ys) e = elim (Bool-cases (y == w)) [
  | inl f ↦ rw (f) (ground arith)
  | inr f ↦ rw (f) (ground (arith, count-erase_other z w ys e))
]

pub erase-absent : (w : ℕ) (xs : List ℕ) → count w xs ≡ 0 → erase w xs ≡ xs
erase-absent w [] c = refl
erase-absent w (y ∷ ys) c =
    if_false (y == w) ys (y ∷ erase w ys) (ground arith)
    ∙ ap (λ l. y ∷ l) (erase-absent w ys (ground arith))

active_remove-member :
    (w : ℕ) (s : TcpServer) (xs ys : List ℕ)
    → Lists xs ys s
    → 0 < count w ys
    → Lists xs (erase w ys) (active_remove w s)
active_remove-member w s xs ys h c =
    let e = member-is_inactive w s ys h.busy c in
    record {
      idle =
          subst (λ k. Leads (active_remove w s).next k xs) (sym (active_remove-idle_head w s))
            (Leads-frame s.next (active_remove w s).next s.idle_head xs
              (λ z p. (active_remove-elsewhere w s ys z h.busy c (ground (arith, h.apart z))).0)
              h.idle);
      busy = active_remove-Holds w s ys h.busy c;
      apart = λ z. ground (arith, h.apart z, count-erase z w ys);
      unmarked = λ z d. elim (Bool-cases (w == z)) [
        | inl f ↦
            subst (λ v. (active_remove w s).prev v ≡ 0) {x = w} {y = z} (ground arith)
              (active_remove-prev w s e)
        | inr f ↦
            let g : count z ys ≡ 0 = ground (arith, count-erase_other z w ys f, d) in
            (active_remove-elsewhere w s ys z h.busy c g).1 ∙ h.unmarked z g
      ];
    }

-- active_remove takes a worker off the active list if it is there, and else changes nothing.
pub active_remove-Lists :
    (w : ℕ) (s : TcpServer) (xs ys : List ℕ)
    → Lists xs ys s
    → 0 < w
    → Lists xs (erase w ys) (active_remove w s)
active_remove-Lists w s xs ys h w0 = elim (Bool-cases (count w ys == 0)) [
  | inl e ↦
      let c : count w ys ≡ 0 = ground arith in
      subst (Lists xs (erase w ys)) (sym (active_remove-skips w s ys h.busy c w0 (h.unmarked w c)))
        (subst (λ l. Lists xs l s) (sym (erase-absent w ys c)) h)
  | inr e ↦ active_remove-member w s xs ys h (ground arith)
]

-- What push leaves: a worker for the waiter at the head, or one more idle worker.
abbrev pub Gives : ℕ → List ℕ → List ℕ → TcpServer → List ℕ → Returned → Type 0
Gives w xs ys s [] r = (r.woken ≡ none) × Lists (w ∷ xs) (erase w ys) r.server × Agrees s r.server
Gives w xs ys s (i ∷ rest) r =
    (r.woken ≡ some i)
    × Lists xs (erase w ys) r.server
    × Agrees (record s { waiters = rest }) r.server

hand_over-Gives :
    (w : ℕ) (s t : TcpServer) (xs ys ws : List ℕ)
    → Lists xs (erase w ys) t
    → Agrees s t
    → t.waiters ≡ ws
    → 0 < w
    → count w xs ≡ 0
    → count w ys ≤ 1
    → Gives w xs ys s ws (hand_over w t ws)
unfolding hand_over idle_push
hand_over-Gives w s t xs ys [] h a e w0 c d = (
  refl,
  idle_push-Lists w t xs (erase w ys) h w0 c (count-erase_self w ys d),
  record {
    waiters = a.waiters;
    accepts = a.accepts;
    stopped = a.stopped;
    running = a.running;
    ports = a.ports;
    stops = a.stops;
  },
)
hand_over-Gives w s t xs ys (i ∷ rest) h a e w0 c d = (
  refl,
  record { idle = h.idle; busy = h.busy; apart = h.apart; unmarked = h.unmarked },
  record {
    waiters = refl;
    accepts = a.accepts;
    stopped = a.stopped;
    running = a.running;
    ports = a.ports;
    stops = a.stops;
  },
)

-- push of a worker that is not idle.
pub push_sync-Gives :
    (w : ℕ) (s : TcpServer) (xs ys : List ℕ)
    → Lists xs ys s
    → 0 < w
    → count w xs ≡ 0
    → Gives w xs ys s s.waiters (push_sync w s)
unfolding push_sync
push_sync-Gives w s xs ys h w0 c =
    let a = active_remove-Agrees w s in
    subst (λ l. Gives w xs ys s l (push_sync w s)) a.waiters
      (hand_over-Gives w s (active_remove w s) xs ys (active_remove w s).waiters
        (active_remove-Lists w s xs ys h w0) a refl w0 c (h.busy.distinct w))

-- A worker that is launched joins the active ones, as the last.
pub launch-Lists :
    (w : ℕ) (s : TcpServer) (xs ys : List ℕ)
    → Lists xs ys s
    → 0 < w
    → count w xs ≡ 0
    → count w ys ≡ 0
    → Lists xs (ys ++ w ∷ []) (launch w s)
unfolding launch
launch-Lists w s xs ys h w0 c d =
    let k = active_push-Lists w s xs ys h w0 c d in
    record { idle = k.idle; busy = k.busy; apart = k.apart; unmarked = k.unmarked }

pub launch-keeps :
    (w : ℕ) (s : TcpServer)
    → ((launch w s).waiters ≡ s.waiters)
      × ((launch w s).active_accepts ≡ s.active_accepts)
      × ((launch w s).stop_requested ≡ s.stop_requested)
      × ((launch w s).ports ≡ s.ports)
      × ((launch w s).idle_head ≡ s.idle_head)
unfolding launch active_push
launch-keeps w s = (ground arith, ground arith, ground arith, ground arith, ground arith)

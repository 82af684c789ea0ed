-- ===== src/TcpServer/Workers.antt =====
-- The two lists of a tcp_server, and what its operations make of them.
use corosio.Base.{
  ℕ, ◌+◌, ◌≤◌, ◌<◌, ◌≡◌, refl, sym, subst, ap, ◌∙◌, List, [], ◌∷◌, ◌++◌, ◌==◌, arith, count,
  count-append, false, if_false, if_true, update, Bool-cases, ◌⊎◌, inl, inr,
}
use corosio.IntrusiveList.Links.{Holds, Doubly-last}
use corosio.IntrusiveList.Unlink.{Doubly-prev, prev-in, next-in}
use corosio.TcpServer.{
  TcpServer, idle_push, Picked, idle_pop, active_push, is_inactive, unlink_before, unlink_after,
  active_remove,
}
use corosio.TcpServer.Idle.{Leads, Leads-frame}
use corosio.TcpServer.Active.{active, Holds-frame, member-is_inactive, active_push-Holds}

-- `xs` are the idle workers, and `ys` the active ones.
pub record Lists (xs ys : List ℕ) (s : TcpServer) : Type 0 where
  pub idle : Leads s.next s.idle_head xs
  pub busy : Holds (active s) ys
  pub apart : (z : ℕ) → count z xs + count z ys ≤ 1
  pub unmarked : (z : ℕ) → count z ys ≡ 0 → s.prev z ≡ 0

-- The lists hold the same workers in a server that differs in other fields only.
pub relist :
    (s t : TcpServer) (xs ys : List ℕ)
    → (t ≡ record s {
      stops = t.stops;
      waiters = t.waiters;
      active_accepts = t.active_accepts;
      is_running = t.is_running;
      stop_requested = t.stop_requested;
      ports = t.ports;
    })
    → Lists xs ys s
    → Lists xs ys t
relist s t xs ys e h =
    subst (Lists xs ys) (sym e)
      (record { idle = h.idle; busy = h.busy; apart = h.apart; unmarked = h.unmarked })

pub idle_push-Lists :
    (w : ℕ) (s : TcpServer) (xs ys : List ℕ)
    → Lists xs ys s
    → 0 < w
    → count w xs ≡ 0
    → count w ys ≡ 0
    → Lists (w ∷ xs) ys (idle_push w s)
unfolding idle_push
idle_push-Lists w s xs ys h w0 c d = record {
  idle = (
    refl,
    w0,
    subst (λ k. Leads (update s.next w s.idle_head) k xs)
        (sym (if_true (w == w) s.idle_head (s.next w) (ground arith)))
        (Leads-frame s.next (update s.next w s.idle_head) s.idle_head xs (λ z p. ground arith)
          h.idle),
  );
  busy =
      Holds-frame (active s) (active (idle_push w s)) ys refl refl (λ z p. ground arith)
        (λ z p. refl) h.busy;
  apart = λ z. ground (arith, h.apart z);
  unmarked = h.unmarked;
}

pub idle_pop-Lists :
    (s : TcpServer) (x : ℕ) (xs ys : List ℕ)
    → Lists (x ∷ xs) ys s
    → ((idle_pop s).worker ≡ x) × Lists xs ys (idle_pop s).server
unfolding idle_pop
idle_pop-Lists s x xs ys h =
    let none_idle : Picked = record { worker = s.idle_head; server = s } in
    let rest : TcpServer = record s { idle_head = s.next s.idle_head } in
    let picked : Picked = record { worker = s.idle_head; server = rest } in
    subst (λ (p : Picked). (p.worker ≡ x) × Lists xs ys p.server)
      (sym (if_false (s.idle_head == 0) none_idle picked (ground (arith, h.idle.0, h.idle.1))))
      (
        h.idle.0,
        record {
          idle = subst (λ k. Leads s.next (s.next k) xs) (sym h.idle.0) h.idle.2;
          busy = h.busy;
          apart = λ z. ground (arith, h.apart z);
          unmarked = h.unmarked;
        },
      )

-- What active_push leaves of the links of the other workers.
active_push-elsewhere :
    (w : ℕ) (s : TcpServer) (ys : List ℕ) (z : ℕ)
    → Holds (active s) ys
    → count z ys ≡ 0
    → (w == z) ≡ false
    → ((active_push w s).next z ≡ s.next z) × ((active_push w s).prev z ≡ s.prev z)
unfolding active_push
active_push-elsewhere w s [] z h c e = ground (arith, h.ends.1)
active_push-elsewhere w s (y ∷ ys) z h c e =
    ground (arith, Doubly-last s.next s.prev 0 y ys s.active_tail h.ends.2)

active_push-idle_head : (w : ℕ) (s : TcpServer) → (active_push w s).idle_head ≡ s.idle_head
unfolding active_push
active_push-idle_head w s = ground arith

pub active_push-Lists :
    (w : ℕ) (s : TcpServer) (xs ys : List ℕ)
    → Lists xs ys s
    → 0 < w
    → count w xs ≡ 0
    → count w ys ≡ 0
    → Lists xs (ys ++ w ∷ []) (active_push w s)
active_push-Lists w s xs ys h w0 c d = record {
  idle =
      subst (λ k. Leads (active_push w s).next k xs) (sym (active_push-idle_head w s))
        (Leads-frame s.next (active_push w s).next s.idle_head xs
          (λ z p.
            (active_push-elsewhere w s ys z h.busy (ground (arith, h.apart z)) (ground arith)).0)
          h.idle);
  busy = active_push-Holds w s ys h.busy d w0;
  apart = λ z. ground (arith, h.apart z, count-append z ys (w ∷ []));
  unmarked = λ z e.
      let k = count-append z ys (w ∷ []) in
      (active_push-elsewhere w s ys z h.busy (ground (arith, k)) (ground (arith, k))).1
      ∙ h.unmarked z (ground (arith, k));
}

-- The neighbours of an active worker are active, or there is none.
prev-among :
    (w : ℕ) (s : TcpServer) (ys : List ℕ)
    → Holds (active s) ys
    → 0 < count w ys
    → (s.prev w ≡ 0) ⊎ (0 < count (s.prev w) ys)
prev-among w s [] h c = absurd (omega arith)
prev-among w s (y ∷ ys) h c = elim (Bool-cases (y == w)) [
  | inl e ↦ inl (
      ap s.prev {x = w} {y = y} (ground arith)
      ∙ Doubly-prev s.next s.prev 0 y ys s.active_tail h.ends.2)
  | inr e ↦ inr (prev-in s.next s.prev 0 y ys s.active_tail w h.ends.2 (ground arith))
]

next-among :
    (w : ℕ) (s : TcpServer) (ys : List ℕ)
    → Holds (active s) ys
    → 0 < count w ys
    → (s.next w ≡ 0) ⊎ (0 < count (s.next w) ys)
next-among w s [] h c = absurd (omega arith)
next-among w s (y ∷ ys) h c = elim (Bool-cases (s.next w == 0)) [
  | inl e ↦ inl (ground arith)
  | inr e ↦
      inr (ground (arith, next-in s.next s.prev 0 y ys s.active_tail w h.ends.2 c (ground arith)))
]

pub active_remove-elsewhere :
    (w : ℕ) (s : TcpServer) (ys : List ℕ) (z : ℕ)
    → Holds (active s) ys
    → 0 < count w ys
    → count z ys ≡ 0
    → ((active_remove w s).next z ≡ s.next z) × ((active_remove w s).prev z ≡ s.prev z)
unfolding active_remove unlink_before unlink_after
active_remove-elsewhere w s ys z h c d = ground (
  arith,
  member-is_inactive w s ys h c,
  prev-among w s ys h c,
  next-among w s ys h c,
  alike (s.prev w) ys z,
  alike (s.next w) ys z,
  alike w ys z,
)
  where
    alike : (a : ℕ) (l : List ℕ) (b : ℕ) → a ≡ b → count a l ≡ count b l
    alike a l b e = ap (λ v. count v l) e

pub active_remove-idle_head : (w : ℕ) (s : TcpServer) → (active_remove w s).idle_head ≡ s.idle_head
unfolding active_remove unlink_before unlink_after
active_remove-idle_head w s = ground arith

pub active_remove-prev :
    (w : ℕ) (s : TcpServer) → is_inactive w s ≡ false → (active_remove w s).prev w ≡ 0
unfolding active_remove
active_remove-prev w s e = ground (arith, e)

-- ===== src/TcpServer/Stop.antt =====
-- What stop of a tcp_server reaches.
use corosio.Base.{
  ℕ, zero, suc, ◌<◌, ◌≡◌, refl, sym, subst, true, ◌==◌, if◌then◌else◌, List, [], ◌∷◌, count, length,
  ltb, update, arith, Option, some, none, Ensures, if_true, if_false,
}
use corosio.IntrusiveList.Links.{Holds, Doubly}
use corosio.TcpServer.{TcpServer, stop_from, do_stop}
use corosio.TcpServer.Active.{active}

-- These workers, and no others, have been asked to stop since `s`.
pub record Marks (ys : List ℕ) (s t : TcpServer) : Type 0 where
  pub marked : (z : ℕ) → t.stops z ≡ (if ltb 0 (count z ys) then true else s.stops z)
  pub kept : t ≡ record s { stops = t.stops }

abbrev Marked : ℕ → List ℕ → TcpServer → Option TcpServer → Type 0
Marked x ys s = Ensures (Marks (x ∷ ys) s)

Marks-more :
    (x y : ℕ) (ys : List ℕ) (s : TcpServer) (r : Option TcpServer)
    → Ensures (Marks (y ∷ ys) (record s { stops = update s.stops x true })) r
    → Marked x (y ∷ ys) s r
Marks-more x y ys s none m = m
Marks-more x y ys s (some t) m = record { marked = λ z. ground (arith, m.marked z); kept = m.kept }

stop_from-Marks :
    (f p x : ℕ) (ys : List ℕ) (t : ℕ) (s : TcpServer)
    → Doubly s.next s.prev p x ys t
    → 0 < x
    → suc (length ys) < f
    → Marked x ys s (stop_from f x s)
unfolding stop_from
stop_from-Marks zero p x ys t s l x0 h = absurd (omega arith)
stop_from-Marks (suc zero) p x ys t s l x0 h = absurd (omega arith)
stop_from-Marks (suc (suc f)) p x [] t s l x0 h =
    let s1 : TcpServer = record s { stops = update s.stops x true } in
    subst (Marked x [] s)
      (sym (if_false (x == 0) (some s) (stop_from (suc f) (s.next x) s1) (ground arith)))
      (subst (Marked x [] s)
        (sym (
          if_true (s.next x == 0) (some s1) (stop_from f (s.next (s.next x)) _)
            (ground (arith, l.1))))
        (record { marked = λ z. ground arith; kept = refl }))
stop_from-Marks (suc (suc f)) p x (y ∷ ys) t s l x0 h =
    let s1 : TcpServer = record s { stops = update s.stops x true } in
    subst (Marked x (y ∷ ys) s)
      (sym (if_false (x == 0) (some s) (stop_from (suc f) (s.next x) s1) (ground arith)))
      (subst (λ k. Marked x (y ∷ ys) s (stop_from (suc f) k s1)) (sym l.1)
        (Marks-more x y ys s (stop_from (suc f) y s1)
          (stop_from-Marks (suc f) x y ys t s1 l.3 l.2 (omega arith))))

-- do_stop ends, if its fuel exceeds the number of active workers, has asked exactly those to stop, and
-- has changed nothing else.
pub do_stop-Marks :
    (f : ℕ) (s : TcpServer) (ys : List ℕ)
    → Holds (active s) ys
    → length ys < f
    → Ensures (Marks ys s) (do_stop f s)
unfolding do_stop stop_from
do_stop-Marks zero s ys h l = absurd (omega arith)
do_stop-Marks (suc f) s [] h l =
    subst (Ensures (Marks [] s))
      (sym (
        if_true (s.active_head == 0) (some s) (stop_from f (s.next s.active_head) _)
          (ground (arith, h.ends.0))))
      (record { marked = λ z. refl; kept = refl })
do_stop-Marks (suc f) s (y ∷ ys) h l =
    subst (λ k. Ensures (Marks (y ∷ ys) s) (stop_from (suc f) k s)) (sym h.ends.0)
      (stop_from-Marks (suc f) 0 y ys s.active_tail s h.ends.2 h.ends.1 (omega (arith, l)))

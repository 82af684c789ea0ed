-- ===== src/TcpServer/Active.antt =====
-- The active list of a tcp_server is an intrusive_list over the workers' links, except that a worker
-- that leaves it keeps its next_.
use corosio.Base.{
  ℕ, ◌≤◌, ◌<◌, ◌≡◌, refl, sym, subst, ap, ◌∙◌, List, [], ◌∷◌, ◌++◌, ◌==◌, arith, count, false,
  if_false, if_true, Bool-cases, inl, inr,
}
use corosio.IntrusiveList.{
  IntrusiveList, push_back, remove, unlink_prev, unlink_next, is_detached, detach_node,
}
use corosio.IntrusiveList.Links.{Doubly, Holds, Doubly-frame, push_back-appends}
use corosio.IntrusiveList.Unlink.{erase, prev-in, members}
use corosio.IntrusiveList.Remove.{remove-Without}
use corosio.TcpServer.{
  TcpServer, active_push, is_inactive, unlink_before, unlink_after, mark_inactive, active_remove,
}

abbrev pub active : TcpServer → IntrusiveList
active s = record { next = s.next; prev = s.prev; head = s.active_head; tail = s.active_tail }

pub Holds-frame :
    (l l' : IntrusiveList) (xs : List ℕ)
    → l'.head ≡ l.head
    → l'.tail ≡ l.tail
    → ((z : ℕ) → 0 < count z xs → l'.next z ≡ l.next z)
    → ((z : ℕ) → 0 < count z xs → l'.prev z ≡ l.prev z)
    → Holds l xs
    → Holds l' xs
Holds-frame l l' [] e f n p h = record {
  ends = (e ∙ h.ends.0, f ∙ h.ends.1);
  distinct = h.distinct;
}
Holds-frame l l' (x ∷ xs) e f n p h = record {
  ends = (
    e ∙ h.ends.0,
    h.ends.1,
    subst (Doubly l'.next l'.prev 0 x xs) (sym f)
        (Doubly-frame l.next l'.next l.prev l'.prev 0 x xs l.tail n p h.ends.2),
  );
  distinct = h.distinct;
}

active-active_push : (w : ℕ) (s : TcpServer) → active (active_push w s) ≡ push_back w (active s)
unfolding active_push push_back
active-active_push w s = elim (Bool-cases (s.active_tail == 0)) [
  | inl e ↦ rw (e) refl
  | inr e ↦ rw (e) refl
]

active-unlinks :
    (w : ℕ) (s : TcpServer)
    → active (unlink_after w (unlink_before w s)) ≡ unlink_next w (unlink_prev w (active s))
unfolding unlink_after unlink_before unlink_prev unlink_next
active-unlinks w s = ground arith

pub active_push-Holds :
    (w : ℕ) (s : TcpServer) (ys : List ℕ)
    → Holds (active s) ys
    → count w ys ≡ 0
    → 0 < w
    → Holds (active (active_push w s)) (ys ++ w ∷ [])
active_push-Holds w s ys h c w0 =
    subst (λ l. Holds l (ys ++ w ∷ [])) (sym (active-active_push w s))
      (push_back-appends (active s) ys w h c w0)

-- A worker of the list is told apart from the others by its prev_ and the head.
pub member-is_inactive :
    (w : ℕ) (s : TcpServer) (ys : List ℕ)
    → Holds (active s) ys
    → 0 < count w ys
    → is_inactive w s ≡ false
member-is_inactive w s [] h c = absurd (omega arith)
member-is_inactive w s (x ∷ xs) h c = elim (Bool-cases (x == w)) [
  | inl e ↦ ground (arith, h.ends.0)
  | inr e ↦ ground (
    arith,
    members s.next s.prev 0 x xs s.active_tail (s.prev w) h.ends.1 h.ends.2
        (prev-in s.next s.prev 0 x xs s.active_tail w h.ends.2 (ground arith)),
  )
]

member-is_detached :
    (w : ℕ) (s : TcpServer) → is_inactive w s ≡ false → is_detached w (active s) ≡ false
member-is_detached w s e = ground arith

remove-is :
    (w : ℕ) (s : TcpServer)
    → is_inactive w s ≡ false
    → remove w (active s) ≡ detach_node w (active (unlink_after w (unlink_before w s)))
unfolding remove
remove-is w s e =
    if_false (is_detached w (active s)) (active s)
      (detach_node w (unlink_next w (unlink_prev w (active s)))) (member-is_detached w s e)
    ∙ ap (detach_node w) (sym (active-unlinks w s))

pub active_remove-is :
    (w : ℕ) (s : TcpServer)
    → is_inactive w s ≡ false
    → active_remove w s ≡ mark_inactive w (unlink_after w (unlink_before w s))
unfolding active_remove
active_remove-is w s e =
    if_false (is_inactive w s) s (mark_inactive w (unlink_after w (unlink_before w s))) e

pub count-erase_self : (w : ℕ) (xs : List ℕ) → count w xs ≤ 1 → count w (erase w xs) ≡ 0
count-erase_self w [] d = refl
count-erase_self w (x ∷ xs) d = elim (Bool-cases (x == w)) [
  | inl e ↦ rw (e) (ground arith)
  | inr e ↦ rw (e) (ground (arith, count-erase_self w xs))
]

-- A worker of the active list leaves it, and the others keep their order.
pub active_remove-Holds :
    (w : ℕ) (s : TcpServer) (ys : List ℕ)
    → Holds (active s) ys
    → 0 < count w ys
    → Holds (active (active_remove w s)) (erase w ys)
active_remove-Holds w s ys h c =
    let e = member-is_inactive w s ys h c in
    let m = unlink_after w (unlink_before w s) in
    let r = (remove-Without w ys (active s) h c).0 in
    let k : Holds (detach_node w (active m)) (erase w ys) =
      subst (λ l. Holds l (erase w ys)) (remove-is w s e) r in
    subst (λ (t : TcpServer). Holds (active t) (erase w ys)) (sym (active_remove-is w s e))
      (Holds-frame (detach_node w (active m)) (active (mark_inactive w m)) (erase w ys) refl refl
        (λ z p. ground (arith, count-erase_self w ys (h.distinct w))) (λ z p. refl) k)

-- A worker that is not active and has no prev_ is left alone.
pub active_remove-skips :
    (w : ℕ) (s : TcpServer) (ys : List ℕ)
    → Holds (active s) ys
    → count w ys ≡ 0
    → 0 < w
    → s.prev w ≡ 0
    → active_remove w s ≡ s
unfolding active_remove
active_remove-skips w s ys h c w0 p =
    if_true (is_inactive w s) s (mark_inactive w (unlink_after w (unlink_before w s)))
      (ground (arith, p, head_apart ys h c))
  where
    head_apart : (xs : List ℕ) → Holds (active s) xs → count w xs ≡ 0 → (w == s.active_head) ≡ false
    head_apart [] h c = ground (arith, h.ends.0)
    head_apart (x ∷ xs) h c = ground (arith, h.ends.0)

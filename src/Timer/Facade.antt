-- ===== src/Timer/Facade.antt =====
-- The expiry that expires_after stores.
use corosio.Base.{
  ℕ, ◌+◌, ◌≤◌, ◌≡◌, refl, Bool, true, false, none, not, ◌&&◌, ◌||◌, ltb, leb, ◌==◌, length,
  if◌then◌else◌, arith, Bool-cases, inl, inr, Ensures, Ensures-mono, subst, sym, zero, suc, ◌-◌,
}
use corosio.TimerHeap.{npos}
use corosio.TimerPool.{epoch}
use corosio.TimerService.{Service, time_max, update_timer, retime, already_expired}
use corosio.TimerService.Waiters.{IsConsistent, post_canceled_lem}
use corosio.Timer.{
  ℤ, pos, negsuc, is_positive, expiry, set_expiry, publish_expiry, expires_after, expiry_after,
}

-- Whether a duration has elapsed at the time point `later`, counted from `now`: a positive one not
-- before its end, and at the clock's last time point at the latest.
abbrev pub elapsed : ℕ → ℤ → ℕ → Bool
elapsed now (negsuc n) later = true
elapsed now (pos n) later = n == 0 || (leb time_max later || leb (now + n) later)

-- Publishing an expiry leaves a timer outside the heap there, with that expiry.
abbrev Keeps : ℕ → Service → Service × ℕ → Type 0
Keeps t s r = (r.0.timers.heap_index t ≡ npos) × ((r.0.impls t).expiry ≡ (s.impls t).expiry)

update_timer-Keeps :
    (t e : ℕ) (s : Service)
    → s.timers.heap_index t ≡ npos
    → length s.timers.heap ≤ npos
    → Ensures (Keeps t s) (update_timer t e s)
unfolding update_timer retime
update_timer-Keeps t e s out sized =
    let outside : ltb (s.timers.heap_index t) (length s.timers.heap) ≡ false = ground arith in
    elim (Bool-cases (s.timers.heap_index t == npos && not (s.impls t).might_have_pending_waits)) [
      | inl p ↦ rw p (out, refl)
      | inr p ↦ rw (p, outside) (rw (post_canceled_lem (s.impls t).waiters _) (out, ground arith))
    ]

publish_expiry-locked :
    (t : ℕ) (s : Service) → publish_expiry t s ≡ update_timer t (s.impls t).expiry s
unfolding publish_expiry update_timer
publish_expiry-locked t s =
    elim (Bool-cases (s.timers.heap_index t == npos && not (s.impls t).might_have_pending_waits)) [
      | inl e ↦ rw e refl
      | inr e ↦ rw e refl
    ]

expiry-set_expiry : (t e : ℕ) (s : Service) → expiry t (set_expiry t e s) ≡ e
unfolding expiry set_expiry
expiry-set_expiry t e s = ground arith

-- What a wait at any later time finds after the duration `d`.
abbrev pub Elapses : ℕ → ℕ → ℤ → Service × ℕ → Type 0
Elapses t now d r = (later : ℕ) → already_expired t later r.0 ≡ elapsed now d later

publish_expiry-Elapses :
    (t e now : ℕ) (d : ℤ) (s : Service)
    → IsConsistent s
    → s.timers.heap_index t ≡ npos
    → ((later : ℕ) → (e == 0 || leb e later) ≡ elapsed now d later)
    → Ensures (Elapses t now d) (publish_expiry t (set_expiry t e s))
unfolding set_expiry expiry already_expired
publish_expiry-Elapses t e now d s c out same =
    let s1 = set_expiry t e s in
    subst (Ensures (Elapses t now d)) (sym (publish_expiry-locked t s1)) (
      Ensures-mono (Keeps t s1) (Elapses t now d) (update_timer t (s1.impls t).expiry s1)
        (update_timer-Keeps t (s1.impls t).expiry s1 out c.links.index.sized)
        λ r k later. ground (arith, k.0, k.1, expiry-set_expiry t e s, same later))

-- For a timer of a consistent service that is not in the heap: if the duration is positive and the
-- clock is before its epoch, expires_after has undefined behaviour. Else it ends, and a wait at any
-- later time finds the timer expired exactly if the duration is not positive, or it has elapsed since
-- `now`, or the clock is at its last time point: no duration is so long that the expiry wraps around.
pub expires_after_saturates :
    (t now : ℕ) (d : ℤ) (s : Service)
    → IsConsistent s
    → s.timers.heap_index t ≡ npos
    → if is_positive d && ltb now epoch
      then expires_after t now d s ≡ none
      else Ensures (Elapses t now d) (expires_after t now d s)
unfolding expires_after expiry_after is_positive
expires_after_saturates t now (negsuc n) s c out =
    publish_expiry-Elapses t 0 now (negsuc n) s c out λ later. refl
expires_after_saturates t now (pos zero) s c out =
    publish_expiry-Elapses t 0 now (pos 0) s c out λ later. refl
expires_after_saturates t now (pos (suc n)) s c out =
    let positive : ltb 0 (suc n) ≡ true = ground arith in
    let nonzero : (suc n == 0) ≡ false = ground arith in
    elim (Bool-cases (ltb now epoch)) [
      | inl e ↦ rw (positive, nonzero, e) refl
      | inr e ↦
          rw (positive, nonzero, e)
            (publish_expiry-Elapses t
              (if ltb (time_max - now) (suc n) then time_max else now + suc n) now (pos (suc n)) s c
              out λ later. ground arith)
    ]

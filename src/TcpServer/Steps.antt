-- ===== src/TcpServer/Steps.antt =====
-- The tests, the pops and the handling of a connection in an accept loop of a tcp_server.
use corosio.Base.{
  ℕ, ◌+◌, ◌≤◌, ◌<◌, ◌≡◌, refl, sym, subst, ap, ◌∙◌, inl, inr, Bool, true, false, ◌==◌, List, [],
  ◌∷◌, ◌++◌, count, count-append, arith, Bool-cases,
}
use corosio.IntrusiveList.Unlink.{erase}
use corosio.TcpServer.{idle_empty, launch}
use corosio.TcpServer.Returns.{launch-Lists, launch-keeps, erase-absent}
use corosio.TcpServer.Loops.{
  testing, waiting, ended, woken, accepting, System, set_loop, push, resume, test, Handling,
  launches, drops, throws, run_worker,
}
use corosio.TcpServer.Held.{holds, live, is_waiting, total, total-update}
use corosio.TcpServer.Sound.{Staff, Sound, IsSoundWith, Loose, below, push-IsSoundWith}
use corosio.TcpServer.Workers.{relist}
use corosio.TcpServer.Kept.{
  ends-Looping, waits-Looping, Sound-set, held, loosen, resume-given, pops-Sound, test-is,
}

pub test-IsSoundWith :
    (i : ℕ) (ws xs ys : List ℕ) (s : System) (b : Bool)
    → s.loops i ≡ testing
    → s.server.stop_requested ≡ b
    → Sound ws xs ys s
    → IsSoundWith ws ys (test i s)
test-IsSoundWith i ws xs ys s true e f v =
    subst (IsSoundWith ws ys) (sym (test-is i s true (idle_empty s.server) f refl)) (
      xs,
      record {
        lists = relist s.server _ xs ys refl v.lists;
        looping = ends-Looping i s v.looping e;
        spread = λ z. ground (
          arith,
          v.spread z,
          total-update (holds z) s.server.ports s.loops i ended,
          below s i v.looping,
          e,
        );
        unserved = v.unserved;
      },
    )
test-IsSoundWith i ws [] ys s false e f v =
    subst (IsSoundWith ws ys) (sym (test-is i s false true f (ground (arith, v.lists.idle)))) (
      [],
      record {
        lists = relist s.server _ [] ys refl v.lists;
        looping = waits-Looping i s v.looping e;
        spread = λ z. ground (
          arith,
          v.spread z,
          total-update (holds z) s.server.ports s.loops i waiting,
          below s i v.looping,
          e,
        );
        unserved = inr refl;
      },
    )
test-IsSoundWith i ws (x ∷ xs) ys s false e f v =
    subst (IsSoundWith ws ys)
      (sym (test-is i s false false f (ground (arith, v.lists.idle.0, v.lists.idle.1))))
      (xs, pops-Sound i x ws xs ys s e v)

pub resume-IsSoundWith :
    (i w : ℕ) (ws xs ys : List ℕ) (s : System)
    → Staff ws
    → s.loops i ≡ woken w
    → Sound ws xs ys s
    → IsSoundWith ws ys (resume i w s)
resume-IsSoundWith i w ws xs ys s f e v =
    let h = held w i ws xs ys s f v (ap live e) (ap (holds w) e ∙ ground arith) in
    subst (IsSoundWith ws ys) (sym (resume-given i w s h.positive)) (
      xs,
      Sound-set i (accepting w) ws xs ys s v (ap live e) (ap is_waiting e) refl refl
          (λ z. sym (ap (holds z) e)),
    )

-- A worker that a loop has let go of is launched.
pub launch-Sound :
    (w i : ℕ) (ws xs ys : List ℕ) (s : System)
    → Loose w ws xs ys s
    → 0 < w
    → count w xs ≡ 0
    → count w ys ≡ 0
    → Sound ws xs (ys ++ w ∷ []) (record s { server = launch w s.server })
launch-Sound w i ws xs ys s v p c d =
    let k = launch-keeps w s.server in
    record {
      lists = launch-Lists w s.server xs ys v.lists p c d;
      looping = record {
        beyond = λ j b. v.looping.beyond j (subst (λ n. n ≤ j) k.3 b);
        queue = λ j. ap (count j) k.0 ∙ v.looping.queue j;
        counted = k.1 ∙ v.looping.counted ∙ ap (λ n. total live n s.loops) (sym k.3);
      };
      spread = λ z. omega (
        arith,
        v.spread z,
        count-append z ys (w ∷ []),
        ap (count z) (erase-absent w ys d),
        ap (λ n. total (holds z) n s.loops) k.3,
      );
      unserved = ground (arith, v.unserved, k.0);
    }

split :
    (z w : ℕ) (ys : List ℕ) → 0 < count w ys → count z (erase w ys) + count z (w ∷ []) ≡ count z ys
split z w [] c = absurd (omega arith)
split z w (y ∷ ys) c = elim (Bool-cases (y == w)) [
  | inl e ↦ rw (e) (ground (arith, ap (λ v. count z (v ∷ [])) {x = y} {y = w} (ground arith)))
  | inr e ↦ rw (e) (ground (arith, split z w ys))
]

-- A worker of the active list comes back.
pub loosen-active :
    (w : ℕ) (ws xs ys : List ℕ) (s : System)
    → Staff ws
    → Sound ws xs ys s
    → 0 < count w ys
    → Loose w ws xs ys s
loosen-active w ws xs ys s f v c = record {
  lists = v.lists;
  looping = v.looping;
  spread = λ z. omega (arith, v.spread z, split z w ys c);
  unserved = v.unserved;
}

pub finish-IsSoundWith :
    (w : ℕ) (ws xs ys : List ℕ) (s : System)
    → Staff ws
    → Sound ws xs ys s
    → 0 < count w ys
    → IsSoundWith ws (erase w ys) (push w s)
finish-IsSoundWith w ws xs ys s f v c =
    push-IsSoundWith w ws xs ys s f (loosen-active w ws xs ys s f v c)

-- The active workers after the handling.
abbrev pub left_active : Handling → ℕ → List ℕ → List ℕ
left_active launches w ys = ys ++ w ∷ []
left_active drops w ys = erase w ys
left_active throws w ys = erase w (ys ++ w ∷ [])

pub run_worker-IsSoundWith :
    (h : Handling) (i w : ℕ) (ws xs ys : List ℕ) (s : System)
    → Staff ws
    → Sound ws xs ys s
    → s.loops i ≡ accepting w
    → IsSoundWith ws (left_active h w ys) (run_worker h w (set_loop i testing s))
unfolding run_worker
run_worker-IsSoundWith launches i w ws xs ys s f v e =
    let k = held w i ws xs ys s f v (ap live e) (ap (holds w) e ∙ ground arith) in
    let l = loosen w i ws xs ys s f v (ap live e) (ap is_waiting e) (λ z. ap (holds z) e) in
    (xs, launch-Sound w i ws xs ys (set_loop i testing s) l k.positive k.not_idle k.not_active)
run_worker-IsSoundWith drops i w ws xs ys s f v e =
    push-IsSoundWith w ws xs ys (set_loop i testing s) f
      (loosen w i ws xs ys s f v (ap live e) (ap is_waiting e) (λ z. ap (holds z) e))
run_worker-IsSoundWith throws i w ws xs ys s f v e =
    let k = held w i ws xs ys s f v (ap live e) (ap (holds w) e ∙ ground arith) in
    let l = loosen w i ws xs ys s f v (ap live e) (ap is_waiting e) (λ z. ap (holds z) e) in
    finish-IsSoundWith w ws xs (ys ++ w ∷ []) _ f
      (launch-Sound w i ws xs ys (set_loop i testing s) l k.positive k.not_idle k.not_active)
      (ground (arith, count-append w ys (w ∷ [])))

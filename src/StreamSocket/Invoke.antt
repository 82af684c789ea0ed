-- ===== src/StreamSocket/Invoke.antt =====
-- invoke_deferred_io on the descriptor of a stream socket, and the work that it leaves.
use corosio.Base.{ℕ, ◌+◌, ◌≡◌, refl, Option, none, some, List, [], ◌∷◌, map, arith, length}
use corosio.Descriptor.{
  Kind, conn, rd, wr, wait_rd, wait_wr, wait_er, count_kind, Kernel, deferred_io,
}
use corosio.Descriptor.Conserve.{deferred_io-tally}
use corosio.Scheduler.{Context, Scheduler}
use corosio.Scheduler.Queue.{post_deferred_completions, compensating_work_started}
use corosio.Scheduler.Work.{Balanced, counted, post_deferred-Balanced, compensating-Balanced}
use corosio.StreamSocket.{Runtime}
use corosio.StreamSocket.Account.{Acc, count_parked}
use corosio.StreamSocket.Cancel.{entry}

-- The operation whose handler is called at once, if any.
pub record Invoked : Type 0 where
  pub inline : Option Kind
  pub runtime : Runtime

-- The end of invoke_deferred_io.
unfoldable pub run_first : List Kind → Runtime → Invoked
unfolding post_deferred_completions compensating_work_started
run_first [] r =
    let t = compensating_work_started r.ctx r.sched in
    record { inline = none; runtime = record r { ctx = t.ctx; sched = t.sched } }
run_first (k ∷ ks) r =
    let t = post_deferred_completions (map entry ks) r.ctx r.sched in
    record { inline = some k; runtime = record r { ctx = t.ctx; sched = t.sched } }

unfoldable pub invoke_deferred_io : Kernel → Runtime → Invoked
unfolding deferred_io run_first
invoke_deferred_io env r =
    let d = deferred_io env r.socket.desc r.socket.ops in
    let s = r.socket in
    run_first d.local_ops (record r { socket = record s { desc = d.desc; ops = d.ops } })

counted-entries : (ks : List Kind) → counted (map entry ks) ≡ length ks
counted-entries [] = refl
counted-entries (k ∷ ks) = omega (arith, counted-entries ks)

abbrev sum_of : (Kind → ℕ) → ℕ
sum_of f = f conn + f rd + f wr + f wait_rd + f wait_wr + f wait_er

length-kinds : (ks : List Kind) → sum_of (λ k. count_kind k ks) ≡ length ks
length-kinds [] = refl
length-kinds (conn ∷ ks) = ground (arith, length-kinds ks)
length-kinds (rd ∷ ks) = ground (arith, length-kinds ks)
length-kinds (wr ∷ ks) = ground (arith, length-kinds ks)
length-kinds (wait_rd ∷ ks) = ground (arith, length-kinds ks)
length-kinds (wait_wr ∷ ks) = ground (arith, length-kinds ks)
length-kinds (wait_er ∷ ks) = ground (arith, length-kinds ks)

-- As many operations leave their slots as are completed.
deferred_io-parked :
    (env : Kernel) (r : Runtime)
    → let d = deferred_io env r.socket.desc r.socket.ops in
      count_parked d.desc.parked + length d.local_ops ≡ count_parked r.socket.desc.parked
deferred_io-parked env r =
    let d = deferred_io env r.socket.desc r.socket.ops in
    let each = deferred_io-tally env r.socket.desc r.socket.ops in
    omega (
      arith,
      length-kinds d.local_ops,
      each conn,
      each rd,
      each wr,
      each wait_rd,
      each wait_wr,
      each wait_er,
    )

compensate :
    (h : ℕ) (c : Option Context) (x : Context) (s : Scheduler)
    → c ≡ some x
    → Balanced h c s
    → Balanced (h + 1) (compensating_work_started c s).ctx (compensating_work_started c s).sched
compensate h none x s e a = absurd (cc)
compensate h (some y) x s e a = compensating-Balanced h y s a

run_first-account :
    (ks : List Kind) (x : Context) (r : Runtime)
    → r.ctx ≡ some x
    → Acc (length ks) r
    → Acc 1 (run_first ks r).runtime
unfolding run_first
run_first-account [] x r e a =
    let h = count_parked r.socket.desc.parked in
    let b = compensate (h + 0) r.ctx x r.sched e a in ground (arith, b)
run_first-account (k ∷ ks) x r e a =
    post_deferred-Balanced (map entry ks) (count_parked r.socket.desc.parked + 1) r.ctx r.sched
      (ground (arith, counted-entries ks))

-- invoke_deferred_io on a thread that runs the scheduler leaves exactly one piece of work to settle,
-- that of the operation it calls at once or the compensation, which do_one then takes off.
pub invoke_deferred_io-account :
    (env : Kernel) (x : Context) (r : Runtime)
    → r.ctx ≡ some x
    → Acc 0 r
    → Acc 1 (invoke_deferred_io env r).runtime
unfolding invoke_deferred_io
invoke_deferred_io-account env x r e a =
    let d = deferred_io env r.socket.desc r.socket.ops in
    let s = r.socket in
    run_first-account d.local_ops x (record r { socket = record s { desc = d.desc; ops = d.ops } })
      e (ground (arith, deferred_io-parked env r))

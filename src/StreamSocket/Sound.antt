-- ===== src/StreamSocket/Sound.antt =====
-- The invariant of a stream socket among the threads of a scheduler.
use corosio.Base.{ℕ, ◌≡◌, refl, ap, ◌∙◌, Bool, true, List, [], ◌∷◌, arith}
use corosio.Descriptor.{Kind, Kernel, Events, add_ready_events, deferred_io}
use corosio.Descriptor.Conserve.{bit}
use corosio.Descriptor.Edges.{edges_ok, deferred_io-edges}
use corosio.Scheduler.Work.{counted}
use corosio.StreamSocket.{Runtime}
use corosio.StreamSocket.Account.{Acc}
use corosio.StreamSocket.Invoke.{invoke_deferred_io, invoke_deferred_io-account, run_first}
use corosio.StreamSocket.Reach.{
  System, set_queue, report, settle, Moves, requests, reports, calls_descriptor, calls_op, settles,
  Reaches, stays, moves,
}
use corosio.StreamSocket.Requests.{request-account, report-account, settle-account, request-edges}

-- The count of work is that of the queued entries, of the parked operations and of the entry that
-- runs, and no cached edge stands beside an operation that it would complete.
pub record IsSound (s : System) : Type 0 where
  pub account : Acc (bit s.running) s.runtime
  pub edges : edges_ok s.runtime.socket.desc ≡ true

report-edges :
    (ev : Events) (a : ℕ) (r : Runtime)
    → edges_ok r.socket.desc ≡ true
    → edges_ok (report ev a r).socket.desc ≡ true
unfolding report add_ready_events
report-edges ev a r e = ground arith

invoke-desc :
    (env : Kernel) (ks : List Kind) (r : Runtime) → (run_first ks r).runtime.socket ≡ r.socket
unfolding run_first
invoke-desc env [] r = refl
invoke-desc env (k ∷ ks) r = refl

invoke-edges :
    (env : Kernel) (r : Runtime)
    → edges_ok r.socket.desc ≡ true
    → edges_ok (invoke_deferred_io env r).runtime.socket.desc ≡ true
unfolding invoke_deferred_io
invoke-edges env r e =
    let d = deferred_io env r.socket.desc r.socket.ops in
    let s = r.socket in
    ap (λ t. edges_ok t.desc)
      (invoke-desc env d.local_ops (record r { socket = record s { desc = d.desc; ops = d.ops } }))
    ∙ deferred_io-edges env r.socket.desc r.socket.ops e

settle-edges :
    (r : Runtime) → edges_ok r.socket.desc ≡ true → edges_ok (settle r).socket.desc ≡ true
unfolding settle
settle-edges r e = e

module _ (env : Kernel) (select : Bool) where
  pub Moves-IsSound : (s t : System) → Moves env select s t → IsSound s → IsSound t
  Moves-IsSound _ _ (requests q r b f) i = record {
    account = request-account env select (bit b) q r f i.account;
    edges = request-edges env select q r i.edges;
  }
  Moves-IsSound _ _ (reports ev a r b) i = record {
    account = report-account env select (bit b) ev a r i.account;
    edges = report-edges ev a r i.edges;
  }
  Moves-IsSound _ _ (calls_descriptor a es x r c q) i = record {
    account =
        invoke_deferred_io-account env x (set_queue es r) c
          (ground (arith, i.account, ap counted q));
    edges = invoke-edges env (set_queue es r) i.edges;
  }
  Moves-IsSound _ _ (calls_op k es x r c q) i = record {
    account = ground (arith, i.account, ap counted q);
    edges = i.edges;
  }
  Moves-IsSound _ _ (settles r) i = record {
    account = settle-account env select r i.account;
    edges = settle-edges r i.edges;
  }

  -- Whatever its callers ask for, in any order of requests, events and handlers, and whatever the system
  -- answers: from a sound state every state that is reached is sound.
  pub Reaches-IsSound : (s t : System) → Reaches env select s t → IsSound s → IsSound t
  Reaches-IsSound s _ stays i = i
  Reaches-IsSound s _ (moves t u p m) i = Moves-IsSound t u m (Reaches-IsSound s t p i)

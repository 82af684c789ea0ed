-- ===== src/TimerPool.antt =====
-- The life of timer implementations in include/boost/corosio/detail/timer_service.hpp: construct,
-- destroy and shutdown of the service `svc`, with the free list and the thread's slot of one impl.
--
-- The free list is the sequence of its nodes. `owner` is svc_, `deleted` holds the impls that were
-- freed, and `destroyed` the waiters whose coroutine frames were destroyed.
pub mod Recycle
pub mod Construct
pub mod Shutdown
mod Tests
use corosio.Base.{
  ℕ, ◌+◌, ◌-◌, Bool, true, false, not, Option, none, some, List, [], ◌∷◌, ◌++◌, length, ◌==◌,
  if◌then◌else◌, ◌>>=◌, update, map,
}
use corosio.TimerHeap.{TimerHeap, HeapEntry, npos, remove_timer_impl}
use corosio.TimerService.{
  Service, Implementation, set_impl, set_timers, time_max, cancel_timer, refresh_cached_nearest,
}

pub record Pool : Type 0 where
  pub service : Service
  pub free_list : List ℕ
  pub tl_cached : Option ℕ
  pub owner : ℕ → ℕ
  pub shutting_down : Bool
  pub deleted : List ℕ
  pub destroyed : List ℕ

-- time_point{}, the clock's epoch, by the shift of time points.
abbrev pub epoch : ℕ
epoch = 0x8000000000000000

abbrev delete_all : List ℕ → Pool → Pool
delete_all ts p = record p { deleted = p.deleted ++ ts }

-- An impl of another service is deleted.
unfoldable pub pop_cached : ℕ → Option ℕ → Pool → Option ℕ × Pool
pop_cached svc none p = (none, p)
pop_cached svc (some impl) p =
    let popped = record p { tl_cached = none } in
    if p.owner impl == svc then (some impl, popped) else (none, delete_all (impl ∷ []) popped)

unfoldable pub try_pop_tl_cache : ℕ → Pool → Option ℕ × Pool
try_pop_tl_cache svc p = pop_cached svc p.tl_cached p

unfoldable pub try_push_tl_cache : ℕ → Pool → Bool × Pool
try_push_tl_cache impl p = elim p.tl_cached [
  | none ↦ (true, record p { tl_cached = some impl })
  | some _ ↦ (false, p)
]

-- `delete` of a null pointer does nothing.
unfoldable pub invalidate_cache : Pool → Pool
invalidate_cache p = record p {
  tl_cached = none;
  deleted = p.deleted ++ (elim p.tl_cached [ none ↦ [] | some impl ↦ impl ∷ [] ]);
}

abbrev set_index_npos : ℕ → TimerHeap → TimerHeap
set_index_npos t h = record h { heap_index = update h.heap_index t npos }

-- The fields that construct sets in a recycled impl; its waiter list stays.
unfoldable pub reset : ℕ → ℕ → Pool → Pool
reset svc t p =
    let s = p.service in
    let i = s.impls t in
    record p {
      owner = update p.owner t svc;
      service =
          set_impl t (record i { expiry = epoch; might_have_pending_waits = false })
            (set_timers (set_index_npos t s.timers) s);
    }

-- The initializers of timer::implementation's members.
abbrev pub initial_impl : Implementation
initial_impl = record { expiry = epoch; might_have_pending_waits = false; waiters = [] }

-- `new timer::implementation(*this)` at the address `t`
unfoldable pub allocate : ℕ → ℕ → Pool → Pool
allocate svc t p =
    let s = p.service in
    record p {
      owner = update p.owner t svc;
      service = set_impl t initial_impl (set_timers (set_index_npos t s.timers) s);
    }

-- The part of construct behind the lock; `new_impl` is the address that `new` returns.
unfoldable pub take_free : ℕ → ℕ → List ℕ → Pool → ℕ × Pool
take_free svc new_impl [] p = (new_impl, allocate svc new_impl p)
take_free svc new_impl (t ∷ rest) p = (t, reset svc t (record p { free_list = rest }))

unfoldable pub construct_from : ℕ → ℕ → Option ℕ → Pool → ℕ × Pool
construct_from svc new_impl (some t) p = (t, reset svc t p)
construct_from svc new_impl none p = take_free svc new_impl p.free_list p

unfoldable pub construct : ℕ → ℕ → Pool → ℕ × Pool
construct svc new_impl p =
    let popped = try_pop_tl_cache svc p in construct_from svc new_impl popped.0 popped.1

-- The second removal from the heap in destroy_impl.
unfoldable pub leave_heap : ℕ → Service → Option Service
leave_heap t s =
    let removed : Option Service = do
      h ← remove_timer_impl t s.timers
      some (refresh_cached_nearest (set_timers h s))
    in if not (s.timers.heap_index t == npos) then removed else some s

-- `if (try_push_tl_cache(&impl)) return;`, else onto the free list.
unfoldable pub recycle : ℕ → Pool → Pool
recycle t p =
    let (pushed, q) = try_push_tl_cache t p in
    if pushed then q else record q { free_list = t ∷ q.free_list }

unfoldable pub destroy_impl : ℕ → Pool → Option Pool
destroy_impl t p =
    let destroyed : Option Pool = do
      (s1, _) ← cancel_timer t p.service
      s2 ← leave_heap t s1
      some (recycle t (record p { service = s2 }))
    in if p.shutting_down then some p else destroyed

unfoldable pub destroy : ℕ → Pool → Option Pool
destroy t p = let destroyed = destroy_impl t p in if p.shutting_down then some p else destroyed

-- `while (auto* w = impl->waiters_.pop_front())`, and `delete impl`
unfoldable pub drain : List ℕ → Pool → Pool
drain [] p = p
drain (t ∷ ts) p =
    let s = p.service in
    let ws = (s.impls t).waiters in
    drain ts (record p {
      service = record (set_impl t (record (s.impls t) { waiters = [] }) s) {
        work = s.work - length ws;
      };
      destroyed = p.destroyed ++ ws;
      deleted = p.deleted ++ t ∷ [];
    })

abbrev pub timers_of : List HeapEntry → List ℕ
timers_of [] = []
timers_of (e ∷ es) = e.timer ∷ timers_of es

-- The loop that takes every impl's index away.
unfoldable pub detach_all : List HeapEntry → (ℕ → ℕ) → ℕ → ℕ
detach_all [] index = index
detach_all (e ∷ es) index = detach_all es (update index e.timer npos)

unfoldable pub shutdown : Pool → Pool
shutdown p =
    let p1 = record (invalidate_cache p) { shutting_down = true } in
    let s = p1.service in
    let heap = s.timers.heap in
    let p2 = record p1 {
      service = record s {
        timers = record { heap = []; heap_index = detach_all heap s.timers.heap_index };
        cached_nearest = time_max;
      };
    } in
    let p3 = drain (timers_of heap) p2 in
    record p3 { deleted = p3.deleted ++ p3.free_list; free_list = [] }

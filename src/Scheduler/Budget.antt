-- ===== src/Scheduler/Budget.antt =====
-- The budget of inline completions in reactor_scheduler.
use corosio.Base.{
  ℕ, ◌*◌, ◌≤◌, ◌≡◌, refl, Bool, true, false, not, ◌&&◌, ◌||◌, Option, none, some, List, [], ◌∷◌,
  ◌>>=◌, ◌==◌, ltb, if◌then◌else◌, arith, Bool-cases, inl, inr, Ensures, Ensures-if, Ensures-bind,
}
use corosio.Scheduler.{
  Context, Config, int_max, clamp, Configured, out_of_range, configured, configure_reactor,
  make_context, ramp_up, next_budget_max, set_budget, reset_inline_budget,
  try_consume_inline_budget,
}

pub record IsConfig (c : Config) : Type 0 where
  pub some_events : 1 ≤ c.max_events_per_poll
  pub events_fit : c.max_events_per_poll ≤ 2147483647
  pub max_fits : c.inline_budget_max ≤ 2147483647
  pub initial_fits : c.inline_budget_initial ≤ c.inline_budget_max
  pub unassisted_fits : c.unassisted_budget ≤ c.inline_budget_max

abbrev pub OnConfigured : Type 0 → (Config → Type 0) → Configured → Type 0
OnConfigured T P out_of_range = T
OnConfigured T P (configured c) = P c

OnConfigured-if :
    (T : Type 0) (P : Config → Type 0) (b : Bool) (p q : Configured)
    → (b ≡ true → OnConfigured T P p)
    → (b ≡ false → OnConfigured T P q)
    → OnConfigured T P (if b then p else q)
OnConfigured-if T P true p q x y = x refl
OnConfigured-if T P false p q x y = y refl

clamp_fits : (m x : ℕ) → clamp m x ≤ m
clamp_fits m x = ground arith

-- configure_reactor throws exactly if the number of events is 0 or over INT_MAX or the largest budget
-- is over INT_MAX; otherwise the values stored are in range, the two bounds as they were given.
pub configure_reactor-checks :
    (events init limit unassisted : ℕ)
    → OnConfigured
        ((ltb events 1 || ltb 2147483647 events || ltb 2147483647 limit) ≡ true)
        (λ c.
          IsConfig c
          × (c.max_events_per_poll ≡ events)
          × (c.inline_budget_max ≡ limit)
          × ((ltb events 1 || ltb 2147483647 events || ltb 2147483647 limit) ≡ false))
        (configure_reactor events init limit unassisted)
unfolding configure_reactor
configure_reactor-checks events init limit unassisted =
    let T = (ltb events 1 || ltb 2147483647 events || ltb 2147483647 limit) ≡ true in
    let P : Config → Type 0 = λ c.
      IsConfig c
      × (c.max_events_per_poll ≡ events)
      × (c.inline_budget_max ≡ limit)
      × ((ltb events 1 || ltb 2147483647 events || ltb 2147483647 limit) ≡ false) in
    let stored : Config = record {
      max_events_per_poll = events;
      inline_budget_initial = clamp limit init;
      inline_budget_max = limit;
      unassisted_budget = clamp limit unassisted;
    } in
    OnConfigured-if T P (ltb events 1 || ltb int_max events) out_of_range
      (if ltb int_max limit then out_of_range else configured stored) (λ e. ground arith)
      (λ e.
        OnConfigured-if T P (ltb int_max limit) out_of_range (configured stored) (λ f. ground arith)
          (λ f. (
            record {
              some_events = ground arith;
              events_fit = ground arith;
              max_fits = ground arith;
              initial_fits = clamp_fits limit init;
              unassisted_fits = clamp_fits limit unassisted;
            },
            refl,
            refl,
            ground arith,
          )))

-- What a frame's budget keeps.
pub record InRange (c : Config) (x : Context) : Type 0 where
  pub budget_fits : x.inline_budget ≤ x.inline_budget_max
  pub max_in_range : x.inline_budget_max ≤ c.inline_budget_max

abbrev pub is_none : Option Context → Bool
is_none none = true
is_none (some x) = false

-- reset_inline_budget overflows an int exactly if the budget is enabled, the thread was assisted and
-- used its budget up, and the frame's largest budget is 2^30 or more.
pub reset_inline_budget-overflows :
    (c : Config) (x : Context)
    → is_none (reset_inline_budget c x) ≡ (
        not (c.inline_budget_max == 0)
        && (not x.unassisted && (x.inline_budget == 0 && ltb 1073741823 x.inline_budget_max)))
unfolding reset_inline_budget next_budget_max
reset_inline_budget-overflows c x = ground arith

make_context-InRange : (c : Config) → IsConfig c → InRange c (make_context c)
unfolding make_context
make_context-InRange c k = record { budget_fits = omega arith; max_in_range = k.initial_fits }

set_budget-InRange :
    (c : Config) (x : Context) (m : Option ℕ)
    → Ensures (λ n. n ≤ c.inline_budget_max) m
    → Ensures (InRange c) (set_budget x m)
set_budget-InRange c x none h = h
set_budget-InRange c x (some m) h = record { budget_fits = omega arith; max_in_range = h }

next_budget_max-fits :
    (c : Config) (x : Context)
    → IsConfig c
    → c.inline_budget_max ≤ 1073741823
    → InRange c x
    → Ensures (λ n. n ≤ c.inline_budget_max) (next_budget_max c x)
unfolding next_budget_max
next_budget_max-fits c x k l r =
    let P : ℕ → Type 0 = λ n. n ≤ c.inline_budget_max in
    let twice = (if ltb x.inline_budget_max 1 then 1 else x.inline_budget_max) * 2 in
    Ensures-if P (x.inline_budget == 0) (ramp_up c.inline_budget_max x.inline_budget_max)
      (some (
        if ltb x.inline_budget x.inline_budget_max
        then c.inline_budget_initial
        else x.inline_budget_max))
      (λ e.
        Ensures-if P (ltb int_max twice) none
          (some (if ltb twice c.inline_budget_max then twice else c.inline_budget_max))
          (λ f. ground (arith, r.max_in_range, l)) (λ f. ground arith))
      (λ e. ground (arith, k.initial_fits, r.max_in_range))

reset_inline_budget-InRange :
    (c : Config) (x : Context)
    → IsConfig c
    → c.inline_budget_max ≤ 1073741823
    → InRange c x
    → Ensures (InRange c) (reset_inline_budget c x)
unfolding reset_inline_budget
reset_inline_budget-InRange c x k l r =
    Ensures-if (InRange c) (c.inline_budget_max == 0) (some x)
      (set_budget x (if x.unassisted then some c.unassisted_budget else next_budget_max c x))
      (λ e. r)
      (λ e.
        set_budget-InRange c x
          (if x.unassisted then some c.unassisted_budget else next_budget_max c x)
          (Ensures-if (λ n. n ≤ c.inline_budget_max) x.unassisted (some c.unassisted_budget)
            (next_budget_max c x) (λ f. k.unassisted_fits) (λ f. next_budget_max-fits c x k l r)))

-- What a thread does with its frame's budget; do_one sets the flag before each handler.
pub data BudgetCall : Type 0 where
  reset consume : BudgetCall
  assist : Bool → BudgetCall

abbrev pub budget_call : Config → BudgetCall → Context → Option Context
unfolding reset_inline_budget try_consume_inline_budget
budget_call c reset x = reset_inline_budget c x
budget_call c consume x = (try_consume_inline_budget c (some x)).frame
budget_call c (assist b) x = some (record x { unassisted = b })

abbrev pub budget_calls : Config → List BudgetCall → Context → Option Context
budget_calls c [] x = some x
budget_calls c (b ∷ bs) x = budget_call c b x >>= budget_calls c bs

try_consume-InRange :
    (c : Config) (x : Context)
    → InRange c x
    → Ensures (InRange c) (try_consume_inline_budget c (some x)).frame
unfolding try_consume_inline_budget
try_consume-InRange c x r =
    elim (Bool-cases (not (c.inline_budget_max == 0) && ltb 0 x.inline_budget)) [
      | inl e ↦
          rw (e)
            (record { budget_fits = ground (arith, r.budget_fits); max_in_range = r.max_in_range })
      | inr e ↦ rw (e) r
    ]

budget_call-InRange :
    (c : Config) (b : BudgetCall) (x : Context)
    → IsConfig c
    → c.inline_budget_max ≤ 1073741823
    → InRange c x
    → Ensures (InRange c) (budget_call c b x)
unfolding budget_call reset_inline_budget try_consume_inline_budget
budget_call-InRange c reset x k l r = reset_inline_budget-InRange c x k l r
budget_call-InRange c consume x k l r = try_consume-InRange c x r
budget_call-InRange c (assist b) x k l r = record {
  budget_fits = r.budget_fits;
  max_in_range = r.max_in_range;
}

budget_calls-from :
    (c : Config) (bs : List BudgetCall) (x : Context)
    → IsConfig c
    → c.inline_budget_max ≤ 1073741823
    → InRange c x
    → Ensures (InRange c) (budget_calls c bs x)
budget_calls-from c [] x k l r = r
budget_calls-from c (b ∷ bs) x k l r =
    Ensures-bind (InRange c) (InRange c) (budget_call c b x) (budget_calls c bs)
      (budget_call-InRange c b x k l r) (λ y q. budget_calls-from c bs y k l q)

-- If the largest budget is under 2^30, then from a fresh frame no sequence of resets, consumptions and
-- changes of the flag overflows, and the budget stays at most the frame's largest, which stays at most
-- the configured one.
pub budget_calls-InRange :
    (c : Config) (bs : List BudgetCall)
    → IsConfig c
    → c.inline_budget_max ≤ 1073741823
    → Ensures (InRange c) (budget_calls c bs (make_context c))
budget_calls-InRange c bs k l =
    budget_calls-from c bs (make_context c) k l (make_context-InRange c k)

-- ===== src/IntrusiveQueue/Tests.antt =====
-- A queue of the nodes 2 and 5.
use corosio.Base.{ℕ, refl, [], ◌∷◌, update, arith}
use corosio.IntrusiveQueue.{Queue}
use corosio.IntrusiveQueue.Links.{Contains}

abbrev links : ℕ → ℕ
links = update (λ _. 0) 2 5

abbrev two : Queue
two = record { head = 2; tail = 5 }

two-Contains : Contains links two (2 ∷ 5 ∷ [])
two-Contains = record {
  spans = (refl, omega arith, (refl, omega arith, (refl, refl)));
  distinct = λ z. ground arith;
}

abbrev one : Queue
one = record { head = 8; tail = 8 }

one-Contains : Contains links one (8 ∷ [])
one-Contains = record { spans = (refl, omega arith, (refl, refl)); distinct = λ z. ground arith }

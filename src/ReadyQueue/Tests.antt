-- ===== src/ReadyQueue/Tests.antt =====
-- A queue of the operation at address 2 and the continuation at address 4.
use corosio.Base.{◌≡◌, refl, [], ◌∷◌, update, arith}
use corosio.ReadyQueue.{Memory, ReadyQueue, next_of, pop}
use corosio.ReadyQueue.Fifo.{Holds, pop-first, first}

abbrev memory : Memory
memory = record { q_next = update (λ _. 0) 2 5; reserved = λ _. 0 }

abbrev two : ReadyQueue
two = record { head = 2; tail = 5 }

two-Holds : Holds memory two (2 ∷ 5 ∷ [])
unfolding next_of
two-Holds = record {
  spans = (refl, omega arith, (refl, omega arith, (refl, refl)));
  distinct = λ z. ground arith;
}

abbrev one : ReadyQueue
one = record { head = 8; tail = 8 }

one-Holds : Holds memory one (8 ∷ [])
unfolding next_of
one-Holds = record { spans = (refl, omega arith, (refl, refl)); distinct = λ z. ground arith }

pop-first_example :
    ((pop two memory).0 ≡ first (2 ∷ 5 ∷ [])) × Holds memory (pop two memory).1 (5 ∷ [])
pop-first_example = pop-first two memory (2 ∷ 5 ∷ []) two-Holds

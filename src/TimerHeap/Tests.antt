-- ===== src/TimerHeap/Tests.antt =====
-- The heap's operations at a heap of three timers.
use corosio.Base.{ℕ, zero, suc, ◌≤◌, ◌<◌, ◌≡◌, refl, [], ◌∷◌, update, arith, Ensures}
use corosio.TimerHeap.{TimerHeap, npos, entry, time_at, remove_timer_impl, push_timer}
use corosio.TimerHeap.Index.{IsIndexed}
use corosio.TimerHeap.Order.{IsHeap}
use corosio.TimerHeap.Remove.{Removes, remove_timer_impl-Removes}
use corosio.TimerHeap.Insert.{Inserts, push_timer-Inserts, root-le}

abbrev three : TimerHeap
three = record {
  heap =
      (record { time = 10; timer = 7 })
      ∷ (record { time = 30; timer = 4 })
      ∷ (record { time = 20; timer = 9 })
      ∷ [];
  heap_index = update (update (update (λ _. npos) 7 0) 4 1) 9 2;
}

placed : (i : ℕ) → i < 3 → three.heap_index (entry three i).timer ≡ i
placed zero h = refl
placed (suc zero) h = refl
placed (suc (suc zero)) h = refl
placed (suc (suc (suc i))) h = absurd (omega arith)

three-IsIndexed : IsIndexed three
three-IsIndexed = record {
  placed = placed;
  found = λ t h. ground arith;
  absent = λ t h. ground arith;
  sized = omega arith;
}

three-IsHeap : IsHeap three
three-IsHeap zero p q = absurd (omega arith)
three-IsHeap (suc zero) p q = omega arith
three-IsHeap (suc (suc zero)) p q = omega arith
three-IsHeap (suc (suc (suc i))) p q = absurd (omega arith)

remove_timer_impl-Removes_example : Ensures (Removes 7 three) (remove_timer_impl 7 three)
remove_timer_impl-Removes_example = remove_timer_impl-Removes 7 three three-IsIndexed three-IsHeap

push_timer-Inserts_example : Ensures (Inserts 3 5 three) (push_timer 3 5 three)
push_timer-Inserts_example =
    push_timer-Inserts 3 5 three three-IsIndexed three-IsHeap refl (omega arith)

root-le_example : time_at three 0 ≤ 20
root-le_example = root-le three 9 20 three-IsHeap refl

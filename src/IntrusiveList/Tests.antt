-- ===== src/IntrusiveList/Tests.antt =====
-- Runs of intrusive_list.
use corosio.Base.{ℕ, ◌≡◌, refl, List, [], ◌∷◌, ◌==◌, if◌then◌else◌, arith}
use corosio.IntrusiveList.{IntrusiveList, push_back, pop_front, remove}
use corosio.IntrusiveList.Calls.{
  ListCall, push_node, pop_node, remove_node, call_all, all_on_nodes, call_all-Holds,
}
use corosio.IntrusiveList.Links.{Holds}

-- The nodes 4, 7 and 9 in this order.
abbrev next_of : ℕ → ℕ
next_of z = if z == 4 then 7 else if z == 7 then 9 else 0

abbrev prev_of : ℕ → ℕ
prev_of z = if z == 7 then 4 else if z == 9 then 7 else 0

abbrev three : IntrusiveList
three = record { next = next_of; prev = prev_of; head = 4; tail = 9 }

three-Holds : Holds three (4 ∷ 7 ∷ 9 ∷ [])
three-Holds = record {
  ends =
      (refl, omega arith, (refl, refl, omega arith, (refl, refl, omega arith, (refl, refl, refl))));
  distinct = λ z. ground arith;
}

abbrev calls : List ListCall
calls = remove_node 7 ∷ push_node 5 ∷ pop_node ∷ push_node 7 ∷ remove_node 9 ∷ []

moves_nodes : all_on_nodes calls (4 ∷ 7 ∷ 9 ∷ []) ≡ 5 ∷ 7 ∷ []
moves_nodes = refl

moves_head : (call_all calls three).head ≡ 5
unfolding call_all push_back remove pop_front
moves_head = refl

call_all-Holds_example : Holds (call_all calls three) (all_on_nodes calls (4 ∷ 7 ∷ 9 ∷ []))
call_all-Holds_example = call_all-Holds calls three (4 ∷ 7 ∷ 9 ∷ []) three-Holds refl

-- ===== src/IntrusiveList/Calls.antt =====
-- Sequences of calls on an intrusive_list, against a list of nodes.
use corosio.Base.{ℕ, ◌≡◌, List, [], ◌∷◌, ◌++◌, ◌==◌, ltb, count, Bool, true, ◌&&◌, arith}
use corosio.IntrusiveList.{IntrusiveList, push_back, pop_front, remove}
use corosio.IntrusiveList.Links.{Holds, push_back-appends}
use corosio.IntrusiveList.Pop.{pop_front-Takes, pop_front-none}
use corosio.IntrusiveList.Remove.{remove-Without}
use corosio.IntrusiveList.Unlink.{erase}

pub data ListCall : Type 0 where
  push_node remove_node : ℕ → ListCall
  pop_node : ListCall

unfoldable pub call_list : ListCall → IntrusiveList → IntrusiveList
unfolding push_back remove pop_front
call_list (push_node w) l = push_back w l
call_list (remove_node w) l = remove w l
call_list pop_node l = (pop_front l).rest

-- The sequence of nodes that each call is to leave.
abbrev pub on_nodes : ListCall → List ℕ → List ℕ
on_nodes (push_node w) xs = xs ++ w ∷ []
on_nodes (remove_node w) xs = erase w xs
on_nodes pop_node [] = []
on_nodes pop_node (x ∷ xs) = xs

-- A node is pushed only if the list does not hold it, and removed only if it does.
abbrev pub is_allowed : ListCall → List ℕ → Bool
is_allowed (push_node w) xs = count w xs == 0 && ltb 0 w
is_allowed (remove_node w) xs = ltb 0 (count w xs)
is_allowed pop_node xs = true

unfoldable pub call_all : List ListCall → IntrusiveList → IntrusiveList
unfolding call_list
call_all [] l = l
call_all (c ∷ cs) l = call_all cs (call_list c l)

abbrev pub all_on_nodes : List ListCall → List ℕ → List ℕ
all_on_nodes [] xs = xs
all_on_nodes (c ∷ cs) xs = all_on_nodes cs (on_nodes c xs)

abbrev pub all_allowed : List ListCall → List ℕ → Bool
all_allowed [] xs = true
all_allowed (c ∷ cs) xs = is_allowed c xs && all_allowed cs (on_nodes c xs)

call_list-Holds :
    (c : ListCall) (l : IntrusiveList) (xs : List ℕ)
    → Holds l xs
    → is_allowed c xs ≡ true
    → Holds (call_list c l) (on_nodes c xs)
unfolding call_list
call_list-Holds (push_node w) l xs h a = push_back-appends l xs w h (ground arith) (ground arith)
call_list-Holds (remove_node w) l xs h a = (remove-Without w xs l h (ground arith)).0
call_list-Holds pop_node l [] h a = (pop_front-none l h).1
call_list-Holds pop_node l (x ∷ xs) h a = (pop_front-Takes l x xs h).1

-- The links of an intrusive_list hold, after any sequence of push_back, pop_front and remove, exactly
-- the nodes that the same calls leave of the sequence that they held before, in that order, if each
-- node pushed is not in the list and each node removed is.
pub call_all-Holds :
    (cs : List ListCall) (l : IntrusiveList) (xs : List ℕ)
    → Holds l xs
    → all_allowed cs xs ≡ true
    → Holds (call_all cs l) (all_on_nodes cs xs)
unfolding call_all
call_all-Holds [] l xs h a = h
call_all-Holds (c ∷ cs) l xs h a =
    call_all-Holds cs (call_list c l) (on_nodes c xs) (call_list-Holds c l xs h (ground arith))
      (ground arith)

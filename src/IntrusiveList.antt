-- ===== src/IntrusiveList.antt =====
-- intrusive_list of include/boost/corosio/detail/intrusive.hpp.
--
-- A node is its address, 0 is the null pointer, and the nodes' next_ and prev_ are two functions.
pub mod Links
pub mod Pop
pub mod Splice
pub mod Unlink
pub mod First
pub mod Remove
pub mod Calls
mod Tests
use corosio.Base.{ℕ, ◌≡◌, Bool, true, false, not, ◌&&◌, ◌==◌, if◌then◌else◌, update}

pub record IntrusiveList : Type 0 where
  pub next : ℕ → ℕ
  pub prev : ℕ → ℕ
  pub head : ℕ
  pub tail : ℕ

abbrev pub is_null : ℕ → Bool
is_null p = p == 0

unfoldable pub push_back : ℕ → IntrusiveList → IntrusiveList
push_back w l =
    let prev1 = update l.prev w l.tail in
    let next1 = update l.next w 0 in
    if is_null l.tail
    then record { next = next1; prev = prev1; head = w; tail = w }
    else record { next = update next1 l.tail w; prev = prev1; head = l.head; tail = w }

-- The list's head after its first node, which must not be null, has left it.
unfoldable pub drop_front : IntrusiveList → IntrusiveList
drop_front l =
    let h = l.next l.head in
    if is_null h
    then record l { head = h; tail = 0 }
    else record l { head = h; prev = update l.prev h 0 }

-- Two lists over the same nodes: this one, and the ends of the other.
pub record Spliced : Type 0 where
  pub list : IntrusiveList
  pub other_head : ℕ
  pub other_tail : ℕ

-- The nodes of the other list, which has some, come after the tail, or are all there is.
unfoldable pub join_back : ℕ → ℕ → IntrusiveList → IntrusiveList
join_back other_head other_tail l =
    if is_null l.tail then record l { head = other_head; tail = other_tail } else record l {
      next = update l.next l.tail other_head;
      prev = update l.prev other_head l.tail;
      tail = other_tail;
    }

unfoldable pub splice_back : Spliced → Spliced
unfolding join_back
splice_back s = if is_null s.other_head then s else record {
  list = join_back s.other_head s.other_tail s.list;
  other_head = 0;
  other_tail = 0;
}

pub record Popped : Type 0 where
  pub node : ℕ
  pub rest : IntrusiveList

-- The links of a node are cleared.
abbrev pub detach_node : ℕ → IntrusiveList → IntrusiveList
detach_node w l = record l { next = update l.next w 0; prev = update l.prev w 0 }

unfoldable pub pop_front : IntrusiveList → Popped
unfolding drop_front
pop_front l =
    if is_null l.head
    then record { node = 0; rest = l }
    else record { node = l.head; rest = detach_node l.head (drop_front l) }

-- `if (n->prev_) ... else ...`
unfoldable pub unlink_prev : ℕ → IntrusiveList → IntrusiveList
unlink_prev w l =
    if is_null (l.prev w)
    then record l { head = l.next w }
    else record l { next = update l.next (l.prev w) (l.next w) }

-- `if (n->next_) ... else ...`
unfoldable pub unlink_next : ℕ → IntrusiveList → IntrusiveList
unlink_next w l =
    if is_null (l.next w)
    then record l { tail = l.prev w }
    else record l { prev = update l.prev (l.next w) (l.prev w) }

abbrev pub is_detached : ℕ → IntrusiveList → Bool
is_detached w l =
    is_null (l.next w) && (is_null (l.prev w) && (not (l.head == w) && not (l.tail == w)))

unfoldable pub remove : ℕ → IntrusiveList → IntrusiveList
unfolding unlink_prev unlink_next
remove w l = if is_detached w l then l else detach_node w (unlink_next w (unlink_prev w l))

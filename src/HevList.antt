-- ===== src/HevList.antt =====
-- misc/hev-list.c and hev-list.h: a doubly linked list, whose nodes are numbered cells of a memory.
pub mod Linked
pub mod Refines
pub mod Sequences
mod Examples
use gen_net.Base.{ℕ, zero, suc, Option, none, some, List, [], ◌∷◌, ◌==◌, if◌then◌else◌}

-- `HevList`, with the fields of all nodes
pub record HevList : Type 0 where
  pub head : Option ℕ
  pub tail : Option ℕ
  pub next : ℕ → Option ℕ
  pub prev : ℕ → Option ℕ

abbrev pub update : (ℕ → Option ℕ) → ℕ → Option ℕ → ℕ → Option ℕ
update f k v i = if k == i then v else f i

abbrev pub empty : HevList
empty = record { head = none; tail = none; next = λ i. none; prev = λ i. none }

-- `hev_list_first`, `hev_list_last`, `hev_list_node_next` and `hev_list_node_prev`
unfoldable pub list_first : HevList → Option ℕ
list_first l = l.head

unfoldable pub list_last : HevList → Option ℕ
list_last l = l.tail

unfoldable pub node_next : HevList → ℕ → Option ℕ
node_next l n = l.next n

unfoldable pub node_prev : HevList → ℕ → Option ℕ
node_prev l n = l.prev n

unfoldable pub behind_tail : Option ℕ → ℕ → HevList → HevList
behind_tail none n l = record l { head = some n }
behind_tail (some t) n l = record l { next = update l.next t (some n) }

-- `hev_list_add_tail`
unfoldable pub add_tail : ℕ → HevList → HevList
unfolding behind_tail
add_tail n l =
    let fresh = record l { prev = update l.prev n l.tail; next = update l.next n none } in
    record (behind_tail fresh.tail n fresh) { tail = some n }

unfoldable pub past_node : Option ℕ → Option ℕ → HevList → HevList
past_node none after l = record l { head = after }
past_node (some p) after l = record l { next = update l.next p after }

unfoldable pub back_past : Option ℕ → Option ℕ → HevList → HevList
back_past none before l = record l { tail = before }
back_past (some q) before l = record l { prev = update l.prev q before }

-- `hev_list_del`
unfoldable pub list_del : ℕ → HevList → HevList
unfolding past_node back_past
list_del n l = let m = past_node (l.prev n) (l.next n) l in back_past (m.next n) (m.prev n) m

unfoldable pub prepend : ℕ → Option (List ℕ) → Option (List ℕ)
prepend n none = none
prepend n (some rest) = some (n ∷ rest)

-- The loop over all nodes, on fuel: none means that it ran out.
unfoldable pub nodes : ℕ → Option ℕ → HevList → Option (List ℕ)
unfolding prepend
nodes fuel none l = some []
nodes zero (some n) l = none
nodes (suc fuel) (some n) l = prepend n (nodes fuel (l.next n) l)

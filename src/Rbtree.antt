-- ===== src/Rbtree.antt =====
-- core/src/hev-rbtree.c: the intrusive red-black tree. A subtree is a value of `Tree`; a node with
-- the chain of its parents is a focus and a path to the root, one frame for each parent. A write to
-- `__parent_color` changes the colour of a node, and its parent by where the node stands. `none` is
-- a read through a null pointer.
pub mod Erase
pub mod Order
pub mod Balance
mod Examples
use gen_net.Base.{Bool, true, false, Option, none, some, List, [], ◌∷◌}

-- `HevRBTreeColor`
pub data Color : Type 0 where
  red black : Color

module _ {ℓ} where
  -- `HevRBTreeNode` with what contains it, or NULL
  pub data Tree (A : Type ℓ) : Type ℓ where
    leaf : Tree A
    node : Color → Tree A → A → Tree A → Tree A

  -- A parent without the child that leads to the focus: `left_of c x s` has colour `c`, item `x`
  -- and the right child `s`, and the focus is on its left.
  pub data Frame (A : Type ℓ) : Type ℓ where
    left_of : Color → A → Tree A → Frame A
    right_of : Color → Tree A → A → Frame A

  abbrev pub Parents : Type ℓ → Type ℓ
  Parents A = List (Frame A)

module _ {ℓ} {A : Type ℓ} where
  -- `hev_rbtree_node_is_black`, and true of NULL
  abbrev pub is_black : Tree A → Bool
  is_black leaf = true
  is_black (node red l x r) = false
  is_black (node black l x r) = true

  -- `if (tmp) hev_rbtree_node_set_parent_color (tmp, …, HEV_RBTREE_BLACK)`
  abbrev pub blacken : Tree A → Tree A
  blacken leaf = leaf
  blacken (node c l x r) = node black l x r

  -- one step of `hev_rbtree_change_child`
  abbrev pub attach : Tree A → Frame A → Tree A
  attach t (left_of c x s) = node c t x s
  attach t (right_of c s x) = node c s x t

  -- the whole tree, from the focus and its parents
  unfoldable pub plug : Tree A → Parents A → Tree A
  plug t [] = t
  plug t (f ∷ p) = plug (attach t f) p

  -- Cases 2 and 3 of `hev_rbtree_insert_color` below a black uncle: the node, its red parent's
  -- frame, and its grandparent's.
  insert_rotate : (c : Color) (l : Tree A) (x : A) (r : Tree A) → Frame A → Frame A → Tree A
  insert_rotate c l x r (left_of pc px ps) (left_of gc gx u) =
      node gc (node c l x r) px (node red (blacken ps) gx u)
  insert_rotate c l x r (right_of pc ps px) (left_of gc gx u) =
      node gc (node red ps px (blacken l)) x (node red (blacken r) gx u)
  insert_rotate c l x r (left_of pc px ps) (right_of gc u gx) =
      node gc (node red u gx (blacken l)) x (node red (blacken r) px ps)
  insert_rotate c l x r (right_of pc ps px) (right_of gc u gx) =
      node gc (node red u gx (blacken ps)) px (node c l x r)

  abbrev pub frame_color : Frame A → Color
  frame_color (left_of c x s) = c
  frame_color (right_of c s x) = c

  abbrev pub frame_sibling : Frame A → Tree A
  frame_sibling (left_of c x s) = s
  frame_sibling (right_of c s x) = s

  abbrev pub paint : Color → Frame A → Tree A → Frame A
  paint c (left_of _ x _) s = left_of c x s
  paint c (right_of _ _ x) s = right_of c s x

  -- `hev_rbtree_insert_color`
  unfoldable pub insert_color : Tree A → Parents A → Option (Tree A)
  unfolding plug insert_rotate
  insert_color leaf p = none
  insert_color (node c l x r) [] = some (node black l x r)
  insert_color (node c l x r) (f ∷ []) = elim (frame_color f) [
    | black ↦ some (attach (node c l x r) f)
    | red ↦ none
  ]
  insert_color (node c l x r) (f ∷ g ∷ p) = elim (frame_color f) [
    | black ↦ some (plug (node c l x r) (f ∷ g ∷ p))
    | red ↦ elim (is_black (frame_sibling g)) [
      | false ↦
          insert_color
            (attach (attach (node c l x r) (paint black f (frame_sibling f)))
              (paint red g (blacken (frame_sibling g))))
            p
      | true ↦ some (plug (insert_rotate c l x r f g) p)
    ]
  ]

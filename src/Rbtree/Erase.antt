-- ===== src/Rbtree/Erase.antt =====
-- core/src/hev-rbtree.c: removing a node.
pub mod Order
pub mod Repair
pub mod Balance
use gen_net.Base.{Bool, true, false, Option, none, some, List, [], ◌∷◌, ◌++◌}
use gen_net.Rbtree.{
  Color, red, black, Tree, leaf, node, Frame, left_of, right_of, Parents, is_black, blacken, attach,
  plug,
}

module _ {ℓ} {A : Type ℓ} where
  -- Cases 2 and 3 below: the sibling `node sc sl sx sr` has a black right child. `true` is returned
  -- where the loop goes on at the parent.
  flip_left : Color → Tree A → A → Color → Tree A → A → Tree A → Bool × Tree A
  flip_left c n x sc (node red a y b) sx sr =
      (false, node c (node black n x a) y (node black (blacken b) sx sr))
  flip_left red n x sc sl sx sr = (false, node black n x (node red sl sx sr))
  flip_left black n x sc sl sx sr = (true, node black n x (node red sl sx sr))

  -- Cases 2, 3 and 4 of `_hev_rbtree_erase_color`: the node `n` is on the left of its parent `x`,
  -- which has colour `c`, and the sibling is not red.
  unfoldable pub fix_left : Color → Tree A → A → Tree A → Option (Bool × Tree A)
  unfolding flip_left
  fix_left c n x leaf = none
  fix_left c n x (node sc sl sx sr) = elim (is_black sr) [
    | true ↦ some (flip_left c n x sc sl sx sr)
    | false ↦ some (false, node c (node black n x sl) sx (blacken sr))
  ]

  -- the same, mirrored
  flip_right : Color → Color → Tree A → A → Tree A → A → Tree A → Bool × Tree A
  flip_right c sc sl sx (node red a y b) x n =
      (false, node c (node black sl sx (blacken a)) y (node black b x n))
  flip_right red sc sl sx sr x n = (false, node black (node red sl sx sr) x n)
  flip_right black sc sl sx sr x n = (true, node black (node red sl sx sr) x n)

  unfoldable pub fix_right : Color → Tree A → A → Tree A → Option (Bool × Tree A)
  unfolding flip_right
  fix_right c leaf x n = none
  fix_right c (node sc sl sx sr) x n = elim (is_black sl) [
    | true ↦ some (flip_right c sc sl sx sr x n)
    | false ↦ some (false, node c (blacken sl) sx (node black sr x n))
  ]

  -- the loop's `break`, or its next round at the parent
  resume : Option (Bool × Tree A) → (Tree A → Option (Tree A)) → Parents A → Option (Tree A)
  resume none again p = none
  resume (some (false, t)) again p = some (plug t p)
  resume (some (true, t)) again p = again t

  -- After Case 1 the parent is red, so the loop ends there.
  rotated : Option (Bool × Tree A) → Frame A → Parents A → Option (Tree A)
  rotated none f p = none
  rotated (some (_, t)) f p = some (plug (attach t f) p)

  -- one round: Case 1 for a red sibling, and the other cases
  round : Tree A → Frame A → (Tree A → Option (Tree A)) → Parents A → Option (Tree A)
  round n (left_of c x (node red leaf sx sr)) again p = none
  round n (left_of c x (node red (node lc ll lx lr) sx sr)) again p =
      rotated (fix_left red n x (node black ll lx lr)) (left_of c sx sr) p
  round n (left_of c x s) again p = resume (fix_left c n x s) again p
  round n (right_of c (node red sl sx leaf) x) again p = none
  round n (right_of c (node red sl sx (node rc rl rx rr)) x) again p =
      rotated (fix_right red (node black rl rx rr) x n) (right_of c sl sx) p
  round n (right_of c s x) again p = resume (fix_right c s x n) again p

  -- `_hev_rbtree_erase_color`: the node and its parents. It ends at the root.
  unfoldable pub erase_color : Tree A → Parents A → Option (Tree A)
  unfolding plug fix_left fix_right resume rotated round
  erase_color n [] = some n
  erase_color n (f ∷ p) = round n f (λ t. erase_color t p) p

  -- `hev_rbtree_first`: the leftmost node of a subtree, with its colour, its right child and its
  -- parents
  unfoldable pub first : Color → Tree A → A → Tree A → Parents A → Color × A × Tree A × Parents A
  first c leaf x r p = (c, x, r, p)
  first c (node lc ll lx lr) x r p = first lc ll lx lr (left_of c x r ∷ p)

  -- The end of `_hev_rbtree_erase` and `hev_rbtree_erase`: a node of colour `c` is gone, and its one
  -- child or NULL has taken its place.
  rebalance : Color → Tree A → Parents A → Option (Tree A)
  rebalance red leaf p = some (plug leaf p)
  rebalance black leaf p = erase_color leaf p
  rebalance c t p = some (plug (blacken t) p)

  -- Cases 2 and 3 of `_hev_rbtree_erase`: the successor takes the node's place, left child and
  -- colour, and its right child `child2` takes the successor's place.
  replaced : Color → Tree A → Parents A → Color × A × Tree A × Parents A → Option (Tree A)
  unfolding rebalance
  replaced c l p (sc, sx, child2, q) = rebalance sc child2 (q ++ right_of c l sx ∷ p)

  -- `hev_rbtree_erase` at a node with its parents
  unfoldable pub erase : Color → Tree A → A → Tree A → Parents A → Option (Tree A)
  unfolding replaced first
  erase c leaf x leaf p = rebalance c leaf p
  erase c leaf x (node rc rl rx rr) p = some (plug (node c rl rx rr) p)
  erase c (node lc ll lx lr) x leaf p = some (plug (node c ll lx lr) p)
  erase c (node lc ll lx lr) x (node rc rl rx rr) p =
      replaced c (node lc ll lx lr) p (first rc rl rx rr [])

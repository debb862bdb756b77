-- ===== src/Rbtree/Examples.antt =====
-- core/src/hev-rbtree.c at small trees of numbers.
use gen_net.Base.{ℕ, inl, refl, [], ◌∷◌}
use gen_net.Rbtree.{Tree, Parents, red, black, leaf, node, left_of, right_of, insert_color}
use gen_net.Rbtree.Erase.{erase}
use gen_net.Rbtree.Order.{around}
use gen_net.Rbtree.Balance.{ReturnsBalanced, insert_color-IsRedBlack}
use gen_net.Rbtree.Erase.Order.{Yields, Yields-erase}
use gen_net.Rbtree.Erase.Balance.{erase-IsRedBlack}

abbrev three : Tree ℕ
three = node red leaf 3 leaf

-- 3 hangs on the right of the red 1, whose parent is the black 5 with a red child 7
abbrev place : Parents ℕ
place = right_of red leaf 1 ∷ left_of black 5 (node red leaf 7 leaf) ∷ []

insert_color-IsRedBlack_example : ReturnsBalanced (insert_color three place)
insert_color-IsRedBlack_example =
    insert_color-IsRedBlack three place 0 (refl, (refl, refl, refl, refl))
      (refl, (refl, refl, ((refl, refl, refl, refl), tt)))

-- the black 5 below the black 9, which has a black child 11 with a red one
abbrev above : Parents ℕ
above = left_of black 9 (node black leaf 11 (node red leaf 12 leaf)) ∷ []

Yields-erase_example : Yields (erase black leaf 5 leaf above) (around above [])
Yields-erase_example = Yields-erase black leaf 5 leaf above

erase-IsRedBlack_example : ReturnsBalanced (erase black leaf 5 leaf above)
erase-IsRedBlack_example =
    erase-IsRedBlack black leaf 5 leaf above 1 (refl, refl) ((refl, (refl, refl, refl, refl)), tt)
      (inl refl)

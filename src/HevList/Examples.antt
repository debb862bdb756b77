-- ===== src/HevList/Examples.antt =====
-- misc/hev-list.c with three nodes.
use gen_net.Base.{◌≡◌, refl, inl, inr, some, List, [], ◌∷◌, arith}
use gen_net.HevList.{empty, nodes}
use gen_net.HevList.Refines.{Represents}
use gen_net.HevList.Sequences.{Change, adds, dels, changes, changes-Refine}

abbrev some_changes : List Change
some_changes = adds 4 ∷ adds 7 ∷ adds 5 ∷ dels 7 ∷ []

changes-Refine_example :
    Represents (changes some_changes empty) (4 ∷ 5 ∷ [])
    × (nodes 2 (changes some_changes empty).head (changes some_changes empty) ≡ some (4 ∷ 5 ∷ []))
changes-Refine_example = changes-Refine some_changes (
  tt,
  (
    ((λ e. omega arith), tt),
    (((λ e. omega arith), ((λ e. omega arith), tt)), (inr (inl refl), tt)),
  ),
)

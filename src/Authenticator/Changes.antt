-- ===== src/Authenticator/Changes.antt =====
-- core/src/hev-socks5-authenticator.c: where the loops of `add` and `del` end.
use Prim.Native.Nat.Ordering.{lt, eq, gt}
use gen_net.Base.{
  ℕ, zero, suc, ◌≡◌, ◌⊎◌, inl, inr, refl, sym, subst, true, Option, none, some, List, [], ◌∷◌, ◌++◌,
}
use gen_net.Rbtree.{Color, red, black, Tree, leaf, node, left_of, right_of, Parents, is_black}
use gen_net.Rbtree.Order.{to_list, before, behind, around, around-attach}
use gen_net.Rbtree.Balance.{Balanced, BlackParent, Fits}
use gen_net.User.{User}
use gen_net.Authenticator.{name_cmp, get, descend, Place, locate}
use gen_net.Authenticator.Sorted.{
  Each, IsSorted, Each-append, Each-lt_trans, Each-gt_trans, Around, IsSorted-split,
}
use gen_net.Authenticator.Search.{less, same, more, compare_names}

-- The place keeps the colours: the tree at the focus, and its parents.
pub record Sound (t : Tree User) (p : Parents User) : Type 0 where
  pub height : ℕ
  pub balanced : Balanced t height
  pub fits : Fits p height
  pub top : (is_black t ≡ true) ⊎ BlackParent p

-- Going down from a node, to its left or to its right, keeps the colours.
pub go_left :
    (c : Color) (l : Tree User) (u : User) (r : Tree User) (p : Parents User)
    → Sound (node c l u r) p
    → Sound l (left_of c u r ∷ p)
go_left red l u r p s = go s.height s.balanced s.fits s.top
  where
    go :
        (h : ℕ)
        → Balanced (node red l u r) h
        → Fits p h
        → (is_black (node red l u r) ≡ true) ⊎ BlackParent p
        → Sound l (left_of red u r ∷ p)
    go h (lb, rb, lo, ro) up (inl e) = absurd (cc)
    go h (lb, rb, lo, ro) up (inr top) = record {
      height = h;
      balanced = lo;
      fits = (ro, (rb, top, up));
      top = inl lb;
    }
go_left black l u r p s = go s.height s.balanced s.fits
  where
    go : (h : ℕ) → Balanced (node black l u r) h → Fits p h → Sound l (left_of black u r ∷ p)
    go zero b up = absurd b
    go (suc h) (lo, ro) up = record { height = h; balanced = lo; fits = (ro, up); top = inr refl }

go_right :
    (c : Color) (l : Tree User) (u : User) (r : Tree User) (p : Parents User)
    → Sound (node c l u r) p
    → Sound r (right_of c l u ∷ p)
go_right red l u r p s = go s.height s.balanced s.fits s.top
  where
    go :
        (h : ℕ)
        → Balanced (node red l u r) h
        → Fits p h
        → (is_black (node red l u r) ≡ true) ⊎ BlackParent p
        → Sound r (right_of red l u ∷ p)
    go h (lb, rb, lo, ro) up (inl e) = absurd (cc)
    go h (lb, rb, lo, ro) up (inr top) = record {
      height = h;
      balanced = ro;
      fits = (lo, (lb, top, up));
      top = inl rb;
    }
go_right black l u r p s = go s.height s.balanced s.fits
  where
    go : (h : ℕ) → Balanced (node black l u r) h → Fits p h → Sound r (right_of black l u ∷ p)
    go zero b up = absurd b
    go (suc h) (lo, ro) up = record { height = h; balanced = ro; fits = (lo, up); top = inr refl }

-- The name lies between the users before the focus and those behind it.
pub record Between (name : List ℕ) (p : Parents User) : Type 0 where
  pub above : Each gt name (before p)
  pub below : Each lt name (behind p)

Between-left :
    (c : Color) (l : Tree User) (u : User) (r : Tree User) (p : Parents User) (name : List ℕ)
    → name_cmp u.name name ≡ lt
    → Around (to_list l) u (to_list r)
    → Between name p
    → Between name (left_of c u r ∷ p)
Between-left c l u r p name e a b = record {
  above = b.above;
  below =
      Each-append lt name (u ∷ to_list r) (behind p)
        (e, Each-lt_trans u.name name (to_list r) e a.below) b.below;
}

Between-right :
    (c : Color) (l : Tree User) (u : User) (r : Tree User) (p : Parents User) (name : List ℕ)
    → name_cmp u.name name ≡ gt
    → Around (to_list l) u (to_list r)
    → Between name p
    → Between name (right_of c l u ∷ p)
Between-right c l u r p name e a b = record {
  above = Each-append gt name (before p) (to_list l ++ u ∷ []) b.above (
      Each-append gt name (to_list l) (u ∷ []) (Each-gt_trans u.name name (to_list l) e a.above)
        (e, tt));
  below = b.below;
}

-- What is known at the free place that `add` finds, or where it finds the name taken.
abbrev pub Free : List ℕ → List User → Option User → Option (Parents User) → Type 0
Free name us found none = (u : User) × (found ≡ some u)
Free name us found (some q) = (found ≡ none) × (us ≡ around q []) × Between name q × Sound leaf q

pub descend-Free :
    (t : Tree User) (p : Parents User) (name : List ℕ)
    → IsSorted (to_list t)
    → Between name p
    → Sound t p
    → Free name (around p (to_list t)) (get t name) (descend t p name)
unfolding get descend
descend-Free leaf p name h b s = (refl, refl, b, s)
descend-Free (node c l u r) p name h b s =
    let a = IsSorted-split (to_list l) u (to_list r) h in
    elim (compare_names u.name name) [
      | less e ↦
          rw (e, get, descend)
            (subst (λ us. Free name us (get l name) (descend l (left_of c u r ∷ p) name))
              (sym (around-attach l (left_of c u r) p))
              (descend-Free l (left_of c u r ∷ p) name a.front (Between-left c l u r p name e a b)
                (go_left c l u r p s)))
      | same e ↦ rw (e, get, descend) (u, refl)
      | more e ↦
          rw (e, get, descend)
            (subst (λ us. Free name us (get r name) (descend r (right_of c l u ∷ p) name))
              (sym (around-attach r (right_of c l u) p))
              (descend-Free r (right_of c l u ∷ p) name a.back (Between-right c l u r p name e a b)
                (go_right c l u r p s)))
    ]

-- What is known at the node that `del` finds, or where there is none.
abbrev pub Taken : List ℕ → List User → Option User → Option Place → Type 0
Taken name us found none = found ≡ none
Taken name us found (some (c, l, u, r, q)) =
    (found ≡ some u)
    × (name_cmp u.name name ≡ eq)
    × (us ≡ around q (to_list (node c l u r)))
    × Sound (node c l u r) q

pub locate-Taken :
    (t : Tree User) (p : Parents User) (name : List ℕ)
    → IsSorted (to_list t)
    → Sound t p
    → Taken name (around p (to_list t)) (get t name) (locate t p name)
unfolding get locate
locate-Taken leaf p name h s = refl
locate-Taken (node c l u r) p name h s =
    let a = IsSorted-split (to_list l) u (to_list r) h in
    elim (compare_names u.name name) [
      | less e ↦
          rw (e, get, locate)
            (subst (λ us. Taken name us (get l name) (locate l (left_of c u r ∷ p) name))
              (sym (around-attach l (left_of c u r) p))
              (locate-Taken l (left_of c u r ∷ p) name a.front (go_left c l u r p s)))
      | same e ↦ rw (e, get, locate) (refl, e, refl, s)
      | more e ↦
          rw (e, get, locate)
            (subst (λ us. Taken name us (get r name) (locate r (right_of c l u ∷ p) name))
              (sym (around-attach r (right_of c l u) p))
              (locate-Taken r (right_of c l u ∷ p) name a.back (go_right c l u r p s)))
    ]

-- ===== src/Rbtree/Erase/Repair.antt =====
-- core/src/hev-rbtree.c: one repair of `_hev_rbtree_erase_color`, below one parent.
use gen_net.Base.{ℕ, suc, ◌≡◌, refl, Bool, true, false, Option, none, some, arith}
use gen_net.Rbtree.{Color, red, black, Tree, leaf, node, is_black}
use gen_net.Rbtree.Erase.{flip_left, flip_right, fix_left, fix_right}
use gen_net.Rbtree.Balance.{Balanced, blacken_black}

module _ {ℓ} {A : Type ℓ} where
  -- A parent of colour `c` above a child whose black height is one too small: what is expected of
  -- its repair. `true` says that the whole subtree is one too small now.
  abbrev pub Fixed : Option (Bool × Tree A) → Color → ℕ → Type 0
  Fixed none c h = ⊥
  Fixed (some (false, t)) red h = Balanced t (suc h)
  Fixed (some (false, t)) black h = Balanced t (suc (suc h)) × (is_black t ≡ true)
  Fixed (some (true, t)) red h = ⊥
  Fixed (some (true, t)) black h = Balanced t (suc h) × (is_black t ≡ true)

  module _ (n : Tree A) (x : A) (h : ℕ) (nb : Balanced n h) (n_black : is_black n ≡ true) where
    Fixed-flip_left :
        (c sc : Color) (sl : Tree A) (sx : A) (sr : Tree A)
        → Balanced sl h
        → Balanced sr h
        → is_black sr ≡ true
        → Fixed (some (flip_left c n x sc sl sx sr)) c h
    unfolding flip_left
    Fixed-flip_left red sc (node red a y b) sx sr (ab, bb, a_ok, b_ok) r rb =
        rw (blacken_black b bb) (refl, refl, (nb, a_ok), (b_ok, r))
    Fixed-flip_left black sc (node red a y b) sx sr (ab, bb, a_ok, b_ok) r rb =
        rw (blacken_black b bb) (((nb, a_ok), (b_ok, r)), refl)
    Fixed-flip_left red sc leaf sx sr l r rb = (nb, (refl, rb, l, r))
    Fixed-flip_left black sc leaf sx sr l r rb = ((nb, (refl, rb, l, r)), refl)
    Fixed-flip_left red sc (node black a y b) sx sr l r rb = (nb, (refl, rb, l, r))
    Fixed-flip_left black sc (node black a y b) sx sr l r rb = ((nb, (refl, rb, l, r)), refl)

    pub Fixed-fix_left :
        (c : Color) (s : Tree A)
        → Balanced s (suc h)
        → is_black s ≡ true
        → Fixed (fix_left c n x s) c h
    unfolding fix_left
    Fixed-fix_left c leaf b e = absurd (omega arith)
    Fixed-fix_left c (node red sl sx sr) b e = absurd (cc)
    Fixed-fix_left c (node black sl sx leaf) b e = Fixed-flip_left c black sl sx leaf b.0 b.1 refl
    Fixed-fix_left c (node black sl sx (node black p y q)) b e =
        Fixed-flip_left c black sl sx (node black p y q) b.0 b.1 refl
    Fixed-fix_left red (node black sl sx (node red p y q)) (l, r) e =
        (refl, refl, (nb, l), (r.2, r.3))
    Fixed-fix_left black (node black sl sx (node red p y q)) (l, r) e =
        (((nb, l), (r.2, r.3)), refl)

    Fixed-flip_right :
        (c sc : Color) (sl : Tree A) (sx : A) (sr : Tree A)
        → Balanced sl h
        → Balanced sr h
        → is_black sl ≡ true
        → Fixed (some (flip_right c sc sl sx sr x n)) c h
    unfolding flip_right
    Fixed-flip_right red sc sl sx (node red a y b) l (ab, bb, a_ok, b_ok) lb =
        rw (blacken_black a ab) (refl, refl, (l, a_ok), (b_ok, nb))
    Fixed-flip_right black sc sl sx (node red a y b) l (ab, bb, a_ok, b_ok) lb =
        rw (blacken_black a ab) (((l, a_ok), (b_ok, nb)), refl)
    Fixed-flip_right red sc sl sx leaf l r lb = ((lb, refl, l, r), nb)
    Fixed-flip_right black sc sl sx leaf l r lb = (((lb, refl, l, r), nb), refl)
    Fixed-flip_right red sc sl sx (node black a y b) l r lb = ((lb, refl, l, r), nb)
    Fixed-flip_right black sc sl sx (node black a y b) l r lb = (((lb, refl, l, r), nb), refl)

    pub Fixed-fix_right :
        (c : Color) (s : Tree A)
        → Balanced s (suc h)
        → is_black s ≡ true
        → Fixed (fix_right c s x n) c h
    unfolding fix_right
    Fixed-fix_right c leaf b e = absurd (omega arith)
    Fixed-fix_right c (node red sl sx sr) b e = absurd (cc)
    Fixed-fix_right c (node black leaf sx sr) b e = Fixed-flip_right c black leaf sx sr b.0 b.1 refl
    Fixed-fix_right c (node black (node black p y q) sx sr) b e =
        Fixed-flip_right c black (node black p y q) sx sr b.0 b.1 refl
    Fixed-fix_right red (node black (node red p y q) sx sr) (l, r) e =
        (refl, refl, (l.2, l.3), (r, nb))
    Fixed-fix_right black (node black (node red p y q) sx sr) (l, r) e =
        (((l.2, l.3), (r, nb)), refl)

-- ===== src/Rbtree/Erase/Order.antt =====
-- core/src/hev-rbtree.c: the items when a node is removed.
use gen_net.Base.{
  ◌≡◌, refl, sym, ap, ◌∙◌, Bool, true, false, Option, none, some, List, [], ◌∷◌, ◌++◌, append_assoc,
  append-nil, subst,
}
use gen_net.Rbtree.{Color, red, black, Tree, leaf, node, Frame, left_of, right_of, Parents, attach}
use gen_net.Rbtree.Erase.{
  flip_left, flip_right, fix_left, fix_right, resume, rotated, round, erase_color, first, rebalance,
  replaced, erase,
}
use gen_net.Rbtree.Order.{
  to_list, before, behind, around, to_list-blacken, to_list-plug, around-attach, before-append,
  behind-append,
}

module _ {ℓ} {A : Type ℓ} where
  to_list-flip_left :
      (c : Color) (n : Tree A) (x : A) (sc : Color) (sl : Tree A) (sx : A) (sr : Tree A)
      → to_list (flip_left c n x sc sl sx sr).1 ≡ to_list (node c n x (node sc sl sx sr))
  unfolding flip_left
  to_list-flip_left c n x sc (node red a y b) sx sr = simp (to_list-blacken, append_assoc)
  to_list-flip_left red n x sc leaf sx sr = refl
  to_list-flip_left black n x sc leaf sx sr = refl
  to_list-flip_left red n x sc (node black a y b) sx sr = refl
  to_list-flip_left black n x sc (node black a y b) sx sr = refl

  to_list-flip_right :
      (c sc : Color) (sl : Tree A) (sx : A) (sr : Tree A) (x : A) (n : Tree A)
      → to_list (flip_right c sc sl sx sr x n).1 ≡ to_list (node c (node sc sl sx sr) x n)
  unfolding flip_right
  to_list-flip_right c sc sl sx (node red a y b) x n = simp (to_list-blacken, append_assoc)
  to_list-flip_right red sc sl sx leaf x n = refl
  to_list-flip_right black sc sl sx leaf x n = refl
  to_list-flip_right red sc sl sx (node black a y b) x n = refl
  to_list-flip_right black sc sl sx (node black a y b) x n = refl

  -- what a repaired subtree holds
  abbrev Holds : Option (Bool × Tree A) → List A → Type ℓ
  Holds none xs = Unit
  Holds (some (b, t)) xs = to_list t ≡ xs

  Holds-fix_left :
      (c : Color) (n : Tree A) (x : A) (s : Tree A)
      → Holds (fix_left c n x s) (to_list (node c n x s))
  unfolding fix_left
  Holds-fix_left c n x leaf = tt
  Holds-fix_left c n x (node sc sl sx leaf) = to_list-flip_left c n x sc sl sx leaf
  Holds-fix_left c n x (node sc sl sx (node black a y b)) =
      to_list-flip_left c n x sc sl sx (node black a y b)
  Holds-fix_left c n x (node sc sl sx (node red a y b)) = simp append_assoc

  Holds-fix_right :
      (c : Color) (s : Tree A) (x : A) (n : Tree A)
      → Holds (fix_right c s x n) (to_list (node c s x n))
  unfolding fix_right
  Holds-fix_right c leaf x n = tt
  Holds-fix_right c (node sc leaf sx sr) x n = to_list-flip_right c sc leaf sx sr x n
  Holds-fix_right c (node sc (node black a y b) sx sr) x n =
      to_list-flip_right c sc (node black a y b) sx sr x n
  Holds-fix_right c (node sc (node red a y b) sx sr) x n = simp append_assoc

  -- a computation that keeps the items, if it does not fault
  abbrev pub Yields : Option (Tree A) → List A → Type ℓ
  Yields none xs = Unit
  Yields (some t) xs = to_list t ≡ xs

  Yields-resume :
      (o : Option (Bool × Tree A)) (xs : List A) (again : Tree A → Option (Tree A)) (p : Parents A)
      → Holds o xs
      → ((t : Tree A) → Yields (again t) (around p (to_list t)))
      → Yields (resume o again p) (around p xs)
  unfolding resume
  Yields-resume none xs again p h k = tt
  Yields-resume (some (false, t)) xs again p h k = rw (← h) (to_list-plug t p)
  Yields-resume (some (true, t)) xs again p h k = rw (← h) (k t)

  Yields-rotated :
      (o : Option (Bool × Tree A)) (xs ys : List A) (f : Frame A) (p : Parents A)
      → Holds o xs
      → ((t : Tree A) → to_list t ≡ xs → to_list (attach t f) ≡ ys)
      → Yields (rotated o f p) (around p ys)
  unfolding rotated
  Yields-rotated none xs ys f p h k = tt
  Yields-rotated (some (b, t)) xs ys f p h k = to_list-plug (attach t f) p ∙ ap (around p) (k t h)

  module _ (n : Tree A) (again : Tree A → Option (Tree A)) (p : Parents A)
      (k : (t : Tree A) → Yields (again t) (around p (to_list t))) where
    Yields-round : (f : Frame A) → Yields (round n f again p) (around p (to_list (attach n f)))
    unfolding round
    Yields-round (left_of c x leaf) = Yields-resume _ _ again p (Holds-fix_left c n x leaf) k
    Yields-round (left_of c x (node black sl sx sr)) =
        Yields-resume _ _ again p (Holds-fix_left c n x (node black sl sx sr)) k
    Yields-round (left_of c x (node red leaf sx sr)) = tt
    Yields-round (left_of c x (node red (node lc ll lx lr) sx sr)) =
        Yields-rotated _ _ _ (left_of c sx sr) p (Holds-fix_left red n x (node black ll lx lr))
          (λ t e. rw e (simp append_assoc))
    Yields-round (right_of c leaf x) = Yields-resume _ _ again p (Holds-fix_right c leaf x n) k
    Yields-round (right_of c (node black sl sx sr) x) =
        Yields-resume _ _ again p (Holds-fix_right c (node black sl sx sr) x n) k
    Yields-round (right_of c (node red sl sx leaf) x) = tt
    Yields-round (right_of c (node red sl sx (node rc rl rx rr)) x) =
        Yields-rotated _ _ _ (right_of c sl sx) p (Holds-fix_right red (node black rl rx rr) x n)
          (λ t e. rw e (simp append_assoc))

  Yields-erase_color :
      (n : Tree A) (p : Parents A) → Yields (erase_color n p) (around p (to_list n))
  unfolding erase_color
  Yields-erase_color n [] = sym (append-nil _)
  Yields-erase_color n (f ∷ p) =
      rw (← around-attach n f p)
        (Yields-round n (λ t. erase_color t p) p (λ t. Yields-erase_color t p) f)

  Yields-rebalance :
      (c : Color) (t : Tree A) (p : Parents A) → Yields (rebalance c t p) (around p (to_list t))
  unfolding rebalance
  Yields-rebalance red leaf p = to_list-plug leaf p
  Yields-rebalance black leaf p = Yields-erase_color leaf p
  Yields-rebalance red (node d l x r) p = to_list-plug (node black l x r) p
  Yields-rebalance black (node d l x r) p = to_list-plug (node black l x r) p

  -- the successor comes first, and what is left behind it follows
  pub first-splits :
      (c : Color) (l : Tree A) (x : A) (r : Tree A) (q : Parents A)
      → let (sc, sx, child2, q') = first c l x r q in
        (before q' ≡ before q)
        × (to_list (node c l x r) ++ behind q ≡ sx ∷ (to_list child2 ++ behind q'))
  unfolding first
  first-splits c leaf x r q = (refl, refl)
  first-splits c (node lc ll lx lr) x r q =
      let (same, split) = first-splits lc ll lx lr (left_of c x r ∷ q) in
      (same, append_assoc (to_list (node lc ll lx lr)) (x ∷ to_list r) (behind q) ∙ split)

  Yields-replaced :
      (c : Color) (l : Tree A) (p : Parents A) (rc : Color) (rl : Tree A) (rx : A) (rr : Tree A)
      → Yields
          (replaced c l p (first rc rl rx rr []))
          (around p (to_list l ++ to_list (node rc rl rx rr)))
  unfolding replaced
  Yields-replaced c l p rc rl rx rr =
      let found = first rc rl rx rr [] in
      let up : Parents A = found.3 ++ right_of c l found.1 ∷ p in
      let (same, split) = first-splits rc rl rx rr [] in
      let right : to_list (node rc rl rx rr) ≡ found.1 ∷ (to_list found.2 ++ behind found.3) =
        sym (append-nil _) ∙ split in
      let whole : around up (to_list found.2) ≡ around p (to_list l ++ to_list (node rc rl rx rr)) =
        rw
          (
            right,
            before-append found.3 (right_of c l found.1 ∷ p),
            behind-append found.3 (right_of c l found.1 ∷ p),
            same,
          )
          (simp (append_assoc, append-nil)) in
      subst (Yields (rebalance found.0 found.2 up)) whole (Yields-rebalance found.0 found.2 up)

  -- Removing a node takes its item out, and keeps the others in order.
  pub Yields-erase :
      (c : Color) (l : Tree A) (x : A) (r : Tree A) (p : Parents A)
      → Yields (erase c l x r p) (around p (to_list l ++ to_list r))
  unfolding erase
  Yields-erase c leaf x leaf p = Yields-rebalance c leaf p
  Yields-erase c leaf x (node rc rl rx rr) p = to_list-plug (node c rl rx rr) p
  Yields-erase c (node lc ll lx lr) x leaf p = to_list-plug (node c ll lx lr) p ∙ simp append-nil
  Yields-erase c (node lc ll lx lr) x (node rc rl rx rr) p =
      Yields-replaced c (node lc ll lx lr) p rc rl rx rr

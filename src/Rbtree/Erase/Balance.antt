-- ===== src/Rbtree/Erase/Balance.antt =====
-- core/src/hev-rbtree.c: the colours when a node is removed.
use gen_net.Base.{
  ℕ, zero, suc, ◌≡◌, ◌⊎◌, inl, inr, refl, Bool, true, false, Option, none, some, [], ◌∷◌, ◌++◌,
  arith, subst,
}
use gen_net.Rbtree.{
  Color, red, black, Tree, leaf, node, Frame, left_of, right_of, Parents, is_black,
}
use gen_net.Rbtree.Erase.{
  fix_left, fix_right, resume, rotated, round, erase_color, first, rebalance, replaced, erase,
}
use gen_net.Rbtree.Balance.{Balanced, BlackParent, Fits, ReturnsBalanced, plug-IsRedBlack}
use gen_net.Rbtree.Erase.Repair.{Fixed, Fixed-fix_left, Fixed-fix_right}

-- the black height of a node with children of height `h`
abbrev grow : Color → ℕ → ℕ
grow red h = h
grow black h = suc h

module _ {ℓ} {A : Type ℓ} where
  -- what the frame of colour `c` says of the parents above it
  abbrev Above : Color → Parents A → ℕ → Type 0
  Above red p h = BlackParent p × Fits p h
  Above black p h = Fits p (suc h)

  module _ (p : Parents A) (h : ℕ) (again : Tree A → Option (Tree A))
      (more : (t : Tree A)
        → Balanced t (suc h)
        → is_black t ≡ true
        → Fits p (suc (suc h))
        → ReturnsBalanced (again t)) where
    resume-IsRedBlack :
        (o : Option (Bool × Tree A)) (c : Color)
        → Fixed o c h
        → Above c p (suc h)
        → ReturnsBalanced (resume o again p)
    unfolding resume
    resume-IsRedBlack none c f up = f
    resume-IsRedBlack (some (false, t)) red f up = plug-IsRedBlack t p (suc h) f up.1 (inr up.0)
    resume-IsRedBlack (some (false, t)) black f up =
        plug-IsRedBlack t p (suc (suc h)) f.0 up (inl f.1)
    resume-IsRedBlack (some (true, t)) red f up = absurd f
    resume-IsRedBlack (some (true, t)) black f up = more t f.0 f.1 up

    rotated_left-IsRedBlack :
        (o : Option (Bool × Tree A)) (x : A) (s : Tree A)
        → Fixed o red h
        → Balanced s (suc h)
        → Fits p (suc (suc h))
        → ReturnsBalanced (rotated o (left_of black x s) p)
    unfolding rotated
    rotated_left-IsRedBlack none x s f b up = f
    rotated_left-IsRedBlack (some (false, t)) x s f b up =
        plug-IsRedBlack (node black t x s) p (suc (suc h)) (f, b) up (inl refl)
    rotated_left-IsRedBlack (some (true, t)) x s f b up = absurd f

    rotated_right-IsRedBlack :
        (o : Option (Bool × Tree A)) (x : A) (s : Tree A)
        → Fixed o red h
        → Balanced s (suc h)
        → Fits p (suc (suc h))
        → ReturnsBalanced (rotated o (right_of black s x) p)
    unfolding rotated
    rotated_right-IsRedBlack none x s f b up = f
    rotated_right-IsRedBlack (some (false, t)) x s f b up =
        plug-IsRedBlack (node black s x t) p (suc (suc h)) (b, f) up (inl refl)
    rotated_right-IsRedBlack (some (true, t)) x s f b up = absurd f

    round-IsRedBlack :
        (n : Tree A) (f : Frame A)
        → Balanced n h
        → is_black n ≡ true
        → Fits (f ∷ p) (suc h)
        → ReturnsBalanced (round n f again p)
    unfolding round
    round-IsRedBlack n (left_of c x leaf) nb n_black up = absurd (omega (arith, up.0))
    round-IsRedBlack n (right_of c leaf x) nb n_black up = absurd (omega (arith, up.0))
    round-IsRedBlack n (left_of red x (node red sl sx sr)) nb n_black up = absurd (cc (up.1.0))
    round-IsRedBlack n (right_of red (node red sl sx sr) x) nb n_black up = absurd (cc (up.1.0))
    round-IsRedBlack n (left_of black x (node red leaf sx sr)) nb n_black up =
        absurd (omega (arith, up.0.2))
    round-IsRedBlack n (right_of black (node red sl sx leaf) x) nb n_black up =
        absurd (omega (arith, up.0.3))
    round-IsRedBlack n (left_of black x (node red (node red ll lx lr) sx sr)) nb n_black up =
        absurd (cc (up.0.0))
    round-IsRedBlack n (right_of black (node red sl sx (node red rl rx rr)) x) nb n_black up =
        absurd (cc (up.0.1))
    round-IsRedBlack n (left_of black x (node red (node black ll lx lr) sx sr)) nb n_black up =
        rotated_left-IsRedBlack (fix_left red n x (node black ll lx lr)) sx sr
          (Fixed-fix_left n x h nb n_black red (node black ll lx lr) up.0.2 refl) up.0.3 up.1
    round-IsRedBlack n (right_of black (node red sl sx (node black rl rx rr)) x) nb n_black up =
        rotated_right-IsRedBlack (fix_right red (node black rl rx rr) x n) sx sl
          (Fixed-fix_right n x h nb n_black red (node black rl rx rr) up.0.3 refl) up.0.2 up.1
    round-IsRedBlack n (left_of red x (node black sl sx sr)) nb n_black up =
        resume-IsRedBlack (fix_left red n x (node black sl sx sr)) red
          (Fixed-fix_left n x h nb n_black red (node black sl sx sr) up.0 refl) (up.1.1, up.1.2)
    round-IsRedBlack n (left_of black x (node black sl sx sr)) nb n_black up =
        resume-IsRedBlack (fix_left black n x (node black sl sx sr)) black
          (Fixed-fix_left n x h nb n_black black (node black sl sx sr) up.0 refl) up.1
    round-IsRedBlack n (right_of red (node black sl sx sr) x) nb n_black up =
        resume-IsRedBlack (fix_right red (node black sl sx sr) x n) red
          (Fixed-fix_right n x h nb n_black red (node black sl sx sr) up.0 refl) (up.1.1, up.1.2)
    round-IsRedBlack n (right_of black (node black sl sx sr) x) nb n_black up =
        resume-IsRedBlack (fix_right black (node black sl sx sr) x n) black
          (Fixed-fix_right n x h nb n_black black (node black sl sx sr) up.0 refl) up.1

  erase_color-IsRedBlack :
      (n : Tree A) (p : Parents A) (h : ℕ)
      → Balanced n h
      → is_black n ≡ true
      → Fits p (suc h)
      → ReturnsBalanced (erase_color n p)
  unfolding erase_color
  erase_color-IsRedBlack n [] h nb n_black up = record { height = h; balanced = nb; root = n_black }
  erase_color-IsRedBlack n (f ∷ p) h nb n_black up =
      round-IsRedBlack p h (λ t. erase_color t p)
        (λ t tb t_black above. erase_color-IsRedBlack t p (suc h) tb t_black above) n f nb n_black
        up

  -- the child that took the place of a node of colour `c` whose other child was NULL
  rebalance-IsRedBlack :
      (c : Color) (t : Tree A) (p : Parents A)
      → Balanced t 0
      → (c ≡ red → is_black t ≡ true)
      → Fits p (grow c 0)
      → ReturnsBalanced (rebalance c t p)
  unfolding rebalance
  rebalance-IsRedBlack red leaf p b e up = plug-IsRedBlack leaf p 0 refl up (inl refl)
  rebalance-IsRedBlack black leaf p b e up = erase_color-IsRedBlack leaf p 0 refl refl up
  rebalance-IsRedBlack red (node red l x r) p b e up = absurd (cc (e refl))
  rebalance-IsRedBlack black (node red l x r) p b e up =
      plug-IsRedBlack (node black l x r) p 1 (b.2, b.3) up (inl refl)
  rebalance-IsRedBlack red (node black l x r) p b e up = absurd b
  rebalance-IsRedBlack black (node black l x r) p b e up = absurd b

  color_of_black :
      (c : Color) (l : Tree A) (x : A) (r : Tree A) → is_black (node c l x r) ≡ true → c ≡ black
  color_of_black red l x r e = absurd (cc)
  color_of_black black l x r e = refl

  -- what the successor of a node leaves behind
  abbrev Leaves : Color × A × Tree A × Parents A → Parents A → Type 0
  Leaves (sc, sx, child2, q) p =
      Balanced child2 0 × (sc ≡ red → is_black child2 ≡ true) × Fits (q ++ p) (grow sc 0)

  first-Leaves :
      (c : Color) (l : Tree A) (x : A) (r : Tree A) (q p : Parents A) (h : ℕ)
      → Balanced (node c l x r) h
      → Fits (q ++ p) h
      → (c ≡ black) ⊎ BlackParent (q ++ p)
      → Leaves (first c l x r q) p
  unfolding first
  first-Leaves red leaf x r q p h (lb, rb, hz, r_ok) up top =
      let z : h ≡ 0 = hz in (subst (Balanced r) z r_ok, (λ _. rb), subst (Fits (q ++ p)) z up)
  first-Leaves black leaf x r q p zero b up top = absurd b
  first-Leaves black leaf x r q p (suc h) (hz, r_ok) up top =
      let z : h ≡ 0 = hz in
      (subst (Balanced r) z r_ok, (λ e. cc), subst (λ k. Fits (q ++ p) (suc k)) z up)
  first-Leaves red (node lc ll lx lr) x r q p h (lb, rb, l_ok, r_ok) up (inl e) = absurd (cc)
  first-Leaves red (node lc ll lx lr) x r q p h (lb, rb, l_ok, r_ok) up (inr top) =
      first-Leaves lc ll lx lr (left_of red x r ∷ q) p h l_ok (r_ok, (rb, top, up))
        (inl (color_of_black lc ll lx lr lb))
  first-Leaves black (node lc ll lx lr) x r q p zero b up top = absurd b
  first-Leaves black (node lc ll lx lr) x r q p (suc h) (l_ok, r_ok) up top =
      first-Leaves lc ll lx lr (left_of black x r ∷ q) p h l_ok (r_ok, up) (inr refl)

  replaced-IsRedBlack :
      (c : Color) (l : Tree A) (p : Parents A) (rc : Color) (rl : Tree A) (rx : A) (rr : Tree A)
      → ((y : A) → (h : ℕ) × Balanced (node rc rl rx rr) h × Fits (right_of c l y ∷ p) h)
      → (rc ≡ black) ⊎ (c ≡ black)
      → ReturnsBalanced (replaced c l p (first rc rl rx rr []))
  unfolding replaced
  replaced-IsRedBlack c l p rc rl rx rr at top =
      let found = first rc rl rx rr [] in
      let (h, b, up) = at found.1 in
      let (child, child_black, above) =
        first-Leaves rc rl rx rr [] (right_of c l found.1 ∷ p) h b up top in
      rebalance-IsRedBlack found.0 found.2 (found.3 ++ right_of c l found.1 ∷ p) child child_black
        above

  -- Removing a node of a red-black tree reads no null pointer, and leaves a red-black tree.
  pub erase-IsRedBlack :
      (c : Color) (l : Tree A) (x : A) (r : Tree A) (p : Parents A) (h : ℕ)
      → Balanced (node c l x r) h
      → Fits p h
      → (c ≡ black) ⊎ BlackParent p
      → ReturnsBalanced (erase c l x r p)
  unfolding erase
  erase-IsRedBlack red leaf x leaf p h b up top =
      rebalance-IsRedBlack red leaf p refl (λ _. refl) (subst (Fits p) b.2 up)
  erase-IsRedBlack black leaf x leaf p zero b up top = absurd b
  erase-IsRedBlack black leaf x leaf p (suc h) b up top =
      rebalance-IsRedBlack black leaf p refl (λ _. refl) (subst (λ k. Fits p (suc k)) b.0 up)
  erase-IsRedBlack red leaf x (node red rl rx rr) p h b up top = absurd (cc (b.1))
  erase-IsRedBlack red leaf x (node black rl rx rr) p zero b up top = absurd b.3
  erase-IsRedBlack red leaf x (node black rl rx rr) p (suc h) b up top = absurd (omega (arith, b.2))
  erase-IsRedBlack black leaf x (node rc rl rx rr) p zero b up top = absurd b
  erase-IsRedBlack black leaf x (node red rl rx rr) p (suc h) (hz, rb) up top =
      plug-IsRedBlack (node black rl rx rr) p (suc h) (rb.2, rb.3) up (inl refl)
  erase-IsRedBlack black leaf x (node black rl rx rr) p (suc zero) b up top = absurd b.1
  erase-IsRedBlack black leaf x (node black rl rx rr) p (suc (suc h)) b up top =
      absurd (omega (arith, b.0))
  erase-IsRedBlack red (node red ll lx lr) x leaf p h b up top = absurd (cc (b.0))
  erase-IsRedBlack red (node black ll lx lr) x leaf p zero b up top = absurd b.2
  erase-IsRedBlack red (node black ll lx lr) x leaf p (suc h) b up top = absurd (omega (arith, b.3))
  erase-IsRedBlack black (node lc ll lx lr) x leaf p zero b up top = absurd b
  erase-IsRedBlack black (node red ll lx lr) x leaf p (suc h) (lb, hz) up top =
      plug-IsRedBlack (node black ll lx lr) p (suc h) (lb.2, lb.3) up (inl refl)
  erase-IsRedBlack black (node black ll lx lr) x leaf p (suc zero) b up top = absurd b.0
  erase-IsRedBlack black (node black ll lx lr) x leaf p (suc (suc h)) b up top =
      absurd (omega (arith, b.1))
  erase-IsRedBlack red (node lc ll lx lr) x (node rc rl rx rr) p h b up (inl e) = absurd (cc)
  erase-IsRedBlack red (node lc ll lx lr) x (node rc rl rx rr) p h (lb, rb, l, r) up (inr top) =
      replaced-IsRedBlack red (node lc ll lx lr) p rc rl rx rr (λ y. (h, r, (l, (lb, top, up))))
        (inl (color_of_black rc rl rx rr rb))
  erase-IsRedBlack black (node lc ll lx lr) x (node rc rl rx rr) p zero b up top = absurd b
  erase-IsRedBlack black (node lc ll lx lr) x (node rc rl rx rr) p (suc h) (l, r) up top =
      replaced-IsRedBlack black (node lc ll lx lr) p rc rl rx rr (λ y. (h, r, (l, up))) (inr refl)

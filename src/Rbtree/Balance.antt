-- ===== src/Rbtree/Balance.antt =====
-- core/src/hev-rbtree.c: the colours, and what inserting does to them.
use gen_net.Base.{
  ℕ, zero, suc, ◌≡◌, ◌⊎◌, inl, inr, refl, true, false, Option, none, some, [], ◌∷◌, Bool-cases,
}
use gen_net.Rbtree.{
  Color, red, black, Tree, leaf, node, Frame, left_of, right_of, Parents, is_black, blacken, attach,
  plug, insert_rotate, insert_color, frame_color, frame_sibling, paint,
}

pub Color-cases : (c : Color) → (c ≡ red) ⊎ (c ≡ black)
Color-cases red = inl refl
Color-cases black = inr refl

module _ {ℓ} {A : Type ℓ} where
  -- No red node has a red child, and every way down meets `h` black nodes.
  abbrev pub Balanced : Tree A → ℕ → Type 0
  Balanced leaf h = h ≡ 0
  Balanced (node red l x r) h =
      (is_black l ≡ true) × (is_black r ≡ true) × Balanced l h × Balanced r h
  Balanced (node black l x r) zero = ⊥
  Balanced (node black l x r) (suc h) = Balanced l h × Balanced r h

  -- The rules that hold of a whole tree: the root is black too.
  pub record IsRedBlack (t : Tree A) : Type 0 where
    pub height : ℕ
    pub balanced : Balanced t height
    pub root : is_black t ≡ true

  -- the parent is there, and black
  abbrev pub BlackParent : Parents A → Type 0
  BlackParent [] = ⊥
  BlackParent (f ∷ p) = frame_color f ≡ black

  -- The parents of a focus of black height `h` keep the rules.
  abbrev pub Fits : Parents A → ℕ → Type 0
  Fits [] h = Unit
  Fits (f ∷ p) h = Balanced (frame_sibling f) h × (elim (frame_color f) [
    | red ↦ (is_black (frame_sibling f) ≡ true) × BlackParent p × Fits p h
    | black ↦ Fits p (suc h)
  ])

  pub Fits-red :
      (f : Frame A) (p : Parents A) (h : ℕ)
      → Fits (f ∷ p) h
      → frame_color f ≡ red
      → (is_black (frame_sibling f) ≡ true) × BlackParent p × Fits p h
  Fits-red (left_of red x s) p h up e = up.1
  Fits-red (left_of black x s) p h up e = absurd (cc)
  Fits-red (right_of red s x) p h up e = up.1
  Fits-red (right_of black s x) p h up e = absurd (cc)

  pub Fits-black :
      (f : Frame A) (p : Parents A) (h : ℕ)
      → Fits (f ∷ p) h
      → frame_color f ≡ black
      → Fits p (suc h)
  Fits-black (left_of red x s) p h up e = absurd (cc)
  Fits-black (left_of black x s) p h up e = up.1
  Fits-black (right_of red s x) p h up e = absurd (cc)
  Fits-black (right_of black s x) p h up e = up.1

  pub plug-IsRedBlack :
      (t : Tree A) (p : Parents A) (h : ℕ)
      → Balanced t h
      → Fits p h
      → (is_black t ≡ true) ⊎ BlackParent p
      → IsRedBlack (plug t p)
  unfolding plug
  plug-IsRedBlack t [] h b f (inl root) = record { height = h; balanced = b; root = root }
  plug-IsRedBlack t [] h b f (inr no_parent) = absurd no_parent
  plug-IsRedBlack t (left_of red x s ∷ p) h b f (inr e) = absurd (cc)
  plug-IsRedBlack t (right_of red s x ∷ p) h b f (inr e) = absurd (cc)
  plug-IsRedBlack t (left_of red x s ∷ p) h b (bs, (sb, top, up)) (inl e) =
      plug-IsRedBlack (node red t x s) p h (e, sb, b, bs) up (inr top)
  plug-IsRedBlack t (right_of red s x ∷ p) h b (bs, (sb, top, up)) (inl e) =
      plug-IsRedBlack (node red s x t) p h (sb, e, bs, b) up (inr top)
  plug-IsRedBlack t (left_of black x s ∷ p) h b (bs, up) e =
      plug-IsRedBlack (node black t x s) p (suc h) (b, bs) up (inl refl)
  plug-IsRedBlack t (right_of black s x ∷ p) h b (bs, up) e =
      plug-IsRedBlack (node black s x t) p (suc h) (bs, b) up (inl refl)

  Balanced-blacken :
      (t : Tree A) (h : ℕ) → Balanced t h → is_black t ≡ false → Balanced (blacken t) (suc h)
  Balanced-blacken leaf h b e = absurd (cc)
  Balanced-blacken (node red l x r) h (bl, br, l_ok, r_ok) e = (l_ok, r_ok)
  Balanced-blacken (node black l x r) h b e = absurd (cc)

  pub blacken_black : (t : Tree A) → is_black t ≡ true → blacken t ≡ t
  blacken_black leaf e = refl
  blacken_black (node red l x r) e = absurd (cc)
  blacken_black (node black l x r) e = refl

  is_black-blacken : (t : Tree A) → is_black (blacken t) ≡ true
  is_black-blacken leaf = refl
  is_black-blacken (node c l x r) = refl

  -- the shape of a red node, which every round of the loop keeps
  abbrev IsRed : Tree A → ℕ → Type 0
  IsRed t h = (is_black t ≡ false) × Balanced t h

  IsRed-flip :
      (t : Tree A) (h : ℕ) (f g : Frame A)
      → IsRed t h
      → Balanced (frame_sibling f) h
      → Balanced (frame_sibling g) h
      → is_black (frame_sibling g) ≡ false
      → IsRed
          (attach
            (attach t (paint black f (frame_sibling f)))
            (paint red g (blacken (frame_sibling g))))
          (suc h)
  IsRed-flip t h (left_of pc px ps) (left_of gc gx u) n s b e =
      (refl, (refl, is_black-blacken u, (n.1, s), Balanced-blacken u h b e))
  IsRed-flip t h (right_of pc ps px) (left_of gc gx u) n s b e =
      (refl, (refl, is_black-blacken u, (s, n.1), Balanced-blacken u h b e))
  IsRed-flip t h (left_of pc px ps) (right_of gc u gx) n s b e =
      (refl, (is_black-blacken u, refl, Balanced-blacken u h b e, (n.1, s)))
  IsRed-flip t h (right_of pc ps px) (right_of gc u gx) n s b e =
      (refl, (is_black-blacken u, refl, Balanced-blacken u h b e, (s, n.1)))

  rotate-Balanced :
      (l : Tree A) (x : A) (r : Tree A) (h : ℕ) (f g : Frame A)
      → Balanced (node red l x r) h
      → Balanced (frame_sibling f) h
      → is_black (frame_sibling f) ≡ true
      → Balanced (frame_sibling g) h
      → is_black (frame_sibling g) ≡ true
      → frame_color g ≡ black
      → Balanced (insert_rotate red l x r f g) (suc h)
        × (is_black (insert_rotate red l x r f g) ≡ true)
  unfolding insert_rotate
  rotate-Balanced l x r h (left_of pc px ps) (left_of black gx u) n s sb b ub e =
      rw (blacken_black ps sb) ((n, (sb, ub, s, b)), refl)
  rotate-Balanced l x r h (right_of pc ps px) (left_of black gx u) (lb, rb, bl, br) s sb b ub e =
      rw (blacken_black l lb, blacken_black r rb) (((sb, lb, s, bl), (rb, ub, br, b)), refl)
  rotate-Balanced l x r h (left_of pc px ps) (right_of black u gx) (lb, rb, bl, br) s sb b ub e =
      rw (blacken_black l lb, blacken_black r rb) (((ub, lb, b, bl), (rb, sb, br, s)), refl)
  rotate-Balanced l x r h (right_of pc ps px) (right_of black u gx) n s sb b ub e =
      rw (blacken_black ps sb) (((ub, sb, b, s), n), refl)
  rotate-Balanced l x r h f (left_of red gx u) n s sb b ub e = absurd (cc)
  rotate-Balanced l x r h f (right_of red u gx) n s sb b ub e = absurd (cc)

  -- a tree came back, and it keeps the rules
  abbrev pub ReturnsBalanced : Option (Tree A) → Type 0
  ReturnsBalanced none = ⊥
  ReturnsBalanced (some t) = IsRedBlack t

  -- A red node at a place that its black height fits is inserted without a fault, and the whole
  -- tree keeps the red-black rules.
  pub insert_color-IsRedBlack :
      (t : Tree A) (p : Parents A) (h : ℕ)
      → IsRed t h
      → Fits p h
      → ReturnsBalanced (insert_color t p)
  unfolding insert_color
  insert_color-IsRedBlack leaf p h n up = absurd (cc)
  insert_color-IsRedBlack (node black l x r) p h n up = absurd (cc)
  insert_color-IsRedBlack (node red l x r) [] h n up = record {
    height = suc h;
    balanced = (n.1.2, n.1.3);
    root = refl;
  }
  insert_color-IsRedBlack (node red l x r) (left_of black px s ∷ []) h n up = record {
    height = suc h;
    balanced = (n.1, up.0);
    root = refl;
  }
  insert_color-IsRedBlack (node red l x r) (right_of black s px ∷ []) h n up = record {
    height = suc h;
    balanced = (up.0, n.1);
    root = refl;
  }
  insert_color-IsRedBlack (node red l x r) (left_of red px s ∷ []) h n up = absurd up.1.1
  insert_color-IsRedBlack (node red l x r) (right_of red s px ∷ []) h n up = absurd up.1.1
  insert_color-IsRedBlack (node red l x r) (f ∷ g ∷ p) h n up = elim (Color-cases (frame_color f)) [
    | inr b ↦ rw (b, insert_color) (plug-IsRedBlack (node red l x r) (f ∷ g ∷ p) h n.1 up (inr b))
    | inl e ↦
        let (sb, gb, gs) = Fits-red f (g ∷ p) h up e in
        let above : Fits p (suc h) = Fits-black g p h gs gb in
        (elim (Bool-cases (is_black (frame_sibling g))) [
          | inl ub ↦
              let (ok, root) = rotate-Balanced l x r h f g n.1 up.0 sb gs.0 ub gb in
              rw (e, ub, insert_color)
                (plug-IsRedBlack (insert_rotate red l x r f g) p (suc h) ok above (inl root))
          | inr ur ↦
              rw (e, ur, insert_color)
                (insert_color-IsRedBlack
                  (attach (attach (node red l x r) (paint black f (frame_sibling f)))
                    (paint red g (blacken (frame_sibling g))))
                  p (suc h) (IsRed-flip (node red l x r) h f g n up.0 gs.0 ur) above)
        ])
  ]

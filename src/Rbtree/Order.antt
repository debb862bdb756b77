-- ===== src/Rbtree/Order.antt =====
-- core/src/hev-rbtree.c: the items in order, and what rebalancing does to them.
use gen_net.Base.{◌≡◌, refl, sym, ◌∙◌, some, List, [], ◌∷◌, ◌++◌, append_assoc, append-nil, arith}
use gen_net.Rbtree.{
  Color, red, black, Tree, leaf, node, Frame, left_of, right_of, Parents, blacken, attach, plug,
  insert_rotate, insert_color, frame_sibling, paint,
}

module _ {ℓ} {A : Type ℓ} where
  abbrev pub to_list : Tree A → List A
  to_list leaf = []
  to_list (node c l x r) = to_list l ++ (x ∷ to_list r)

  -- the items before the focus, and those behind it
  abbrev pub before : Parents A → List A
  before [] = []
  before (left_of c x s ∷ p) = before p
  before (right_of c s x ∷ p) = before p ++ (to_list s ++ x ∷ [])

  abbrev pub behind : Parents A → List A
  behind [] = []
  behind (left_of c x s ∷ p) = x ∷ to_list s ++ behind p
  behind (right_of c s x ∷ p) = behind p

  -- what a tree with the items `xs` at the focus holds as a whole
  abbrev pub around : Parents A → List A → List A
  around p xs = before p ++ (xs ++ behind p)

  pub to_list-blacken : (t : Tree A) → to_list (blacken t) ≡ to_list t
  to_list-blacken leaf = refl
  to_list-blacken (node c l x r) = refl

  pub to_list-plug : (t : Tree A) (p : Parents A) → to_list (plug t p) ≡ around p (to_list t)
  unfolding plug
  to_list-plug t [] = simp append-nil
  to_list-plug t (left_of c x s ∷ p) = to_list-plug (node c t x s) p ∙ simp append_assoc
  to_list-plug t (right_of c s x ∷ p) = to_list-plug (node c s x t) p ∙ simp append_assoc

  pub around-attach :
      (t : Tree A) (f : Frame A) (p : Parents A)
      → around p (to_list (attach t f)) ≡ around (f ∷ p) (to_list t)
  around-attach t (left_of c x s) p = simp append_assoc
  around-attach t (right_of c s x) p = simp append_assoc

  pub before-append : (q p : Parents A) → before (q ++ p) ≡ before p ++ before q
  before-append [] p = sym (append-nil _)
  before-append (left_of c x s ∷ q) p = before-append q p
  before-append (right_of c s x ∷ q) p = rw (before-append q p, append_assoc)

  pub behind-append : (q p : Parents A) → behind (q ++ p) ≡ behind q ++ behind p
  behind-append [] p = refl
  behind-append (left_of c x s ∷ q) p = rw (behind-append q p, append_assoc)
  behind-append (right_of c s x ∷ q) p = behind-append q p

  -- Subtrees with the same items may stand for one another.
  pub plug-congr :
      (t u : Tree A) (p : Parents A)
      → to_list t ≡ to_list u
      → to_list (plug t p) ≡ to_list (plug u p)
  plug-congr t u p e = rw (to_list-plug t p, to_list-plug u p, e)

  pub attach-congr :
      (t u : Tree A) (f : Frame A)
      → to_list t ≡ to_list u
      → to_list (attach t f) ≡ to_list (attach u f)
  attach-congr t u (left_of c x s) e = rw e
  attach-congr t u (right_of c s x) e = rw e

  pub attach-paint :
      (t : Tree A) (c : Color) (f : Frame A)
      → (to_list (attach t (paint c f (frame_sibling f))) ≡ to_list (attach t f))
        × (to_list (attach t (paint c f (blacken (frame_sibling f)))) ≡ to_list (attach t f))
  attach-paint t c (left_of d x s) = (refl, rw (to_list-blacken s))
  attach-paint t c (right_of d s x) = (refl, rw (to_list-blacken s))

  to_list-insert_rotate :
      (c : Color) (l : Tree A) (x : A) (r : Tree A) (f g : Frame A)
      → to_list (insert_rotate c l x r f g) ≡ to_list (attach (attach (node c l x r) f) g)
  unfolding insert_rotate
  to_list-insert_rotate c l x r (left_of pc px ps) (left_of gc gx u) =
      simp (to_list-blacken, append_assoc)
  to_list-insert_rotate c l x r (right_of pc ps px) (left_of gc gx u) =
      simp (to_list-blacken, append_assoc)
  to_list-insert_rotate c l x r (left_of pc px ps) (right_of gc u gx) =
      simp (to_list-blacken, append_assoc)
  to_list-insert_rotate c l x r (right_of pc ps px) (right_of gc u gx) =
      simp (to_list-blacken, append_assoc)

  -- Rebalancing after an insertion keeps the items in order.
  pub insert_color-plug :
      (t t' : Tree A) (p : Parents A) → insert_color t p ≡ some t' → to_list t' ≡ to_list (plug t p)
  unfolding insert_color
  insert_color-plug leaf t' p h = cc
  insert_color-plug (node c l x r) t' [] h = ground arith
  insert_color-plug (node c l x r) t' (f ∷ []) h = ground arith
  insert_color-plug (node c l x r) t' (f ∷ g ∷ p) h =
      let n : Tree A = node c l x r in
      let flipped : Tree A =
        attach (attach n (paint black f (frame_sibling f)))
          (paint red g (blacken (frame_sibling g))) in
      let old : Tree A = attach (attach n f) g in
      let same : to_list flipped ≡ to_list old =
        (attach-paint _ red g).1 ∙ attach-congr _ _ g ((attach-paint n black f).0) in
      ground (
        arith,
        insert_color-plug flipped t' p,
        plug-congr flipped old p same,
        plug-congr (insert_rotate c l x r f g) old p (to_list-insert_rotate c l x r f g),
      )

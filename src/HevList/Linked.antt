-- ===== src/HevList/Linked.antt =====
-- misc/hev-list.c: segments of a doubly linked list.
use gen_net.Base.{ℕ, ◌≡◌, ◌≢◌, refl, ◌∙◌, Option, some, List, [], ◌∷◌, ◌++◌, arith}
use gen_net.HevList.{update}

-- the first node, where `q` follows, and the last one, where `p` precedes
abbrev pub front : List ℕ → Option ℕ → Option ℕ
front [] q = q
front (x ∷ xs) q = some x

abbrev pub back : Option ℕ → List ℕ → Option ℕ
back p [] = p
back p (x ∷ xs) = back (some x) xs

-- The nodes point to one another; `p` precedes them and `q` follows.
abbrev pub Linked : (ℕ → Option ℕ) → (ℕ → Option ℕ) → Option ℕ → List ℕ → Option ℕ → Type 0
Linked next prev p [] q = Unit
Linked next prev p (x ∷ xs) q =
    (prev x ≡ p) × ((next x ≡ front xs q) × Linked next prev (some x) xs q)

abbrev pub NotIn : ℕ → List ℕ → Type 0
NotIn k [] = Unit
NotIn k (x ∷ xs) = (x ≢ k) × NotIn k xs

abbrev pub Distinct : List ℕ → Type 0
Distinct [] = Unit
Distinct (x ∷ xs) = NotIn x xs × Distinct xs

module _ (next prev : ℕ → Option ℕ) where
  pub Linked-append :
      (p q : Option ℕ) (xs ys : List ℕ)
      → Linked next prev p xs (front ys q)
      → Linked next prev (back p xs) ys q
      → Linked next prev p (xs ++ ys) q
  Linked-append p q [] ys h k = k
  Linked-append p q (x ∷ []) ys h k = (h.0, (h.1.0, k))
  Linked-append p q (x ∷ y ∷ xs) ys h k =
      (h.0, (h.1.0, Linked-append (some x) q (y ∷ xs) ys h.1.1 k))

  pub Linked-split :
      (p q : Option ℕ) (xs ys : List ℕ)
      → Linked next prev p (xs ++ ys) q
      → Linked next prev p xs (front ys q) × Linked next prev (back p xs) ys q
  Linked-split p q [] ys h = (tt, h)
  Linked-split p q (x ∷ []) ys h = ((h.0, (h.1.0, tt)), h.1.1)
  Linked-split p q (x ∷ y ∷ xs) ys h =
      let (a, b) = Linked-split (some x) q (y ∷ xs) ys h.1.1 in ((h.0, (h.1.0, a)), b)

  -- writes to other nodes
  pub Linked-next :
      (k : ℕ) (v p q : Option ℕ) (xs : List ℕ)
      → NotIn k xs
      → Linked next prev p xs q
      → Linked (update next k v) prev p xs q
  Linked-next k v p q [] n h = tt
  Linked-next k v p q (x ∷ xs) n h =
      (h.0, (ground (arith, h.1.0, n.0), Linked-next k v (some x) q xs n.1 h.1.1))

  pub Linked-prev :
      (k : ℕ) (v p q : Option ℕ) (xs : List ℕ)
      → NotIn k xs
      → Linked next prev p xs q
      → Linked next (update prev k v) p xs q
  Linked-prev k v p q [] n h = tt
  Linked-prev k v p q (x ∷ xs) n h =
      (ground (arith, h.0, n.0), (h.1.0, Linked-prev k v (some x) q xs n.1 h.1.1))

pub back-ne : (k t x : ℕ) (xs : List ℕ) → back (some x) xs ≡ some t → NotIn k (x ∷ xs) → t ≢ k
back-ne k t x [] e n = λ h. n.0 (let e' : x ≡ t = ground arith in e' ∙ h)
back-ne k t x (y ∷ xs) e n = back-ne k t y xs e n.1

module _ (next prev : ℕ → Option ℕ) where
  -- the last node gets another one behind it
  pub Linked-last :
      (t x : ℕ) (v p q : Option ℕ) (xs : List ℕ)
      → back (some x) xs ≡ some t
      → Distinct (x ∷ xs)
      → Linked next prev p (x ∷ xs) q
      → Linked (update next t v) prev p (x ∷ xs) v
  Linked-last t x v p q [] e d h = (h.0, (ground arith, tt))
  Linked-last t x v p q (y ∷ xs) e d h = (
    h.0,
    (ground (arith, h.1.0, back-ne x t y xs e d.0), Linked-last t y v (some x) q xs e d.1 h.1.1),
  )

  -- the first node gets another one before it
  pub Linked-first :
      (y : ℕ) (v p q : Option ℕ) (ys : List ℕ)
      → NotIn y ys
      → Linked next prev p (y ∷ ys) q
      → Linked next (update prev y v) v (y ∷ ys) q
  Linked-first y v p q ys n h =
      (ground arith, (h.1.0, Linked-prev next prev y v (some y) q ys n h.1.1))

pub back-append : (p : Option ℕ) (xs ys : List ℕ) → back p (xs ++ ys) ≡ back (back p xs) ys
back-append p [] ys = refl
back-append p (x ∷ xs) ys = back-append (some x) xs ys

pub front-append : (xs ys : List ℕ) (q : Option ℕ) → front (xs ++ ys) q ≡ front xs (front ys q)
front-append [] ys q = refl
front-append (x ∷ xs) ys q = refl

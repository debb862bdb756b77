-- ===== src/HevList/Sequences.antt =====
-- misc/hev-list.c: any sequence of additions and removals.
use gen_net.Base.{
  ℕ, ◌≡◌, refl, sym, ap, subst, ◌⊎◌, inl, inr, false, some, List, [], ◌∷◌, ◌++◌, arith, ◌==◌,
  ==_iff, Bool-cases, length, if◌then◌else◌,
}
use gen_net.HevList.{HevList, empty, add_tail, list_del, nodes}
use gen_net.HevList.Linked.{NotIn}
use gen_net.HevList.Refines.{Represents, Represents-empty, add_tail-Represents}
use gen_net.HevList.Refines.Removal.{list_del-Represents, nodes-Represents}

pub data Change : Type 0 where
  adds : ℕ → Change
  dels : ℕ → Change

abbrev pub change : Change → HevList → HevList
change (adds n) l = add_tail n l
change (dels n) l = list_del n l

abbrev pub changes : List Change → HevList → HevList
changes [] l = l
changes (c ∷ cs) l = changes cs (change c l)

-- the specification: a list to which an item is added at its end, and from which one is removed
abbrev pub remove : ℕ → List ℕ → List ℕ
remove n [] = []
remove n (x ∷ xs) = if x == n then xs else x ∷ remove n xs

abbrev pub spec : Change → List ℕ → List ℕ
spec (adds n) xs = xs ++ n ∷ []
spec (dels n) xs = remove n xs

abbrev pub specs : List Change → List ℕ → List ℕ
specs [] xs = xs
specs (c ∷ cs) xs = specs cs (spec c xs)

abbrev pub IsIn : ℕ → List ℕ → Type 0
IsIn n [] = ⊥
IsIn n (x ∷ xs) = ((x ≡ n) ⊎ IsIn n xs)

-- a node is added only if it is not in the list, and removed only if it is
abbrev pub Allowed : List Change → List ℕ → Type 0
Allowed [] xs = Unit
Allowed (adds n ∷ cs) xs = NotIn n xs × Allowed cs (xs ++ n ∷ [])
Allowed (dels n ∷ cs) xs = IsIn n xs × Allowed cs (remove n xs)

-- where the item stands
abbrev pub Places : ℕ → List ℕ → Type 0
Places n xs = (ys : List ℕ) × (zs : List ℕ) × (xs ≡ ys ++ n ∷ zs) × (remove n xs ≡ ys ++ zs)

beyond : (n x : ℕ) (xs : List ℕ) → (x == n) ≡ false → (x ≡ n) ⊎ IsIn n xs → IsIn n xs
beyond n x xs e (inl p) = absurd (ground arith)
beyond n x xs e (inr h) = h

Places-cons : (n x : ℕ) (xs : List ℕ) → (x == n) ≡ false → Places n xs → Places n (x ∷ xs)
Places-cons n x xs e (ys, zs, p, q) = (x ∷ ys, zs, ap (λ r. x ∷ r) p, rw e (ap (λ r. x ∷ r) q))

pub IsIn-Places : (n : ℕ) (xs : List ℕ) → IsIn n xs → Places n xs
IsIn-Places n [] h = absurd h
IsIn-Places n (x ∷ xs) h = elim (Bool-cases (x == n)) [
  | inl e ↦ let e' : x ≡ n = (==_iff x n).0 e in ([], xs, ap (λ k. k ∷ xs) e', rw e refl)
  | inr e ↦ Places-cons n x xs e (IsIn-Places n xs (beyond n x xs e h))
]

pub changes-Represents :
    (cs : List Change) (l : HevList) (xs : List ℕ)
    → Represents l xs
    → Allowed cs xs
    → Represents (changes cs l) (specs cs xs)
changes-Represents [] l xs r a = r
changes-Represents (adds n ∷ cs) l xs r a =
    changes-Represents cs (add_tail n l) (xs ++ n ∷ []) (add_tail-Represents l n xs r a.0) a.1
changes-Represents (dels n ∷ cs) l xs r a =
    let (ys, zs, p, q) = IsIn-Places n xs a.0 in
    let r' = list_del-Represents l n ys zs (subst (Represents l) p r) in
    changes-Represents cs (list_del n l) (remove n xs)
      (subst (Represents (list_del n l)) (sym q) r') a.1

-- However nodes are added to an empty list and removed from it, its memory holds the list that the
-- specification gives, and the loop over the nodes visits exactly these, in order, and ends. A node is
-- added only if it is not in the list, and removed only if it is.
pub changes-Refine :
    (cs : List Change)
    → Allowed cs []
    → Represents (changes cs empty) (specs cs [])
      × (nodes (length (specs cs [])) (changes cs empty).head (changes cs empty)
          ≡ some (specs cs []))
changes-Refine cs a =
    let r = changes-Represents cs empty [] Represents-empty a in
    (r, nodes-Represents (changes cs empty) (specs cs []) (length (specs cs [])) r (omega arith))

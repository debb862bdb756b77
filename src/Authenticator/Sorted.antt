-- ===== src/Authenticator/Sorted.antt =====
-- The users in the order of the tree, which is by falling name, and looking one up in that list.
use Prim.Native.Nat.{Ordering}
use Prim.Native.Nat.Ordering.{lt, eq, gt}
use gen_net.Base.{
  ℕ, ◌≡◌, refl, Bool, true, false, Option, none, some, List, [], ◌∷◌, ◌++◌, arith, if◌then◌else◌,
}
use gen_net.User.{User}
use gen_net.Authenticator.{name_cmp}
use gen_net.Authenticator.Names.{lt_of_gt, gt_of_lt, lt_trans, gt_trans}

-- every user's name compares so with `name`
abbrev pub Each : Ordering → List ℕ → List User → Type 0
Each o name [] = Unit
Each o name (v ∷ us) = (name_cmp v.name name ≡ o) × Each o name us

-- Each name is greater than those behind it.
abbrev pub IsSorted : List User → Type 0
IsSorted [] = Unit
IsSorted (u ∷ us) = Each lt u.name us × IsSorted us

-- whether a user has the name
abbrev pub has_name : User → List ℕ → Bool
has_name u name = elim (name_cmp u.name name) [ eq ↦ true | _ ↦ false ]

unfoldable pub find : List ℕ → List User → Option User
find name [] = none
find name (u ∷ us) = if has_name u name then some u else find name us

pub Each-append :
    (o : Ordering) (name : List ℕ) (us vs : List User)
    → Each o name us
    → Each o name vs
    → Each o name (us ++ vs)
Each-append o name [] vs h k = k
Each-append o name (u ∷ us) vs h k = (h.0, Each-append o name us vs h.1 k)

pub Each-split :
    (o : Ordering) (name : List ℕ) (us vs : List User)
    → Each o name (us ++ vs)
    → Each o name us × Each o name vs
Each-split o name [] vs h = (tt, h)
Each-split o name (u ∷ us) vs h = let (a, b) = Each-split o name us vs h.1 in ((h.0, a), b)

pub Each-lt_trans :
    (a b : List ℕ) (us : List User) → name_cmp a b ≡ lt → Each lt a us → Each lt b us
Each-lt_trans a b [] h k = tt
Each-lt_trans a b (u ∷ us) h k = (lt_trans u.name a b k.0 h, Each-lt_trans a b us h k.1)

pub Each-gt_trans :
    (a b : List ℕ) (us : List User) → name_cmp a b ≡ gt → Each gt a us → Each gt b us
Each-gt_trans a b [] h k = tt
Each-gt_trans a b (u ∷ us) h k = (gt_trans u.name a b k.0 h, Each-gt_trans a b us h k.1)

pub find-lt : (name : List ℕ) (us : List User) → Each lt name us → find name us ≡ none
unfolding find
find-lt name [] h = refl
find-lt name (u ∷ us) h = ground (arith, find-lt name us)

pub find-gt : (name : List ℕ) (us : List User) → Each gt name us → find name us ≡ none
unfolding find
find-gt name [] h = refl
find-gt name (u ∷ us) h = ground (arith, find-gt name us)

-- what `find` gives in the first list, or else in the second
abbrev pub or_else : Option User → Option User → Option User
or_else none o = o
or_else (some u) o = some u

pub find-append :
    (name : List ℕ) (us vs : List User)
    → find name (us ++ vs) ≡ or_else (find name us) (find name vs)
unfolding find
find-append name [] vs = refl
find-append name (u ∷ us) vs = ground (arith, find-append name us vs)

-- The parts of a sorted list at one of its users.
pub record Around (us : List User) (u : User) (vs : List User) : Type 0 where
  pub front : IsSorted us
  pub back : IsSorted vs
  pub above : Each gt u.name us
  pub below : Each lt u.name vs

pub IsSorted-split :
    (us : List User) (u : User) (vs : List User) → IsSorted (us ++ (u ∷ vs)) → Around us u vs
IsSorted-split [] u vs h = record { front = tt; back = h.1; above = tt; below = h.0 }
IsSorted-split (w ∷ us) u vs h =
    let rest = IsSorted-split us u vs h.1 in
    let (mine, (under, _)) = Each-split lt w.name us (u ∷ vs) h.0 in
    record {
      front = (mine, rest.front);
      back = rest.back;
      above = (gt_of_lt u.name w.name under, rest.above);
      below = rest.below;
    }

pub IsSorted-insert :
    (us : List User) (u : User) (vs : List User)
    → IsSorted (us ++ vs)
    → Each gt u.name us
    → Each lt u.name vs
    → IsSorted (us ++ (u ∷ vs))
IsSorted-insert [] u vs h a b = (b, h)
IsSorted-insert (w ∷ us) u vs h a b =
    let (mine, under) = Each-split lt w.name us vs h.0 in
    (
      Each-append lt w.name us (u ∷ vs) mine (lt_of_gt w.name u.name a.0, under),
      IsSorted-insert us u vs h.1 a.1 b,
    )

pub IsSorted-remove :
    (us : List User) (u : User) (vs : List User) → IsSorted (us ++ (u ∷ vs)) → IsSorted (us ++ vs)
IsSorted-remove [] u vs h = h.1
IsSorted-remove (w ∷ us) u vs h =
    let (mine, under) = Each-split lt w.name us (u ∷ vs) h.0 in
    (Each-append lt w.name us vs mine under.1, IsSorted-remove us u vs h.1)

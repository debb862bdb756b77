-- ===== src/Authenticator/Search.antt =====
-- core/src/hev-socks5-authenticator.c: looking a user up in the tree and in the list.
use Prim.Native.Nat.{Ordering}
use Prim.Native.Nat.Ordering.{lt, eq, gt}
use gen_net.Base.{ℕ, ◌≡◌, refl, some, List, ◌∷◌, ◌++◌, arith, subst}
use gen_net.Rbtree.{Tree, leaf, node}
use gen_net.Rbtree.Order.{to_list}
use gen_net.User.{User}
use gen_net.Authenticator.{name_cmp, get}
use gen_net.Authenticator.Names.{eq_of_name_cmp}
use gen_net.Authenticator.Sorted.{
  Each, IsSorted, Each-lt_trans, Each-gt_trans, find, find-lt, find-gt, find-append, Around,
  IsSorted-split,
}

pub data Compared (a b : List ℕ) : Type 0 where
  less : name_cmp a b ≡ lt → Compared a b
  same : name_cmp a b ≡ eq → Compared a b
  more : name_cmp a b ≡ gt → Compared a b

pub compare_names : (a b : List ℕ) → Compared a b
compare_names a b = go (name_cmp a b) refl
  where
    go : (o : Ordering) → name_cmp a b ≡ o → Compared a b
    go lt e = less e
    go eq e = same e
    go gt e = more e

-- At a user of a sorted list the search can leave one side out.
pub find-Around :
    (name : List ℕ) (us : List User) (u : User) (vs : List User)
    → Around us u vs
    → find name (us ++ (u ∷ vs))
      ≡ (elim (name_cmp u.name name) [ lt ↦ find name us | gt ↦ find name vs | eq ↦ some u ])
unfolding find
find-Around name us u vs a = elim (compare_names u.name name) [
  | less e ↦
      let back = find-lt name vs (Each-lt_trans u.name name vs e a.below) in
      rw (find-append name us (u ∷ vs)) (ground (arith, back))
  | same e ↦
      let front =
        find-gt name us (subst (λ n. Each gt n us) (eq_of_name_cmp u.name name e) a.above) in
      rw (find-append name us (u ∷ vs), front) (ground arith)
  | more e ↦
      let front = find-gt name us (Each-gt_trans u.name name us e a.above) in
      rw (find-append name us (u ∷ vs), front) (ground arith)
]

-- `hev_socks5_authenticator_get` finds the user with the name, if there is one.
pub get-find :
    (t : Tree User) (name : List ℕ) → IsSorted (to_list t) → get t name ≡ find name (to_list t)
unfolding get
get-find leaf name h = unfold find in refl
get-find (node c l u r) name h =
    let a = IsSorted-split (to_list l) u (to_list r) h in
    rw (find-Around name (to_list l) u (to_list r) a)
      (ground (arith, get-find l name a.front, get-find r name a.back))

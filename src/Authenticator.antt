-- ===== src/Authenticator.antt =====
-- core/src/hev-socks5-authenticator.c: the users, in a red-black tree keyed by name.
pub mod Names
pub mod Sorted
pub mod Search
pub mod Changes
pub mod Laws
pub mod Clear
pub mod Depth
mod Examples
use Prim.Native.Nat.{Ordering}
use Prim.Native.Nat.Ordering.{lt, eq, gt}
use gen_net.Base.{
  ℕ, zero, suc, Bool, true, false, Option, none, some, List, [], ◌∷◌, ◌+◌, ltb, if◌then◌else◌,
  length, memcmp,
}
use gen_net.Rbtree.{Color, red, black, Tree, leaf, node, left_of, right_of, Parents, insert_color}
use gen_net.Rbtree.Erase.{first, erase}
use gen_net.User.{User}

-- The comparison of all three loops: of a node's name with the name that is looked for.
unfoldable pub name_cmp : List ℕ → List ℕ → Ordering
name_cmp this name =
    if ltb (length this) (length name)
    then lt
    else if ltb (length name) (length this)
    then gt
    else memcmp this name

-- `hev_socks5_authenticator_get`
unfoldable pub get : Tree User → List ℕ → Option User
get leaf name = none
get (node c l u r) name = elim (name_cmp u.name name) [
  | lt ↦ get l name
  | gt ↦ get r name
  | eq ↦ some u
]

-- The loop of `hev_socks5_authenticator_add`: the parents of the free place, or none where the name
-- is taken.
unfoldable pub descend : Tree User → Parents User → List ℕ → Option (Parents User)
descend leaf p name = some p
descend (node c l u r) p name = elim (name_cmp u.name name) [
  | lt ↦ descend l (left_of c u r ∷ p) name
  | gt ↦ descend r (right_of c l u ∷ p) name
  | eq ↦ none
]

-- The result of an operation that changes the tree: none is a null pointer that was read, and the
-- Boolean is whether the operation returns 0.
abbrev pub Outcome : Type 0
Outcome = Option (Bool × Tree User)

done : Option (Tree User) → Outcome
done none = none
done (some t) = some (true, t)

link : Tree User → User → Option (Parents User) → Outcome
unfolding done
link t u none = some (false, t)
link t u (some p) = done (insert_color (node red leaf u leaf) p)

-- `hev_socks5_authenticator_add`
unfoldable pub add : Tree User → User → Outcome
unfolding descend link
add t u = link t u (descend t [] u.name)

-- a node with its parents
abbrev pub Place : Type 0
Place = Color × Tree User × User × Tree User × Parents User

-- The loop of `hev_socks5_authenticator_del`.
unfoldable pub locate : Tree User → Parents User → List ℕ → Option Place
locate leaf p name = none
locate (node c l u r) p name = elim (name_cmp u.name name) [
  | lt ↦ locate l (left_of c u r ∷ p) name
  | gt ↦ locate r (right_of c l u ∷ p) name
  | eq ↦ some (c, l, u, r, p)
]

unlink : Tree User → Option Place → Outcome
unfolding done
unlink t none = some (false, t)
unlink t (some (c, l, u, r, p)) = done (erase c l u r p)

-- `hev_socks5_authenticator_del`
unfoldable pub del : Tree User → List ℕ → Outcome
unfolding locate unlink
del t name = unlink t (locate t [] name)

-- the loop's next round, behind `hev_rbtree_erase`: the user at hand is released first
released : User → Option (List User × Tree User) → Option (List User × Tree User)
released u none = none
released u (some (us, t)) = some (u ∷ us, t)

again :
    Option (Tree User)
    → (Tree User → Option (List User × Tree User))
    → Option (List User × Tree User)
again none loop = none
again (some t) loop = loop t

-- `hev_socks5_authenticator_clear`, with the users in the order in which they are released. It is
-- given a round for each user and one more.
clear_loop : ℕ → Tree User → Option (List User × Tree User)
unfolding released again
clear_loop zero t = none
clear_loop (suc k) leaf = some ([], leaf)
clear_loop (suc k) (node c l x r) =
    let (fc, u, child, p) = first c l x r [] in
    released u (again (erase fc leaf u child p) (λ t. clear_loop k t))

unfoldable pub size : Tree User → ℕ
size leaf = 0
size (node c l u r) = suc (size l) + size r

unfoldable pub clear : Tree User → Option (List User × Tree User)
unfolding clear_loop size
clear t = clear_loop (suc (size t)) t

-- ===== src/Proxy/Users.antt =====
-- hev-socks5-proxy.c: the users that a file leaves, and the references to their authenticator.
use Prim.Native.Nat.Ordering.{eq}
use gen_net.Base.{
  ℕ, ◌≡◌, refl, sym, ap, ◌∙◌, Bool, ◌&&◌, Option, none, some, List, [], ◌∷◌, arith, if◌then◌else◌,
}
use gen_net.Rbtree.{Tree, leaf}
use gen_net.User.{User}
use gen_net.Authenticator.{Outcome, get, add, name_cmp}
use gen_net.Authenticator.Names.{eq_of_name_cmp}
use gen_net.Authenticator.Sorted.{has_name, or_else}
use gen_net.Authenticator.Laws.{IsValid, Changes, is_none, add-Changes}
use gen_net.Proxy.{Memory, line_user, added, add_user, and_then, load_lines}

-- no null pointer was read, the tree is valid, and each name finds what `spec` says
abbrev pub Finds : Option (Tree User) → (List ℕ → Option User) → Type 0
Finds none spec = ⊥
Finds (some t) spec = IsValid t × ((name : List ℕ) → get t name ≡ spec name)

-- a user, where it has the name
abbrev pub if_named : Option User → List ℕ → Option User
if_named none name = none
if_named (some u) name = if has_name u name then some u else none

-- the user of the first line that gives one with the name
unfoldable pub first_of : List (Memory × List ℕ) → List ℕ → Option User
first_of [] name = none
first_of (l ∷ ls) name = or_else (if_named (line_user l) name) (first_of ls name)

leaf-IsValid : IsValid leaf
leaf-IsValid = record { sorted = tt; colors = record { height = 0; balanced = refl; root = refl } }

Finds-added :
    (o : Outcome) (b : Bool) (spec : List ℕ → Option User) → Changes o b spec → Finds (added o) spec
unfolding added
Finds-added none b spec c = c
Finds-added (some (b', t)) b spec (_, valid, finds) = (valid, finds)

Finds-same :
    (o : Option (Tree User)) (f g : List ℕ → Option User)
    → ((name : List ℕ) → f name ≡ g name)
    → Finds o f
    → Finds o g
Finds-same none f g e c = c
Finds-same (some t) f g e (valid, finds) = (valid, λ name. finds name ∙ e name)

-- what a user adds to what was found before
added_or_old :
    (t : Tree User) (u : User) (name : List ℕ)
    → (if is_none (get t u.name) && has_name u name then some u else get t name)
      ≡ or_else (get t name) (if_named (some u) name)
added_or_old t u name =
    let same : name_cmp u.name name ≡ eq → get t u.name ≡ get t name =
      λ e. ap (get t) (eq_of_name_cmp u.name name e) in
    ground (arith, same)

or_else-none : (o : Option User) → or_else o none ≡ o
or_else-none none = refl
or_else-none (some u) = refl

Finds-add :
    (t : Tree User)
    → IsValid t
    → (o : Option User) → Finds (add_user o t) (λ name. or_else (get t name) (if_named o name))
unfolding add_user
Finds-add t valid none = (valid, λ name. sym (or_else-none (get t name)))
Finds-add t valid (some u) =
    Finds-same (added (add t u)) _ _ (added_or_old t u)
      (Finds-added (add t u) _ _ (add-Changes t valid u))

Finds-then :
    (o : Option (Tree User)) (next : Tree User → Option (Tree User)) (f g : List ℕ → Option User)
    → Finds o f
    → ((t : Tree User) → Finds (some t) f → Finds (next t) g)
    → Finds (and_then o next) g
unfolding and_then
Finds-then none next f g c h = c
Finds-then (some t) next f g c h = h t c

or_else_assoc : (a b c : Option User) → or_else (or_else a b) c ≡ or_else a (or_else b c)
or_else_assoc none b c = refl
or_else_assoc (some u) b c = refl

load_lines-FindsMore :
    (ls : List (Memory × List ℕ)) (t : Tree User)
    → IsValid t
    → Finds (load_lines ls t) (λ name. or_else (get t name) (first_of ls name))
unfolding load_lines first_of
load_lines-FindsMore [] t valid = (valid, λ name. sym (or_else-none (get t name)))
load_lines-FindsMore (l ∷ ls) t valid =
    Finds-then (add_user (line_user l) t) (λ t'. load_lines ls t') _ _
      (Finds-add t valid (line_user l))
      (λ t' (valid', finds).
        Finds-same (load_lines ls t') _ _
          (λ name.
            ap (λ o. or_else o (first_of ls name)) (finds name)
            ∙ or_else_assoc (get t name) (if_named (line_user l) name) (first_of ls name))
          (load_lines-FindsMore ls t' valid'))

-- Reading a file of users reads no null pointer and leaves a valid tree, in which a name finds the
-- user of the first line that gives a user with that name, whichever allocations fail.
pub load_lines-Finds : (ls : List (Memory × List ℕ)) → Finds (load_lines ls leaf) (first_of ls)
unfolding get
load_lines-Finds ls = load_lines-FindsMore ls leaf leaf-IsValid

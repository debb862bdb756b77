-- ===== src/Authenticator/Laws.antt =====
-- core/src/hev-socks5-authenticator.c: the tree as a finite map from names to users.
use Prim.Native.Nat.Ordering.{lt, eq, gt}
use gen_net.Base.{
  ℕ, ◌≡◌, ◌⊎◌, inl, inr, refl, sym, ap, subst, ◌∙◌, Bool, true, false, ◌&&◌, Option, none, some,
  List, [], ◌∷◌, ◌++◌, append_assoc, append-nil, arith, if◌then◌else◌,
}
use gen_net.Rbtree.{Color, red, black, Tree, leaf, node, Parents, is_black, insert_color}
use gen_net.Rbtree.Order.{to_list, before, behind, around, to_list-plug, insert_color-plug}
use gen_net.Rbtree.Balance.{IsRedBlack, BlackParent, ReturnsBalanced, insert_color-IsRedBlack}
use gen_net.Rbtree.Erase.{erase}
use gen_net.Rbtree.Erase.Order.{Yields, Yields-erase}
use gen_net.Rbtree.Erase.Balance.{erase-IsRedBlack}
use gen_net.User.{User}
use gen_net.Authenticator.{
  name_cmp, get, descend, Place, locate, Outcome, done, link, add, unlink, del,
}
use gen_net.Authenticator.Names.{eq_of_name_cmp}
use gen_net.Authenticator.Sorted.{
  Each, IsSorted, has_name, find, find-append, find-lt, find-gt, IsSorted-split, IsSorted-insert,
  IsSorted-remove,
}
use gen_net.Authenticator.Search.{less, same, more, compare_names, get-find}
use gen_net.Authenticator.Changes.{Sound, Free, descend-Free, Taken, locate-Taken}

-- The tree of an authenticator: sorted by name, with the colours of a red-black tree.
pub record IsValid (t : Tree User) : Type 0 where
  pub sorted : IsSorted (to_list t)
  pub colors : IsRedBlack t

abbrev pub is_some : Option User → Bool
is_some none = false
is_some (some u) = true

abbrev pub is_none : Option User → Bool
is_none none = true
is_none (some u) = false

-- The operation reads no null pointer, returns `b`, leaves a valid tree, and changes what each name
-- finds from `get t` into `spec`.
abbrev pub Changes : Outcome → Bool → (List ℕ → Option User) → Type 0
Changes none b spec = ⊥
Changes (some (b', t')) b spec = (b' ≡ b) × IsValid t' × ((name : List ℕ) → get t' name ≡ spec name)

-- a tree that came back from rebalancing holds the items `us`
Changes-done :
    (o : Option (Tree User)) (us : List User) (spec : List ℕ → Option User)
    → ReturnsBalanced o
    → Yields o us
    → IsSorted us
    → ((name : List ℕ) → find name us ≡ spec name)
    → Changes (done o) true spec
unfolding done
Changes-done none us spec rb y s f = rb
Changes-done (some t) us spec rb y s f =
    let sorted : IsSorted (to_list t) = subst IsSorted (sym y) s in
    (
      refl,
      record { sorted = sorted; colors = rb },
      λ name. get-find t name sorted ∙ ap (find name) y ∙ f name,
    )

-- what a list with one more user, or one user less, holds
find-insert :
    (name : List ℕ) (us : List User) (u : User) (vs : List User)
    → Each gt u.name us
    → Each lt u.name vs
    → find name (us ++ (u ∷ vs)) ≡ (if has_name u name then some u else find name (us ++ vs))
unfolding find
find-insert name us u vs a b = elim (compare_names u.name name) [
  | same e ↦
      let n = eq_of_name_cmp u.name name e in
      rw (find-append name us (u ∷ vs), find-gt name us (subst (λ k. Each gt k us) n a))
        (ground arith)
  | less e ↦ rw (find-append name us (u ∷ vs), find-append name us vs) (ground arith)
  | more e ↦ rw (find-append name us (u ∷ vs), find-append name us vs) (ground arith)
]

find-remove :
    (name : List ℕ) (us : List User) (u : User) (vs : List User)
    → Each gt u.name us
    → Each lt u.name vs
    → find name (us ++ vs) ≡ (if has_name u name then none else find name (us ++ (u ∷ vs)))
unfolding find
find-remove name us u vs a b = elim (compare_names u.name name) [
  | same e ↦
      let n = eq_of_name_cmp u.name name e in
      rw
        (
          find-append name us vs,
          find-gt name us (subst (λ k. Each gt k us) n a),
          find-lt name vs (subst (λ k. Each lt k vs) n b),
        )
        (ground arith)
  | less e ↦ rw (find-append name us (u ∷ vs), find-append name us vs) (ground arith)
  | more e ↦ rw (find-append name us (u ∷ vs), find-append name us vs) (ground arith)
]

Yields-of :
    (o : Option (Tree User)) (us : List User)
    → ((t : Tree User) → o ≡ some t → to_list t ≡ us)
    → Yields o us
Yields-of none us h = tt
Yields-of (some t) us h = h t refl

pub color_top :
    (c : Color) (l : Tree User) (u : User) (r : Tree User) (q : Parents User)
    → (is_black (node c l u r) ≡ true) ⊎ BlackParent q
    → (c ≡ black) ⊎ BlackParent q
color_top red l u r q (inl e) = absurd (cc)
color_top red l u r q (inr h) = inr h
color_top black l u r q h = inl refl

module _ (t : Tree User) (valid : IsValid t) where
  find-here : (us : List User) (name : List ℕ) → to_list t ≡ us → find name us ≡ get t name
  find-here us name e = sym (get-find t name valid.sorted ∙ ap (find name) e)

  link-Changes :
      (u : User) (o : Option (Parents User))
      → Free u.name (to_list t) (get t u.name) o
      → Changes
          (link t u o)
          (is_none (get t u.name))
          (λ name. if is_none (get t u.name) && has_name u name then some u else get t name)
  unfolding link
  link-Changes u none (v, e) = rw e (refl, valid, λ name. refl)
  link-Changes u (some q) (e, us, b, s) = rw e (
      Changes-done (insert_color (node red leaf u leaf) q) (around q (u ∷ []))
        (λ name. if has_name u name then some u else get t name)
        (insert_color-IsRedBlack (node red leaf u leaf) q s.height
          (refl, (refl, refl, s.balanced, s.balanced)) s.fits)
        (Yields-of _ (around q (u ∷ [])) (λ t' h.
          insert_color-plug (node red leaf u leaf) t' q h ∙ to_list-plug (node red leaf u leaf) q))
        (IsSorted-insert (before q) u (behind q) (subst IsSorted us valid.sorted) b.above b.below)
        (λ name.
          find-insert name (before q) u (behind q) b.above b.below
          ∙ ap (λ k. if has_name u name then some u else k) (find-here (around q []) name us)))

  unlink-Changes :
      (gone : List ℕ) (o : Option Place)
      → Taken gone (to_list t) (get t gone) o
      → Changes
          (unlink t o)
          (is_some (get t gone))
          (λ name. elim (name_cmp gone name) [ eq ↦ none | _ ↦ get t name ])
  unfolding unlink
  unlink-Changes gone none e = (rw e, valid, λ name. ground (arith, eq_of_name_cmp gone name))
  unlink-Changes gone (some (c, l, u, r, q)) (e, n, us, s) =
      let front = before q ++ to_list l in
      let back = to_list r ++ behind q in
      let here : to_list t ≡ front ++ (u ∷ back) = us ∙ simp append_assoc in
      let left : around q (to_list l ++ to_list r) ≡ front ++ back = simp append_assoc in
      let sorted = subst IsSorted here valid.sorted in
      let a = IsSorted-split front u back sorted in
      rw e (
        Changes-done (erase c l u r q) (around q (to_list l ++ to_list r))
          (λ name. elim (name_cmp gone name) [ eq ↦ none | _ ↦ get t name ])
          (erase-IsRedBlack c l u r q s.height s.balanced s.fits (color_top c l u r q s.top))
          (Yields-erase c l u r q) (subst IsSorted (sym left) (IsSorted-remove front u back sorted))
          (λ name.
            ap (find name) left
            ∙ find-remove name front u back a.above a.below
            ∙ ground
                (arith, eq_of_name_cmp u.name gone n, find-here (front ++ (u ∷ back)) name here)))

  nil_around : around [] (to_list t) ≡ to_list t
  nil_around = append-nil (to_list t)

  root : Sound t []
  root = record {
    height = valid.colors.height;
    balanced = valid.colors.balanced;
    fits = tt;
    top = inl valid.colors.root;
  }

  -- Adding a user succeeds exactly when the name is free. Then the name finds the user, and every
  -- other name what it found before; else nothing changes. The tree stays valid.
  pub add-Changes :
      (u : User)
      → Changes
          (add t u)
          (is_none (get t u.name))
          (λ name. if is_none (get t u.name) && has_name u name then some u else get t name)
  unfolding add
  add-Changes u = link-Changes u (descend t [] u.name) (
      subst (λ us. Free u.name us (get t u.name) (descend t [] u.name)) nil_around
        (descend-Free t [] u.name valid.sorted (record { above = tt; below = tt }) root))

  -- Removing a name succeeds exactly when it is taken. Then it finds nothing, and every other name
  -- what it found before; else nothing changes. The tree stays valid.
  pub del-Changes :
      (gone : List ℕ)
      → Changes
          (del t gone)
          (is_some (get t gone))
          (λ name. elim (name_cmp gone name) [ eq ↦ none | _ ↦ get t name ])
  unfolding del
  del-Changes gone = unlink-Changes gone (locate t [] gone) (
      subst (λ us. Taken gone us (get t gone) (locate t [] gone)) nil_around
        (locate-Taken t [] gone valid.sorted root))

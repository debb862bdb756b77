-- ===== src/Authenticator/Clear.antt =====
-- core/src/hev-socks5-authenticator.c: what `clear` releases.
use gen_net.Base.{
  ℕ, zero, suc, ◌<◌, ◌≡◌, inl, refl, sym, ap, subst, ◌∙◌, Option, none, some, List, [], ◌∷◌, ◌++◌,
  append-nil, arith, length, length-append,
}
use gen_net.Rbtree.{Color, Tree, leaf, node, left_of, Parents}
use gen_net.Rbtree.Order.{to_list, behind, around}
use gen_net.Rbtree.Balance.{ReturnsBalanced}
use gen_net.Rbtree.Erase.{first, erase}
use gen_net.Rbtree.Erase.Order.{Yields, Yields-erase, first-splits}
use gen_net.Rbtree.Erase.Balance.{erase-IsRedBlack}
use gen_net.User.{User}
use gen_net.Authenticator.{again, released, clear_loop, size, clear}
use gen_net.Authenticator.Sorted.{IsSorted}
use gen_net.Authenticator.Changes.{Sound, go_left}
use gen_net.Authenticator.Laws.{IsValid, color_top}

first-Sound :
    (c : Color) (l : Tree User) (x : User) (r : Tree User) (p : Parents User)
    → Sound (node c l x r) p
    → let (fc, u, child, q) = first c l x r p in Sound (node fc leaf u child) q
unfolding first
first-Sound c leaf x r p s = s
first-Sound c (node lc ll lx lr) x r p s =
    first-Sound lc ll lx lr (left_of c x r ∷ p) (go_left c (node lc ll lx lr) x r p s)

size-to_list : (t : Tree User) → size t ≡ length (to_list t)
unfolding size
size-to_list leaf = refl
size-to_list (node c l u r) =
    omega (arith, size-to_list l, size-to_list r, length-append (to_list l) (u ∷ to_list r))

-- The first user goes, and the tree that is left holds the others.
again_lem :
    (o : Option (Tree User)) (u : User) (us : List User) (k : ℕ)
    → ReturnsBalanced o
    → Yields o us
    → IsSorted us
    → ((t : Tree User) → IsValid t → to_list t ≡ us → clear_loop k t ≡ some (us, leaf))
    → released u (again o (λ t. clear_loop k t)) ≡ some (u ∷ us, leaf)
unfolding released again
again_lem none u us k rb y s loop = absurd rb
again_lem (some t) u us k rb y s loop =
    rw (loop t (record { sorted = subst IsSorted (sym y) s; colors = rb }) y)

clear_loop_lem :
    (k : ℕ) (t : Tree User)
    → IsValid t
    → length (to_list t) < k
    → clear_loop k t ≡ some (to_list t, leaf)
unfolding clear_loop
clear_loop_lem zero t v fuel = absurd (omega arith)
clear_loop_lem (suc k) leaf v fuel = refl
clear_loop_lem (suc k) (node c l x r) v fuel =
    let found = first c l x r [] in
    let u = found.1 in
    let child = found.2 in
    let p = found.3 in
    let (same, split) = first-splits c l x r [] in
    let rest : List User = to_list child ++ behind p in
    let all : to_list (node c l x r) ≡ u ∷ rest = sym (append-nil _) ∙ split in
    let s = first-Sound c l x r [] (record {
      height = v.colors.height;
      balanced = v.colors.balanced;
      fits = tt;
      top = inl v.colors.root;
    }) in
    let left : around p (to_list child) ≡ rest = ap (λ b. b ++ rest) same in
    let yields : Yields (erase found.0 leaf u child p) rest =
      subst (Yields (erase found.0 leaf u child p)) left (Yields-erase found.0 leaf u child p) in
    rw all (
      again_lem (erase found.0 leaf u child p) u rest k
        (erase-IsRedBlack found.0 leaf u child p s.height s.balanced s.fits
          (color_top found.0 leaf u child p s.top))
        yields (subst IsSorted all v.sorted).1
        (λ t' v' e.
          clear_loop_lem k t' v' (rw e (omega (arith, ap length all)))
          ∙ ap (λ us. some (us, leaf)) e))

-- Clearing a valid tree reads no null pointer, releases every user once, in order, and leaves the
-- empty tree.
pub clear_lem : (t : Tree User) → IsValid t → clear t ≡ some (to_list t, leaf)
unfolding clear
clear_lem t v = clear_loop_lem (suc (size t)) t v (omega (arith, size-to_list t))

-- ===== src/Authenticator/Depth.antt =====
-- core/src/hev-rbtree.c and hev-socks5-authenticator.c: how long a search takes.
use Prim.Native.Nat.Ordering.{lt, eq, gt}
use native.Mathlib.Nat.{pow-suc}
use gen_net.Base.{ℕ, zero, suc, ◌+◌, ◌*◌, ◌^◌, ◌≤◌, ◌≡◌, true, arith, List}
use gen_net.Rbtree.{Tree, red, black, leaf, node, is_black}
use gen_net.Rbtree.Balance.{Balanced}
use gen_net.User.{User}
use gen_net.Authenticator.{size, name_cmp}
use gen_net.Authenticator.Laws.{IsValid}

-- the comparisons that a search makes
unfoldable pub comparisons : Tree User → List ℕ → ℕ
comparisons leaf name = 0
comparisons (node c l u r) name =
    suc (elim (name_cmp u.name name) [ lt ↦ comparisons l name | gt ↦ comparisons r name | eq ↦ 0 ])

size-Balanced : (t : Tree User) (h : ℕ) → Balanced t h → 2 ^ h ≤ size t + 1
unfolding size
size-Balanced leaf h b = let z : h ≡ 0 = b in rw z (omega arith)
size-Balanced (node red l u r) h b = omega (arith, size-Balanced l h b.2, size-Balanced r h b.3)
size-Balanced (node black l u r) zero b = absurd b
size-Balanced (node black l u r) (suc h) b =
    omega (arith, pow-suc 2 h, size-Balanced l h b.0, size-Balanced r h b.1)

comparisons-le :
    (t : Tree User) (h : ℕ) (name : List ℕ)
    → Balanced t h
    → (comparisons t name ≤ 2 * h + 1) × (is_black t ≡ true → comparisons t name ≤ 2 * h)
unfolding comparisons
comparisons-le leaf h name b = omega arith
comparisons-le (node red l u r) h name b =
    ground (arith, (comparisons-le l h name b.2).1 b.0, (comparisons-le r h name b.3).1 b.1)
comparisons-le (node black l u r) zero name b = absurd b
comparisons-le (node black l u r) (suc h) name b =
    ground (arith, (comparisons-le l h name b.0).0, (comparisons-le r h name b.1).0)

-- A search among `n` users makes at most `2 * h` comparisons for an `h` with `2 ^ h ≤ n + 1`.
pub comparisons-log :
    (t : Tree User) (name : List ℕ)
    → IsValid t
    → (h : ℕ) × (2 ^ h ≤ size t + 1) × (comparisons t name ≤ 2 * h)
comparisons-log t name v = (
  v.colors.height,
  size-Balanced t v.colors.height v.colors.balanced,
  (comparisons-le t v.colors.height name v.colors.balanced).1 v.colors.root,
)

-- ===== src/Authenticator/Names.antt =====
-- core/src/hev-socks5-authenticator.c: the comparison of names as an order.
use Prim.Native.Nat.Ordering.{lt, eq, gt}
use gen_net.Base.{
  ℕ, ◌≡◌, List, arith, memcmp_refl, eq_of_memcmp, memcmp-lt_of_gt, memcmp-gt_of_lt, memcmp-lt_trans,
}
use gen_net.Authenticator.{name_cmp}

pub name_cmp_refl : (a : List ℕ) → name_cmp a a ≡ eq
unfolding name_cmp
name_cmp_refl a = ground (arith, memcmp_refl a)

pub eq_of_name_cmp : (a b : List ℕ) → name_cmp a b ≡ eq → a ≡ b
unfolding name_cmp
eq_of_name_cmp a b h = ground (arith, eq_of_memcmp a b)

pub lt_of_gt : (a b : List ℕ) → name_cmp a b ≡ gt → name_cmp b a ≡ lt
unfolding name_cmp
lt_of_gt a b h = ground (arith, memcmp-lt_of_gt a b)

pub gt_of_lt : (a b : List ℕ) → name_cmp a b ≡ lt → name_cmp b a ≡ gt
unfolding name_cmp
gt_of_lt a b h = ground (arith, memcmp-gt_of_lt a b)

pub lt_trans : (a b c : List ℕ) → name_cmp a b ≡ lt → name_cmp b c ≡ lt → name_cmp a c ≡ lt
unfolding name_cmp
lt_trans a b c h k = ground (arith, memcmp-lt_trans a b c)

pub gt_trans : (a b c : List ℕ) → name_cmp a b ≡ gt → name_cmp b c ≡ gt → name_cmp a c ≡ gt
gt_trans a b c h k = gt_of_lt c a (lt_trans c b a (lt_of_gt b c k) (lt_of_gt a b h))

-- ===== src/Base/Bytes.antt =====
-- Memory as lists of bytes: `memcmp`, and the network byte order of 16-bit values.
use Prim.Native.Nat.{ℕ, ◌+◌, ◌*◌, ◌/◌, ◌%◌, ◌<◌, compare, Ordering}
use Prim.Native.Nat.Ordering.{lt, eq, gt}
use mathlib.Core.Path.{◌≡◌, refl}
use mathlib.Core.List.{List, [], ◌∷◌}
use native.Mathlib.Omega.{arith}
use gen_net.Base.Lists.{length, get_or}

-- The sign of `memcmp (a, b, n)` for two blocks of the same length.
unfoldable pub memcmp : List ℕ → List ℕ → Ordering
memcmp [] ys = eq
memcmp (x ∷ xs) [] = eq
memcmp (x ∷ xs) (y ∷ ys) = elim (compare x y) [ lt ↦ lt | gt ↦ gt | eq ↦ memcmp xs ys ]

-- Every value is a byte.
abbrev pub AreBytes : List ℕ → Type 0
AreBytes [] = Unit
AreBytes (x ∷ xs) = (x < 256) × AreBytes xs

-- The two bytes that `htons` leaves in memory.
unfoldable pub htons : ℕ → List ℕ
htons n = n / 256 % 256 ∷ n % 256 ∷ []

unfoldable pub ntohs : List ℕ → ℕ
ntohs bs = get_or bs 0 0 * 256 + get_or bs 1 0

pub length-htons : (n : ℕ) → length (htons n) ≡ 2
unfolding htons
length-htons n = refl

pub ntohs-htons : (n : ℕ) → n < 65536 → ntohs (htons n) ≡ n
unfolding ntohs htons
ntohs-htons n h = omega arith

pub htons-ntohs : (a b : ℕ) → a < 256 → b < 256 → htons (ntohs (a ∷ b ∷ [])) ≡ a ∷ b ∷ []
unfolding ntohs htons
htons-ntohs a b ha hb = ground arith

module _ where
  pub memcmp_refl : (xs : List ℕ) → memcmp xs xs ≡ eq
  unfolding memcmp
  memcmp_refl [] = refl
  memcmp_refl (x ∷ xs) = ground (arith, memcmp_refl xs)

  pub eq_of_memcmp : (xs ys : List ℕ) → length xs ≡ length ys → memcmp xs ys ≡ eq → xs ≡ ys
  unfolding memcmp
  eq_of_memcmp [] [] l h = refl
  eq_of_memcmp [] (y ∷ ys) l h = absurd (omega arith)
  eq_of_memcmp (x ∷ xs) [] l h = absurd (omega arith)
  eq_of_memcmp (x ∷ xs) (y ∷ ys) l h = ground (arith, eq_of_memcmp xs ys)

  pub memcmp-lt_of_gt : (xs ys : List ℕ) → memcmp xs ys ≡ gt → memcmp ys xs ≡ lt
  unfolding memcmp
  memcmp-lt_of_gt [] ys h = cc
  memcmp-lt_of_gt (x ∷ xs) [] h = cc
  memcmp-lt_of_gt (x ∷ xs) (y ∷ ys) h = ground (arith, memcmp-lt_of_gt xs ys)

  pub memcmp-gt_of_lt : (xs ys : List ℕ) → memcmp xs ys ≡ lt → memcmp ys xs ≡ gt
  unfolding memcmp
  memcmp-gt_of_lt [] ys h = cc
  memcmp-gt_of_lt (x ∷ xs) [] h = cc
  memcmp-gt_of_lt (x ∷ xs) (y ∷ ys) h = ground (arith, memcmp-gt_of_lt xs ys)

  pub memcmp-lt_trans :
      (xs ys zs : List ℕ)
      → length xs ≡ length ys
      → length ys ≡ length zs
      → memcmp xs ys ≡ lt
      → memcmp ys zs ≡ lt
      → memcmp xs zs ≡ lt
  unfolding memcmp
  memcmp-lt_trans [] ys zs l m h k = cc
  memcmp-lt_trans (x ∷ xs) [] zs l m h k = cc
  memcmp-lt_trans (x ∷ xs) (y ∷ ys) [] l m h k = cc
  memcmp-lt_trans (x ∷ xs) (y ∷ ys) (z ∷ zs) l m h k = ground (arith, memcmp-lt_trans xs ys zs)

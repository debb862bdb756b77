-- ===== src/User.antt =====
-- core/src/hev-socks5-user.c and hev-socks5-user-mark.c: a user with a password, and the socket mark
-- of the server's own subclass. The names and passwords are blocks of bytes with their lengths.
use Prim.Native.Nat.Ordering.{eq}
use gen_net.Base.{
  ℕ, ◌≡◌, ◌↔◌, Bool, true, false, Option, none, some, List, arith, ◌==◌, if◌then◌else◌, length,
  memcmp, memcmp_refl, eq_of_memcmp,
}

-- `HevSocks5UserMark`, which begins with a `HevSocks5User`
pub record User : Type 0 where
  pub name : List ℕ
  pub pass : List ℕ
  pub mark : ℕ

-- `hev_socks5_user_construct` and `hev_socks5_user_mark_construct`: whether the two calls of
-- `malloc` succeed is an argument.
unfoldable pub user_construct : Bool → Bool → List ℕ → List ℕ → ℕ → Option User
user_construct true true name pass mark = some (record { name = name; pass = pass; mark = mark })
user_construct _ _ name pass mark = none

-- `hev_socks5_user_mark_new`: so is that of `calloc`.
unfoldable pub user_mark_new : Bool → Bool → Bool → List ℕ → List ℕ → ℕ → Option User
unfolding user_construct
user_mark_new true m n name pass mark = user_construct m n name pass mark
user_mark_new false m n name pass mark = none

-- `hev_socks5_user_check` by `hev_socks5_user_checker`: `true` is the result 0
unfoldable pub user_check : User → List ℕ → Bool
user_check u pass =
    if length u.pass == length pass
    then (elim (memcmp u.pass pass) [ eq ↦ true | _ ↦ false ])
    else false

-- A password is accepted exactly when it is the user's.
pub user_check_iff : (u : User) (pass : List ℕ) → (user_check u pass ≡ true) ↔ (u.pass ≡ pass)
unfolding user_check
user_check_iff u pass =
    (ground (arith, eq_of_memcmp u.pass pass), λ e. rw (← e) (ground (arith, memcmp_refl u.pass)))

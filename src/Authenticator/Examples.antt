-- ===== src/Authenticator/Examples.antt =====
-- core/src/hev-socks5-authenticator.c at three users.
use Prim.Native.Nat.Ordering.{eq}
use gen_net.Base.{
  ℕ, ◌+◌, ◌*◌, ◌^◌, ◌≤◌, ◌≡◌, refl, ◌&&◌, none, some, [], ◌∷◌, if◌then◌else◌, memcmp,
}
use gen_net.Rbtree.{Tree, red, black, leaf, node}
use gen_net.Rbtree.Order.{to_list}
use gen_net.User.{User}
use gen_net.Authenticator.{name_cmp, get, add, del, clear, size}
use gen_net.Authenticator.Sorted.{has_name, find}
use gen_net.Authenticator.Search.{get-find}
use gen_net.Authenticator.Laws.{IsValid, Changes, is_none, is_some, add-Changes, del-Changes}
use gen_net.Authenticator.Clear.{clear_lem}
use gen_net.Authenticator.Depth.{comparisons, comparisons-log}

abbrev someone : ℕ → User
someone n = record { name = n ∷ []; pass = 1 ∷ 2 ∷ []; mark = n }

-- a name that is longer than the others
abbrev newcomer : User
newcomer = record { name = 97 ∷ 98 ∷ []; pass = 3 ∷ []; mark = 0 }

abbrev three : Tree User
three = node black (node red leaf (someone 99) leaf) (someone 98) (node red leaf (someone 97) leaf)

three-IsValid : IsValid three
unfolding name_cmp memcmp
three-IsValid = record {
  sorted = ((refl, (refl, tt)), ((refl, tt), (tt, tt)));
  colors = record {
    height = 1;
    balanced = ((refl, refl, refl, refl), (refl, refl, refl, refl));
    root = refl;
  };
}

get-find_example : get three (97 ∷ []) ≡ find (97 ∷ []) (to_list three)
get-find_example = get-find three (97 ∷ []) three-IsValid.sorted

add-Changes_example : Changes (add three newcomer) (is_none (get three newcomer.name)) (λ name.
    if is_none (get three newcomer.name) && has_name newcomer name
    then some newcomer
    else get three name)
add-Changes_example = add-Changes three three-IsValid newcomer

del-Changes_example :
    Changes
      (del three (98 ∷ []))
      (is_some (get three (98 ∷ [])))
      (λ name. elim (name_cmp (98 ∷ []) name) [ eq ↦ none | _ ↦ get three name ])
del-Changes_example = del-Changes three three-IsValid (98 ∷ [])

clear_example : clear three ≡ some (someone 99 ∷ someone 98 ∷ someone 97 ∷ [], leaf)
clear_example = clear_lem three three-IsValid

comparisons-log_example : (h : ℕ) × (2 ^ h ≤ size three + 1) × (comparisons three (97 ∷ []) ≤ 2 * h)
comparisons-log_example = comparisons-log three (97 ∷ []) three-IsValid

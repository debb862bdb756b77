-- ===== src/Net/Runs.antt =====
-- What a function of the program does from one state.
use gen_net.Base.{◌≡◌, some}
use gen_net.Net.{State, M, ◌>>=◌}

module _ {S A B : Type 0} where
  -- the first of two functions, where it succeeds
  pub >>=-at :
      (m : M S A) (f : A → M S B) {a : A} {s t : State S} → m s ≡ (some a, t) → (m >>= f) s ≡ f a t
  unfolding ◌>>=◌
  >>=-at m f e = rw e

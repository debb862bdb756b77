-- ===== src/Net/Steps.antt =====
-- One rule for each way to build a function of the program, for a relation between the state before
-- and the state after.
use gen_net.Base.{Bool, true, false, Option, none, some, if◌then◌else◌}
use gen_net.Net.{Log, State, M, pure, fail, attempt, get_self, look, continue, ◌>>=◌}

-- a reflexive and transitive relation
pub record IsPreorder {S : Type 0} (R : State S → State S → Type 0) : Type 0 where
  pub stay : (s : State S) → R s s
  pub trans : (s t u : State S) → R s t → R t u → R s u

-- From every state, whatever it returns, `m` makes a step of `R`.
pub record Steps {S A : Type 0} (R : State S → State S → Type 0) (m : M S A) : Type 0 where
  pub at : (s : State S) → R s (m s).1

module _ {S : Type 0} {R : State S → State S → Type 0} (po : IsPreorder R) where
  pub Steps-pure : {A : Type 0} (a : A) → Steps R (pure {S = S} a)
  unfolding pure
  Steps-pure a = record { at = po.stay }

  pub Steps-fail : {A : Type 0} → Steps R (fail {S = S} {A = A})
  unfolding fail
  Steps-fail = record { at = po.stay }

  pub Steps-get_self : Steps R (get_self {S = S})
  unfolding get_self
  Steps-get_self = record { at = po.stay }

  pub Steps-look : {A : Type 0} (ask : Log → A) → Steps R (look {S = S} ask)
  unfolding look
  Steps-look ask = record { at = po.stay }

  pub Steps-attempt : {A : Type 0} {m : M S A} → Steps R m → Steps R (attempt m)
  unfolding attempt
  Steps-attempt h = record { at = λ s. h.at s }

  pub Steps-if :
      {A : Type 0} (b : Bool) {m n : M S A} → Steps R m → Steps R n → Steps R (if b then m else n)
  Steps-if true h k = h
  Steps-if false h k = k

  pub Steps-continue :
      {A B : Type 0} (r : Option A) (f : A → M S B)
      → ((a : A) → Steps R (f a))
      → Steps R (continue r f)
  Steps-continue none f h = record { at = po.stay }
  Steps-continue (some a) f h = h a

  pub Steps-bind :
      {A B : Type 0} {m : M S A} {f : A → M S B}
      → Steps R m
      → ((a : A) → Steps R (f a))
      → Steps R (m >>= f)
  unfolding ◌>>=◌
  Steps-bind {m = m} {f = f} h k = record {
    at = λ s. let (r, s') = m s in po.trans s s' _ (h.at s) ((Steps-continue r f k).at s');
  }

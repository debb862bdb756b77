-- ===== src/Net/Triples.antt =====
-- What holds after a function of the program, by whether it fails.
use gen_net.Base.{◌≡◌, ◌⊎◌, refl, Bool, true, false, Option, none, some, [], ◌∷◌, if◌then◌else◌}
use gen_net.Net.{Event, Log, State, M, pure, fail, attempt, get_self, continue, ◌>>=◌}
use gen_net.Net.Steps.{Steps}

-- the event is in the log
abbrev pub Has : Event → Log → Type 0
Has e [] = ⊥
Has e (x ∷ log) = (x ≡ e) ⊎ Has e log

module _ {S : Type 0} where
  -- `Q` of the result and the state, or `N` of the state after a failure
  abbrev pub Ends :
      {A : Type 0} → (A → State S → Type 0) → (State S → Type 0) → Option A × State S → Type 0
  Ends Q N (none, s) = N s
  Ends Q N (some a, s) = Q a s

  pub record Triple {A : Type 0} (P : State S → Type 0) (m : M S A) (Q : A → State S → Type 0)
      (N : State S → Type 0) : Type 0 where
    pub at : (s : State S) → P s → Ends Q N (m s)

module _ {S : Type 0} {N : State S → Type 0} where
  Triple-continue :
      {A B : Type 0} (r : Option A) (s : State S) (f : A → M S B) (Q : A → State S → Type 0)
      (Q' : B → State S → Type 0)
      → Ends Q N (r, s)
      → ((a : A) → Triple (Q a) (f a) Q' N)
      → Ends Q' N (continue r f s)
  Triple-continue none s f Q Q' h k = h
  Triple-continue (some a) s f Q Q' h k = (k a).at s h

  pub Triple-bind :
      {A B : Type 0} {m : M S A} {f : A → M S B} {P : State S → Type 0} (Q : A → State S → Type 0)
      {Q' : B → State S → Type 0}
      → Triple P m Q N
      → ((a : A) → Triple (Q a) (f a) Q' N)
      → Triple P (m >>= f) Q' N
  unfolding ◌>>=◌
  Triple-bind {m = m} {f = f} Q {Q' = Q'} h k = record {
    at = λ s p. let (r, s') = m s in Triple-continue r s' f Q Q' (h.at s p) k;
  }

  pub Triple-if :
      {A : Type 0} (b : Bool) {m n : M S A} {P : State S → Type 0} {Q : A → State S → Type 0}
      → (b ≡ true → Triple P m Q N)
      → (b ≡ false → Triple P n Q N)
      → Triple P (if b then m else n) Q N
  Triple-if true h k = h refl
  Triple-if false h k = k refl

  pub Triple-get_self :
      {P : State S → Type 0} → Triple P get_self (λ self s. P s × (s.self ≡ self)) N
  unfolding get_self
  Triple-get_self = record { at = λ s p. (p, refl) }

  pub Triple-pure :
      {A : Type 0} (a : A) {P : State S → Type 0} {Q : A → State S → Type 0}
      → ((s : State S) → P s → Q a s)
      → Triple P (pure a) Q N
  unfolding pure
  Triple-pure a h = record { at = h }

  pub Triple-fail :
      {A : Type 0} {P : State S → Type 0} {Q : A → State S → Type 0}
      → ((s : State S) → P s → N s)
      → Triple P fail Q N
  unfolding fail
  Triple-fail h = record { at = h }

  pub Triple-attempt :
      {A : Type 0} {m : M S A} {P : State S → Type 0} {Q : A → State S → Type 0}
      {F : State S → Type 0}
      → Triple P m Q F
      → Triple P (attempt m) (λ r s. Ends Q F (r, s)) N
  unfolding attempt
  Triple-attempt h = record { at = λ s p. h.at s p }

  pub Triple-weaken :
      {A : Type 0} {m : M S A} {P P' : State S → Type 0} {Q : A → State S → Type 0}
      → ((s : State S) → P s → P' s)
      → Triple P' m Q N
      → Triple P m Q N
  Triple-weaken h k = record { at = λ s p. k.at s (h s p) }

  -- a property that every step keeps
  pub Triple-keeps :
      {A : Type 0} (m : M S A) (P : State S → Type 0) {R : State S → State S → Type 0}
      → Steps R m
      → ((s t : State S) → R s t → P s → P t)
      → ((s : State S) → P s → N s)
      → Triple P m (λ _ s. P s) N
  Triple-keeps m P steps keep f = record {
    at = λ s p. let (r, s') = m s in split r s' (keep s s' (steps.at s) p);
  }
    where
      split : {A : Type 0} (r : Option A) (s : State S) → P s → Ends (λ (_ : A) t. P t) N (r, s)
      split none s p = f s p
      split (some a) s p = p

  -- a fact that does not depend on the state
  pub Triple-given :
      {A : Type 0} {m : M S A} {P : State S → Type 0} {Q : A → State S → Type 0} {X : Type 0}
      → (X → Triple P m Q N)
      → Triple (λ s. P s × X) m Q N
  Triple-given h = record { at = λ s p. (h p.1).at s p.0 }

module _ {S A : Type 0} {Q Q' : A → State S → Type 0} {N N' : State S → Type 0} where
  Ends-map :
      (r : Option A) (s : State S)
      → ((a : A) (u : State S) → Q a u → Q' a u)
      → ((u : State S) → N u → N' u)
      → Ends Q N (r, s)
      → Ends Q' N' (r, s)
  Ends-map none s f g e = g s e
  Ends-map (some a) s f g e = f a s e

  pub Triple-map :
      {m : M S A} {P : State S → Type 0}
      → ((a : A) (u : State S) → Q a u → Q' a u)
      → ((u : State S) → N u → N' u)
      → Triple P m Q N
      → Triple P m Q' N'
  Triple-map {m = m} f g h = record {
    at = λ s p. let (r, s') = m s in Ends-map r s' f g (h.at s p);
  }

module _ {S A : Type 0} where
  -- the same holds after a failure
  pub Ends-both :
      (N : State S → Type 0) (r : Option A) (s : State S) → Ends (λ _ u. N u) N (r, s) → N s
  Ends-both N none s e = e
  Ends-both N (some a) s e = e

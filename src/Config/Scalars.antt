-- ===== src/Config/Scalars.antt =====
-- hev-config.c: the pairs of a section, and the values that all of them read.
use gen_net.Base.{ℕ, ◌%◌, ◌^◌, Bool, List, [], ◌∷◌}
use gen_net.Config.{scalar, Pairs, no_pairs, pair, nothing, refers}
use gen_net.Config.Text.{codes, same_caseless}

-- The head of the loop over the pairs of a section: a pair without a key or a value is passed over,
-- and the loop ends at the first one that is not of scalars.
unfoldable pub scalars : Pairs → List (List ℕ × List ℕ)
scalars no_pairs = []
scalars (pair nothing v rest) = scalars rest
scalars (pair k nothing rest) = scalars rest
scalars (pair (refers (scalar k)) (refers (scalar v)) rest) = (k, v) ∷ scalars rest
scalars (pair k v rest) = []

abbrev pub is_true : List ℕ → Bool
is_true v = same_caseless v (codes "true")

-- `(unsigned int)` and `(int)` of an `unsigned long`
abbrev pub u32 : ℕ → ℕ
u32 n = n % 2 ^ 32

-- ===== src/Config/Laws/Serves.antt =====
-- hev-config.c: when the section `main` is accepted, in terms of the last value of each key.
use gen_net.Base.{
  ℕ, Bool, true, false, not, ◌&&◌, ◌||◌, leb, Option, none, some, List, [], ◌∷◌, ◌==◌,
  if◌then◌else◌,
}
use gen_net.Config.Text.{same_text, strtoul10, scan_range}
use gen_net.Config.Scalars.{u32}

-- the value of the last pair with a key
unfoldable pub last : List ℕ → List (List ℕ × List ℕ) → Option (List ℕ)
last key [] = none
last key ((k, v) ∷ rest) = elim (last key rest) [
  | some w ↦ some w
  | none ↦ if same_text k key then some v else none
]

abbrev pub is_given : Option (List ℕ) → Bool
is_given none = false
is_given (some v) = true

-- The range ends where it begins, or later, or has no end or the end 0.
abbrev pub is_ordered : Option (List ℕ) → Bool
is_ordered none = true
is_ordered (some t) = let (beg, end) = scan_range t in (end == 0) || leb beg end

-- the number of workers: the last one that the section gives, or else the old one
abbrev pub workers_or : Option (List ℕ) → ℕ → ℕ
workers_or none old = old
workers_or (some v) old = u32 (strtoul10 v)

or_old : Option (List ℕ) → Option (List ℕ) → Option (List ℕ)
or_old none old = old
or_old (some v) old = some v

-- whether the section is complete
abbrev pub is_complete : ℕ → Option (List ℕ) → Option (List ℕ) → Option (List ℕ) → Bool
is_complete workers port addr udp_port =
    not (workers == 0) && (is_given port && (is_given addr && is_ordered udp_port))

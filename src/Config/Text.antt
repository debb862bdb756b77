-- ===== src/Config/Text.antt =====
-- The functions of the C library on text that hev-config.c uses. A text is the list of its characters,
-- of which none is zero.
use Prim.Native.Char.{code}
use Prim.Native.String.{String}
use gen_net.Base.{
  ℕ, ◌+◌, ◌-◌, ◌*◌, ◌%◌, ◌^◌, Bool, true, false, ◌&&◌, ◌||◌, Option, none, some, List, [], ◌∷◌, ltb,
  leb, ◌==◌, take, if◌then◌else◌,
}

abbrev pub codes : String → List ℕ
codes String.[] = []
codes (String.◌∷◌ c s) = code c ∷ codes s

-- `0 == strcmp (a, b)`
unfoldable pub same_text : List ℕ → List ℕ → Bool
same_text [] [] = true
same_text [] (y ∷ ys) = false
same_text (x ∷ xs) [] = false
same_text (x ∷ xs) (y ∷ ys) = (x == y) && same_text xs ys

abbrev pub lower : ℕ → ℕ
lower c = if leb b'A' c && leb c b'Z' then c + 32 else c

-- `0 == strcasecmp (a, b)`, where `b` is in lower case
unfoldable pub same_caseless : List ℕ → List ℕ → Bool
same_caseless [] [] = true
same_caseless [] (y ∷ ys) = false
same_caseless (x ∷ xs) [] = false
same_caseless (x ∷ xs) (y ∷ ys) = (lower x == y) && same_caseless xs ys

abbrev pub is_space : ℕ → Bool
is_space c = (c == 32) || (leb 9 c && leb c 13)

unfoldable pub skip_spaces : List ℕ → List ℕ
skip_spaces [] = []
skip_spaces (c ∷ cs) = let rest = skip_spaces cs in if is_space c then rest else c ∷ cs

-- the sign, and what follows it
unfoldable pub signed : List ℕ → Bool × List ℕ
signed [] = (false, [])
signed (c ∷ cs) =
    if c == b'-' then (true, cs) else if c == b'+' then (false, cs) else (false, c ∷ cs)

-- the value of a digit, where 36 is none
abbrev pub digit : ℕ → ℕ
digit c =
    if leb b'0' c && leb c b'9'
    then c - b'0'
    else if leb b'a' (lower c) && leb (lower c) b'z'
    then lower c - b'a' + 10
    else 36

-- the digits in front, onto a value, and what follows them
unfoldable pub digits : ℕ → ℕ → List ℕ → ℕ × List ℕ
digits base acc [] = (acc, [])
digits base acc (c ∷ cs) =
    let rest = digits base (acc * base + digit c) cs in
    if ltb (digit c) base then rest else (acc, c ∷ cs)

-- what `strtoul` makes of a sign and a value: a 64-bit number, and the greatest one beyond
abbrev pub as_ulong : Bool → ℕ → ℕ
as_ulong minus n = if leb (2 ^ 64) n then 2 ^ 64 - 1 else if minus then (2 ^ 64 - n) % 2 ^ 64 else n

-- `strtoul (s, NULL, 10)`
unfoldable pub strtoul10 : List ℕ → ℕ
unfolding skip_spaces signed digits
strtoul10 s = let (minus, rest) = signed (skip_spaces s) in as_ulong minus (digits 10 0 rest).0

-- what `strtol` makes of them: the pattern of a 64-bit number, and the nearest one beyond
abbrev pub as_long : Bool → ℕ → ℕ
as_long minus n =
    if minus
    then (if leb (2 ^ 63) n then 2 ^ 63 else (2 ^ 64 - n) % 2 ^ 64)
    else if leb (2 ^ 63) n
    then 2 ^ 63 - 1
    else n

-- `strtol (s, NULL, 10)`
unfoldable pub strtol10 : List ℕ → ℕ
unfolding skip_spaces signed digits
strtol10 s = let (minus, rest) = signed (skip_spaces s) in as_long minus (digits 10 0 rest).0

unfoldable pub any_base : List ℕ → ℕ
unfolding digits
any_base (c ∷ x ∷ cs) =
    if c == b'0'
    then if lower x == b'x' then (digits 16 0 cs).0 else (digits 8 0 (x ∷ cs)).0
    else (digits 10 0 (c ∷ x ∷ cs)).0
any_base cs = (digits 10 0 cs).0

-- `strtoul (s, NULL, 0)`
unfoldable pub strtoul0 : List ℕ → ℕ
unfolding skip_spaces signed any_base
strtoul0 s = let (minus, rest) = signed (skip_spaces s) in as_ulong minus (any_base rest)

abbrev pub starts_number : List ℕ → Bool
starts_number [] = false
starts_number (c ∷ cs) = ltb (digit c) 10

-- `%u`, whose value is stored in 32 bits
unfoldable pub scan_u : List ℕ → Option (ℕ × List ℕ)
unfolding skip_spaces signed digits
scan_u s =
    let (minus, rest) = signed (skip_spaces s) in
    let (n, behind) = digits 10 0 rest in
    if starts_number rest then some (as_ulong minus n % 2 ^ 32, behind) else none

unfoldable pub scan_end : List ℕ → ℕ → ℕ × ℕ
unfolding scan_u
scan_end [] beg = (beg, 0)
scan_end (c ∷ cs) beg =
    if c == b'-' then elim (scan_u cs) [ none ↦ (beg, 0) | some (n, _) ↦ (beg, n) ] else (beg, 0)

-- `sscanf (s, "%u-%u", &beg, &end)`, where both were 0
unfoldable pub scan_range : List ℕ → ℕ × ℕ
unfolding scan_u scan_end
scan_range s = elim (scan_u s) [ none ↦ (0, 0) | some (beg, rest) ↦ scan_end rest beg ]

-- `strncpy (buf, s, n)` into a buffer of more bytes that ends with a zero
abbrev pub copied : ℕ → List ℕ → List ℕ
copied n s = take n s

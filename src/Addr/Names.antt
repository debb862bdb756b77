-- ===== src/Addr/Names.antt =====
-- core/src/hev-socks5-misc.c: host names in addresses, and what resolving one leaves behind.
use gen_net.Base.{
  ℕ, zero, suc, ◌+◌, ◌-◌, ◌%◌, ◌≤◌, ◌<◌, ◌≡◌, refl, sym, ap, ◌∙◌, some, List, [], ◌∷◌, ◌++◌, arith,
  length, take, drop, replicate, take-append_length, drop-append_length, length-take, htons,
  length-htons, ntohs-htons,
}
use gen_net.Addr.{Family, SockAddr, addr_len, domain_len, strlen, strncpy, addr_from_name}
use gen_net.Addr.Resolve.{Resolver, name_into_sockaddr6, addr_into_sockaddr6}

-- The characters of a C string: none of them ends it.
abbrev pub IsText : List ℕ → Type 0
IsText [] = Unit
IsText (c ∷ cs) = (0 < c) × IsText cs

strlen-append :
    (name rest : List ℕ) (beyond : ℕ) → IsText name → strlen (name ++ 0 ∷ rest) beyond ≡ length name
unfolding strlen
strlen-append [] rest beyond h = refl
strlen-append (c ∷ cs) rest beyond h = ground (arith, strlen-append cs rest beyond)

strlen_full : (name : List ℕ) (beyond : ℕ) → IsText name → strlen name beyond ≡ length name + beyond
unfolding strlen
strlen_full [] beyond h = omega arith
strlen_full (c ∷ cs) beyond h = ground (arith, strlen_full cs beyond)

take-append_le {ℓ} :
    {A : Type ℓ} (xs ys : List A) (n : ℕ)
    → length xs ≤ n
    → take n (xs ++ ys) ≡ xs ++ take (n - length xs) ys
take-append_le [] ys n h = ap (λ k. take k ys) (omega arith)
take-append_le (x ∷ xs) ys zero h = absurd (omega arith)
take-append_le (x ∷ xs) ys (suc n) h =
    ap (λ r. x ∷ r) (take-append_le xs ys n (omega arith) ∙ ap (λ k. xs ++ take k ys) (omega arith))

take-append_ge {ℓ} :
    {A : Type ℓ} (n : ℕ) (xs ys : List A) → n ≤ length xs → take n (xs ++ ys) ≡ take n xs
take-append_ge zero xs ys h = refl
take-append_ge (suc n) [] ys h = absurd (omega arith)
take-append_ge (suc n) (x ∷ xs) ys h = ap (λ r. x ∷ r) (take-append_ge n xs ys (omega arith))

take-replicate {ℓ} : {A : Type ℓ} (k n : ℕ) (a : A) → k ≤ n → take k (replicate n a) ≡ replicate k a
take-replicate zero n a h = refl
take-replicate (suc k) zero a h = absurd (omega arith)
take-replicate (suc k) (suc n) a h = ap (λ r. a ∷ r) (take-replicate k n a (omega arith))

strncpy_short :
    (n : ℕ) (name : List ℕ)
    → length name ≤ n
    → strncpy n name ≡ name ++ replicate (n - length name) 0
unfolding strncpy
strncpy_short n name h =
    take-append_le name (replicate n 0) n h
    ∙ ap (λ r. name ++ r) (take-replicate (n - length name) n 0 (omega arith))

strncpy_long : (n : ℕ) (name : List ℕ) → n ≤ length name → strncpy n name ≡ take n name
unfolding strncpy
strncpy_long zero name h = refl
strncpy_long (suc n) [] h = absurd (omega arith)
strncpy_long (suc n) (c ∷ cs) h = ap (λ r. c ∷ r) (take-append_ge n cs _ (omega arith))

take-IsText : (n : ℕ) (name : List ℕ) → IsText name → IsText (take n name)
take-IsText zero name h = tt
take-IsText (suc n) [] h = tt
take-IsText (suc n) (c ∷ cs) h = (h.0, take-IsText n cs h.1)

module _ (name : List ℕ) (beyond : ℕ) (text : IsText name) where
  strlen-strncpy : (n : ℕ) → length name < n → strlen (strncpy n name) beyond ≡ length name
  strlen-strncpy n h = rw (strncpy_short n name (omega arith)) (
      let e : n - length name ≡ suc (n - length name - 1) = omega arith in
      rw e (strlen-append name (replicate (n - length name - 1) 0) beyond text))

  -- For a name of at most 255 characters the length is right, and the address resolves as the
  -- name does, at the port that was given.
  pub addr_from_name-resolves :
      (r : Resolver) (port : ℕ) (s : SockAddr) (f : Family)
      → length name < 256
      → port < 65536
      → let (a, n) = addr_from_name name (htons port) beyond in
        (n ≡ 4 + length name)
        × (addr_len a ≡ some n)
        × (addr_into_sockaddr6 r a s f ≡ name_into_sockaddr6 r name port s f)
  unfolding addr_from_name addr_into_sockaddr6 addr_len
  addr_from_name-resolves r port s f short fits =
      let n = length name in
      let e : strlen (strncpy 256 name) beyond % 256 ≡ n =
        omega (arith, strlen-strncpy 256 short) in
      let block : take n (strncpy 256 name) ≡ name =
        rw (strncpy_short 256 name (omega arith)) (take-append_length name _ n refl) in
      let rest = drop (n + 2) (strncpy 256 name) in
      let tail : drop n (name ++ (htons port ++ rest)) ≡ htons port ++ rest =
        drop-append_length name _ n refl in
      let whole : take n (name ++ (htons port ++ rest)) ≡ name = take-append_length name _ n refl in
      let one : 1 + n ≡ suc n = omega arith in
      rw (e, block)
        (
          refl,
          refl,
          rw (
            whole,
            one,
            tail,
            take-append_length (htons port) rest 2 (sym (length-htons port)),
            ntohs-htons port fits,
          ),
        )

-- A name of 256 characters or more loses its length modulo 256.
pub addr_from_name_long :
    (name port : List ℕ) (beyond : ℕ)
    → IsText name
    → 256 ≤ length name
    → domain_len (addr_from_name name port beyond).0 ≡ beyond % 256
unfolding addr_from_name
addr_from_name_long name port beyond text long =
    rw (strncpy_long 256 name long, strlen_full (take 256 name) beyond (take-IsText 256 name text))
      (omega (arith, length-take 256 name))

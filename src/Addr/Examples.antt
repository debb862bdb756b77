-- ===== src/Addr/Examples.antt =====
-- core/src/hev-socks5-misc.c at small addresses.
use gen_net.Base.{
  ℕ, zero, suc, ◌+◌, ◌≡◌, refl, ◌++◌, Bool, true, false, none, some, List, [], ◌∷◌, ◌==◌,
  if◌then◌else◌, length, get_or, replicate, htons, arith,
}
use gen_net.Addr.{
  Addr, atype_ipv4, atype_ipv6, inet, inet6, unspec, SockAddr, zero_addr, domain_len, v4_prefix,
  addr_len, image, addr_from_name, all_zero, is_v4mapped, addr_from_sockaddr6,
}
use gen_net.Addr.Resolve.{Resolver, resolved, addr_into_sockaddr6, name_into_sockaddr6}
use gen_net.Addr.Codec.{IsSockAddr, into-from, addr_len-from, from-into}
use gen_net.Addr.Names.{IsText, addr_from_name-resolves, addr_from_name_long}
use gen_net.Addr.Resolve.Shape.{HasLength, IsSized, name_into-IsSockAddr}

-- names that begin with the digit 1 are IPv4 addresses, and the others are looked up
abbrev known : Resolver
known = record {
  inet_pton4 = λ name. if get_or name 0 0 == 49 then some (10 ∷ 0 ∷ 0 ∷ 1 ∷ []) else none;
  inet_pton6 = λ name. none;
  getaddrinfo = λ name f.
      some (record { ai_family = inet6; ai_addr = replicate 16 7; ai_port = replicate 2 0 });
}

abbrev peer : SockAddr
peer = record { family = inet6; port = 31 ∷ 144 ∷ []; addr = v4_prefix ++ 10 ∷ 0 ∷ 0 ∷ 1 ∷ [] }

peer-IsSockAddr : IsSockAddr peer
peer-IsSockAddr = record { family = refl; port = refl; addr = refl }

into-from_example :
    addr_into_sockaddr6 known (addr_from_sockaddr6 peer).0 zero_addr unspec
    ≡ resolved true peer inet
unfolding is_v4mapped all_zero
into-from_example = into-from known peer zero_addr unspec peer-IsSockAddr

addr_len-from_example :
    let (a, n) = addr_from_sockaddr6 peer in
    (addr_len a ≡ some n) × (length (image a n) ≡ n) × (image a n ≡ a.atype ∷ a.body)
addr_len-from_example = addr_len-from peer peer-IsSockAddr

from-into_example :
    let six : Addr = record { atype = atype_ipv6; body = replicate 16 9 ++ 0 ∷ 80 ∷ [] } in
    let four : Addr = record { atype = atype_ipv4; body = replicate 4 9 ++ 0 ∷ 80 ∷ [] } in
    (addr_from_sockaddr6 (addr_into_sockaddr6 known six zero_addr unspec).saddr ≡ (six, 19))
    × (addr_from_sockaddr6 (addr_into_sockaddr6 known four zero_addr unspec).saddr ≡ (four, 7))
unfolding is_v4mapped all_zero
from-into_example = from-into known (replicate 16 9) (0 ∷ 80 ∷ []) zero_addr unspec refl refl

abbrev name : List ℕ
name = 97 ∷ 46 ∷ 98 ∷ []

addr_from_name-resolves_example :
    let (a, n) = addr_from_name name (htons 443) 0 in
    (n ≡ 4 + length name)
    × (addr_len a ≡ some n)
    × (addr_into_sockaddr6 known a zero_addr unspec
        ≡ name_into_sockaddr6 known name 443 zero_addr unspec)
addr_from_name-resolves_example =
    addr_from_name-resolves name 0 (omega arith) known 443 zero_addr unspec (omega arith)
      (omega arith)

letters-IsText : (n : ℕ) → IsText (replicate n 97)
letters-IsText zero = tt
letters-IsText (suc n) = (omega arith, letters-IsText n)

addr_from_name_long_example : domain_len (addr_from_name (replicate 300 97) (htons 443) 5).0 ≡ 5
addr_from_name_long_example =
    addr_from_name_long (replicate 300 97) (htons 443) 5 (letters-IsText 300) (omega arith)

first_is_one : (o : Bool) → HasLength 4 (if o then some (10 ∷ 0 ∷ 0 ∷ 1 ∷ []) else none)
first_is_one true = refl
first_is_one false = tt

known-IsSized : IsSized known
known-IsSized = record {
  four = λ name. first_is_one (get_or name 0 0 == 49);
  six = λ name. tt;
  info = λ name f. ((λ e. absurd (cc)), (λ e. refl));
}

name_into-IsSockAddr_example :
    let x = name_into_sockaddr6 known name 443 zero_addr unspec in
    IsSockAddr x.saddr × (x.saddr.port ≡ htons 443)
name_into-IsSockAddr_example =
    name_into-IsSockAddr known name 443 zero_addr unspec known-IsSized refl

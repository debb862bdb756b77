-- ===== src/Addr/Resolve/Shape.antt =====
-- core/src/hev-socks5-misc.c: what resolving a name leaves in the socket address.
use gen_net.Base.{
  ℕ, ◌+◌, ◌≡◌, inl, inr, true, Option, none, some, List, ◌++◌, arith, length, htons, Bool-cases,
  length-htons, length-take, length-drop, length-append,
}
use gen_net.Addr.{Family, inet, inet6, SockAddr, v4_prefix, is_v4mapped}
use gen_net.Addr.Codec.{IsSockAddr}
use gen_net.Addr.Resolve.{
  AddrInfo, Resolver, ipv4_answer, ipv6_answer, from_info, name_into_sockaddr6,
}

abbrev pub HasLength : ℕ → Option (List ℕ) → Type 0
HasLength n none = Unit
HasLength n (some ip) = length ip ≡ n

abbrev pub IsInfo : Option AddrInfo → Type 0
IsInfo none = Unit
IsInfo (some i) =
    (i.ai_family ≡ inet → length i.ai_addr ≡ 4) × (i.ai_family ≡ inet6 → length i.ai_addr ≡ 16)

-- The answers of `inet_pton` and `getaddrinfo` have the sizes of their address families.
pub record IsSized (r : Resolver) : Type 0 where
  pub four : (name : List ℕ) → HasLength 4 (r.inet_pton4 name)
  pub six : (name : List ℕ) → HasLength 16 (r.inet_pton6 name)
  pub info : (name : List ℕ) (f : Family) → IsInfo (r.getaddrinfo name f)

length-mapped : (ip : List ℕ) → length (v4_prefix ++ ip) ≡ length ip + 12
length-mapped ip = omega (arith, length-append v4_prefix ip)

ipv4_answer-length :
    (o : Option (List ℕ)) (s : SockAddr)
    → HasLength 4 o
    → length s.addr ≡ 16
    → length (ipv4_answer o s).1.addr ≡ 16
unfolding ipv4_answer
ipv4_answer-length none s h size = omega (arith, length-drop 10 s.addr)
ipv4_answer-length (some ip) s h size = omega arith

ipv6_answer-length :
    (o : Option (List ℕ)) (s : SockAddr)
    → HasLength 16 o
    → length s.addr ≡ 16
    → length (ipv6_answer o s).1.addr ≡ 16
unfolding ipv6_answer
ipv6_answer-length none s h size = size
ipv6_answer-length (some ip) s h size = h

from_info-length :
    (o : Option AddrInfo) (s : SockAddr) (f : Family)
    → IsInfo o
    → length s.addr ≡ 16
    → length (from_info o s f).saddr.addr ≡ 16
unfolding from_info
from_info-length none s f h size = size
from_info-length (some i) s f h size =
    ground (arith, length-take 4 i.ai_addr, length-take 16 i.ai_addr)

module _ (r : Resolver) (name : List ℕ) (port : ℕ) (s : SockAddr) (f : Family) where
  name_into-length :
      IsSized r → length s.addr ≡ 16 → length (name_into_sockaddr6 r name port s f).saddr.addr ≡ 16
  unfolding name_into_sockaddr6
  name_into-length sized size =
      let s0 = record s { family = inet6; port = htons port } in
      let s4 = (ipv4_answer (r.inet_pton4 name) s0).1 in
      let l4 = ipv4_answer-length (r.inet_pton4 name) s0 (sized.four name) size in
      let s6 = (ipv6_answer (r.inet_pton6 name) s4).1 in
      let l6 = ipv6_answer-length (r.inet_pton6 name) s4 (sized.six name) l4 in
      let l = from_info-length (r.getaddrinfo name f) s6 f (sized.info name f) l6 in
      elim (Bool-cases (ipv4_answer (r.inet_pton4 name) s0).0) [
        | inl e ↦ rw e l4
        | inr e ↦ rw e (elim (Bool-cases (ipv6_answer (r.inet_pton6 name) s4).0) [
          | inl e6 ↦ rw e6 l6
          | inr e6 ↦ rw e6 l
        ])
      ]

  name_into-port :
      let x = name_into_sockaddr6 r name port s f in
      (x.saddr.family ≡ inet6) × (x.saddr.port ≡ htons port)
  unfolding name_into_sockaddr6 ipv4_answer ipv6_answer from_info
  name_into-port = ground arith

  -- Whether or not the name resolves, what is left in the socket address is well formed and has
  -- the port that was asked for.
  pub name_into-IsSockAddr :
      IsSized r
      → length s.addr ≡ 16
      → let x = name_into_sockaddr6 r name port s f in
        IsSockAddr x.saddr × (x.saddr.port ≡ htons port)
  name_into-IsSockAddr sized size =
      let (family, at) = name_into-port in
      (
        record {
          family = family;
          port = rw at (length-htons port);
          addr = name_into-length sized size;
        },
        at,
      )

  -- A name that resolves to an IPv4 address leaves an IPv4-mapped socket address.
  pub name_into-mapped :
      let x = name_into_sockaddr6 r name port s f in
      x.found ≡ true → x.family ≡ inet → is_v4mapped x.saddr.addr ≡ true
  unfolding name_into_sockaddr6 is_v4mapped
  name_into-mapped h k = ground arith

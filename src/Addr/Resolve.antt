-- ===== src/Addr/Resolve.antt =====
-- core/src/hev-socks5-misc.c: resolving a host name into a `struct sockaddr_in6`. `inet_pton` is
-- the C library's and `hev_task_dns_getaddrinfo` the task library's, so both are parameters.
pub mod Shape
use gen_net.Base.{
  ℕ, ◌+◌, Bool, true, false, Option, none, some, List, ◌++◌, ◌==◌, if◌then◌else◌, take, drop,
  replicate, htons, ntohs,
}
use gen_net.Addr.{
  Addr, atype_ipv4, atype_ipv6, atype_name, domain_len, Family, inet, inet6, unspec, SockAddr,
  v4_prefix, ipv4_into_sockaddr6, ipv6_into_sockaddr6,
}

-- The first result of `getaddrinfo`: its family, and the bytes of the address and of the port of its
-- `ai_addr`.
pub record AddrInfo : Type 0 where
  pub ai_family : Family
  pub ai_addr : List ℕ
  pub ai_port : List ℕ

-- `inet_pton4` and `inet_pton6` are `inet_pton` at the two families, where `none` is the result 0.
pub record Resolver : Type 0 where
  pub inet_pton4 : List ℕ → Option (List ℕ)
  pub inet_pton6 : List ℕ → Option (List ℕ)
  pub getaddrinfo : List ℕ → Family → Option AddrInfo

-- A call returns whether it succeeded, and what it left in `*saddr` and in `*family`.
abbrev pub Resolved : Type 0
Resolved = record { found : Bool; saddr : SockAddr; family : Family }

abbrev pub resolved : Bool → SockAddr → Family → Resolved
resolved b s f = record { found = b; saddr = s; family = f }

-- the rest of each function, behind the answer that it got
ipv4_answer : Option (List ℕ) → SockAddr → Bool × SockAddr
ipv4_answer none s = (false, record s { addr = replicate 10 0 ++ drop 10 s.addr })
ipv4_answer (some ip) s = (true, record s { addr = v4_prefix ++ ip })

ipv6_answer : Option (List ℕ) → SockAddr → Bool × SockAddr
ipv6_answer none s = (false, s)
ipv6_answer (some ip) s = (true, record s { addr = ip })

from_info : Option AddrInfo → SockAddr → Family → Resolved
from_info none s f = resolved false s f
from_info (some i) s f = elim i.ai_family [
  | inet ↦ resolved true (record s { addr = v4_prefix ++ take 4 i.ai_addr }) inet
  | inet6 ↦ resolved true (record s { addr = take 16 i.ai_addr }) inet6
  | unspec ↦ resolved false s f
]

module _ (r : Resolver) where
  -- `hev_socks5_name_resolve_ipv4`: the first ten bytes are cleared also when it fails
  unfoldable pub name_resolve_ipv4 : List ℕ → SockAddr → Bool × SockAddr
  unfolding ipv4_answer
  name_resolve_ipv4 name s = ipv4_answer (r.inet_pton4 name) s

  -- `hev_socks5_name_resolve_ipv6`
  unfoldable pub name_resolve_ipv6 : List ℕ → SockAddr → Bool × SockAddr
  unfolding ipv6_answer
  name_resolve_ipv6 name s = ipv6_answer (r.inet_pton6 name) s

  -- `hev_socks5_name_resolve_name`
  unfoldable pub name_resolve_name : List ℕ → SockAddr → Family → Resolved
  unfolding from_info
  name_resolve_name name s f = from_info (r.getaddrinfo name f) s f

  -- `hev_socks5_name_into_sockaddr6`
  unfoldable pub name_into_sockaddr6 : List ℕ → ℕ → SockAddr → Family → Resolved
  unfolding name_resolve_ipv4 name_resolve_ipv6 name_resolve_name
  name_into_sockaddr6 name port s f =
      let s0 = record s { family = inet6; port = htons port } in
      let (ok4, s4) = name_resolve_ipv4 name s0 in
      if ok4
      then resolved true s4 inet
      else let (ok6, s6) = name_resolve_ipv6 name s4 in
        if ok6 then resolved true s6 inet6 else name_resolve_name name s6 f

  -- `hev_socks5_addr_into_sockaddr6`
  unfoldable pub addr_into_sockaddr6 : Addr → SockAddr → Family → Resolved
  unfolding name_into_sockaddr6
  addr_into_sockaddr6 a s f =
      if a.atype == atype_ipv4
      then resolved true (ipv4_into_sockaddr6 a) inet
      else if a.atype == atype_ipv6
      then resolved true (ipv6_into_sockaddr6 a) inet6
      else if a.atype == atype_name
      then (let len = domain_len a in
          name_into_sockaddr6 (take len (drop 1 a.body)) (ntohs (take 2 (drop (1 + len) a.body))) s
            f)
      else resolved false s f

-- ===== src/Addr.antt =====
-- core/src/hev-socks5-misc.c: the SOCKS5 address `HevSocks5Addr` and its conversions from and into
-- `struct sockaddr_in6`. An address is its memory image: the type byte, and the bytes of the union
-- behind it. A 16-bit port is the two bytes that it occupies, which are in network order.
pub mod Resolve
pub mod Codec
pub mod Names
mod Examples
use gen_net.Base.{
  ℕ, zero, suc, ◌+◌, ◌%◌, ◌<◌, ◌≡◌, refl, Bool, true, false, ◌&&◌, Option, none, some, List, [],
  ◌∷◌, ◌++◌, arith, ltb, ◌==◌, if◌then◌else◌, length, get_or, take, drop, replicate, htons, ntohs,
}

abbrev pub atype_ipv4 : ℕ
atype_ipv4 = 1

abbrev pub atype_name : ℕ
atype_name = 3

abbrev pub atype_ipv6 : ℕ
atype_ipv6 = 4

-- `HevSocks5Addr`
pub record Addr : Type 0 where
  pub atype : ℕ
  pub body : List ℕ

-- `addr->domain.len`, which is the first byte of the union
abbrev pub domain_len : Addr → ℕ
domain_len a = get_or a.body 0 0

-- The address family: `AF_INET`, `AF_INET6`, `AF_UNSPEC`.
pub data Family : Type 0 where
  inet inet6 unspec : Family

-- `struct sockaddr_in6`: 2 bytes of port and 16 of address
pub record SockAddr : Type 0 where
  pub family : Family
  pub port : List ℕ
  pub addr : List ℕ

-- after `memset (&addr, 0, sizeof (addr))`
abbrev pub zero_addr : SockAddr
zero_addr = record { family = unspec; port = replicate 2 0; addr = replicate 16 0 }

-- `hev_socks5_addr_len`, whose -1 is `none`
unfoldable pub addr_len : Addr → Option ℕ
addr_len a =
    if a.atype == atype_ipv4
    then some 7
    else if a.atype == atype_ipv6
    then some 19
    else if a.atype == atype_name
    then some (4 + domain_len a)
    else none

-- the first `n` bytes of the structure
abbrev pub image : Addr → ℕ → List ℕ
image a n = take n (a.atype ∷ a.body)

-- `strlen` of a block, and whether its end was found
unfoldable pub strlen : List ℕ → ℕ → ℕ
strlen [] beyond = beyond
strlen (c ∷ cs) beyond = if c == 0 then 0 else suc (strlen cs beyond)

-- `strncpy (dst, name, n)` into a block of `n` bytes
unfoldable pub strncpy : ℕ → List ℕ → List ℕ
strncpy n name = take n (name ++ replicate n 0)

-- `hev_socks5_addr_from_name`; `beyond` is how far `strlen` runs behind the 256 bytes that
-- `strncpy` wrote, if it finds no end in them. The length is stored in a `uint8_t`.
unfoldable pub addr_from_name : List ℕ → List ℕ → ℕ → Addr × ℕ
unfolding strlen strncpy
addr_from_name name port beyond =
    let block = strncpy 256 name in
    let len = strlen block beyond % 256 in
    (
      record {
        atype = atype_name;
        body = len ∷ (take len block ++ (port ++ drop (len + 2) block));
      },
      4 + len,
    )

-- `hev_socks5_addr_from_ipv4`
unfoldable pub addr_from_ipv4 : List ℕ → List ℕ → Addr × ℕ
addr_from_ipv4 ip port = (record { atype = atype_ipv4; body = take 4 ip ++ port }, 7)

-- `hev_socks5_addr_from_ipv6`
unfoldable pub addr_from_ipv6 : List ℕ → List ℕ → Addr × ℕ
addr_from_ipv6 ip port = (record { atype = atype_ipv6; body = take 16 ip ++ port }, 19)

unfoldable pub all_zero : List ℕ → Bool
all_zero [] = true
all_zero (b ∷ bs) = (b == 0) && all_zero bs

-- `IN6_IS_ADDR_V4MAPPED`
unfoldable pub is_v4mapped : List ℕ → Bool
unfolding all_zero
is_v4mapped a = all_zero (take 10 a) && (get_or a 10 0 == 0xff) && (get_or a 11 0 == 0xff)

-- `hev_socks5_addr_from_sockaddr6`
unfoldable pub addr_from_sockaddr6 : SockAddr → Addr × ℕ
addr_from_sockaddr6 s =
    if is_v4mapped s.addr
    then (record { atype = atype_ipv4; body = take 4 (drop 12 s.addr) ++ s.port }, 7)
    else (record { atype = atype_ipv6; body = take 16 s.addr ++ s.port }, 19)

-- The prefix of an IPv4 address inside an IPv6 one.
abbrev pub v4_prefix : List ℕ
v4_prefix = replicate 10 0 ++ 0xff ∷ 0xff ∷ []

-- `hev_socks5_ipv4_into_sockaddr6`
unfoldable pub ipv4_into_sockaddr6 : Addr → SockAddr
ipv4_into_sockaddr6 a = record {
  family = inet6;
  port = take 2 (drop 4 a.body);
  addr = v4_prefix ++ take 4 a.body;
}

-- `hev_socks5_ipv6_into_sockaddr6`
unfoldable pub ipv6_into_sockaddr6 : Addr → SockAddr
ipv6_into_sockaddr6 a = record {
  family = inet6;
  port = take 2 (drop 16 a.body);
  addr = take 16 a.body;
}

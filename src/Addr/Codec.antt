-- ===== src/Addr/Codec.antt =====
-- core/src/hev-socks5-misc.c: an address and a socket address as codecs of one another.
use gen_net.Base.{
  ℕ, zero, suc, ◌≤◌, ◌≡◌, inl, inr, refl, sym, ap, ◌∙◌, true, some, List, [], ◌∷◌, ◌++◌, arith,
  if◌then◌else◌, length, get_or, take, drop, replicate, Bool-cases, take-append_length,
  drop-append_length, take_all, length-append, length-take, length-drop, get_or-drop, drop-drop,
}
use gen_net.Addr.{
  Addr, atype_ipv4, atype_ipv6, Family, inet, inet6, SockAddr, v4_prefix, addr_len, all_zero,
  is_v4mapped, addr_from_sockaddr6, ipv4_into_sockaddr6, ipv6_into_sockaddr6, image,
}
use gen_net.Addr.Resolve.{Resolver, resolved, addr_into_sockaddr6}

-- A socket address of the size that the C type has, in the family that the program uses.
pub record IsSockAddr (s : SockAddr) : Type 0 where
  pub family : s.family ≡ inet6
  pub port : length s.port ≡ 2
  pub addr : length s.addr ≡ 16

all_zero-replicate :
    (n : ℕ) (a : List ℕ) → n ≤ length a → all_zero (take n a) ≡ true → a ≡ replicate n 0 ++ drop n a
unfolding all_zero
all_zero-replicate zero a l h = refl
all_zero-replicate (suc n) [] l h = absurd (omega arith)
all_zero-replicate (suc n) (b ∷ bs) l h = ground (arith, all_zero-replicate n bs)

tail_of_mapped :
    (a : List ℕ)
    → length a ≡ 6
    → get_or a 0 0 ≡ 0xff
    → get_or a 1 0 ≡ 0xff
    → a ≡ 0xff ∷ 0xff ∷ take 4 (drop 2 a)
tail_of_mapped [] l h k = absurd (omega arith)
tail_of_mapped (x ∷ []) l h k = absurd (omega arith)
tail_of_mapped (x ∷ y ∷ r) l h k = ground (arith, take_all 4 r (omega arith))

mapped_parts :
    (a : List ℕ)
    → is_v4mapped a ≡ true
    → (all_zero (take 10 a) ≡ true) × (get_or a 10 0 ≡ 0xff) × (get_or a 11 0 ≡ 0xff)
unfolding is_v4mapped
mapped_parts a h = ground arith

-- A mapped address is the prefix and the four bytes of the IPv4 address.
pub mapped-eq-append :
    (a : List ℕ) → length a ≡ 16 → is_v4mapped a ≡ true → a ≡ v4_prefix ++ take 4 (drop 12 a)
mapped-eq-append a l h =
    let (z, p, q) = mapped_parts a h in
    let rest =
      tail_of_mapped (drop 10 a) (omega (arith, length-drop 10 a)) (get_or-drop 10 0 a 0 ∙ p)
        (get_or-drop 10 1 a 0 ∙ q) in
    all_zero-replicate 10 a (omega arith) z
    ∙ ap (λ r. replicate 10 0 ++ r) (rest ∙ ap (λ r. 0xff ∷ 0xff ∷ take 4 r) (drop-drop 2 10 a))

pub v4_prefix-IsMapped : (ip : List ℕ) → is_v4mapped (v4_prefix ++ ip) ≡ true
unfolding is_v4mapped
v4_prefix-IsMapped ip = refl

-- Writing a socket address as a SOCKS5 address and reading it back gives the socket address, and
-- the family says whether it was an IPv4-mapped one.
pub into-from :
    (r : Resolver) (s s0 : SockAddr) (f : Family)
    → IsSockAddr s
    → addr_into_sockaddr6 r (addr_from_sockaddr6 s).0 s0 f
      ≡ resolved true s (if is_v4mapped s.addr then inet else inet6)
unfolding addr_into_sockaddr6 addr_from_sockaddr6 ipv4_into_sockaddr6 ipv6_into_sockaddr6
into-from r s s0 f h = elim (Bool-cases (is_v4mapped s.addr)) [
  | inl m ↦
      let four : length (take 4 (drop 12 s.addr)) ≡ 4 =
        omega (arith, length-take 4 (drop 12 s.addr), length-drop 12 s.addr, h.addr) in
      rw m (
        ground (
          arith,
          h.family,
          take-append_length (take 4 (drop 12 s.addr)) s.port 4 (sym four),
          drop-append_length (take 4 (drop 12 s.addr)) s.port 4 (sym four),
          take_all 2 s.port (omega (arith, h.port)),
          mapped-eq-append s.addr h.addr m,
        ))
  | inr m ↦
      let all : take 16 s.addr ≡ s.addr = take_all 16 s.addr (omega (arith, h.addr)) in
      rw (m, all)
        (ground (
          arith,
          h.family,
          take-append_length s.addr s.port 16 (sym h.addr),
          drop-append_length s.addr s.port 16 (sym h.addr),
          take_all 2 s.port (omega (arith, h.port)),
        ))
]

-- The length that `hev_socks5_addr_from_sockaddr6` returns is the one that `hev_socks5_addr_len`
-- computes from the address, and it is the whole of the address.
pub addr_len-from :
    (s : SockAddr)
    → IsSockAddr s
    → let (a, n) = addr_from_sockaddr6 s in
      (addr_len a ≡ some n) × (length (image a n) ≡ n) × (image a n ≡ a.atype ∷ a.body)
unfolding addr_len addr_from_sockaddr6
addr_len-from s h = elim (Bool-cases (is_v4mapped s.addr)) [
  | inl m ↦
      let size : length (take 4 (drop 12 s.addr) ++ s.port) ≡ 6 = omega (
        arith,
        h.addr,
        h.port,
        length-append (take 4 (drop 12 s.addr)) s.port,
        length-take 4 (drop 12 s.addr),
        length-drop 12 s.addr,
      ) in
      let all = take_all 6 (take 4 (drop 12 s.addr) ++ s.port) (omega (arith, size)) in
      rw m (refl, rw all (omega (arith, size)), rw all)
  | inr m ↦
      let size : length (take 16 s.addr ++ s.port) ≡ 18 =
        omega
          (arith, h.addr, h.port, length-append (take 16 s.addr) s.port, length-take 16 s.addr) in
      let all = take_all 18 (take 16 s.addr ++ s.port) (omega (arith, size)) in
      rw m (refl, rw all (omega (arith, size)), rw all)
]

-- Reading an IPv4 address and writing it back gives the address. So does an IPv6 address, unless
-- it is an IPv4-mapped one, which becomes an IPv4 address.
pub from-into :
    (r : Resolver) (ip port : List ℕ) (s0 : SockAddr) (f : Family)
    → length ip ≡ 16
    → length port ≡ 2
    → let six : Addr = record { atype = atype_ipv6; body = ip ++ port } in
      let four : Addr = record { atype = atype_ipv4; body = take 4 (drop 12 ip) ++ port } in
      (addr_from_sockaddr6 (addr_into_sockaddr6 r six s0 f).saddr
        ≡ (if is_v4mapped ip then (four, 7) else (six, 19)))
      × (addr_from_sockaddr6 (addr_into_sockaddr6 r four s0 f).saddr ≡ (four, 7))
unfolding addr_into_sockaddr6 addr_from_sockaddr6 ipv4_into_sockaddr6 ipv6_into_sockaddr6
from-into r ip port s0 f h k =
    let low = take 4 (drop 12 ip) in
    let four : length low ≡ 4 = omega (arith, length-take 4 (drop 12 ip), length-drop 12 ip) in
    let p16 = take-append_length ip port 16 (sym h) in
    let d16 = drop-append_length ip port 16 (sym h) in
    let p4 = take-append_length low port 4 (sym four) in
    let d4 = drop-append_length low port 4 (sym four) in
    let low_all = take_all 4 low (omega (arith, four)) in
    let port_all = take_all 2 port (omega (arith, k)) in
    (
      rw (p16, d16, port_all, take_all 16 ip (omega (arith, h))),
      rw (v4_prefix-IsMapped, p4, d4, port_all, low_all),
    )

-- ===== src/Client/Kinds.antt =====
-- core/src/hev-socks5-client-tcp.c and hev-socks5-client-udp.c: the two clients. Whether `malloc`
-- succeeds is an argument.
use gen_net.Base.{ℕ, Bool, true, false, not, Option, none, some, List, replicate, if◌then◌else◌}
use gen_net.Addr.{
  Addr, Family, inet, inet6, unspec, SockAddr, zero_addr, atype_ipv4, atype_ipv6, addr_from_name,
  addr_from_ipv4, addr_from_ipv6,
}
use gen_net.Addr.Resolve.{Resolved, addr_into_sockaddr6}
use gen_net.Net.{
  Fd, dgram, Os, M, pure, fail, attempt, get_self, modify, ◌>>=◌, ◌>>◌, connect, resolver,
}
use gen_net.Socks5.{Socks5Type, tcp, udp_in_tcp, udp_in_udp, release, socks5_socket}
use gen_net.Client.{Client, ClientClass, Kind, tcp_client, udp_client, client_construct}
use gen_net.Client.Connect.{give_up, is_none}

-- `hev_socks5_client_tcp_construct`
unfoldable pub client_tcp_construct : Bool → Addr → Option Client
unfolding client_construct
client_tcp_construct true a = some (client_construct tcp (tcp_client (some a)))
client_tcp_construct false a = none

unfoldable pub client_tcp_new : Bool → Bool → Addr → Option Client
unfolding client_tcp_construct
client_tcp_new true m a = client_tcp_construct m a
client_tcp_new false m a = none

-- `hev_socks5_client_tcp_new_name`, from the port in network order
unfoldable pub client_tcp_new_name : Bool → Bool → List ℕ → List ℕ → ℕ → Option Client
unfolding client_tcp_new addr_from_name
client_tcp_new_name c m name port beyond = client_tcp_new c m (addr_from_name name port beyond).0

-- `hev_socks5_client_tcp_new_ipv4`
unfoldable pub client_tcp_new_ipv4 : Bool → Bool → List ℕ → List ℕ → Option Client
unfolding client_tcp_new addr_from_ipv4
client_tcp_new_ipv4 c m ip port = client_tcp_new c m (addr_from_ipv4 ip port).0

-- `hev_socks5_client_tcp_new_ipv6`
unfoldable pub client_tcp_new_ipv6 : Bool → Bool → List ℕ → List ℕ → Option Client
unfolding client_tcp_new addr_from_ipv6
client_tcp_new_ipv6 c m ip port = client_tcp_new c m (addr_from_ipv6 ip port).0

abbrev pub held_addr : Kind → Option Addr
held_addr (tcp_client a) = a
held_addr _ = none

-- `hev_socks5_client_tcp_get_upstream_addr`, which gives the address away
unfoldable pub tcp_get_upstream_addr : M Client (Option Addr)
tcp_get_upstream_addr = do
  self ← get_self
  modify (λ s. record s { kind = tcp_client none })
  pure (held_addr self.kind)

-- the methods of `hev_socks5_client_tcp_class`
abbrev pub client_tcp_class : ClientClass
client_tcp_class = record {
  client_binder = λ fd addr. pure tt;
  get_upstream_addr = tcp_get_upstream_addr;
  set_upstream_addr = λ addr. pure tt;
}

-- `hev_socks5_client_udp_construct`
unfoldable pub client_udp_construct : Socks5Type → Client
unfolding client_construct
client_udp_construct type = client_construct type (udp_client none)

-- `hev_socks5_client_udp_new`
unfoldable pub client_udp_new : Bool → Socks5Type → Option Client
unfolding client_udp_construct
client_udp_new allocated type = if allocated then some (client_udp_construct type) else none

-- the address of zeros that the client asks for
abbrev pub any_addr : Family → Option Addr
any_addr inet = some (record { atype = atype_ipv4; body = replicate 6 0 })
any_addr inet6 = some (record { atype = atype_ipv6; body = replicate 18 0 })
any_addr unspec = none

-- `hev_socks5_client_udp_get_upstream_addr`
unfoldable pub udp_get_upstream_addr : Bool → M Client (Option Addr)
udp_get_upstream_addr allocated = do
  self ← get_self
  pure (if allocated then any_addr self.base.addr_family else none)

module _ (os : Os) (binder : Fd → SockAddr → M Client (Unit {0})) where
  unfoldable pub put_udp_fd : Fd → M Client (Unit {0})
  put_udp_fd fd =
      modify
        (λ s. record s { base = record s.base { udp_associated = true }; kind = udp_client fd })

  unfoldable pub associate : Resolved → M Client (Unit {0})
  unfolding put_udp_fd
  associate x = if not x.found then fail else do
    fd ← socks5_socket os dgram
    ready ← attempt (binder fd x.saddr)
    if is_none ready
        then give_up fd
        else do ok ← connect os fd x.saddr; if not ok then give_up fd else put_udp_fd fd

  abbrev pub is_udp_in_udp : Socks5Type → Bool
  is_udp_in_udp udp_in_udp = true
  is_udp_in_udp _ = false

  -- `hev_socks5_client_udp_set_upstream_addr`
  unfoldable pub udp_set_upstream_addr : Addr → M Client (Unit {0})
  unfolding associate
  udp_set_upstream_addr addr = do
    self ← get_self
    if not (is_udp_in_udp self.base.type) then pure tt else do
      r ← resolver os
      associate (addr_into_sockaddr6 r addr zero_addr self.base.addr_family)

  -- the methods of `hev_socks5_client_udp_class`
  abbrev pub client_udp_class : Bool → ClientClass
  client_udp_class allocated = record {
    client_binder = binder;
    get_upstream_addr = udp_get_upstream_addr allocated;
    set_upstream_addr = udp_set_upstream_addr;
  }

abbrev pub held_fd : Kind → Fd
held_fd (udp_client fd) = fd
held_fd _ = none

-- `hev_socks5_client_udp_get_fd`
unfoldable pub client_udp_get_fd : Client → Fd
client_udp_get_fd self = elim self.base.type [
  | udp_in_tcp ↦ self.base.fd
  | udp_in_udp ↦ held_fd self.kind
  | _ ↦ none
]

unfoldable pub drop_fd : Fd → M Client (Unit {0})
drop_fd none = pure tt
drop_fd (some fd) = release (some fd)

-- `hev_socks5_client_udp_destruct`, and those of its superclasses
unfoldable pub client_destruct : M Client (Unit {0})
unfolding drop_fd
client_destruct = do self ← get_self; drop_fd (held_fd self.kind); drop_fd self.base.fd

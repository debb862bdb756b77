-- ===== src/Client/Connect.antt =====
-- core/src/hev-socks5-client.c: connecting to a server, and the handshake.
use gen_net.Base.{ℕ, Bool, true, false, not, Option, none, some, List, if◌then◌else◌}
use gen_net.Addr.{Family, zero_addr}
use gen_net.Addr.Resolve.{Resolved, name_into_sockaddr6}
use gen_net.Net.{
  Fd, stream, Os, M, pure, fail, attempt, get_self, modify, ◌>>=◌, ◌>>◌, connect, resolver,
}
use gen_net.Socks5.{
  Socks5Type, udp_in_tcp, udp_in_udp, Timeouts, set_addr_family, release, socks5_socket,
}
use gen_net.Client.{Client, ClientClass, client_timeout, handshake_standard, handshake_pipeline}

-- the error paths give the socket back
unfoldable pub give_up : Fd → M Client (Unit {0})
give_up fd = do release fd; fail

abbrev pub is_none : Option (Unit {0}) → Bool
is_none none = true
is_none (some _) = false

abbrev pub is_udp : Socks5Type → Bool
is_udp udp_in_tcp = true
is_udp udp_in_udp = true
is_udp _ = false

-- the result that was kept
unfoldable pub result : Option (Unit {0}) → M Client (Unit {0})
result none = fail
result (some _) = pure tt

module _ (os : Os) (klass : ClientClass) (timeouts : Timeouts) where
  unfoldable pub client_put : Fd → Family → M Client (Unit {0})
  unfolding set_addr_family
  client_put fd f = modify (λ s. record s { base = set_addr_family f (record s.base { fd = fd }) })

  unfoldable pub connected_to : Resolved → M Client (Unit {0})
  unfolding give_up client_put
  connected_to x = if not x.found then fail else do
    fd ← socks5_socket os stream
    ready ← attempt (klass.client_binder fd x.saddr)
    if is_none ready
        then give_up fd
        else do ok ← connect os fd x.saddr; if not ok then give_up fd else client_put fd x.family

  -- `hev_socks5_client_connect`
  unfoldable pub client_connect : List ℕ → ℕ → M Client (Unit {0})
  unfolding connected_to client_timeout
  client_connect addr port = do
    client_timeout timeouts.connect_timeout
    self ← get_self
    r ← resolver os
    connected_to (name_into_sockaddr6 r addr port zero_addr self.base.addr_family)

  -- `hev_socks5_client_handshake`
  unfoldable pub client_handshake : Bool → M Client (Unit {0})
  unfolding client_timeout result
  client_handshake pipeline = do
    client_timeout timeouts.tcp_timeout
    res ← attempt (if pipeline then handshake_pipeline os klass else handshake_standard os klass)
    self ← get_self
    if is_udp self.base.type then client_timeout timeouts.udp_timeout else pure tt
    result res

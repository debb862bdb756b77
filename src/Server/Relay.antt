-- ===== src/Server/Relay.antt =====
-- core/src/hev-socks5-server.c: the sockets that the server opens for a request.
use gen_net.Base.{Bool, true, false, not, Option, none, some, replicate, if◌then◌else◌}
use gen_net.Addr.{SockAddr}
use gen_net.Net.{
  Fd, stream, dgram, reuseaddr, Os, M, pure, fail, attempt, get_self, modify, ◌>>=◌, ◌>>◌,
  setsockopt, bind, connect, getsockname,
}
use gen_net.Socks5.{Timeouts, socks5_socket, release}
use gen_net.Server.{Server, Class, put_timeout}

unfoldable pub put_fd0 : Fd → M Server (Unit {0})
put_fd0 fd = modify (λ s. record s { fd0 = fd })

unfoldable pub put_fd1 : Fd → M Server (Unit {0})
put_fd1 fd = modify (λ s. record s { fd1 = fd })

-- The error paths give the socket back.
unfoldable pub abandon : {A : Type 0} → Fd → M Server A
unfolding release
abandon fd = do release fd; fail

abbrev pub failed : Option (Unit {0}) → Bool
failed none = true
failed (some _) = false

module _ (os : Os) (klass : Class) (timeouts : Timeouts) where
  -- `hev_socks5_server_connect`
  unfoldable pub server_connect : SockAddr → M Server (Unit {0})
  unfolding put_timeout put_fd0 abandon
  server_connect addr = do
    fd ← socks5_socket os stream
    ready ← attempt (klass.binder fd addr)
    if failed ready then abandon fd else do
      put_timeout timeouts.connect_timeout
      ok ← connect os fd addr
      if not ok then abandon fd else do put_timeout timeouts.tcp_timeout; put_fd0 fd

  -- the second socket of `hev_socks5_server_bind`, and what its result is
  unfoldable pub bound_socket :
      Fd → SockAddr → Option (Bool × SockAddr) → M Server (Bool × SockAddr)
  unfolding put_fd1 release
  bound_socket fd old none = do release fd; pure (false, old)
  bound_socket fd old (some (true, addr)) = do put_fd1 fd; pure (true, addr)
  bound_socket fd old (some (false, addr)) = do release fd; pure (false, addr)

  unfoldable pub second_socket : SockAddr → Option Fd → M Server (Bool × SockAddr)
  unfolding bound_socket release
  second_socket addr none = pure (false, addr)
  second_socket addr (some fd) = do
    ok ← setsockopt os fd reuseaddr
    if ok
        then (do bound ← attempt (klass.udp_binder fd addr); bound_socket fd addr bound)
        else (do release fd; pure (false, addr))

  unfoldable pub first_socket : Bool → SockAddr → Option Fd → M Server (Bool × SockAddr)
  unfolding second_socket put_fd0
  first_socket given addr none = pure (false, addr)
  first_socket given addr (some fd) = do
    put_fd0 fd
    if not given
        then pure (true, addr)
        else do other ← attempt (socks5_socket os dgram); second_socket addr other

  -- `hev_socks5_server_bind`: whether it succeeds, and the address afterwards. The Boolean is
  -- whether the pointer to the address is not NULL.
  unfoldable pub server_bind : Bool → SockAddr → M Server (Bool × SockAddr)
  unfolding first_socket
  server_bind given addr = do fd ← attempt (socks5_socket os dgram); first_socket given addr fd

-- `src->sin6_port = 0`
abbrev pub any_port : SockAddr → SockAddr
any_port a = record a { port = replicate 2 0 }

module _ (os : Os) where
  unfoldable pub bound_name : SockAddr → Option SockAddr → M Server (Bool × SockAddr)
  bound_name a none = pure (false, a)
  bound_name a (some b) = pure (true, b)

  unfoldable pub named_socket : Fd → SockAddr → Option SockAddr → M Server (Bool × SockAddr)
  unfolding bound_name
  named_socket sock src none = pure (false, src)
  named_socket sock src (some a) = do
    ok ← bind os sock (any_port a)
    if not ok
        then pure (false, any_port a)
        else do name ← getsockname os sock; bound_name (any_port a) name

  -- `hev_socks5_server_udp_bind`
  unfoldable pub server_udp_bind : Fd → SockAddr → M Server (Bool × SockAddr)
  unfolding named_socket
  server_udp_bind sock src = do
    self ← get_self
    name ← getsockname os self.base.fd
    named_socket sock src name

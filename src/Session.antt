-- ===== src/Session.antt =====
-- hev-socks5-session.c and misc/hev-misc.c: the server's subclass that the program runs.
pub mod Laws
pub mod Mark
pub mod Whole
pub mod Ends
mod Examples
use gen_net.Base.{
  ℕ, ◌≡◌, ℤ, pos, Bool, true, false, not, ◌&&◌, ◌||◌, Option, none, some, List, ◌++◌, ◌==◌, take,
  drop, replicate, htons, get_or, if◌then◌else◌,
}
use gen_net.Addr.{
  Family, inet, inet6, unspec, SockAddr, zero_addr, v4_prefix, is_v4mapped, all_zero,
}
use gen_net.Addr.Resolve.{AddrInfo, Resolver}
use gen_net.User.{User}
use gen_net.Net.{
  Fd, Setting, v6only_on, reuseport, bind_device, mark, Os, M, pure, fail, attempt, get_self,
  modify, ◌>>=◌, ◌>>◌, setsockopt, bind, connect, getsockname, getpeername, resolver, note, crashed,
}
use gen_net.Socks5.{set_addr_family}
use gen_net.Server.{Server, Object, no_object, auth, user, Class, put_timeout, server_construct}

-- the settings that a session reads through `hev_config_get_…`, where none is NULL
pub record Config : Type 0 where
  pub bind_address : Family → Option (List ℕ)
  pub bind_interface : Option (List ℕ)
  pub socket_mark : ℕ
  pub udp_listen_address : Option (List ℕ)
  pub udp_listen_port : ℕ
  pub ipv6_only : Bool
  pub udp_public_address : Family → Option (List ℕ)
  pub address_family : Family

unfoldable pub from_result : Option AddrInfo → SockAddr → Bool × SockAddr
from_result none a = (false, a)
from_result (some i) a = elim i.ai_family [
  | inet ↦ (true, record { family = inet6; port = i.ai_port; addr = v4_prefix ++ take 4 i.ai_addr })
  | inet6 ↦ (true, record { family = inet6; port = i.ai_port; addr = i.ai_addr })
  | unspec ↦ (true, a)
]

-- `hev_netaddr_resolve` without a port: whether it succeeds, and what it leaves in the address
unfoldable pub netaddr_resolve : Resolver → SockAddr → List ℕ → Bool × SockAddr
unfolding from_result
netaddr_resolve r a name = from_result (r.getaddrinfo name unspec) a

-- `hev_netaddr_is_any`
unfoldable pub netaddr_is_any : SockAddr → Bool
netaddr_is_any a =
    if is_v4mapped a.addr then all_zero (take 4 (drop 12 a.addr)) else all_zero a.addr

abbrev pub family_of : SockAddr → Family
family_of a = if is_v4mapped a.addr then inet else inet6

-- The mark of `srv->user`, if that is not NULL. The pointer has to be one to a user.
unfoldable pub user_mark : Object → M Server ℕ
user_mark no_object = pure 0
user_mark (user u) = pure u.mark
user_mark (auth t) = do note crashed; fail

-- `hev_socks5_session_terminate`, which also wakes the task
unfoldable pub session_terminate : M Server (Unit {0})
session_terminate = put_timeout (pos 0)

unfoldable pub demand : Bool → M Server (Unit {0})
demand ok = if ok then pure tt else fail

module _ (os : Os) (config : Config) where
  unfoldable pub bind_source : Fd → Option (List ℕ) → M Server (Unit {0})
  unfolding demand
  bind_source fd none = pure tt
  bind_source fd (some name) = do
    r ← resolver os
    let (ok, a) = netaddr_resolve r zero_addr name
    if not ok then fail else do bound ← bind os fd a; demand bound

  -- by `set_sock_bind` on Linux, which copies at most 15 characters
  unfoldable pub bind_to_device : Fd → Option (List ℕ) → M Server (Unit {0})
  unfolding demand
  bind_to_device fd none = pure tt
  bind_to_device fd (some name) = do ok ← setsockopt os fd (bind_device (take 15 name)); demand ok

  -- the mark of the configuration, unless the user has one
  abbrev pub mark_or : ℕ → ℕ
  mark_or m = if m == 0 then config.socket_mark else m

  unfoldable pub set_mark : Fd → ℕ → M Server (Unit {0})
  unfolding demand
  set_mark fd m = if m == 0 then pure tt else do ok ← setsockopt os fd (mark m); demand ok

  -- `hev_socks5_session_bind`
  unfoldable pub session_bind : Fd → SockAddr → M Server (Unit {0})
  unfolding bind_source bind_to_device user_mark set_mark
  session_bind fd dest = do
    bind_source fd (config.bind_address (family_of dest))
    bind_to_device fd config.bind_interface
    self ← get_self
    m ← user_mark self.object
    set_mark fd (mark_or m)

  unfoldable pub put_associated : Bool → M Server (Unit {0})
  put_associated b = modify (λ s. record s { base = record s.base { udp_associated = b } })

  unfoldable pub wanted : Option SockAddr → M Server SockAddr
  wanted none = fail
  wanted (some a) = pure a

  -- the address that the socket for UDP is bound to, before its port is set
  unfoldable pub listen_on : Fd → Option (List ℕ) → M Server SockAddr
  unfolding wanted
  listen_on fd none = do name ← getsockname os fd; wanted name
  listen_on fd (some name) = do
    r ← resolver os
    let (ok, a) = netaddr_resolve r zero_addr name
    if ok then pure a else fail

  -- where the socket for UDP is connected to
  unfoldable pub peer_of : Fd → SockAddr → M Server SockAddr
  unfolding wanted
  peer_of fd dst =
      if not (netaddr_is_any dst)
      then pure dst
      else do name ← getpeername os fd; a ← wanted name; pure (record a { port = dst.port })

  -- the address that the client is told, with the port of the socket
  unfoldable pub published : SockAddr → Option (List ℕ) → M Server (Bool × SockAddr)
  published src none = pure (true, src)
  published src (some name) = do
    r ← resolver os
    let (ok, a) = netaddr_resolve r src name
    pure (ok, record a { port = src.port })

  unfoldable pub only_ipv6 : Fd → Bool → M Server (Unit {0})
  unfolding demand
  only_ipv6 sock false = pure tt
  only_ipv6 sock true = do ok ← setsockopt os sock v6only_on; demand ok

  -- `hev_socks5_session_udp_bind`
  unfoldable pub session_udp_bind : Fd → SockAddr → M Server (Bool × SockAddr)
  unfolding listen_on peer_of published only_ipv6 demand wanted put_associated
  session_udp_bind sock src = do
    self ← get_self
    shared ← setsockopt os sock reuseport
    demand shared
    only_ipv6 sock config.ipv6_only
    a ← listen_on self.base.fd config.udp_listen_address
    bound ← bind os sock (record a { port = htons config.udp_listen_port })
    demand bound
    dst ← peer_of self.base.fd src
    ok ← connect os sock dst
    demand ok
    put_associated (not (all_zero dst.port))
    name ← getsockname os sock
    src ← wanted name
    published src (config.udp_public_address (family_of src))

  -- the methods of `hev_socks5_session_class`, with the splicer of the UDP interface
  abbrev pub session_class : (Fd → M Server (Unit {0})) → Class
  session_class splicer = record {
    binder = session_bind;
    udp_binder = session_udp_bind;
    udp_splicer = splicer;
  }

  -- `hev_socks5_session_construct`
  unfoldable pub session_construct : Fd → Server
  unfolding server_construct set_addr_family
  session_construct fd =
      let s = server_construct fd in
      record s { base = set_addr_family config.address_family s.base }

-- ===== src/SocketFactory.antt =====
-- hev-socket-factory.c: the listening sockets, one for each worker.
pub mod Accounts
mod Examples
use gen_net.Base.{
  ℕ, zero, suc, [], ◌∷◌, Bool, true, false, not, ◌&&◌, Option, none, some, List, if◌then◌else◌,
}
use gen_net.Addr.{SockAddr, zero_addr}
use gen_net.Addr.Resolve.{AddrInfo}
use gen_net.Net.{
  Fd, stream, closed, reuseaddr, reuseport, fastopen, v6only_on, v6only_off, Os, M, pure, fail,
  attempt, get_self, modify, ◌>>=◌, ◌>>◌, socket, setsockopt, bind, listen, dup, note,
}
use gen_net.Session.{from_result}

-- `HevSocketFactory`
pub record SocketFactory : Type 0 where
  pub addr : SockAddr
  pub tcp_fastopen : Bool
  pub ipv6_only : Bool
  pub fd : Fd

if_resolved : Bool × SockAddr → Bool → Bool → Option SocketFactory
if_resolved (false, a) ipv6_only tcp_fastopen = none
if_resolved (true, a) ipv6_only tcp_fastopen =
    some (record { addr = a; tcp_fastopen = tcp_fastopen; ipv6_only = ipv6_only; fd = none })

-- `hev_socket_factory_new`: whether `calloc` succeeds, and what `getaddrinfo` answers for the address
-- and the port, are arguments.
unfoldable pub socket_factory_new : Bool → Option AddrInfo → Bool → Bool → Option SocketFactory
unfolding if_resolved from_result
socket_factory_new false info ipv6_only tcp_fastopen = none
socket_factory_new true info ipv6_only tcp_fastopen =
    if_resolved (from_result info zero_addr) ipv6_only tcp_fastopen

-- `close (self->fd)`, if it is there
unfoldable pub close_kept : Fd → M SocketFactory (Unit {0})
close_kept none = pure tt
close_kept (some fd) = note (closed (some fd))

-- `hev_socket_factory_destroy`
unfoldable pub socket_factory_destroy : M SocketFactory (Unit {0})
unfolding close_kept
socket_factory_destroy = do
  self ← get_self
  close_kept self.fd
  modify (λ f. record f { fd = none })

-- a descriptor, or `return -1`
unfoldable pub returned : Fd → M SocketFactory ℕ
returned none = fail
returned (some fd) = pure fd

-- `exit_close`
unfoldable pub close_and_fail : ℕ → M SocketFactory ℕ
close_and_fail fd = do note (closed (some fd)); fail

module _ (os : Os) where
  -- Where the port cannot be shared, a copy of the socket is kept.
  unfoldable pub keep_copy : ℕ → Bool → Fd → M SocketFactory (Unit {0})
  keep_copy fd false none = do copy ← dup os (some fd); modify (λ f. record f { fd = copy })
  keep_copy fd shared kept = pure tt

  unfoldable pub open_fast : ℕ → Bool → M SocketFactory Bool
  open_fast fd false = pure true
  open_fast fd true = setsockopt os (some fd) fastopen

  unfoldable pub listening : ℕ → M SocketFactory ℕ
  unfolding open_fast close_and_fail
  listening fd = do
    self ← get_self
    open_fast fd self.tcp_fastopen
    ok ← listen os (some fd)
    if ok then pure fd else close_and_fail fd

  unfoldable pub binding : ℕ → M SocketFactory ℕ
  unfolding listening close_and_fail
  binding fd = do
    self ← get_self
    ok ← bind os (some fd) self.addr
    if ok then listening fd else close_and_fail fd

  unfoldable pub sharing : ℕ → M SocketFactory ℕ
  unfolding keep_copy binding close_and_fail
  sharing fd = do
    shared ← setsockopt os (some fd) reuseport
    self ← get_self
    keep_copy fd shared self.fd
    ok ← setsockopt os (some fd) (if self.ipv6_only then v6only_on else v6only_off)
    if ok then binding fd else close_and_fail fd

  unfoldable pub opening : Fd → M SocketFactory ℕ
  unfolding sharing close_and_fail
  opening none = fail
  opening (some fd) = do
    ok ← setsockopt os (some fd) reuseaddr
    if ok then sharing fd else close_and_fail fd

  unfoldable pub get_from : Fd → M SocketFactory ℕ
  unfolding returned opening
  get_from none = do fd ← socket os stream; opening fd
  get_from (some kept) = do copy ← dup os (some kept); returned copy

  -- `hev_socket_factory_get`
  unfoldable pub socket_factory_get : M SocketFactory ℕ
  unfolding get_from
  socket_factory_get = do self ← get_self; get_from self.fd

  -- the loop of `hev_socks5_proxy_init` over its workers, which ends at the first that gets none
  unfoldable pub sockets_for : ℕ → M SocketFactory (List ℕ)
  unfolding socket_factory_get
  sockets_for zero = pure []
  sockets_for (suc k) = do
    r ← attempt socket_factory_get
    elim r [ none ↦ pure [] | some fd ↦ do rest ← sockets_for k; pure (fd ∷ rest) ]

  -- the start of the proxy, as far as the factory goes
  unfoldable pub sockets_of : ℕ → M SocketFactory (List ℕ)
  unfolding sockets_for socket_factory_destroy
  sockets_of k = do fds ← sockets_for k; socket_factory_destroy; pure fds

-- ===== src/Server.antt =====
-- core/src/hev-socks5-server.c: the server's side of one connection.
pub mod Request
pub mod Relay
pub mod Run
pub mod Closed
pub mod Terminated
pub mod Authorized
pub mod Descriptors
pub mod Ready
mod Examples
use gen_net.Base.{
  ℕ, suc, ◌+◌, ◌%◌, ℤ, pos, negsuc, Bool, true, false, not, ◌&&◌, ◌||◌, Option, none, some, List,
  [], ◌∷◌, ◌++◌, ◌==◌, length, get_or, take, replicate, if◌then◌else◌,
}
use gen_net.Addr.{Addr, Family, SockAddr, zero_addr}
use gen_net.Rbtree.{Tree}
use gen_net.User.{User, user_check}
use gen_net.Authenticator.{get}
use gen_net.Net.{
  Fd, Kind, stream, dgram, crashed, Os, M, pure, fail, attempt, get_self, modify, ◌>>=◌, ◌>>◌, send,
  getsockname, note,
}
use gen_net.Net
use gen_net.Socks5.{Socks5, Timeouts, socks5_construct, untyped, set_timeout, read}

-- the union of `obj`, `user` and `auth`, with what it points to
pub data Object : Type 0 where
  no_object : Object
  auth : Tree User → Object
  user : User → Object

-- `HevSocks5Server`, with `fds[0]` and `fds[1]`
pub record Server : Type 0 where
  pub base : Socks5
  pub fd0 : Fd
  pub fd1 : Fd
  pub object : Object

-- `HevSocks5ServerClass`: the methods that a subclass may replace, which are the two named `binder`
-- and the `splicer` of the UDP interface. A binder of UDP also writes to the address.
pub record Class : Type 0 where
  pub binder : Fd → SockAddr → M Server (Unit {0})
  pub udp_binder : Fd → SockAddr → M Server (Bool × SockAddr)
  pub udp_splicer : Fd → M Server (Unit {0})

-- `hev_socks5_server_construct`
unfoldable pub server_construct : Fd → Server
unfolding socks5_construct
server_construct fd = record {
  base = record (socks5_construct untyped) { fd = fd };
  fd0 = none;
  fd1 = none;
  object = no_object;
}

-- `hev_socks5_server_set_auth`
unfoldable pub set_auth : Tree User → Server → Server
set_auth t s = record s { object = auth t }

abbrev pub has_object : Object → Bool
has_object no_object = false
has_object _ = true

-- an assignment to one of the fields
unfoldable pub put_timeout : ℤ → M Server (Unit {0})
unfolding set_timeout
put_timeout t = modify (λ s. record s { base = set_timeout t s.base })

unfoldable pub put_object : Object → M Server (Unit {0})
put_object o = modify (λ s. record s { object = o })

unfoldable pub mem : ℕ → List ℕ → Bool
mem m [] = false
mem m (x ∷ xs) = (x == m) || mem m xs

-- The low byte of a result, of which none is -1.
abbrev pub byte_of : Option ℕ → ℕ
byte_of none = 255
byte_of (some m) = m % 256

-- the byte of a status, which is 0 or -1
abbrev pub status_byte : Option (Unit {0}) → ℕ
status_byte none = 255
status_byte (some _) = 0

unfoldable pub checked : Bool → M Server (Unit {0})
checked ok = if ok then pure tt else fail

unfoldable pub settle : Option (Unit {0}) → M Server (Unit {0})
settle none = fail
settle (some _) = pure tt

-- the end of `hev_socks5_server_read_auth_user`, behind the lookup
unfoldable pub admit : Option User → List ℕ → M Server (Unit {0})
unfolding put_object
admit none pass = fail
admit (some u) pass = if user_check u pass then put_object (user u) else fail

-- The lookup goes through `self->auth`, which has to point to an authenticator.
unfoldable pub look_up : Object → List ℕ → List ℕ → M Server (Unit {0})
unfolding admit
look_up (auth t) name pass = admit (get t name) pass
look_up _ name pass = do note crashed; fail

module _ (os : Os) where
  -- `hev_socks5_server_read_auth_method`
  unfoldable pub read_auth_method : M Server ℕ
  unfolding mem
  read_auth_method = do
    self ← get_self
    head ← read os self.base.fd 2
    if not (get_or head 0 0 == 5) then fail else do
      methods ← read os self.base.fd (get_or head 1 0)
      let method = if has_object self.object then 2 else 0
      if mem method methods then pure method else fail

  -- `hev_socks5_server_write_auth_method`
  unfoldable pub write_auth_method : Option ℕ → M Server (Unit {0})
  unfolding checked
  write_auth_method method = do
    self ← get_self
    ok ← send os self.base.fd (5 ∷ byte_of method ∷ [])
    checked ok

  -- `hev_socks5_server_read_auth_user`
  unfoldable pub read_auth_user : M Server (Unit {0})
  unfolding look_up
  read_auth_user = do
    self ← get_self
    head ← read os self.base.fd 2
    let nlen = get_or head 1 0
    if not (get_or head 0 0 == 1) || (nlen == 0) then fail else do
      name ← read os self.base.fd (nlen + 1)
      let plen = get_or name nlen 0
      if plen == 0
          then fail
          else do pass ← read os self.base.fd plen; look_up self.object (take nlen name) pass

  -- `hev_socks5_server_write_auth_user`
  unfoldable pub write_auth_user : Option (Unit {0}) → M Server (Unit {0})
  unfolding checked
  write_auth_user res = do
    self ← get_self
    ok ← send os self.base.fd (1 ∷ status_byte res ∷ [])
    checked ok

  -- the branch of `hev_socks5_server_auth` for a password: both results are or'ed
  unfoldable pub authenticate : M Server (Unit {0})
  unfolding read_auth_user write_auth_user settle
  authenticate = do res ← attempt read_auth_user; write_auth_user res; settle res

  unfoldable pub chosen : Option ℕ → M Server (Unit {0})
  unfolding authenticate
  chosen none = fail
  chosen (some m) = if m == 0 then pure tt else if m == 2 then authenticate else fail

  -- `hev_socks5_server_auth`
  unfoldable pub server_auth : M Server (Unit {0})
  unfolding read_auth_method write_auth_method chosen
  server_auth = do method ← attempt read_auth_method; write_auth_method method; chosen method

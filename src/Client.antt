-- ===== src/Client.antt =====
-- core/src/hev-socks5-client.c, hev-socks5-client-tcp.c and hev-socks5-client-udp.c: the client's
-- side of the protocol.
pub mod Connect
pub mod Kinds
pub mod Wire
pub mod Exchange
pub mod Granted
mod Examples
use gen_net.Base.{
  ℕ, ◌+◌, ◌%◌, ℤ, Bool, true, false, not, ◌||◌, Option, none, some, List, [], ◌∷◌, ◌++◌, ◌==◌,
  length, get_or, take, if◌then◌else◌,
}
use gen_net.Addr.{Addr, Family, SockAddr, zero_addr, addr_len, image}
use gen_net.Addr.Resolve.{Resolved, name_into_sockaddr6}
use gen_net.Net.{
  Fd, stream, crashed, Os, M, pure, fail, attempt, get_self, modify, ◌>>=◌, ◌>>◌, send, connect,
  resolver, note,
}
use gen_net.Socks5.{
  Socks5, Socks5Type, untyped, tcp, udp_in_tcp, udp_in_udp, Timeouts, socks5_construct, set_timeout,
  set_addr_family, read, release, socks5_socket,
}

-- what a subclass adds: nothing, the address of `HevSocks5ClientTCP`, or the socket of
-- `HevSocks5ClientUDP`
pub data Kind : Type 0 where
  bare : Kind
  tcp_client : Option Addr → Kind
  udp_client : Fd → Kind

-- `HevSocks5Client`. The strings `auth.user` and `auth.pass` are there or NULL.
pub record Client : Type 0 where
  pub base : Socks5
  pub name : Option (List ℕ)
  pub pass : Option (List ℕ)
  pub kind : Kind

-- `HevSocks5ClientClass`; the address may be NULL
pub record ClientClass : Type 0 where
  pub client_binder : Fd → SockAddr → M Client (Unit {0})
  pub get_upstream_addr : M Client (Option Addr)
  pub set_upstream_addr : Addr → M Client (Unit {0})

-- `hev_socks5_client_construct`, with what the subclass adds
unfoldable pub client_construct : Socks5Type → Kind → Client
unfolding socks5_construct
client_construct type kind = record {
  base = socks5_construct type;
  name = none;
  pass = none;
  kind = kind;
}

-- `hev_socks5_client_set_auth`
unfoldable pub client_set_auth : Option (List ℕ) → Option (List ℕ) → Client → Client
client_set_auth name pass s = record s { name = name; pass = pass }

unfoldable pub client_timeout : ℤ → M Client (Unit {0})
unfolding set_timeout
client_timeout t = modify (λ s. record s { base = set_timeout t s.base })

-- the credentials, if neither is NULL
abbrev pub credentials : Client → Option (List ℕ × List ℕ)
credentials s = elim s.name [
  | none ↦ none
  | some name ↦ elim s.pass [ none ↦ none | some pass ↦ some (name, pass) ]
]

-- `auth.methods[0]`
abbrev pub method_of : Option (List ℕ × List ℕ) → ℕ
method_of none = 0
method_of (some _) = 2

-- the message of `hev_socks5_client_write_auth_creds`, whose lengths are bytes
unfoldable pub creds_message : List ℕ × List ℕ → List ℕ
creds_message (name, pass) =
    let n = length name % 256 in
    let p = length pass % 256 in 1 ∷ n ∷ (take n name ++ (p ∷ take p pass))

-- `req.cmd`
abbrev pub cmd_of : Socks5Type → Option ℕ
cmd_of untyped = none
cmd_of tcp = some 1
cmd_of udp_in_tcp = some 5
cmd_of udp_in_udp = some 3

-- the message of `hev_socks5_client_write_request`
abbrev pub request_message : ℕ → Addr → ℕ → List ℕ
request_message cmd a n = 5 ∷ cmd ∷ 0 ∷ image a n

-- the length of the address in a response, behind its type
abbrev pub response_rest : ℕ → Option ℕ
response_rest atype = if atype == 1 then some 6 else if atype == 4 then some 18 else none

unfoldable pub written : Bool → M Client (Unit {0})
written ok = if ok then pure tt else fail

module _ (os : Os) where
  -- `hev_socks5_client_write_auth_methods`
  unfoldable pub write_auth_methods : M Client (Unit {0})
  unfolding written
  write_auth_methods = do
    self ← get_self
    ok ← send os self.base.fd (5 ∷ 1 ∷ method_of (credentials self) ∷ [])
    written ok

  unfoldable pub write_creds : Fd → Option (List ℕ × List ℕ) → M Client (Unit {0})
  unfolding written creds_message
  write_creds fd none = pure tt
  write_creds fd (some c) = do ok ← send os fd (creds_message c); written ok

  -- `hev_socks5_client_write_auth_creds`
  unfoldable pub write_auth_creds : M Client (Unit {0})
  unfolding write_creds
  write_auth_creds = do self ← get_self; write_creds self.base.fd (credentials self)

  -- `hev_socks5_client_read_auth_method`
  unfoldable pub read_method : M Client ℕ
  read_method = do
    self ← get_self
    auth ← read os self.base.fd 2
    if get_or auth 0 0 == 5 then pure (get_or auth 1 0) else fail

  -- `hev_socks5_client_read_auth_creds`
  unfoldable pub read_auth_creds : M Client (Unit {0})
  read_auth_creds = do
    self ← get_self
    res ← read os self.base.fd 2
    if not (get_or res 0 0 == 1) || not (get_or res 1 0 == 0) then fail else pure tt

module _ (os : Os) (klass : ClientClass) where
  unfoldable pub sent_request : ℕ → Addr → Option ℕ → M Client (Unit {0})
  unfolding written
  sent_request cmd a none = fail
  sent_request cmd a (some n) = do
    self ← get_self
    ok ← send os self.base.fd (request_message cmd a n)
    written ok

  -- The address is read through the pointer that the method returned.
  unfoldable pub to_upstream : ℕ → Option Addr → M Client (Unit {0})
  unfolding sent_request
  to_upstream cmd none = do note crashed; fail
  to_upstream cmd (some a) = sent_request cmd a (addr_len a)

  unfoldable pub request : Option ℕ → M Client (Unit {0})
  unfolding to_upstream
  request none = fail
  request (some cmd) = do a ← klass.get_upstream_addr; to_upstream cmd a

  -- `hev_socks5_client_write_request`
  unfoldable pub write_request : M Client (Unit {0})
  unfolding request
  write_request = do self ← get_self; request (cmd_of self.base.type)

  unfoldable pub response : List ℕ → Option ℕ → M Client (Unit {0})
  response res none = fail
  response res (some n) = do
    self ← get_self
    rest ← read os self.base.fd n
    klass.set_upstream_addr (record { atype = get_or res 3 0; body = rest })

  -- `hev_socks5_client_read_response`
  unfoldable pub read_response : M Client (Unit {0})
  unfolding response
  read_response = do
    self ← get_self
    res ← read os self.base.fd 4
    if not (get_or res 0 0 == 5) || not (get_or res 1 0 == 0)
        then fail
        else response res (response_rest (get_or res 3 0))

  -- `hev_socks5_client_handshake_standard`
  unfoldable pub handshake_standard : M Client (Unit {0})
  handshake_standard = do
    write_auth_methods os
    method ← read_method os
    if method == 2
        then (do write_auth_creds os; read_auth_creds os)
        else if method == 0
        then pure tt
        else fail
    write_request
    read_response

  -- `hev_socks5_client_handshake_pipeline`
  unfoldable pub handshake_pipeline : M Client (Unit {0})
  handshake_pipeline = do
    write_auth_methods os
    write_auth_creds os
    write_request
    method ← read_method os
    if method == 2 then read_auth_creds os else if method == 0 then pure tt else fail
    read_response

-- ===== src/Server/Request.antt =====
-- core/src/hev-socks5-server.c: reading the request and writing the response.
use gen_net.Base.{ℕ, ◌+◌, Option, none, some, List, [], ◌∷◌, ◌==◌, get_or, if◌then◌else◌}
use gen_net.Addr.{Addr, Family, SockAddr, domain_len, image, addr_from_sockaddr6}
use gen_net.Addr.Resolve.{Resolved, addr_into_sockaddr6}
use gen_net.Net.{Os, M, pure, attempt, get_self, modify, ◌>>=◌, ◌>>◌, send, resolver}
use gen_net.Socks5.{set_addr_family, read}
use gen_net.Server.{Server, checked}

abbrev pub succ : ℕ
succ = 0

abbrev pub general_fail : ℕ
general_fail = 1

abbrev pub host : ℕ
host = 4

abbrev pub impl : ℕ
impl = 7

abbrev pub bad_addr : ℕ
bad_addr = 8

-- what `hev_socks5_server_read_request` gives its caller through the pointers
pub record Request : Type 0 where
  pub cmd : ℕ
  pub rep : ℕ
  pub addr : SockAddr

unfoldable pub put_family : Family → M Server (Unit {0})
unfolding set_addr_family
put_family f = modify (λ s. record s { base = set_addr_family f s.base })

-- the length of the rest of the address, behind its first two bytes
unfoldable pub addr_rest : Addr → Option ℕ
addr_rest a =
    if a.atype == 1
    then some 5
    else if a.atype == 4
    then some 17
    else if a.atype == 3
    then some (2 + domain_len a)
    else none

-- `req.addr`, from the first five bytes of the request and those that follow
abbrev pub req_addr : List ℕ → List ℕ → Addr
req_addr req rest = record { atype = get_or req 3 0; body = get_or req 4 0 ∷ rest }

module _ (os : Os) where
  unfoldable pub resolved_request : ℕ → Request → Resolved → M Server Request
  unfolding put_family
  resolved_request cmd q x =
      if x.found
      then (do put_family x.family; pure (record { cmd = cmd; rep = q.rep; addr = x.saddr }))
      else pure (record q { rep = bad_addr; addr = x.saddr })

  unfoldable pub with_rest : List ℕ → Request → Option (List ℕ) → M Server Request
  unfolding resolved_request
  with_rest req q none = pure (record q { rep = bad_addr })
  with_rest req q (some rest) = do
    self ← get_self
    r ← resolver os
    let x = addr_into_sockaddr6 r (req_addr req rest) q.addr self.base.addr_family
    resolved_request (get_or req 1 0) q x

  unfoldable pub more_of : List ℕ → Request → Option ℕ → M Server Request
  unfolding with_rest
  more_of req q none = pure (record q { rep = bad_addr })
  more_of req q (some n) = do
    self ← get_self
    rest ← attempt (read os self.base.fd n)
    with_rest req q rest

  unfoldable pub versioned : List ℕ → Request → M Server Request
  unfolding more_of addr_rest
  versioned req q =
      if get_or req 0 0 == 5
      then more_of req q (addr_rest (req_addr req []))
      else pure (record q { rep = general_fail })

  -- `hev_socks5_server_read_request`, with what the pointers hold before and after
  unfoldable pub read_request : Request → M Server Request
  unfolding versioned
  read_request q = do self ← get_self; req ← read os self.base.fd 5; versioned req q

  -- `hev_socks5_server_write_response`
  unfoldable pub write_response : ℕ → SockAddr → M Server (Unit {0})
  unfolding checked
  write_response rep addr = do
    self ← get_self
    let (a, n) = addr_from_sockaddr6 addr
    ok ← send os self.base.fd (5 ∷ rep ∷ 0 ∷ image a n)
    checked ok

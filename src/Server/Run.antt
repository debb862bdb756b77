-- ===== src/Server/Run.antt =====
-- core/src/hev-socks5-server.c: the whole connection, from the handshake to the destructor.
use gen_net.Base.{ℕ, Bool, true, false, not, Option, none, some, ◌==◌, if◌then◌else◌}
use gen_net.Addr.{SockAddr, zero_addr}
use gen_net.Net.{Fd, Os, M, pure, fail, attempt, get_self, modify, ◌>>=◌, ◌>>◌}
use gen_net.Socks5.{
  Socks5Type, untyped, tcp, udp_in_tcp, udp_in_udp, Timeouts, release, watch, tcp_splice,
}
use gen_net.Server.{Server, no_object, Class, put_timeout, put_object, server_auth}
use gen_net.Server.Request.{succ, general_fail, host, impl, Request, read_request, write_response}
use gen_net.Server.Relay.{server_connect, server_bind, server_udp_bind}

unfoldable pub put_type : Socks5Type → M Server (Unit {0})
put_type t = modify (λ s. record s { base = record s.base { type = t } })

-- the reply that a status makes: of success, or the one of its error
abbrev pub reply_of : ℕ → Option (Unit {0}) → ℕ
reply_of error none = error
reply_of error (some _) = succ

abbrev pub bind_reply : Bool → ℕ
bind_reply ok = if ok then succ else general_fail

module _ (os : Os) (klass : Class) (timeouts : Timeouts) where
  -- The switch of `hev_socks5_server_handshake`, which gives the reply and the address. It is
  -- reached only if the reply is one of success so far.
  unfoldable pub perform : Request → M Server (ℕ × SockAddr)
  unfolding put_type
  perform q =
      if not (q.rep == succ)
      then pure (q.rep, q.addr)
      else if q.cmd == 1
      then (do
        res ← attempt (server_connect os klass timeouts q.addr)
        put_type tcp
        pure (reply_of host res, q.addr))
      else if q.cmd == 3
      then (do
        (ok, addr) ← server_bind os klass timeouts true q.addr
        put_type udp_in_udp
        pure (bind_reply ok, addr))
      else if q.cmd == 5
      then (do
        (ok, addr) ← server_bind os klass timeouts false q.addr
        put_type udp_in_tcp
        pure (bind_reply ok, q.addr))
      else pure (impl, q.addr)

  -- `hev_socks5_server_handshake`, with what its variable `cmd` holds before it is assigned
  unfoldable pub handshake : ℕ → M Server (Unit {0})
  unfolding perform
  handshake cmd = do
    put_timeout timeouts.tcp_timeout
    server_auth os
    q ← read_request os (record { cmd = cmd; rep = succ; addr = zero_addr })
    (rep, addr) ← perform q
    write_response os rep addr
    if rep == succ then pure tt else fail

  unfoldable pub relay : Fd → M Server (Unit {0})
  unfolding put_timeout
  relay fd = do put_timeout timeouts.udp_timeout; _ ← attempt (klass.udp_splicer fd); pure tt

  unfoldable pub serve : Socks5Type → Server → M Server (Unit {0})
  unfolding relay
  serve untyped self = fail
  serve tcp self = do _ ← attempt (tcp_splice os self.base.fd self.fd0); pure tt
  serve _ self = relay self.fd0

  -- `hev_socks5_server_service`
  unfoldable pub service : M Server (Unit {0})
  unfolding serve
  service = do self ← get_self; serve self.base.type self

  -- `hev_socks5_server_run`
  unfoldable pub run : ℕ → M Server (Unit {0})
  unfolding handshake service
  run cmd = do self ← get_self; watch os self.base.fd; handshake cmd; service

-- `hev_socks5_server_get_fd`
unfoldable pub get_fd : Server → Fd
get_fd self = elim self.base.type [ udp_in_tcp ↦ self.base.fd | udp_in_udp ↦ self.fd1 | _ ↦ none ]

unfoldable pub give_back : Fd → M Server (Unit {0})
unfolding release
give_back none = pure tt
give_back (some fd) = release (some fd)

-- `hev_socks5_server_destruct` and, at the end, `hev_socks5_destruct`
unfoldable pub destruct : M Server (Unit {0})
unfolding give_back put_object
destruct = do
  self ← get_self
  give_back self.fd0
  give_back self.fd1
  put_object no_object
  give_back self.base.fd

-- `hev_socks5_session_task_entry` of hev-socks5-worker.c, which also takes the session from a list:
-- the run, and then the destructor
unfoldable pub connection : Os → Class → Timeouts → ℕ → M Server (Unit {0})
connection os klass timeouts cmd = do _ ← attempt (run os klass timeouts cmd); destruct

-- the methods of `hev_socks5_server_class`, with the splicer of the UDP interface
abbrev pub server_class : Os → (Fd → M Server (Unit {0})) → Class
server_class os splicer = record {
  binder = λ fd addr. pure tt;
  udp_binder = server_udp_bind os;
  udp_splicer = splicer;
}

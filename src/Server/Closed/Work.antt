-- ===== src/Server/Closed/Work.antt =====
-- core/src/hev-socks5-server.c: relations between states, for requests and sockets.
pub mod Run
use gen_net.Base.{ℕ, ℤ, Bool, true, false, not, Option, none, some, List, ◌==◌, if◌then◌else◌}
use gen_net.Rbtree.{Tree}
use gen_net.Addr.{Family, SockAddr}
use gen_net.Addr.Resolve.{Resolved}
use gen_net.User.{User}
use gen_net.Authenticator.{get}
use gen_net.Net.{
  Fd, Kind, stream, dgram, crashed, bound, named, Setting, v6only_off, rcvbuf, reuseaddr, opened,
  configured, watched, connected, Event, Log, Os, State, M, pure, fail, attempt, get_self, call,
  look, ◌>>=◌, ◌>>◌, recv, send, socket, setsockopt, add_fd, connect, bind, getsockname, resolver,
  note,
}
use gen_net.Net.Steps.{
  IsPreorder, Steps, Steps-pure, Steps-fail, Steps-get_self, Steps-look, Steps-attempt, Steps-if,
  Steps-bind,
}
use gen_net.Socks5.{
  Socks5Type, untyped, tcp, udp_in_tcp, udp_in_udp, Timeouts, whole, read, watch, configure, made,
  socks5_socket, release, tcp_splice,
}
use gen_net.Server.{
  Server, Object, no_object, auth, user, Class, put_timeout, put_object, checked, settle, admit,
  look_up, read_auth_method, write_auth_method, read_auth_user, write_auth_user, authenticate,
  chosen, server_auth,
}
use gen_net.Server.Request.{
  succ, Request, put_family, resolved_request, with_rest, more_of, versioned, read_request,
  write_response,
}
use gen_net.Server.Relay.{
  put_fd0, put_fd1, abandon, server_connect, bound_socket, second_socket, first_socket, server_bind,
  bound_name, named_socket, server_udp_bind, any_port,
}
use gen_net.Server.Run.{
  put_type, perform, handshake, relay, serve, service, run, give_back, destruct, server_class,
}
use gen_net.Server.Closed.{Talks, Works, Methods, Plain, IsPlain, Steps-read, Steps-checked}

module _ {os : Os} {R : State Server → State Server → Type 0} (plain : Plain os R) where
  ppo : IsPreorder R
  ppo = plain.talks.order

  pub Steps-note : (e : Event) → IsPlain e → Steps R (note {S = Server} e)
  unfolding note
  Steps-note e p = plain.calls (λ _. tt) (λ _. e) (λ _. p)

  pub Steps-option : (fd : Fd) (o : Setting) → Steps R (setsockopt {S = Server} os fd o)
  unfolding setsockopt
  Steps-option fd o = plain.calls (λ log. os.setsockopt log fd o) (configured fd o) (λ _. tt)

  Steps-with_rest :
      (req : List ℕ) (q : Request) (r : Option (List ℕ)) → Steps R (with_rest os req q r)
  unfolding with_rest resolved_request resolver
  Steps-with_rest req q none = Steps-pure ppo _
  Steps-with_rest req q (some rest) = Steps-bind ppo (Steps-get_self ppo) λ s.
      Steps-bind ppo (Steps-look ppo os.resolver) λ r.
        Steps-if ppo _ (Steps-bind ppo (plain.family _) λ _. Steps-pure ppo _) (Steps-pure ppo _)

  Steps-more_of : (req : List ℕ) (q : Request) (r : Option ℕ) → Steps R (more_of os req q r)
  unfolding more_of
  Steps-more_of req q none = Steps-pure ppo _
  Steps-more_of req q (some n) = Steps-bind ppo (Steps-get_self ppo) λ s.
      Steps-bind ppo (Steps-attempt ppo (Steps-read plain.talks s.base.fd n))
        λ rest. Steps-with_rest req q rest

  pub Steps-read_request : (q : Request) → Steps R (read_request os q)
  unfolding read_request versioned
  Steps-read_request q = Steps-bind ppo (Steps-get_self ppo) λ s.
      Steps-bind ppo (Steps-read plain.talks s.base.fd 5)
        λ req. Steps-if ppo _ (Steps-more_of req q _) (Steps-pure ppo _)

  pub Steps-write_response : (rep : ℕ) (a : SockAddr) → Steps R (write_response os rep a)
  unfolding write_response
  Steps-write_response rep a =
      Steps-bind ppo (Steps-get_self ppo)
        λ s. Steps-bind ppo (plain.talks.sent s.base.fd _) λ ok. Steps-checked plain.talks ok

  pub Steps-watch : (fd : Fd) → Steps R (watch {S = Server} os fd)
  unfolding watch add_fd
  Steps-watch fd =
      Steps-bind ppo (plain.calls (λ log. os.add_fd log fd) (watched fd) (λ _. tt))
        λ ok. Steps-if ppo ok (Steps-pure ppo tt) (Steps-note _ tt)

  pub Steps-configure : (k : Kind) (fd : Fd) → Steps R (configure {S = Server} os k fd)
  unfolding configure
  Steps-configure stream fd = Steps-pure ppo tt
  Steps-configure dgram fd = Steps-bind ppo (Steps-option fd rcvbuf) λ _. Steps-pure ppo tt

  pub Steps-tcp_splice : (c fd : Fd) → Steps R (tcp_splice {S = Server} os c fd)
  unfolding tcp_splice
  Steps-tcp_splice none fd = Steps-fail ppo
  Steps-tcp_splice (some c) fd = Steps-bind ppo (Steps-watch fd) λ _. Steps-note _ tt

  Steps-bound_name : (a : SockAddr) (o : Option SockAddr) → Steps R (bound_name os a o)
  unfolding bound_name
  Steps-bound_name a none = Steps-pure ppo _
  Steps-bound_name a (some b) = Steps-pure ppo _

  Steps-named_socket :
      (sock : Fd) (src : SockAddr) (o : Option SockAddr) → Steps R (named_socket os sock src o)
  unfolding named_socket bind getsockname
  Steps-named_socket sock src none = Steps-pure ppo _
  Steps-named_socket sock src (some a) =
      Steps-bind ppo
        (plain.calls (λ log. os.bind log sock (any_port a)) (bound sock (any_port a)) (λ _. tt))
        λ ok. Steps-if ppo _ (Steps-pure ppo _) (
          Steps-bind ppo (plain.calls (λ log. os.getsockname log sock) (named sock) (λ _. tt))
            λ name. Steps-bound_name _ name)

  Steps-server_udp_bind : (sock : Fd) (src : SockAddr) → Steps R (server_udp_bind os sock src)
  unfolding server_udp_bind getsockname
  Steps-server_udp_bind sock src = Steps-bind ppo (Steps-get_self ppo) λ s.
      Steps-bind ppo (plain.calls (λ log. os.getsockname log s.base.fd) (named s.base.fd) (λ _. tt))
        λ name. Steps-named_socket sock src name

  -- the server's own class, with a splicer that keeps it
  pub Methods-server_class :
      {splicer : Fd → M Server (Unit {0})}
      → ((fd : Fd) → Steps R (splicer fd))
      → Methods (server_class os splicer) R
  Methods-server_class spliced = record {
    binder = λ fd a. Steps-pure ppo tt;
    udp_binder = λ fd a. Steps-server_udp_bind fd a;
    udp_splicer = spliced;
  }

  module _ {klass : Class} (methods : Methods klass R) (timeouts : Timeouts) where
    Steps-relay : (fd : Fd) → Steps R (relay os klass timeouts fd)
    unfolding relay
    Steps-relay fd =
        Steps-bind ppo (plain.timeout _)
          λ _. Steps-bind ppo (Steps-attempt ppo (methods.udp_splicer fd)) λ _. Steps-pure ppo tt

    Steps-serve : (t : Socks5Type) (s : Server) → Steps R (serve os klass timeouts t s)
    unfolding serve
    Steps-serve untyped s = Steps-fail ppo
    Steps-serve tcp s =
        Steps-bind ppo (Steps-attempt ppo (Steps-tcp_splice _ _)) λ _. Steps-pure ppo tt
    Steps-serve udp_in_tcp s = Steps-relay s.fd0
    Steps-serve udp_in_udp s = Steps-relay s.fd0

    pub Steps-service : Steps R (service os klass timeouts)
    unfolding service
    Steps-service = Steps-bind ppo (Steps-get_self ppo) λ s. Steps-serve s.base.type s

module _ {os : Os} {R : State Server → State Server → Type 0} (works : Works os R) where
  wpo : IsPreorder R
  wpo = works.plain.talks.order

  pub Steps-release : (fd : Fd) → Steps R (release {S = Server} fd)
  unfolding release
  Steps-release fd = Steps-bind wpo (Steps-note works.plain _ tt) λ _. works.closes _

  Steps-made : (k : Kind) (fd : Fd) → Steps R (made {S = Server} os k fd)
  unfolding made
  Steps-made k none = Steps-fail wpo
  Steps-made k (some n) = Steps-bind wpo (Steps-option works.plain (some n) v6only_off) λ ok.
      Steps-if wpo ok
        (Steps-bind wpo (Steps-watch works.plain (some n))
          λ _. Steps-bind wpo (Steps-configure works.plain k (some n)) λ _. Steps-pure wpo _)
        (Steps-bind wpo (works.closes _) λ _. Steps-fail wpo)

  pub Steps-socks5_socket : (k : Kind) → Steps R (socks5_socket {S = Server} os k)
  unfolding socks5_socket
  Steps-socks5_socket k = Steps-bind wpo (works.opens k) λ fd. Steps-made k fd

  pub Steps-abandon : {A : Type 0} (fd : Fd) → Steps R (abandon {A = A} fd)
  unfolding abandon
  Steps-abandon fd = Steps-bind wpo (Steps-release fd) λ _. Steps-fail wpo

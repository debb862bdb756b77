-- ===== src/SocketFactory/Examples.antt =====
-- hev-socket-factory.c: three sockets where the port cannot be shared, and a failed `bind`.
use gen_net.Base.{◌≡◌, refl, Bool, true, false, Option, none, some, [], ◌∷◌, length}
use gen_net.Addr.{inet6, zero_addr}
use gen_net.Addr.Resolve.{AddrInfo}
use gen_net.Net.{reuseport, Os, ◌>>=◌, socket, setsockopt, bind, listen, dup, note}
use gen_net.Net.Triples.{Ends}
use gen_net.Session.{from_result}
use gen_net.SocketFactory.{
  SocketFactory, socket_factory_new, close_kept, socket_factory_destroy, returned, close_and_fail,
  keep_copy, open_fast, listening, binding, sharing, opening, get_from, socket_factory_get,
  sockets_for, sockets_of,
}
use gen_net.SocketFactory.Accounts.{among}
use gen_net.SocketFactory.Accounts.Whole.{Left, sockets_of-Left}

-- the answers: a new descriptor is the length of the log
abbrev system : Bool → Os
system binds = record {
  recv = λ log fd n. none;
  send = λ log fd bytes. false;
  socket = λ log kind. some (length log);
  setsockopt = λ log fd o. elim o [ reuseport ↦ false | _ ↦ true ];
  add_fd = λ log fd. false;
  bind = λ log fd a. binds;
  connect = λ log fd a. false;
  listen = λ log fd. true;
  dup = λ log fd. some (length log);
  getsockname = λ log fd. none;
  getpeername = λ log fd. none;
  resolver = λ log. record {
    inet_pton4 = λ name. none;
    inet_pton6 = λ name. none;
    getaddrinfo = λ name family. none;
  };
}

abbrev answer : Option AddrInfo
answer = some (record { ai_family = inet6; ai_addr = zero_addr.addr; ai_port = 4 ∷ 56 ∷ [] })

abbrev factory : SocketFactory
factory = record {
  addr = record { family = inet6; addr = zero_addr.addr; port = 4 ∷ 56 ∷ [] };
  tcp_fastopen = true;
  ipv6_only = false;
  fd = none;
}

factory_made : socket_factory_new true answer false true ≡ some factory
unfolding socket_factory_new from_result
factory_made = refl

sockets_of-Left_example :
    Ends
      (λ fds s. Left 3 (among 3 fds) s)
      (λ _. ⊥)
      (sockets_of (system true) 3 (record { self = factory; log = [] }))
sockets_of-Left_example = sockets_of-Left (system true) 3 3 answer false true factory factory_made

three_sockets :
    (sockets_of (system true) 3 (record { self = factory; log = [] })).0 ≡ some (0 ∷ 8 ∷ 9 ∷ [])
unfolding sockets_of sockets_for socket_factory_get get_from opening sharing binding listening
    open_fast keep_copy close_and_fail returned socket_factory_destroy close_kept ◌>>=◌ socket
    setsockopt dup bind listen note
three_sockets = refl

-- The first call fails, and the second one gives a copy of a socket that was never bound.
unbound_copy :
    let first = socket_factory_get (system false) (record { self = factory; log = [] }) in
    (first.0 ≡ none) × ((socket_factory_get (system false) first.1).0 ≡ some 7)
unfolding socket_factory_get get_from opening sharing binding listening open_fast keep_copy
    close_and_fail returned ◌>>=◌ socket setsockopt dup bind listen note
unbound_copy = (refl, refl)

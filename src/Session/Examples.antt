-- ===== src/Session/Examples.antt =====
-- hev-socks5-session.c with a configuration that marks sockets.
use gen_net.Base.{ℕ, ◌+◌, ◌<◌, ◌≡◌, refl, pos, true, false, none, some, [], ◌∷◌, arith}
use gen_net.Rbtree.{Tree, black, leaf, node}
use gen_net.Addr.{unspec, zero_addr}
use gen_net.User.{User}
use gen_net.Net.{configured, mark, Os, State, pure, get_self, call, ◌>>=◌, setsockopt}
use gen_net.Net.Triples.{Has}
use gen_net.Socks5.{Timeouts, udp_in_udp}
use gen_net.Server.{Server, user, server_construct}
use gen_net.Server.Run.{run, connection}
use gen_net.Server.Authorized.{Verified, Guarded}
use gen_net.Server.Descriptors.{counts, opens, closes}
use gen_net.Session.{Config, session_bind, bind_source, bind_to_device, user_mark, set_mark, demand}
use gen_net.Session.Mark.{session_bind-marks}
use gen_net.Session.Whole.{started, relaying, session-Guarded}
use gen_net.Udp.{gave, error, UdpOs, udp_fd, recvmmsg, task_io, wait, sendmmsg, udp_yielder}
use gen_net.Udp.Datagrams.{udp_recvmmsg, udp_sendmmsg}
use gen_net.Addr.{addr_len, ipv4_into_sockaddr6, addr_from_sockaddr6, is_v4mapped}
use gen_net.Addr.Resolve.{addr_into_sockaddr6}
use gen_net.Net.{add_fd, resolver, note, look, fail, attempt, modify}
use gen_net.Socks5.{watch, socks5_construct, task_io_yielder}
use gen_net.Server.Run.{get_fd}
use gen_net.Udp.Splicer.{udp_relay}
use gen_net.Udp.Progress.{traffic}
use gen_net.Session.Ends.{session_relay-Moves}

abbrev config : Config
config = record {
  bind_address = λ f. none;
  bind_interface = none;
  socket_mark = 3;
  udp_listen_address = none;
  udp_listen_port = 0;
  ipv6_only = false;
  udp_public_address = λ f. none;
  address_family = unspec;
}

abbrev silent : Os
silent = record {
  recv = λ log fd n. none;
  send = λ log fd bytes. true;
  socket = λ log kind. some 9;
  setsockopt = λ log fd o. true;
  add_fd = λ log fd. true;
  bind = λ log fd a. true;
  connect = λ log fd a. true;
  listen = λ log fd. true;
  dup = λ log fd. none;
  getsockname = λ log fd. some zero_addr;
  getpeername = λ log fd. some zero_addr;
  resolver = λ log. record {
    inet_pton4 = λ name. none;
    inet_pton6 = λ name. none;
    getaddrinfo = λ name f. none;
  };
}

abbrev someone : User
someone = record { name = 97 ∷ []; pass = 98 ∷ []; mark = 7 }

abbrev users : Tree User
users = node black leaf someone leaf

abbrev times : Timeouts
times = record { connect_timeout = pos 10; tcp_timeout = pos 300; udp_timeout = pos 60 }

-- no data comes in, and no call waits
abbrev quiet : UdpOs
quiet = record {
  waits = λ log. 0;
  has_begun = λ log. false;
  hung_up = λ log fd. false;
  sleep = λ log n. pos n;
  recv = λ log fd n nonblock. error;
  sendmsg = λ log fd bytes. error;
  recvmmsg = λ log fd sizes nonblock. error;
  sendmmsg = λ log fd ps. error;
  again = λ log. true;
  malloc = λ log. true;
  mod_fd = λ log fd. true;
}

session-Guarded_example :
    let s = started silent config users (some 5) in
    let klass = relaying silent quiet config 3 10 in
    let (r, s') = run silent klass times 0 s in
    let gone = (connection silent klass times 0 s).1 in
    ((r ≡ some tt → Verified users s') × Guarded users s')
    × ((n : ℕ) → opens n gone.log + counts n (some 5) ≡ closes n gone.log)
session-Guarded_example = session-Guarded silent quiet config 3 10 times users (some 5) 0

abbrev let_in : State Server
let_in = record { self = record (server_construct (some 5)) { object = user someone }; log = [] }

bind_succeeds : (session_bind silent config (some 9) zero_addr let_in).0 ≡ some tt
unfolding session_bind bind_source bind_to_device user_mark set_mark demand pure get_self call
    setsockopt ◌>>=◌
bind_succeeds = refl

session_bind-marks_example :
    let s = (session_bind silent config (some 9) zero_addr let_in).1 in
    (0 < someone.mark → Has (configured (some 9) (mark 7) true) s.log)
    × (someone.mark ≡ 0 → 0 < config.socket_mark → Has (configured (some 9) (mark 3) true) s.log)
session_bind-marks_example =
    session_bind-marks silent config someone (some 9) zero_addr let_in refl bind_succeeds

-- a datagram comes in whenever one is asked for
abbrev busy : UdpOs
busy = record quiet {
  recvmmsg = λ log fd sizes nonblock. gave (
      record { peer = zero_addr; payload = 0 ∷ 0 ∷ 0 ∷ 1 ∷ 127 ∷ 0 ∷ 0 ∷ 1 ∷ 0 ∷ 53 ∷ 97 ∷ [] }
      ∷ []);
  sendmmsg = λ log fd ps. gave 1;
}

abbrev terminated : State Server
terminated = record {
  self = record (server_construct (some 5)) {
    base = record (server_construct (some 5)).base {
      timeout = pos 0;
      type = udp_in_udp;
      udp_associated = true;
    };
    fd1 = some 6;
  };
  log = [];
}

relay_goes_on :
    (udp_relay silent busy (session_bind silent config) 3 1 (some 7) terminated).0 ≡ some false
unfolding udp_relay udp_fd watch add_fd udp_recvmmsg recvmmsg task_io wait addr_len resolver
    addr_into_sockaddr6 ipv4_into_sockaddr6 session_bind bind_source bind_to_device user_mark
    set_mark demand server_construct socks5_construct setsockopt sendmmsg udp_sendmmsg
    addr_from_sockaddr6 is_v4mapped note look call pure fail attempt get_self modify get_fd
    udp_yielder task_io_yielder ◌>>=◌
relay_goes_on = refl

session_relay-Moves_example :
    traffic (udp_relay silent busy (session_bind silent config) 2 1 (some 7) terminated).1.log
    < traffic (udp_relay silent busy (session_bind silent config) 3 1 (some 7) terminated).1.log
session_relay-Moves_example =
    session_relay-Moves silent busy config 3 2 1 (some 7) terminated (λ log. refl) (omega arith)
      refl relay_goes_on

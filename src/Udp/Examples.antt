-- ===== src/Udp/Examples.antt =====
-- core/src/hev-socks5-udp.c with two messages.
use gen_net.Base.{
  ℕ, ◌≡◌, refl, pos, true, false, none, some, List, [], ◌∷◌, ◌++◌, arith, htons, if◌then◌else◌, ltb,
}
use gen_net.Addr.{SockAddr, addr_len, zero_addr}
use gen_net.Net.{Fd, crashed, Datagram, Os, State, M, pure}
use gen_net.Net.Triples.{Has}
use gen_net.Server.{Server, server_construct}
use gen_net.Server.Run.{get_fd}
use gen_net.Socks5.{socks5_construct, udp_in_tcp}
use gen_net.Udp.{gave, error, UdpOs, Msg, Packet, received_all}
use gen_net.Udp.Stream.{frames, recvmmsg_tcp}
use gen_net.Udp.Datagrams.{wrap, wraps, unwraps}
use gen_net.Udp.Splicer.{ended, fwd_f}
use gen_net.Udp.Frames.{feeding, Fits, AllCarry}
use gen_net.Udp.Frames.RoundTrip.{recvmmsg_tcp-AllCarry}
use gen_net.Udp.Unwrapped.{unwraps-wraps}
use gen_net.Udp.Truncated.{fwd_f-Crashes}

-- "ab" to 127.0.0.1:53, and "c" to the name "x", port 80
abbrev to_ipv4 : Packet
to_ipv4 = record {
  dest = record { atype = 1; body = 127 ∷ 0 ∷ 0 ∷ 1 ∷ 0 ∷ 53 ∷ [] };
  payload = 97 ∷ 98 ∷ [];
}

abbrev to_name : Packet
to_name = record { dest = record { atype = 3; body = 1 ∷ 120 ∷ 0 ∷ 80 ∷ [] }; payload = 99 ∷ [] }

abbrev stream : List ℕ
stream =
    0 ∷ 2 ∷ 10 ∷ 1 ∷ 127 ∷ 0 ∷ 0 ∷ 1 ∷ 0 ∷ 53 ∷ 97 ∷ 98 ∷ 0 ∷ 1 ∷ 8 ∷ 3 ∷ 1 ∷ 120 ∷ 0 ∷ 80 ∷ 99 ∷ []

-- no data comes in
abbrev quiet : UdpOs
quiet = record {
  waits = λ log. 0;
  has_begun = λ log. false;
  hung_up = λ log fd. false;
  sleep = λ log n. pos n;
  recv = λ log fd n nonblock. error;
  sendmsg = λ log fd bytes. error;
  recvmmsg = λ log fd sizes nonblock. error;
  sendmmsg = λ log fd ps. error;
  again = λ log. true;
  malloc = λ log. true;
  mod_fd = λ log fd. true;
}

abbrev fresh : State Server
fresh = record { self = server_construct (some 5); log = [] }

Fits-to_ipv4 : Fits 1500 7 to_ipv4
unfolding addr_len
Fits-to_ipv4 = record {
  known = refl;
  present = omega arith;
  header = omega arith;
  short = omega arith;
  space = omega arith;
  word = omega arith;
}

Fits-to_name : Fits 1500 5 to_name
unfolding addr_len
Fits-to_name = record {
  known = refl;
  present = omega arith;
  header = omega arith;
  short = omega arith;
  space = omega arith;
  word = omega arith;
}

stream_sent : frames (to_ipv4 ∷ to_name ∷ []) ≡ some stream
unfolding frames addr_len htons
stream_sent = refl

recvmmsg_tcp-AllCarry_example :
    (msgs : List Msg) × ((recvmmsg_tcp
        (feeding quiet (stream ++ 7 ∷ []) (λ log. 1))
        (1500 ∷ 1500 ∷ [])
        true
        fresh).0
      ≡ some (received_all msgs))
    × AllCarry (to_ipv4 ∷ to_name ∷ []) msgs
recvmmsg_tcp-AllCarry_example =
    recvmmsg_tcp-AllCarry quiet (stream ++ 7 ∷ []) (λ log. 1) true (1500 ∷ 1500 ∷ [])
      (to_ipv4 ∷ to_name ∷ []) stream (7 ∷ []) fresh ((7, Fits-to_ipv4), ((5, Fits-to_name), tt))
      stream_sent refl

abbrev arrived : List Datagram
arrived =
    record { peer = zero_addr; payload = (wrap to_ipv4 7).content }
    ∷ record { peer = zero_addr; payload = (wrap to_name 5).content }
    ∷ []

both_sent : wraps (to_ipv4 ∷ to_name ∷ []) ≡ some (wrap to_ipv4 7 ∷ wrap to_name 5 ∷ [])
unfolding wraps addr_len
both_sent = refl

unwraps-wraps_example :
    (msgs : List Msg) × (unwraps arrived ≡ some msgs) × AllCarry (to_ipv4 ∷ to_name ∷ []) msgs
unfolding addr_len
unwraps-wraps_example =
    unwraps-wraps (to_ipv4 ∷ to_name ∷ []) (wrap to_ipv4 7 ∷ wrap to_name 5 ∷ []) arrived
      ((λ n h. ground arith), ((λ n h. ground arith), tt)) both_sent (refl, (refl, tt))

-- three bytes come in, and then the connection fails
abbrev cut : UdpOs
cut = record quiet { recv = λ log fd n nonblock. if ltb n 5 then error else gave (0 ∷ 2 ∷ 10 ∷ []) }

abbrev in_tcp : State Server
in_tcp = record {
  self = record (server_construct (some 5)) {
    base = record (socks5_construct udp_in_tcp) { fd = some 5 };
  };
  log = [];
}

abbrev any_binder : Fd → SockAddr → M Server (Unit {0})
any_binder fd a = pure tt

abbrev silent : Os
silent = record {
  recv = λ log fd n. none;
  send = λ log fd bytes. true;
  socket = λ log kind. some 9;
  setsockopt = λ log fd o. true;
  add_fd = λ log fd. true;
  bind = λ log fd a. true;
  connect = λ log fd a. true;
  listen = λ log fd. true;
  dup = λ log fd. none;
  getsockname = λ log fd. some zero_addr;
  getpeername = λ log fd. some zero_addr;
  resolver = λ log. record {
    inet_pton4 = λ name. none;
    inet_pton6 = λ name. none;
    getaddrinfo = λ name f. none;
  };
}

fwd_f-Crashes_example :
    let (r, t) = fwd_f silent cut any_binder (get_fd in_tcp.self) (1500 ∷ 1500 ∷ []) false in_tcp in
    (r ≡ some (ended, false)) × Has crashed t.log
unfolding get_fd socks5_construct server_construct
fwd_f-Crashes_example =
    fwd_f-Crashes silent cut any_binder in_tcp (λ log. refl) (0 ∷ 2 ∷ 10 ∷ []) 1500 (1500 ∷ [])
      false (omega arith) (omega arith) refl refl refl

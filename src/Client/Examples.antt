-- ===== src/Client/Examples.antt =====
-- core/src/hev-socks5-client.c at small messages.
use gen_net.Base.{
  ℕ, zero, suc, ◌≡◌, ◌≢◌, ◌⊎◌, refl, pos, true, false, none, some, List, [], ◌∷◌, ◌++◌, length,
  get_or, take, drop, replicate, arith,
}
use gen_net.Addr.{Addr, SockAddr, inet6, addr_len, v4_prefix, addr_from_sockaddr6}
use gen_net.Net.{
  received, Log, Os, State, pure, fail, attempt, get_self, modify, call, ◌>>=◌, recv, send,
}
use gen_net.Net.Steps.{Steps}
use gen_net.Socks5.{Timeouts, tcp, socks5_construct, set_timeout, read, whole}
use gen_net.Server.Request.{req_addr, addr_rest}
use gen_net.Client.{
  Client, client_construct, client_timeout, request_message, write_auth_methods, write_auth_creds,
  written, read_method, write_request, request, to_upstream, sent_request, read_response, response,
  handshake_standard, tcp_client,
}
use gen_net.Client.Connect.{client_handshake, result}
use gen_net.Client.Kinds.{client_tcp_class, tcp_get_upstream_addr}
use gen_net.Client.Wire.{request-parses}
use gen_net.Server.{Server, server_construct, read_auth_user}
use gen_net.Server.Request.{succ, write_response}
use gen_net.Client.Exchange.{stream_of, fed, fresh}
use gen_net.Client.Exchange.Response.{HandsOver, read_response-write_response}
use gen_net.Client.Exchange.Credentials.{LooksUp, read_auth_user-write_auth_creds}
use gen_net.Client.Granted.{Logs, IsGranted, client_handshake-IsGranted}

abbrev web : Addr
web = record { atype = 1; body = 127 ∷ 0 ∷ 0 ∷ 1 ∷ 0 ∷ 80 ∷ [] }

request-parses_example :
    let bytes = request_message 1 web 7 in
    let req = take 5 bytes in
    let rest = drop 5 bytes in
    (get_or req 1 0 ≡ 1)
    × (addr_rest (req_addr req []) ≡ some (length rest))
    × (req_addr req rest ≡ web)
unfolding addr_len
request-parses_example = request-parses 1 web 7 (refl, refl)

abbrev peer : SockAddr
peer = record { family = inet6; port = 31 ∷ 144 ∷ []; addr = v4_prefix ++ 10 ∷ 0 ∷ 0 ∷ 1 ∷ [] }

abbrev a_name : List ℕ
a_name = 97 ∷ 98 ∷ []

abbrev a_password : List ℕ
a_password = 99 ∷ []

abbrev dialled : Client
dialled = record (client_construct tcp (tcp_client (some web))) {
  name = some a_name;
  pass = some a_password;
}

-- how many messages were read
abbrev reads : Log → ℕ
reads [] = 0
reads (received fd n r ∷ log) = suc (reads log)
reads (_ ∷ log) = reads log

-- a server that takes no password and grants the request
abbrev answer : ℕ → List ℕ
answer zero = 5 ∷ 0 ∷ []
answer (suc zero) = 5 ∷ 0 ∷ 0 ∷ 1 ∷ []
answer (suc (suc n)) = replicate 6 0

abbrev granting : Os
granting = record {
  recv = λ log fd n. some (answer (reads log));
  send = λ log fd bytes. true;
  socket = λ log kind. some 9;
  setsockopt = λ log fd o. true;
  add_fd = λ log fd. true;
  bind = λ log fd a. true;
  connect = λ log fd a. true;
  listen = λ log fd. true;
  dup = λ log fd. none;
  getsockname = λ log fd. none;
  getpeername = λ log fd. none;
  resolver = λ log. record {
    inet_pton4 = λ name. none;
    inet_pton6 = λ name. none;
    getaddrinfo = λ name f. none;
  };
}

abbrev times : Timeouts
times = record { connect_timeout = pos 10; tcp_timeout = pos 300; udp_timeout = pos 60 }

abbrev started : State Client
started = record { self = client_construct tcp (tcp_client (some web)); log = [] }

Logs-all : (a : Addr) → Steps Logs (client_tcp_class.set_upstream_addr a)
unfolding pure
Logs-all a = record { at = λ s. record { log = λ e h. h } }

handshake_succeeds : (client_handshake granting client_tcp_class times false started).0 ≡ some tt
unfolding client_handshake client_timeout set_timeout result handshake_standard write_auth_methods
    written read_method write_request request to_upstream sent_request read_response response read
    whole recv send call pure fail attempt get_self modify ◌>>=◌ tcp_get_upstream_addr
    client_construct socks5_construct addr_len
handshake_succeeds = refl

client_handshake-IsGranted_example :
    IsGranted (client_handshake granting client_tcp_class times false started).1
client_handshake-IsGranted_example =
    client_handshake-IsGranted granting client_tcp_class Logs-all times false started
      handshake_succeeds

abbrev listener : Server
listener = server_construct (some 4)

read_response-write_response_example :
    let bytes = stream_of (write_response granting succ peer (fresh listener)).1.log in
    let r = read_response (fed granting bytes) client_tcp_class (fresh dialled) in
    (succ ≡ 0 → HandsOver client_tcp_class (addr_from_sockaddr6 peer).0 bytes dialled r)
    × (succ ≢ 0 → r.0 ≡ none)
read_response-write_response_example =
    read_response-write_response granting granting client_tcp_class succ peer listener dialled
      (record { family = refl; port = refl; addr = refl })

read_auth_user-write_auth_creds_example :
    let bytes = stream_of (write_auth_creds granting (fresh dialled)).1.log in
    let r = read_auth_user (fed granting bytes) (fresh listener) in
    (length a_name ≢ 0 → length a_password ≢ 0 → LooksUp a_name a_password bytes listener r)
    × ((length a_name ≡ 0) ⊎ (length a_password ≡ 0) → r.0 ≡ none)
read_auth_user-write_auth_creds_example =
    read_auth_user-write_auth_creds granting granting dialled listener a_name a_password refl
      (omega arith) (omega arith)

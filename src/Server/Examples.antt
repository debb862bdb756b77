-- ===== src/Server/Examples.antt =====
-- core/src/hev-socks5-server.c with a client that sends one script.
use gen_net.Base.{ℕ, zero, suc, ◌+◌, ◌≡◌, refl, pos, true, false, none, some, List, [], ◌∷◌}
use gen_net.Rbtree.{Tree, black, leaf, node}
use gen_net.Addr.{zero_addr, ipv4_into_sockaddr6, addr_from_sockaddr6, is_v4mapped}
use gen_net.User.{User, user_check}
use gen_net.Net.{
  recv, send, call, fail, attempt, get_self, modify, ◌>>=◌, add_fd, setsockopt, socket, connect,
  note, resolver, look, Fd, received, Log, Os, State, M, pure,
}
use gen_net.Net.Steps.{Steps, Steps-pure}
use gen_net.Socks5.{Timeouts, waitio, task_io_yielder}
use gen_net.Server.{
  put_timeout, server_auth, read_auth_method, write_auth_method, checked, chosen, authenticate,
  settle, read_auth_user, look_up, admit, put_object, write_auth_user, mem, Server,
  server_construct, set_auth,
}
use gen_net.Base.{memcmp}
use gen_net.Socks5.{
  set_timeout, read, whole, set_addr_family, socks5_socket, made, watch, configure,
  socks5_construct,
}
use gen_net.Server.Ready.{Grows, Grows-Plain}
use gen_net.Server.Ready.Handshake.{Ready}
use gen_net.Server.Ready.Reply.{Answered, handshake-Ready}
use gen_net.Authenticator.{get, name_cmp}
use gen_net.Server.Request.{
  succ, read_request, versioned, more_of, with_rest, resolved_request, addr_rest, put_family,
  write_response,
}
use gen_net.Server.Relay.{server_connect, put_fd0}
use gen_net.Server.Run.{connection, handshake, perform, put_type, run, server_class}
use gen_net.Server.Closed.{Methods}
use gen_net.Server.Closed.Work.{Methods-server_class}
use gen_net.Server.Terminated.{StaysZero, run-terminated}
use gen_net.Server.Authorized.{Waiting, Verified, Guarded, Keeps, Keeps-Plain}
use gen_net.Server.Authorized.Run.{run-Guarded}
use gen_net.Addr.Resolve.{Resolver, addr_into_sockaddr6}
use gen_net.Server.Descriptors.{counts, opens, closes, Holds, Steady, Steady-Plain}
use gen_net.Server.Descriptors.Whole.{connection-closes}

-- how many messages were read
abbrev reads : Log → ℕ
reads [] = 0
reads (received fd n r ∷ log) = suc (reads log)
reads (_ ∷ log) = reads log

abbrev line_of : List (List ℕ) → ℕ → List ℕ
line_of [] n = []
line_of (x ∷ xs) zero = x
line_of (x ∷ xs) (suc n) = line_of xs n

abbrev nothing_known : Resolver
nothing_known = record {
  inet_pton4 = λ name. none;
  inet_pton6 = λ name. none;
  getaddrinfo = λ name f. none;
}

-- every call succeeds, and the client sends the script
abbrev scripted : List (List ℕ) → Os
scripted script = record {
  recv = λ log fd n. some (line_of script (reads log));
  send = λ log fd bytes. true;
  socket = λ log kind. some 9;
  setsockopt = λ log fd o. true;
  add_fd = λ log fd. true;
  bind = λ log fd a. true;
  connect = λ log fd a. true;
  listen = λ log fd. true;
  dup = λ log fd. none;
  getsockname = λ log fd. some zero_addr;
  getpeername = λ log fd. some zero_addr;
  resolver = λ log. nothing_known;
}

-- a login of the user "a" with the password "b", and a request to connect to 127.0.0.1:80
abbrev login : List (List ℕ)
login =
    (5 ∷ 1 ∷ [])
    ∷ (2 ∷ [])
    ∷ (1 ∷ 1 ∷ [])
    ∷ (97 ∷ 1 ∷ [])
    ∷ (98 ∷ [])
    ∷ (5 ∷ 1 ∷ 0 ∷ 1 ∷ 127 ∷ [])
    ∷ (0 ∷ 0 ∷ 1 ∷ 0 ∷ 80 ∷ [])
    ∷ []

abbrev users : Tree User
users = node black leaf (record { name = 97 ∷ []; pass = 98 ∷ []; mark = 7 }) leaf

abbrev times : Timeouts
times = record { connect_timeout = pos 10; tcp_timeout = pos 300; udp_timeout = pos 60 }

abbrev no_splicer : Fd → M Server (Unit {0})
no_splicer fd = pure tt

abbrev fresh : State Server
fresh = record { self = set_auth users (server_construct (some 5)); log = [] }

fresh-Waiting : Waiting users fresh
unfolding set_auth
fresh-Waiting = record { object = refl; calm = tt }

Methods-Keeps : Methods (server_class (scripted login) no_splicer) Keeps
Methods-Keeps =
    Methods-server_class (Keeps-Plain (scripted login))
      (λ fd. Steps-pure (Keeps-Plain (scripted login)).talks.order tt)

run-Guarded_example :
    let (r, s') = run (scripted login) (server_class (scripted login) no_splicer) times 0 fresh in
    (r ≡ some tt → Verified users s') × Guarded users s'
run-Guarded_example =
    run-Guarded (scripted login) users (server_class (scripted login) no_splicer) times
      Methods-Keeps 0 fresh fresh-Waiting

abbrev terminated : State Server
terminated = record {
  self = record (server_construct (some 5)) {
    base = record (server_construct (some 5)).base { timeout = pos 0 };
  };
  log = [];
}

zero_kept : Steps StaysZero (pure {S = Server} tt)
unfolding pure
zero_kept = record { at = λ s h. h }

run-terminated_example :
    let s' =
      (run (scripted login) (server_class (scripted login) no_splicer) times 0 terminated).1 in
    (s'.self.base.timeout ≡ pos 0) × (task_io_yielder (λ n. pos n) waitio s'.self.base ≡ false)
run-terminated_example =
    run-terminated (scripted login) no_splicer times 0 (λ fd. zero_kept) (λ n. pos n) terminated
      refl refl

Methods-Steady : Methods (server_class (scripted login) no_splicer) (Steady 9)
Methods-Steady =
    Methods-server_class (Steady-Plain 9 (scripted login))
      (λ fd. Steps-pure (Steady-Plain 9 (scripted login)).talks.order tt)

fresh-Holds : Holds 9 (some 5) none none 0 fresh
unfolding set_auth server_construct
fresh-Holds = record { fd0 = refl; fd1 = refl; fd = refl; count = refl }

connection-closes_example :
    let s' =
      (connection (scripted login) (server_class (scripted login) no_splicer) times 0 fresh).1 in
    opens 9 s'.log + counts 9 (some 5) ≡ closes 9 s'.log
connection-closes_example =
    connection-closes (scripted login) (server_class (scripted login) no_splicer) times 9
      Methods-Steady (some 5) 0 fresh fresh-Holds

Methods-Grows : Methods (server_class (scripted login) no_splicer) Grows
Methods-Grows =
    Methods-server_class (Grows-Plain (scripted login))
      (λ fd. Steps-pure (Grows-Plain (scripted login)).talks.order tt)

-- the script leads to a connection
login_succeeds :
    (handshake (scripted login) (server_class (scripted login) no_splicer) times 0 fresh).0
    ≡ some tt
unfolding handshake put_timeout set_timeout server_auth read_auth_method write_auth_method checked
    chosen authenticate settle read_auth_user look_up admit put_object user_check get name_cmp
    memcmp write_auth_user read whole mem recv send call pure fail attempt get_self modify ◌>>=◌
    read_request versioned more_of with_rest resolved_request addr_rest put_family set_addr_family
    addr_into_sockaddr6 ipv4_into_sockaddr6 perform server_connect socks5_socket made watch
    configure add_fd setsockopt socket connect note put_fd0 put_type write_response
    addr_from_sockaddr6 is_v4mapped resolver set_auth server_construct socks5_construct look
login_succeeds = refl

handshake-Ready_example :
    let s' =
      (handshake (scripted login) (server_class (scripted login) no_splicer) times 0 fresh).1 in
    Ready s' × Answered succ s'.log
handshake-Ready_example =
    handshake-Ready (scripted login) (server_class (scripted login) no_splicer) times Methods-Grows
      0 fresh login_succeeds

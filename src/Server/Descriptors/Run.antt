-- ===== src/Server/Descriptors/Run.antt =====
-- core/src/hev-socks5-server.c: the descriptors that connecting and binding hold.
use gen_net.Base.{ℕ, ℤ, ◌+◌, refl, Bool, true, false, not, Option, none, some, arith}
use gen_net.Addr.{SockAddr}
use gen_net.Net.{Fd, stream, dgram, connected, reuseaddr, Os, State, M, attempt, modify, connect}
use gen_net.Net.Steps.{Steps}
use gen_net.Net.Triples.{
  Ends, Triple, Triple-bind, Triple-if, Triple-pure, Triple-attempt, Triple-map,
}
use gen_net.Socks5.{Timeouts}
use gen_net.Server.{Server, Class, put_timeout}
use gen_net.Server.Relay.{
  put_fd0, put_fd1, failed, server_connect, bound_socket, second_socket, first_socket, server_bind,
}
use gen_net.Server.Closed.{Methods}
use gen_net.Server.Descriptors.{
  counts, Holds, Accounted, Holds-Accounted, Steady, Steady-Holds, Steady-Plain,
}
use gen_net.Server.Descriptors.Sockets.{
  Triple-call, Triple-option, Triple-release, Triple-abandon, Triple-socks5_socket,
}

module _ (os : Os) (klass : Class) (timeouts : Timeouts) (n : ℕ)
    (methods : Methods klass (Steady n)) (c : Fd) where
  -- Storing a descriptor that is held in an empty place.
  Triple-put_fd0 :
      (fd : Fd) {N : State Server → Type 0}
      → Triple (Holds n c none none (0 + counts n fd)) (put_fd0 fd) (λ _ s. Holds n c fd none 0 s) N
  unfolding put_fd0 modify
  Triple-put_fd0 fd = record {
    at = λ s h. record { fd0 = refl; fd1 = h.fd1; fd = h.fd; count = omega (arith, h.count) };
  }

  Triple-put_fd1 :
      (a fd : Fd) {N : State Server → Type 0}
      → Triple (Holds n c a none (0 + counts n fd)) (put_fd1 fd) (λ _ s. Holds n c a fd 0 s) N
  unfolding put_fd1 modify
  Triple-put_fd1 a fd = record {
    at = λ s h. record { fd0 = h.fd0; fd1 = refl; fd = h.fd; count = omega (arith, h.count) };
  }

  -- a method or another function of which the result does not matter
  Triple-tried :
      {A : Type 0} (m : M Server A) (a b : Fd) (k : ℕ) {N : State Server → Type 0}
      → Steps (Steady n) m
      → Triple (Holds n c a b k) (attempt m) (λ _ s. Holds n c a b k s) N
  unfolding attempt
  Triple-tried m a b k steps = record { at = λ s h. Steady-Holds n c a b k s _ (steps.at s) h }

  pub Triple-timeout :
      (t : ℤ) (a b : Fd) (k : ℕ) {N : State Server → Type 0}
      → Triple (Holds n c a b k) (put_timeout t) (λ _ s. Holds n c a b k s) N
  unfolding put_timeout modify
  Triple-timeout t a b k = record {
    at = λ s h. Steady-Holds n c a b k s _ (((Steady-Plain n os).timeout t).at s) h;
  }

  settled : (a b : Fd) (s : State Server) → Holds n c a b 0 s → Accounted n c s
  settled a b s h = Holds-Accounted n c a b s h

  pub Triple-server_connect :
      (addr : SockAddr)
      → Triple
          (Holds n c none none 0)
          (server_connect os klass timeouts addr)
          (λ _ s. Accounted n c s)
          (Accounted n c)
  unfolding server_connect connect
  Triple-server_connect addr =
      Triple-bind (λ fd s. Holds n c none none (0 + counts n fd) s)
        (Triple-map (λ fd s h. h) (settled none none)
          (Triple-socks5_socket os n c none none 0 stream))
        λ fd.
          let k = 0 + counts n fd in
          let held : State Server → Type 0 = Holds n c none none k in
          Triple-bind (λ _ s. held s)
            (Triple-tried (klass.binder fd addr) none none k (methods.binder fd addr))
            λ ready.
              Triple-if (failed ready)
                (λ _. Triple-abandon os n c none none 0 fd (settled none none))
                (λ _.
                  Triple-bind (λ _ s. held s) (Triple-timeout timeouts.connect_timeout none none k)
                    λ _.
                      Triple-bind (λ _ s. held s)
                        (Triple-call os n c none none k (λ log. os.connect log fd addr)
                          (connected fd addr) (λ _. tt))
                        λ ok.
                          Triple-if (not ok)
                            (λ _. Triple-abandon os n c none none 0 fd (settled none none))
                            (λ _.
                              Triple-bind (λ _ s. held s)
                                (Triple-timeout timeouts.tcp_timeout none none k)
                                λ _.
                                  Triple-map (λ _ s h. settled fd none s h) (λ s h. h)
                                    (Triple-put_fd0 fd)))

  module _ (a : Fd) where
    Triple-bound_socket :
        (fd : Fd) (old : SockAddr) (r : Option (Bool × SockAddr))
        → Triple
            (Holds n c a none (0 + counts n fd))
            (bound_socket os klass timeouts fd old r)
            (λ _ s. Accounted n c s)
            (Accounted n c)
    unfolding bound_socket
    Triple-bound_socket fd old none =
        Triple-bind (λ _ s. Holds n c a none 0 s) (Triple-release os n c a none 0 fd)
          λ _. Triple-pure _ (settled a none)
    Triple-bound_socket fd old (some (false, addr)) =
        Triple-bind (λ _ s. Holds n c a none 0 s) (Triple-release os n c a none 0 fd)
          λ _. Triple-pure _ (settled a none)
    Triple-bound_socket fd old (some (true, addr)) =
        Triple-bind (λ _ s. Holds n c a fd 0 s) (Triple-put_fd1 a fd)
          λ _. Triple-pure _ (settled a fd)

    Triple-second_socket :
        (addr : SockAddr) (r : Option Fd)
        → Triple
            (λ s. Ends (λ fd u. Holds n c a none (0 + counts n fd) u) (Holds n c a none 0) (r, s))
            (second_socket os klass timeouts addr r)
            (λ _ s. Accounted n c s)
            (Accounted n c)
    unfolding second_socket
    Triple-second_socket addr none = Triple-pure _ (settled a none)
    Triple-second_socket addr (some fd) =
        let k = 0 + counts n fd in
        Triple-bind (λ _ s. Holds n c a none k s) (Triple-option os n c a none k fd reuseaddr)
          λ ok.
            Triple-if ok
              (λ _.
                Triple-bind (λ _ s. Holds n c a none k s)
                  (Triple-tried (klass.udp_binder fd addr) a none k (methods.udp_binder fd addr))
                  λ b. Triple-bound_socket fd addr b)
              (λ _.
                Triple-bind (λ _ s. Holds n c a none 0 s) (Triple-release os n c a none 0 fd)
                  λ _. Triple-pure _ (settled a none))

  Triple-first_socket :
      (given : Bool) (addr : SockAddr) (r : Option Fd)
      → Triple
          (λ s.
            Ends (λ fd u. Holds n c none none (0 + counts n fd) u) (Holds n c none none 0) (r, s))
          (first_socket os klass timeouts given addr r)
          (λ _ s. Accounted n c s)
          (Accounted n c)
  unfolding first_socket
  Triple-first_socket given addr none = Triple-pure _ (settled none none)
  Triple-first_socket given addr (some fd) =
      Triple-bind (λ _ s. Holds n c fd none 0 s) (Triple-put_fd0 fd)
        λ _.
          Triple-if (not given) (λ _. Triple-pure _ (settled fd none))
            (λ _.
              Triple-bind
                (λ r s.
                  Ends (λ o u. Holds n c fd none (0 + counts n o) u) (Holds n c fd none 0) (r, s))
                (Triple-attempt (Triple-socks5_socket os n c fd none 0 dgram))
                λ r. Triple-second_socket fd addr r)

  pub Triple-server_bind :
      (given : Bool) (addr : SockAddr)
      → Triple
          (Holds n c none none 0)
          (server_bind os klass timeouts given addr)
          (λ _ s. Accounted n c s)
          (Accounted n c)
  unfolding server_bind
  Triple-server_bind given addr =
      Triple-bind
        (λ r s. Ends (λ o u. Holds n c none none (0 + counts n o) u) (Holds n c none none 0) (r, s))
        (Triple-attempt (Triple-socks5_socket os n c none none 0 dgram))
        λ r. Triple-first_socket given addr r

-- ===== src/Server/Descriptors/Sockets.antt =====
-- core/src/hev-socks5-server.c: what the functions that open and close sockets leave open.
use gen_net.Base.{ℕ, ◌+◌, none, some, arith}
use gen_net.Net.{
  Fd, Kind, stream, dgram, Event, closed, Setting, Log, Os, State, M, call, setsockopt, configured,
  watched, rewatched, unwatched, rcvbuf, v6only_off, add_fd, socket, note,
}
use gen_net.Net.Steps.{Steps}
use gen_net.Net.Triples.{Triple, Triple-bind, Triple-if, Triple-pure, Triple-fail, Triple-keeps}
use gen_net.Socks5.{made, socks5_socket, release, watch, configure}
use gen_net.Server.{Server}
use gen_net.Server.Relay.{abandon}
use gen_net.Server.Closed.{IsPlain}
use gen_net.Server.Descriptors.{counts, Holds, Steady, Steady-Holds, Steady-call}

module _ (os : Os) (n : ℕ) (c : Fd) where
  -- a function that opens and closes nothing
  pub Triple-Steady :
      {A : Type 0} (m : M Server A) (a b : Fd) (k : ℕ) {N : State Server → Type 0}
      → Steps (Steady n) m
      → ((s : State Server) → Holds n c a b k s → N s)
      → Triple (Holds n c a b k) m (λ _ s. Holds n c a b k s) N
  Triple-Steady m a b k steps f =
      Triple-keeps m (Holds n c a b k) steps (λ s t r h. Steady-Holds n c a b k s t r h) f

  module _ (a b : Fd) (k : ℕ) {N : State Server → Type 0} where
    -- a call that opens and closes nothing, which never fails
    pub Triple-call :
        {A : Type 0} (ask : Log → A) (event : A → Event)
        → ((x : A) → IsPlain (event x))
        → Triple (Holds n c a b k) (call ask event) (λ _ s. Holds n c a b k s) N
    unfolding call
    Triple-call ask event p = record {
      at = λ s h. Steady-Holds n c a b k s _ ((Steady-call n ask event p).at s) h;
    }

    pub Triple-option :
        (fd : Fd) (o : Setting)
        → Triple (Holds n c a b k) (setsockopt os fd o) (λ _ s. Holds n c a b k s) N
    unfolding setsockopt
    Triple-option fd o = Triple-call (λ log. os.setsockopt log fd o) (configured fd o) (λ _. tt)

    Triple-note :
        (e : Event) → IsPlain e → Triple (Holds n c a b k) (note e) (λ _ s. Holds n c a b k s) N
    unfolding note
    Triple-note e p = Triple-call (λ _. tt) (λ _. e) (λ _. p)

    Triple-watch : (fd : Fd) → Triple (Holds n c a b k) (watch os fd) (λ _ s. Holds n c a b k s) N
    unfolding watch add_fd
    Triple-watch fd =
        Triple-bind (λ _ s. Holds n c a b k s)
          (Triple-call (λ log. os.add_fd log fd) (watched fd) (λ _. tt))
          λ ok. Triple-if ok (λ _. Triple-pure tt (λ s h. h)) (λ _. Triple-note (rewatched fd) tt)

    Triple-configure :
        (kind : Kind) (fd : Fd)
        → Triple (Holds n c a b k) (configure os kind fd) (λ _ s. Holds n c a b k s) N
    unfolding configure
    Triple-configure stream fd = Triple-pure tt (λ s h. h)
    Triple-configure dgram fd =
        Triple-bind (λ _ s. Holds n c a b k s) (Triple-option fd rcvbuf)
          λ _. Triple-pure tt (λ s h. h)

    -- Closing a descriptor that is held settles it.
    Triple-close :
        (fd : Fd)
        → Triple (Holds n c a b (k + counts n fd)) (note (closed fd)) (λ _ s. Holds n c a b k s) N
    unfolding note call
    Triple-close fd = record {
      at = λ s h. record { fd0 = h.fd0; fd1 = h.fd1; fd = h.fd; count = omega (arith, h.count) };
    }

  module _ (a b : Fd) (k : ℕ) {N : State Server → Type 0} where
    pub Triple-release :
        (fd : Fd)
        → Triple (Holds n c a b (k + counts n fd)) (release fd) (λ _ s. Holds n c a b k s) N
    unfolding release
    Triple-release fd =
        Triple-bind (λ _ s. Holds n c a b (k + counts n fd) s)
          (Triple-note a b (k + counts n fd) (unwatched fd) tt) (λ _. Triple-close a b k fd)

    pub Triple-abandon :
        {A : Type 0} (fd : Fd) {Q : A → State Server → Type 0}
        → ((s : State Server) → Holds n c a b k s → N s)
        → Triple (Holds n c a b (k + counts n fd)) (abandon fd) Q N
    unfolding abandon
    Triple-abandon fd f =
        Triple-bind (λ _ s. Holds n c a b k s) (Triple-release fd) (λ _. Triple-fail f)

  module _ (a b : Fd) (k : ℕ) where
    Triple-made :
        (kind : Kind) (fd : Fd)
        → Triple
            (Holds n c a b (k + counts n fd))
            (made os kind fd)
            (λ r s. Holds n c a b (k + counts n r) s)
            (Holds n c a b k)
    unfolding made
    Triple-made kind none =
        Triple-fail
          (λ s h. record { fd0 = h.fd0; fd1 = h.fd1; fd = h.fd; count = omega (arith, h.count) })
    Triple-made kind (some m) =
        let k' = k + counts n (some m) in
        Triple-bind (λ _ s. Holds n c a b k' s) (Triple-option a b k' (some m) v6only_off)
          λ ok.
            Triple-if ok
              (λ _.
                Triple-bind (λ _ s. Holds n c a b k' s) (Triple-watch a b k' (some m))
                  λ _.
                    Triple-bind (λ _ s. Holds n c a b k' s) (Triple-configure a b k' kind (some m))
                      λ _. Triple-pure (some m) (λ s h. h))
              (λ _.
                Triple-bind (λ _ s. Holds n c a b k s) (Triple-close a b k (some m))
                  (λ _. Triple-fail (λ s h. h)))

    -- A socket that is returned is held, and one that is not has been closed.
    pub Triple-socks5_socket :
        (kind : Kind)
        → Triple
            (Holds n c a b k)
            (socks5_socket os kind)
            (λ r s. Holds n c a b (k + counts n r) s)
            (Holds n c a b k)
    unfolding socks5_socket socket call
    Triple-socks5_socket kind =
        Triple-bind (λ fd s. Holds n c a b (k + counts n fd) s)
          (record {
            at = λ s h. record {
              fd0 = h.fd0;
              fd1 = h.fd1;
              fd = h.fd;
              count = omega (arith, h.count);
            };
          })
          (λ fd. Triple-made kind fd)

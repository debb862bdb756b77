-- ===== src/Server/Ready/Handshake.antt =====
-- core/src/hev-socks5-server.c: the reply of success, and the sockets behind it.
use gen_net.Base.{
  ℕ, ◌≡◌, refl, subst, ◌∙◌, inl, Bool, true, false, not, Option, none, some, if◌then◌else◌,
}
use gen_net.Addr.{SockAddr}
use gen_net.Net.{
  Fd, stream, dgram, connected, reuseaddr, Os, State, M, pure, attempt, call, modify, ◌>>◌, connect,
}
use gen_net.Net.Triples.{
  Has, Ends, Triple, Triple-bind, Triple-if, Triple-pure, Triple-fail, Triple-attempt, Triple-given,
}
use gen_net.Socks5.{Socks5Type, tcp, udp_in_tcp, udp_in_udp, Timeouts}
use gen_net.Server.{Server, Class}
use gen_net.Server.Relay.{
  put_fd0, put_fd1, abandon, failed, server_connect, bound_socket, second_socket, first_socket,
  server_bind,
}
use gen_net.Server.Run.{put_type}
use gen_net.Server.Closed.{Methods}
use gen_net.Server.Closed.Work.{Steps-option}
use gen_net.Server.Ready.{
  IsReadyAs, Grows, Grows-Plain, Any, Triple-anything, IsOpen, Triple-Grows, Triple-socket,
}

true_of_not : (b : Bool) → not b ≡ false → b ≡ true
true_of_not true e = refl
true_of_not false e = absurd (cc)

abandoned :
    {A : Type 0} (fd : Fd) {P : State Server → Type 0} {Q : A → State Server → Type 0}
    → Triple P (abandon fd) Q Any
unfolding abandon
abandoned fd = Triple-bind (λ _ s. Any s) Triple-anything (λ _. Triple-fail (λ s p. tt))

-- what holds after a socket was opened, and after it was not
abbrev Opened : (State Server → Type 0) → Option Fd → State Server → Type 0
Opened P r s = Ends (λ fd u. P u × IsOpen fd) Any (r, s)

-- the sockets that the type of the connection says
abbrev pub Ready : State Server → Type 0
Ready s = IsReadyAs s.self.base.type s

module _ (os : Os) (klass : Class) (timeouts : Timeouts) (methods : Methods klass Grows) where
  pub Triple-server_connect :
      (addr : SockAddr)
      → Triple Any (server_connect os klass timeouts addr) (λ _ s. IsReadyAs tcp s) Any
  unfolding server_connect connect call put_fd0 modify
  Triple-server_connect addr =
      Triple-bind (λ fd s. Any s × IsOpen fd) (Triple-socket os Any (λ s t g p. tt) stream)
        λ fd. Triple-given λ (m, e).
          Triple-bind (λ _ s. Any s) Triple-anything
            λ ready.
              Triple-if (failed ready) (λ _. abandoned fd)
                (λ _.
                  Triple-bind (λ _ s. Any s) Triple-anything
                    λ _.
                      Triple-bind (λ ok s. Has (connected fd addr ok) s.log)
                        (record { at = λ s p. inl refl })
                        λ ok.
                          Triple-if (not ok) (λ _. abandoned fd)
                            (λ f.
                              Triple-bind (λ _ s. Has (connected fd addr ok) s.log)
                                (Triple-Grows os _ (λ s t g h. g.log _ h) _
                                  ((Grows-Plain os).timeout timeouts.tcp_timeout))
                                λ _. record {
                                  at = λ s h. (
                                    m,
                                    addr,
                                    e,
                                    subst (λ b. Has (connected (some m) addr b) s.log)
                                        (true_of_not ok f)
                                        (subst (λ x. Has (connected x addr ok) s.log) e h),
                                  );
                                }))

  -- what `server_bind` leaves, by its result
  abbrev pub Bound : Socks5Type → Bool × SockAddr → State Server → Type 0
  Bound type r s = r.0 ≡ true → IsReadyAs type s

  module _ (m : ℕ) where
    abbrev First : State Server → Type 0
    First s = s.self.fd0 ≡ some m

    First-Grows : (s t : State Server) → Grows s t → First s → First t
    First-Grows s t g h = g.fd0 ∙ h

    unbound :
        {P : State Server → Type 0} (type : Socks5Type) (n : M Server (Unit {0})) (addr : SockAddr)
        → Triple P (do n; pure (false, addr)) (Bound type) Any
    unbound type n addr =
        Triple-bind (λ _ s. Any s) Triple-anything (λ _. Triple-pure _ (λ s p e. absurd (cc)))

    Triple-bound_socket :
        (fd : Fd) (old : SockAddr) (r : Option (Bool × SockAddr))
        → IsOpen fd
        → Triple First (bound_socket os klass timeouts fd old r) (Bound udp_in_udp) Any
    unfolding bound_socket put_fd1 modify
    Triple-bound_socket fd old none (o, e) = unbound udp_in_udp _ old
    Triple-bound_socket fd old (some (false, addr)) (o, e) = unbound udp_in_udp _ addr
    Triple-bound_socket fd old (some (true, addr)) (o, e) =
        Triple-bind (λ _ s. IsReadyAs udp_in_udp s) (record { at = λ s h. (m, o, h, e) })
          λ _. Triple-pure _ (λ s h k. h)

    Triple-second_socket :
        (addr : SockAddr) (r : Option Fd)
        → Triple (Opened First r) (second_socket os klass timeouts addr r) (Bound udp_in_udp) Any
    unfolding second_socket attempt
    Triple-second_socket addr none = Triple-pure _ (λ s p e. absurd (cc))
    Triple-second_socket addr (some fd) = Triple-given λ o.
        Triple-bind (λ _ s. First s)
          (Triple-Grows os First First-Grows _ (Steps-option (Grows-Plain os) fd reuseaddr))
          λ ok.
            Triple-if ok
              (λ _.
                Triple-bind (λ _ s. First s)
                  (record { at = λ s h. First-Grows s _ ((methods.udp_binder fd addr).at s) h })
                  λ b. Triple-bound_socket fd addr b o)
              (λ _. unbound udp_in_udp _ addr)

  -- the type of the connection that `server_bind` is called for
  abbrev pub bind_type : Bool → Socks5Type
  bind_type given = if given then udp_in_udp else udp_in_tcp

  Triple-first_socket :
      (given : Bool) (addr : SockAddr) (r : Option Fd)
      → Triple
          (Opened Any r)
          (first_socket os klass timeouts given addr r)
          (Bound (bind_type given))
          Any
  unfolding first_socket put_fd0 modify
  Triple-first_socket given addr none = Triple-pure _ (λ s p e. absurd (cc))
  Triple-first_socket false addr (some fd) = Triple-given λ (m, e).
      Triple-bind (λ _ s. First m s) (record { at = λ s p. e }) λ _. Triple-pure _ (λ s h k. (m, h))
  Triple-first_socket true addr (some fd) = Triple-given λ (m, e).
      Triple-bind (λ _ s. First m s) (record { at = λ s p. e })
        λ _.
          Triple-bind (λ r s. Opened (First m) r s)
            (Triple-attempt (Triple-socket os (First m) (First-Grows m) dgram))
            λ r. Triple-second_socket m addr r

  pub Triple-server_bind :
      (given : Bool) (addr : SockAddr)
      → Triple Any (server_bind os klass timeouts given addr) (Bound (bind_type given)) Any
  unfolding server_bind
  Triple-server_bind given addr =
      Triple-bind (λ r s. Opened Any r s)
        (Triple-attempt (Triple-socket os Any (λ s t g p. tt) dgram))
        λ r. Triple-first_socket given addr r

  -- the type is assigned behind the work
  pub Triple-put_type :
      (type : Socks5Type) (X : Type 0)
      → Triple (λ s. X → IsReadyAs type s) (put_type type) (λ _ s. X → Ready s) Any
  unfolding put_type modify
  Triple-put_type type X = record { at = λ s h x. typed type s (h x) }
    where
      typed :
          (type : Socks5Type) (s : State Server)
          → IsReadyAs type s
          → IsReadyAs type
              (record s { self = record s.self { base = record s.self.base { type = type } } })
      typed tcp s h = h
      typed udp_in_tcp s h = h
      typed udp_in_udp s h = h
      typed _ s h = absurd h

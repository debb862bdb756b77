-- ===== src/Server/Descriptors/Whole.antt =====
-- core/src/hev-socks5-server.c and hev-socks5-worker.c: the accounts of a whole connection.
use gen_net.Base.{ℕ, ◌+◌, ◌≡◌, subst, true, false, not, none, some, arith, ◌==◌}
use gen_net.Net.{Fd, crashed, Os, State, M, attempt, modify, call, ◌>>=◌, note}
use gen_net.Net.Steps.{Steps}
use gen_net.Net.Triples.{
  Triple, Triple-bind, Triple-if, Triple-get_self, Triple-pure, Triple-fail, Triple-attempt,
  Triple-weaken, Triple-keeps, Triple-map, Ends-both,
}
use gen_net.Socks5.{Timeouts, tcp, udp_in_tcp, udp_in_udp, release}
use gen_net.Server.{Server, Class, put_object}
use gen_net.Server.Request.{Request, succ}
use gen_net.Server.Run.{perform, handshake, run, give_back, destruct, connection}
use gen_net.Server.Closed.{Methods, Steps-server_auth}
use gen_net.Server.Closed.Work.{
  Steps-note, Steps-read_request, Steps-write_response, Steps-watch, Steps-service,
}
use gen_net.Server.Descriptors.{
  counts, opens, closes, Holds, Accounted, Holds-Accounted, Steady, Steady-Accounted, Steady-Plain,
  Steady-put_object,
}
use gen_net.Server.Descriptors.Sockets.{Triple-Steady}
use gen_net.Server.Descriptors.Run.{Triple-timeout, Triple-server_connect, Triple-server_bind}

module _ (os : Os) (klass : Class) (timeouts : Timeouts) (n : ℕ)
    (methods : Methods klass (Steady n)) (c : Fd) where
  settles : (s : State Server) → Holds n c none none 0 s → Accounted n c s
  settles s h = Holds-Accounted n c none none s h

  keeps_account :
      {A : Type 0} (m : M Server A)
      → Steps (Steady n) m
      → Triple (Accounted n c) m (λ _ s. Accounted n c s) (Accounted n c)
  keeps_account m steps =
      Triple-keeps m (Accounted n c) steps (λ s t r h. Steady-Accounted n c s t r h) (λ s h. h)

  typed :
      {A : Type 0} (m : M Server A)
      → ((s : State Server) → Accounted n c s → Accounted n c (m s).1)
      → Triple (Accounted n c) (attempt m) (λ _ s. Accounted n c s) (Accounted n c)
  unfolding attempt
  typed m h = record { at = λ s p. h s p }

  Triple-perform :
      (q : Request)
      → Triple
          (Holds n c none none 0)
          (perform os klass timeouts q)
          (λ _ s. Accounted n c s)
          (Accounted n c)
  unfolding perform
  Triple-perform q =
      Triple-if (not (q.rep == succ)) (λ _. Triple-pure _ settles)
        (λ _.
          Triple-if (q.cmd == 1)
            (λ _.
              Triple-bind (λ _ s. Accounted n c s)
                (Triple-map (λ r s e. Ends-both (Accounted n c) r s e) (λ s h. h)
                  (Triple-attempt (Triple-server_connect os klass timeouts n methods c q.addr)))
                λ res.
                  Triple-bind (λ _ s. Accounted n c s)
                    (keeps_account _ ((Steady-Plain n os).type tcp)) λ _. Triple-pure _ (λ s h. h))
            (λ _.
              Triple-if (q.cmd == 3)
                (λ _.
                  Triple-bind (λ _ s. Accounted n c s)
                    (Triple-server_bind os klass timeouts n methods c true q.addr)
                    λ b.
                      Triple-bind (λ _ s. Accounted n c s)
                        (keeps_account _ ((Steady-Plain n os).type udp_in_udp))
                        λ _. Triple-pure _ (λ s h. h))
                (λ _.
                  Triple-if (q.cmd == 5)
                    (λ _.
                      Triple-bind (λ _ s. Accounted n c s)
                        (Triple-server_bind os klass timeouts n methods c false q.addr)
                        λ b.
                          Triple-bind (λ _ s. Accounted n c s)
                            (keeps_account _ ((Steady-Plain n os).type udp_in_tcp))
                            λ _. Triple-pure _ (λ s h. h))
                    (λ _. Triple-pure _ settles))))

  Triple-handshake :
      (cmd : ℕ)
      → Triple
          (Holds n c none none 0)
          (handshake os klass timeouts cmd)
          (λ _ s. Accounted n c s)
          (Accounted n c)
  unfolding handshake
  Triple-handshake cmd =
      let held : State Server → Type 0 = Holds n c none none 0 in
      Triple-bind (λ _ s. held s)
        (Triple-timeout os klass timeouts n methods c timeouts.tcp_timeout none none 0)
        λ _.
          Triple-bind (λ _ s. held s)
            (Triple-Steady os n c _ none none 0
              (Steps-server_auth (Steady-Plain n os).talks (λ o. Steady-put_object n o)
                (Steps-note (Steady-Plain n os) crashed tt))
              settles)
            λ _.
              Triple-bind (λ _ s. held s)
                (Triple-Steady os n c _ none none 0 (Steps-read_request (Steady-Plain n os) _)
                  settles)
                λ q.
                  Triple-bind (λ _ s. Accounted n c s) (Triple-perform q)
                    λ r.
                      Triple-bind (λ _ s. Accounted n c s)
                        (keeps_account _ (Steps-write_response (Steady-Plain n os) r.0 r.1))
                        λ _.
                          Triple-if (r.0 == succ) (λ _. Triple-pure tt (λ s h. h))
                            (λ _. Triple-fail (λ s h. h))

  Triple-run :
      (cmd : ℕ)
      → Triple
          (Holds n c none none 0)
          (run os klass timeouts cmd)
          (λ _ s. Accounted n c s)
          (Accounted n c)
  unfolding run
  Triple-run cmd =
      let held : State Server → Type 0 = Holds n c none none 0 in
      Triple-bind (λ self s. held s × (s.self ≡ self)) Triple-get_self
        λ self.
          Triple-bind (λ _ s. held s)
            (Triple-weaken (λ s p. p.0)
              (Triple-Steady os n c _ none none 0 (Steps-watch (Steady-Plain n os) self.base.fd)
                settles))
            λ _.
              Triple-bind (λ _ s. Accounted n c s) (Triple-handshake cmd)
                λ _. keeps_account _ (Steps-service (Steady-Plain n os) methods timeouts)

  -- `k` of the descriptor are left to close
  record Left (k : ℕ) (s : State Server) : Type 0 where
    count : opens n s.log + counts n c ≡ closes n s.log + k

  Triple-give_back :
      (fd : Fd) (k : ℕ) {N : State Server → Type 0}
      → Triple (Left (counts n fd + k)) (give_back fd) (λ _ s. Left k s) N
  unfolding give_back release note call ◌>>=◌
  Triple-give_back none k = Triple-pure tt (λ s l. record { count = omega (arith, l.count) })
  Triple-give_back (some m) k = record { at = λ s l. record { count = omega (arith, l.count) } }

  Triple-destruct : Triple (Accounted n c) destruct (λ _ s. Left 0 s) (Left 0)
  unfolding destruct put_object modify
  Triple-destruct =
      Triple-bind (λ self s. (Accounted n c s) × (s.self ≡ self)) Triple-get_self
        λ self.
          Triple-bind (λ _ s. Left (counts n self.fd1 + (counts n self.base.fd + 0)) s)
            (Triple-weaken
              (λ s p. record {
                count =
                    subst
                      (λ x.
                        opens n s.log + counts n c
                        ≡ closes n s.log
                          + (counts n x.fd0 + (counts n x.fd1 + (counts n x.base.fd + 0))))
                      p.1 (rw p.0.fd (omega (arith, p.0.count)));
              })
              (Triple-give_back self.fd0 _))
            λ _.
              Triple-bind (λ _ s. Left (counts n self.base.fd + 0) s) (Triple-give_back self.fd1 _)
                λ _.
                  Triple-bind (λ _ s. Left (counts n self.base.fd + 0) s)
                    (record { at = λ s l. record { count = l.count } })
                    λ _. Triple-give_back self.base.fd 0

  Triple-connection :
      (cmd : ℕ)
      → Triple (Holds n c none none 0) (connection os klass timeouts cmd) (λ _ s. Left 0 s) (Left 0)
  unfolding connection
  Triple-connection cmd =
      Triple-bind (λ _ s. Accounted n c s)
        (Triple-map {N = Left 0} (λ r s e. Ends-both (Accounted n c) r s e) (λ s h. h)
          (Triple-attempt (Triple-run cmd)))
        λ _. Triple-destruct

  -- From a state in which no descriptor is open but the client's, a connection that runs and is
  -- destructed closes each descriptor as often as it was opened, and the client's once more, on
  -- every path. The methods of the class are those that open and close nothing.
  pub connection-closes :
      (cmd : ℕ) (s : State Server)
      → Holds n c none none 0 s
      → let s' = (connection os klass timeouts cmd s).1 in
        opens n s'.log + counts n c ≡ closes n s'.log
  connection-closes cmd s h =
      let (r, s') = connection os klass timeouts cmd s in
      omega (arith, (Ends-both (Left 0) r s' ((Triple-connection cmd).at s h)).count)

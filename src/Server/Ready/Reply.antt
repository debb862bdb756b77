-- ===== src/Server/Ready/Reply.antt =====
-- core/src/hev-socks5-server.c: a handshake that succeeds.
use gen_net.Base.{
  ℕ, ◌≡◌, refl, subst, inr, Bool, true, false, not, Option, none, some, List, ◌∷◌, arith, ◌==◌,
  if◌then◌else◌,
}
use gen_net.Addr.{SockAddr, image, addr_from_sockaddr6}
use gen_net.Net.{Fd, sent, Log, Os, State, pure, call, ◌>>=◌, ◌>>◌, send}
use gen_net.Net.Triples.{
  Ends, Triple, Triple-bind, Triple-if, Triple-get_self, Triple-pure, Triple-fail, Triple-attempt,
  Triple-map,
}
use gen_net.Socks5.{Socks5Type, tcp, udp_in_tcp, udp_in_udp, Timeouts}
use gen_net.Server.{Server, Class, checked}
use gen_net.Server.Request.{Request, succ, host, write_response}
use gen_net.Server.Relay.{server_bind}
use gen_net.Server.Run.{put_type, reply_of, bind_reply, perform, handshake}
use gen_net.Server.Closed.{Methods}
use gen_net.Server.Ready.{IsReadyAs, IsReadyAs-Grows, Grows, Any, Triple-anything}
use gen_net.Server.Ready.Handshake.{
  Ready, Triple-server_connect, Triple-server_bind, Triple-put_type,
}

-- The last thing that was sent is a response, all of it, with the reply and an address.
abbrev pub Answered : ℕ → Log → Type 0
Answered rep log =
    (fd : Fd) × (addr : List ℕ) × (older : Log) × (log ≡ sent fd (5 ∷ rep ∷ 0 ∷ addr) true ∷ older)

not_success : (rep : ℕ) → not (rep == succ) ≡ true → rep ≡ succ → ⊥
not_success rep e k = ground arith

bound_reply : (ok : Bool) → bind_reply ok ≡ succ → ok ≡ true
bound_reply true e = refl
bound_reply false e = absurd (omega (arith, e))

connected_reply :
    (r : Option (Unit {0})) (s : State Server)
    → Ends (λ _ u. IsReadyAs tcp u) Any (r, s)
    → reply_of host r ≡ succ
    → IsReadyAs tcp s
connected_reply none s p e = absurd (omega (arith, e))
connected_reply (some x) s p e = p

module _ (os : Os) (klass : Class) (timeouts : Timeouts) (methods : Methods klass Grows) where
  -- a reply of success only where the sockets are ready
  abbrev Promised : ℕ × SockAddr → State Server → Type 0
  Promised r s = r.0 ≡ succ → Ready s

  Triple-bound :
      (given : Bool) (type : Socks5Type) (q : Request) (pick : SockAddr → SockAddr)
      → type ≡ (if given then udp_in_udp else udp_in_tcp)
      → Triple Any
          (do
            b ← server_bind os klass timeouts given q.addr
            put_type type
            pure (bind_reply b.0, pick b.1))
          Promised
          Any
  Triple-bound given type q pick e =
      Triple-bind (λ b s. b.0 ≡ true → IsReadyAs type s)
        (rw e (Triple-server_bind os klass timeouts methods given q.addr))
        λ b.
          Triple-bind (λ _ s. b.0 ≡ true → Ready s)
            (Triple-put_type os klass timeouts methods type (b.0 ≡ true))
            λ _. Triple-pure _ (λ s h k. h (bound_reply b.0 k))

  Triple-perform : (q : Request) → Triple Any (perform os klass timeouts q) Promised Any
  unfolding perform
  Triple-perform q =
      Triple-if (not (q.rep == succ)) (λ e. Triple-pure _ (λ s p k. absurd (not_success q.rep e k)))
        (λ _.
          Triple-if (q.cmd == 1)
            (λ _.
              Triple-bind (λ r s. reply_of host r ≡ succ → IsReadyAs tcp s)
                (Triple-map connected_reply (λ s p. p)
                  (Triple-attempt (Triple-server_connect os klass timeouts methods q.addr)))
                λ r.
                  Triple-bind (λ _ s. reply_of host r ≡ succ → Ready s)
                    (Triple-put_type os klass timeouts methods tcp (reply_of host r ≡ succ))
                    λ _. Triple-pure _ (λ s h k. h k))
            (λ _.
              Triple-if (q.cmd == 3) (λ _. Triple-bound true udp_in_udp q (λ a. a) refl)
                (λ _.
                  Triple-if (q.cmd == 5) (λ _. Triple-bound false udp_in_tcp q (λ a. q.addr) refl)
                    (λ _. Triple-pure _ (λ s p k. absurd (omega (arith, k)))))))

  Triple-write_response :
      (rep : ℕ) (addr : SockAddr)
      → Triple
          (λ s. rep ≡ succ → Ready s)
          (write_response os rep addr)
          (λ _ s. (rep ≡ succ → Ready s) × Answered rep s.log)
          Any
  unfolding write_response checked send call
  Triple-write_response rep addr =
      Triple-bind (λ self s. (rep ≡ succ → Ready s) × (s.self ≡ self)) Triple-get_self
        λ self.
          let (a, n) = addr_from_sockaddr6 addr in
          Triple-bind
            (λ ok s.
              (rep ≡ succ → Ready s)
              × ((older : Log) × (s.log ≡ sent self.base.fd (5 ∷ rep ∷ 0 ∷ image a n) ok ∷ older)))
            (record {
              at = λ s p. (
                (λ k.
                    IsReadyAs-Grows s.self.base.type s _
                      (record { fd0 = refl; fd1 = refl; log = λ e h. inr h }) (p.0 k)),
                (s.log, refl),
              );
            })
            λ ok.
              Triple-if ok
                (λ e.
                  Triple-pure tt
                    (λ s (h, (older, l)). (h, (self.base.fd, image a n, older, rw (← e) l))))
                (λ _. Triple-fail (λ s p. tt))

  Triple-handshake :
      (cmd : ℕ)
      → Triple Any (handshake os klass timeouts cmd) (λ _ s. Ready s × Answered succ s.log) Any
  unfolding handshake
  Triple-handshake cmd =
      Triple-bind (λ _ s. Any s) Triple-anything
        λ _.
          Triple-bind (λ _ s. Any s) Triple-anything
            λ _.
              Triple-bind (λ _ s. Any s) Triple-anything
                λ q. Triple-bind Promised (Triple-perform q) λ r.
                  Triple-bind (λ _ s. (r.0 ≡ succ → Ready s) × Answered r.0 s.log)
                    (Triple-write_response r.0 r.1)
                    λ _.
                      Triple-if (r.0 == succ)
                        (λ e.
                          let k : r.0 ≡ succ = ground arith in
                          Triple-pure tt (λ s p. (p.0 k, subst (λ x. Answered x s.log) k p.1)))
                        (λ _. Triple-fail (λ s p. tt))

  ready :
      (r : Option (Unit {0})) (s : State Server)
      → Ends (λ _ u. Ready u × Answered succ u.log) Any (r, s)
      → r ≡ some tt
      → Ready s × Answered succ s.log
  ready none s p e = absurd (cc)
  ready (some x) s p e = p

  -- A handshake that succeeds has sent a response of success as the last thing, and has the sockets
  -- of its type: a connected one for TCP, one for UDP over TCP, and two for UDP over UDP. The methods
  -- of the class are those that leave the places of the sockets as they are.
  pub handshake-Ready :
      (cmd : ℕ) (s : State Server)
      → let (r, s') = handshake os klass timeouts cmd s in
        r ≡ some tt → Ready s' × Answered succ s'.log
  handshake-Ready cmd s e =
      let (r, s') = handshake os klass timeouts cmd s in
      ready r s' ((Triple-handshake cmd).at s tt) e

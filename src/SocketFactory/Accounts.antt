-- ===== src/SocketFactory/Accounts.antt =====
-- hev-socket-factory.c: the accounts of the descriptors that are opened, handed out and closed.
pub mod Whole
use gen_net.Base.{
  ℕ, zero, suc, ◌+◌, ◌≡◌, refl, sym, ap, ◌∙◌, Bool, true, false, Option, none, some, List, [], ◌∷◌,
  arith, if◌then◌else◌,
}
use gen_net.Addr.{SockAddr, zero_addr}
use gen_net.Addr.Resolve.{AddrInfo}
use gen_net.Session.{from_result}
use gen_net.Net.{
  Fd, stream, Event, opened, closed, configured, bound, listens, Setting, reuseaddr, reuseport,
  fastopen, v6only_on, v6only_off, Log, Os, State, M, pure, fail, attempt, get_self, modify, call,
  ◌>>=◌, ◌>>◌, socket, setsockopt, bind, listen, dup, note,
}
use gen_net.Net.Triples.{
  Ends, Triple, Triple-bind, Triple-if, Triple-pure, Triple-fail, Triple-get_self, Triple-weaken,
  Triple-attempt, Ends-both,
}
use gen_net.Server.Closed.{IsPlain}
use gen_net.Server.Descriptors.{counts, opens, closes, plain-opens, plain-closes}
use gen_net.SocketFactory.{
  SocketFactory, if_resolved, socket_factory_new, close_kept, socket_factory_destroy, returned,
  close_and_fail, keep_copy, open_fast, listening, binding, sharing, opening, get_from,
  socket_factory_get, sockets_for, sockets_of,
}

module _ (n : ℕ) where
  -- Beside the descriptor that the factory keeps, `k` descriptors `n` are open.
  pub record Accounted (k : ℕ) (s : State SocketFactory) : Type 0 where
    pub count : opens n s.log ≡ closes n s.log + counts n s.self.fd + k

  -- how many descriptors of a list are `n`
  abbrev pub among : List ℕ → ℕ
  among [] = 0
  among (fd ∷ fds) = counts n (some fd) + among fds

  module _ (k : ℕ) {N : State SocketFactory → Type 0} where
    Triple-call :
        {A : Type 0} (ask : Log → A) (event : A → Event)
        → ((a : A) → IsPlain (event a))
        → Triple (Accounted k) (call ask event) (λ _ s. Accounted k s) N
    unfolding call
    Triple-call ask event p = record {
      at = λ s h.
          let e = event (ask s.log) in
          let plain = p (ask s.log) in
          record {
            count =
                omega (arith, plain-opens n e s.log plain, plain-closes n e s.log plain, h.count);
          };
    }

    Triple-close :
        (fd : ℕ)
        → Triple
            (Accounted (k + counts n (some fd)))
            (note (closed (some fd)))
            (λ _ s. Accounted k s)
            N
    unfolding note call
    Triple-close fd = record { at = λ s h. record { count = omega (arith, h.count) } }

  module _ (os : Os) (k : ℕ) where
    Triple-option :
        (fd : ℕ) (o : Setting) {N : State SocketFactory → Type 0}
        → Triple (Accounted k) (setsockopt os (some fd) o) (λ _ s. Accounted k s) N
    unfolding setsockopt
    Triple-option fd o =
        Triple-call k (λ log. os.setsockopt log (some fd) o) (configured (some fd) o) (λ _. tt)

    Triple-close_and_fail :
        (fd : ℕ) {Q : ℕ → State SocketFactory → Type 0}
        → Triple (Accounted (k + counts n (some fd))) (close_and_fail fd) Q (Accounted k)
    unfolding close_and_fail
    Triple-close_and_fail fd =
        Triple-bind (λ _ s. Accounted k s) (Triple-close k fd) λ _. Triple-fail (λ s h. h)

    Triple-open_fast :
        (fd : ℕ) (b : Bool) {N : State SocketFactory → Type 0}
        → Triple (Accounted k) (open_fast os fd b) (λ _ s. Accounted k s) N
    unfolding open_fast
    Triple-open_fast fd false = Triple-pure true (λ s h. h)
    Triple-open_fast fd true = Triple-option fd fastopen

    Triple-keep_copy :
        (fd : ℕ) (shared : Bool) (kept : Fd) {N : State SocketFactory → Type 0}
        → Triple
            (λ s. Accounted k s × (s.self.fd ≡ kept))
            (keep_copy os fd shared kept)
            (λ _ s. Accounted k s)
            N
    unfolding keep_copy dup call modify ◌>>=◌
    Triple-keep_copy fd true none = Triple-pure tt (λ s h. h.0)
    Triple-keep_copy fd true (some c) = Triple-pure tt (λ s h. h.0)
    Triple-keep_copy fd false (some c) = Triple-pure tt (λ s h. h.0)
    Triple-keep_copy fd false none = record {
      at = λ s (h, e).
          let none_kept : counts n s.self.fd ≡ 0 = ap (counts n) e in
          record { count = omega (arith, h.count, none_kept) };
    }

  module _ (os : Os) (k : ℕ) where
    abbrev pub Hands : ℕ → State SocketFactory → Type 0
    Hands fd s = Accounted (k + counts n (some fd)) s

    -- reading the factory changes nothing
    Triple-self :
        {A : Type 0} {P : State SocketFactory → Type 0} {f : SocketFactory → M SocketFactory A}
        {Q : A → State SocketFactory → Type 0} {N : State SocketFactory → Type 0}
        → ((self : SocketFactory) → Triple P (f self) Q N)
        → Triple P (get_self >>= f) Q N
    Triple-self {P = P} h =
        Triple-bind (λ self s. P s × (s.self ≡ self)) Triple-get_self
          λ self. Triple-weaken (λ s p. p.0) (h self)

    Triple-listening : (fd : ℕ) → Triple (Hands fd) (listening os fd) Hands (Accounted k)
    unfolding listening listen
    Triple-listening fd = Triple-self λ self.
        Triple-bind (λ _ s. Hands fd s) (Triple-open_fast os _ fd self.tcp_fastopen)
          λ fast.
            Triple-bind (λ _ s. Hands fd s)
              (Triple-call _ (λ log. os.listen log (some fd)) (listens (some fd)) (λ _. tt))
              λ ok.
                Triple-if ok (λ _. Triple-pure fd (λ s h. h)) (λ _. Triple-close_and_fail os k fd)

    Triple-binding : (fd : ℕ) → Triple (Hands fd) (binding os fd) Hands (Accounted k)
    unfolding binding bind
    Triple-binding fd = Triple-self λ self.
        Triple-bind (λ _ s. Hands fd s)
          (Triple-call _ (λ log. os.bind log (some fd) self.addr) (bound (some fd) self.addr)
            (λ _. tt))
          λ ok. Triple-if ok (λ _. Triple-listening fd) (λ _. Triple-close_and_fail os k fd)

    Triple-sharing : (fd : ℕ) → Triple (Hands fd) (sharing os fd) Hands (Accounted k)
    unfolding sharing
    Triple-sharing fd =
        Triple-bind (λ _ s. Hands fd s) (Triple-option os _ fd reuseport)
          λ shared.
            Triple-bind (λ self s. Hands fd s × (s.self ≡ self)) Triple-get_self
              λ self.
                Triple-bind (λ _ s. Hands fd s)
                  (Triple-weaken (λ s p. (p.0, ap (λ f. f.fd) p.1))
                    (Triple-keep_copy os _ fd shared self.fd))
                  λ _.
                    Triple-bind (λ _ s. Hands fd s) (Triple-option os _ fd _)
                      λ ok.
                        Triple-if ok (λ _. Triple-binding fd) (λ _. Triple-close_and_fail os k fd)

    abbrev HandsOr : Fd → State SocketFactory → Type 0
    HandsOr fd s = Accounted (k + counts n fd) s

    Triple-opening : (fd : Fd) → Triple (HandsOr fd) (opening os fd) Hands (Accounted k)
    unfolding opening
    Triple-opening none = Triple-fail (λ s h. record { count = omega (arith, h.count) })
    Triple-opening (some fd) =
        Triple-bind (λ _ s. Hands fd s) (Triple-option os _ fd reuseaddr)
          λ ok. Triple-if ok (λ _. Triple-sharing fd) (λ _. Triple-close_and_fail os k fd)

    Triple-returned : (fd : Fd) → Triple (HandsOr fd) (returned fd) Hands (Accounted k)
    unfolding returned
    Triple-returned none = Triple-fail (λ s h. record { count = omega (arith, h.count) })
    Triple-returned (some fd) = Triple-pure fd (λ s h. h)

    Triple-opened :
        (ask : Log → Fd) {N : State SocketFactory → Type 0}
        → Triple (Accounted k) (call ask (opened stream)) HandsOr N
    unfolding call
    Triple-opened ask = record { at = λ s h. record { count = omega (arith, h.count) } }

    Triple-get_from : (kept : Fd) → Triple (Accounted k) (get_from os kept) Hands (Accounted k)
    unfolding get_from socket dup
    Triple-get_from none =
        Triple-bind HandsOr (Triple-opened (λ log. os.socket log stream)) Triple-opening
    Triple-get_from (some c) =
        Triple-bind HandsOr (Triple-opened (λ log. os.dup log (some c))) Triple-returned

    pub Triple-get : Triple (Accounted k) (socket_factory_get os) Hands (Accounted k)
    unfolding socket_factory_get
    Triple-get = Triple-self λ self. Triple-get_from self.fd

-- ===== src/Server/Authorized/Run.antt =====
-- core/src/hev-socks5-server.c: a whole run with an authenticator.
use gen_net.Base.{ℕ, ℤ, ◌≡◌, inr, Option, none, some}
use gen_net.Rbtree.{Tree}
use gen_net.User.{User}
use gen_net.Net.{Fd, Os, State, M, get_self, modify, call, note}
use gen_net.Net.Steps.{Steps}
use gen_net.Net.Triples.{Ends, Triple, Triple-bind, Triple-if, Triple-pure, Triple-keeps}
use gen_net.Socks5.{Timeouts, watch}
use gen_net.Server.{Server, Class, put_timeout}
use gen_net.Server.Run.{handshake, run}
use gen_net.Server.Closed.{Methods}
use gen_net.Server.Closed.Work.{Steps-service}
use gen_net.Server.Closed.Work.Run.{Steps-served}
use gen_net.Net.{add_fd}
use gen_net.Server.Authorized.{
  Verified, Waiting, Guarded, Keeps, Verified-Keeps, Keeps-Plain, Keeps-Works,
}
use gen_net.Server.Authorized.Login.{Triple-server_auth}

module _ (os : Os) (t : Tree User) where
  Triple-put_timeout : (n : ℤ) → Triple (Waiting t) (put_timeout n) (λ _ s. Waiting t s) (Guarded t)
  unfolding put_timeout modify
  Triple-put_timeout n = record { at = λ s w. record { object = w.object; calm = w.calm } }

  Triple-watch : (fd : Fd) → Triple (Waiting t) (watch os fd) (λ _ s. Waiting t s) (Guarded t)
  unfolding watch add_fd note call
  Triple-watch fd =
      Triple-bind (λ _ s. Waiting t s)
        (record { at = λ s w. record { object = w.object; calm = (tt, w.calm) } })
        (λ ok.
          Triple-if ok (λ _. Triple-pure tt (λ s w. w))
            (λ _. record { at = λ s w. record { object = w.object; calm = (tt, w.calm) } }))

  module _ (klass : Class) (timeouts : Timeouts) (methods : Methods klass Keeps) where
    kept :
        {A : Type 0} (m : M Server A)
        → Steps Keeps m
        → Triple (Verified t) m (λ _ s. Verified t s) (Guarded t)
    kept m steps =
        Triple-keeps m (Verified t) steps (λ s s' k v. Verified-Keeps t s s' k v) (λ s v. inr v)

    Triple-handshake :
        (cmd : ℕ)
        → Triple (Waiting t) (handshake os klass timeouts cmd) (λ _ s. Verified t s) (Guarded t)
    unfolding handshake
    Triple-handshake cmd =
        Triple-bind (λ _ s. Waiting t s) (Triple-put_timeout timeouts.tcp_timeout)
          λ _.
            Triple-bind (λ _ s. Verified t s) (Triple-server_auth os t)
              λ _. kept _ (Steps-served (Keeps-Works os) methods timeouts _)

    start : Triple (Waiting t) get_self (λ _ s. Waiting t s) (Guarded t)
    unfolding get_self
    start = record { at = λ s w. w }

    Triple-run :
        (cmd : ℕ) → Triple (Waiting t) (run os klass timeouts cmd) (λ _ s. Verified t s) (Guarded t)
    unfolding run
    Triple-run cmd =
        Triple-bind (λ _ s. Waiting t s) start
          λ self.
            Triple-bind (λ _ s. Waiting t s) (Triple-watch self.base.fd)
              λ _.
                Triple-bind (λ _ s. Verified t s) (Triple-handshake cmd)
                  λ _. kept _ (Steps-service (Keeps-Plain os) methods timeouts)

    ended :
        (r : Option (Unit {0})) (s : State Server)
        → Ends (λ _ u. Verified t u) (Guarded t) (r, s)
        → (r ≡ some tt → Verified t s) × Guarded t s
    ended none s g = ((λ e. absurd (cc)), g)
    ended (some x) s v = ((λ e. v), inr v)

    -- Run with an authenticator, from a state in which nothing was opened yet and no user is let
    -- in, a connection that serves its client ends with a user of the authenticator whose name and
    -- password the client sent. One that fails ends so too, or has opened, bound, connected and
    -- spliced nothing. The methods of the class may do anything but change the user.
    pub run-Guarded :
        (cmd : ℕ) (s : State Server)
        → Waiting t s
        → let (r, s') = run os klass timeouts cmd s in (r ≡ some tt → Verified t s') × Guarded t s'
    run-Guarded cmd s w =
        let (r, s') = run os klass timeouts cmd s in ended r s' ((Triple-run cmd).at s w)

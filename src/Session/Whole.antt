-- ===== src/Session/Whole.antt =====
-- hev-socks5-session.c and core/src/hev-socks5-server.c: the laws of the server, for a session.
use gen_net.Base.{ℕ, ◌+◌, ◌≡◌, refl, Bool, true, none, some, []}
use gen_net.Rbtree.{Tree}
use gen_net.User.{User}
use gen_net.Net.{Fd, Os, State, modify}
use gen_net.Net.Steps.{Steps}
use gen_net.Socks5.{Timeouts, set_addr_family}
use gen_net.Server.{Server, Class, set_auth, server_construct}
use gen_net.Server.Run.{run, connection}
use gen_net.Server.Closed.{Plain, Methods}
use gen_net.Server.Authorized.{Waiting, Verified, Guarded, Keeps-Plain}
use gen_net.Server.Authorized.Run.{run-Guarded}
use gen_net.Server.Descriptors.{counts, opens, closes, Holds, Steady, Steady-Plain}
use gen_net.Server.Descriptors.Whole.{connection-closes}
use gen_net.Session.{Config, session_bind, session_class, session_construct, put_associated}
use gen_net.Udp.{UdpOs}
use gen_net.Udp.Datagrams.{mark_associated}
use gen_net.Udp.Splicer.{splice}
use gen_net.Udp.Laws.Splicer.{Steps-splice}
use gen_net.Session.Laws.{Steps-session_bind, Methods-session_class}
use gen_net.Session.Mark.{Keeps-put_associated}

Steady-put_associated :
    (n : ℕ) (os : Os) (config : Config) (b : Bool) → Steps (Steady n) (put_associated os config b)
unfolding put_associated modify
Steady-put_associated n os config b = record {
  at = λ s. record { fd0 = refl; fd1 = refl; fd = refl; opens_same = refl; closes_same = refl };
}

-- a new session with the users that the worker gives it
abbrev pub started : Os → Config → Tree User → Fd → State Server
started os config t c = record { self = set_auth t (session_construct os config c); log = [] }

-- the class of a session with the UDP relay of the library, where the relay has `fuel` rounds and
-- `num` buffers for each direction
abbrev pub relaying : Os → UdpOs → Config → ℕ → ℕ → Class
relaying os u config fuel num =
    session_class os config (splice os u (session_bind os config) fuel num)

module _ (os : Os) (u : UdpOs) (config : Config) (fuel num : ℕ) where
  relaying-Methods :
      {R : State Server → State Server → Type 0} (plain : Plain os R)
      → ((b : Bool) → Steps R (put_associated os config b))
      → Methods (relaying os u config fuel num) R
  unfolding put_associated mark_associated
  relaying-Methods plain associated = Methods-session_class plain config associated (λ fd.
      Steps-splice plain u (associated true)
        (λ sock a. Steps-session_bind plain config associated sock a) fuel num fd)

  module _ (timeouts : Timeouts) (t : Tree User) (c : Fd) (cmd : ℕ) where
    started-Waiting : Waiting t (started os config t c)
    unfolding set_auth
    started-Waiting = record { object = refl; calm = tt }

    started-Holds : (n : ℕ) → Holds n c none none 0 (started os config t c)
    unfolding set_auth session_construct server_construct set_addr_family
    started-Holds n = record { fd0 = refl; fd1 = refl; fd = refl; count = refl }

    -- A new session with an authenticator serves its client only if the client has sent the name
    -- and the password of one of the users; else it has let one in before it failed, or has opened,
    -- bound, connected and spliced nothing. When it is gone, each descriptor was closed as often as
    -- it was opened, and the client's once more. This holds with the UDP relay, for any number of
    -- its rounds and whatever the system answers.
    pub session-Guarded :
        let s = started os config t c in
        let klass = relaying os u config fuel num in
        let (r, s') = run os klass timeouts cmd s in
        let gone = (connection os klass timeouts cmd s).1 in
        ((r ≡ some tt → Verified t s') × Guarded t s')
        × ((n : ℕ) → opens n gone.log + counts n c ≡ closes n gone.log)
    session-Guarded = (
      run-Guarded os t (relaying os u config fuel num) timeouts
          (relaying-Methods (Keeps-Plain os) (Keeps-put_associated os config)) cmd
          (started os config t c) started-Waiting,
      λ n.
          connection-closes os (relaying os u config fuel num) timeouts n
            (relaying-Methods (Steady-Plain n os) (Steady-put_associated n os config)) c cmd
            (started os config t c) (started-Holds n),
    )

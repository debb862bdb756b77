-- ===== src/Server/Closed/Work/Run.antt =====
-- core/src/hev-socks5-server.c: relations between states, for a whole run.
use gen_net.Base.{ℕ, Bool, true, false, Option, none, some, ◌==◌, if◌then◌else◌}
use gen_net.Addr.{SockAddr}
use gen_net.Net.{
  Fd, stream, dgram, crashed, reuseaddr, connected, Os, State, pure, fail, ◌>>=◌, ◌>>◌, connect,
}
use gen_net.Net.Steps.{
  IsPreorder, Steps, Steps-pure, Steps-fail, Steps-get_self, Steps-attempt, Steps-if, Steps-bind,
}
use gen_net.Socks5.{Timeouts}
use gen_net.Server.{Server, Object, Class, put_object}
use gen_net.Server.Request.{succ, Request, read_request, write_response}
use gen_net.Server.Relay.{server_connect, bound_socket, second_socket, first_socket, server_bind}
use gen_net.Server.Run.{perform, handshake, run}
use gen_net.Server.Closed.{Works, Methods, Steps-server_auth}
use gen_net.Server.Closed.Work.{
  Steps-note, Steps-read_request, Steps-write_response, Steps-socks5_socket, Steps-watch,
  Steps-release, Steps-option, Steps-abandon, Steps-service,
}

module _ {os : Os} {R : State Server → State Server → Type 0} (works : Works os R) where
  wpo : IsPreorder R
  wpo = works.plain.talks.order

  module _ {klass : Class} (methods : Methods klass R) (timeouts : Timeouts) where
    Steps-server_connect : (a : SockAddr) → Steps R (server_connect os klass timeouts a)
    unfolding server_connect connect
    Steps-server_connect a = Steps-bind wpo (Steps-socks5_socket works stream) λ fd.
        Steps-bind wpo (Steps-attempt wpo (methods.binder fd a)) λ ready.
          Steps-if wpo _ (Steps-abandon works fd) (
            Steps-bind wpo (works.plain.timeout _) λ _.
              Steps-bind wpo
                (works.plain.calls (λ log. os.connect log fd a) (connected fd a) (λ _. tt))
                λ ok.
                  Steps-if wpo _ (Steps-abandon works fd)
                    (Steps-bind wpo (works.plain.timeout _) λ _. works.fd0 fd))

    Steps-bound_socket :
        (fd : Fd) (old : SockAddr) (b : Option (Bool × SockAddr))
        → Steps R (bound_socket os klass timeouts fd old b)
    unfolding bound_socket
    Steps-bound_socket fd old none = Steps-bind wpo (Steps-release works fd) λ _. Steps-pure wpo _
    Steps-bound_socket fd old (some (true, a)) = Steps-bind wpo (works.fd1 fd) λ _. Steps-pure wpo _
    Steps-bound_socket fd old (some (false, a)) =
        Steps-bind wpo (Steps-release works fd) λ _. Steps-pure wpo _

    Steps-second_socket :
        (a : SockAddr) (fd : Option Fd) → Steps R (second_socket os klass timeouts a fd)
    unfolding second_socket
    Steps-second_socket a none = Steps-pure wpo _
    Steps-second_socket a (some fd) = Steps-bind wpo (Steps-option works.plain fd reuseaddr) λ ok.
        Steps-if wpo ok
          (Steps-bind wpo (Steps-attempt wpo (methods.udp_binder fd a))
            λ b. Steps-bound_socket fd a b)
          (Steps-bind wpo (Steps-release works fd) λ _. Steps-pure wpo _)

    Steps-first_socket :
        (given : Bool) (a : SockAddr) (fd : Option Fd)
        → Steps R (first_socket os klass timeouts given a fd)
    unfolding first_socket
    Steps-first_socket given a none = Steps-pure wpo _
    Steps-first_socket given a (some fd) = Steps-bind wpo (works.fd0 fd) λ _.
        Steps-if wpo _ (Steps-pure wpo _) (
          Steps-bind wpo (Steps-attempt wpo (Steps-socks5_socket works dgram))
            λ other. Steps-second_socket a other)

    Steps-server_bind :
        (given : Bool) (a : SockAddr) → Steps R (server_bind os klass timeouts given a)
    unfolding server_bind
    Steps-server_bind given a =
        Steps-bind wpo (Steps-attempt wpo (Steps-socks5_socket works dgram))
          λ fd. Steps-first_socket given a fd

    pub Steps-perform : (q : Request) → Steps R (perform os klass timeouts q)
    unfolding perform
    Steps-perform q = Steps-if wpo _ (Steps-pure wpo _) (
        Steps-if wpo _
          (Steps-bind wpo (Steps-attempt wpo (Steps-server_connect q.addr))
            λ res. Steps-bind wpo (works.plain.type _) λ _. Steps-pure wpo _)
          (Steps-if wpo _
            (Steps-bind wpo (Steps-server_bind true q.addr)
              λ b. Steps-bind wpo (works.plain.type _) λ _. Steps-pure wpo _)
            (Steps-if wpo _
              (Steps-bind wpo (Steps-server_bind false q.addr)
                λ b. Steps-bind wpo (works.plain.type _) λ _. Steps-pure wpo _)
              (Steps-pure wpo _))))

    -- the handshake behind the authentication
    pub Steps-served :
        (q : Request)
        → Steps R (do
          q' ← read_request os q
          (rep, addr) ← perform os klass timeouts q'
          write_response os rep addr
          if rep == succ then pure tt else fail)
    Steps-served q = Steps-bind wpo (Steps-read_request works.plain q) λ q'.
        Steps-bind wpo (Steps-perform q') λ r.
          Steps-bind wpo (Steps-write_response works.plain _ _)
            λ _. Steps-if wpo _ (Steps-pure wpo tt) (Steps-fail wpo)

    module _ (admitted : (o : Object) → Steps R (put_object o)) where
      pub Steps-handshake : (cmd : ℕ) → Steps R (handshake os klass timeouts cmd)
      unfolding handshake
      Steps-handshake cmd = Steps-bind wpo (works.plain.timeout _) λ _.
          Steps-bind wpo
            (Steps-server_auth works.plain.talks admitted (Steps-note works.plain crashed tt))
            λ _. Steps-served _

      pub Steps-run : (cmd : ℕ) → Steps R (run os klass timeouts cmd)
      unfolding run
      Steps-run cmd = Steps-bind wpo (Steps-get_self wpo) λ s.
          Steps-bind wpo (Steps-watch works.plain s.base.fd) λ _.
            Steps-bind wpo (Steps-handshake cmd) λ _. Steps-service works.plain methods timeouts

-- ===== src/Session/Laws.antt =====
-- hev-socks5-session.c: relations between states, for the session's own methods.
use gen_net.Base.{take, ℕ, Bool, true, false, Option, none, some, List}
use gen_net.Addr.{SockAddr}
use gen_net.Net.{
  Fd, bound, connected, named, crashed, v6only_on, reuseport, bind_device, mark, Os, State, M, bind,
  connect, getsockname, getpeername, resolver,
}
use gen_net.Net.Steps.{
  IsPreorder, Steps, Steps-pure, Steps-fail, Steps-get_self, Steps-look, Steps-if, Steps-bind,
}
use gen_net.Server.{Server, Object, no_object, auth, user}
use gen_net.Server.Closed.{Plain, Methods}
use gen_net.Server.Closed.Work.{Steps-note, Steps-option}
use gen_net.Session.{
  Config, user_mark, demand, bind_source, bind_to_device, set_mark, session_bind, put_associated,
  wanted, listen_on, peer_of, published, only_ipv6, session_udp_bind, session_class,
}

module _ {os : Os} {R : State Server → State Server → Type 0} (plain : Plain os R) (config : Config)
    (associated : (b : Bool) → Steps R (put_associated os config b)) where
  po : IsPreorder R
  po = plain.talks.order

  Steps-demand : (ok : Bool) → Steps R (demand ok)
  unfolding demand
  Steps-demand ok = Steps-if po ok (Steps-pure po tt) (Steps-fail po)

  Steps-resolver : Steps R (resolver {S = Server} os)
  unfolding resolver
  Steps-resolver = Steps-look po os.resolver

  Steps-name : (fd : Fd) → Steps R (getsockname {S = Server} os fd)
  unfolding getsockname
  Steps-name fd = plain.calls (λ log. os.getsockname log fd) (named fd) (λ _. tt)

  Steps-peer : (fd : Fd) → Steps R (getpeername {S = Server} os fd)
  unfolding getpeername
  Steps-peer fd = plain.calls (λ log. os.getpeername log fd) (named fd) (λ _. tt)

  Steps-address : (fd : Fd) (a : SockAddr) → Steps R (bind {S = Server} os fd a)
  unfolding bind
  Steps-address fd a = plain.calls (λ log. os.bind log fd a) (bound fd a) (λ _. tt)

  Steps-connect : (fd : Fd) (a : SockAddr) → Steps R (connect {S = Server} os fd a)
  unfolding connect
  Steps-connect fd a = plain.calls (λ log. os.connect log fd a) (connected fd a) (λ _. tt)

  pub Steps-bind_source : (fd : Fd) (o : Option (List ℕ)) → Steps R (bind_source os config fd o)
  unfolding bind_source
  Steps-bind_source fd none = Steps-pure po tt
  Steps-bind_source fd (some name) =
      Steps-bind po Steps-resolver λ r.
        Steps-if po _ (Steps-fail po) (Steps-bind po (Steps-address fd _) λ ok. Steps-demand ok)

  pub Steps-bind_to_device :
      (fd : Fd) (o : Option (List ℕ)) → Steps R (bind_to_device os config fd o)
  unfolding bind_to_device
  Steps-bind_to_device fd none = Steps-pure po tt
  Steps-bind_to_device fd (some name) =
      Steps-bind po (Steps-option plain fd (bind_device (take 15 name))) λ ok. Steps-demand ok

  Steps-user_mark : (o : Object) → Steps R (user_mark o)
  unfolding user_mark
  Steps-user_mark no_object = Steps-pure po 0
  Steps-user_mark (user u) = Steps-pure po u.mark
  Steps-user_mark (auth t) = Steps-bind po (Steps-note plain crashed tt) λ _. Steps-fail po

  Steps-set_mark : (fd : Fd) (m : ℕ) → Steps R (set_mark os config fd m)
  unfolding set_mark
  Steps-set_mark fd m =
      Steps-if po _ (Steps-pure po tt)
        (Steps-bind po (Steps-option plain fd (mark m)) λ ok. Steps-demand ok)

  pub Steps-session_bind : (fd : Fd) (a : SockAddr) → Steps R (session_bind os config fd a)
  unfolding session_bind
  Steps-session_bind fd a = Steps-bind po (Steps-bind_source fd _) λ _.
      Steps-bind po (Steps-bind_to_device fd _) λ _.
        Steps-bind po (Steps-get_self po)
          λ self. Steps-bind po (Steps-user_mark self.object) λ m. Steps-set_mark fd _

  Steps-wanted : (o : Option SockAddr) → Steps R (wanted os config o)
  unfolding wanted
  Steps-wanted none = Steps-fail po
  Steps-wanted (some a) = Steps-pure po a

  Steps-listen_on : (fd : Fd) (o : Option (List ℕ)) → Steps R (listen_on os config fd o)
  unfolding listen_on
  Steps-listen_on fd none = Steps-bind po (Steps-name fd) λ name. Steps-wanted name
  Steps-listen_on fd (some name) =
      Steps-bind po Steps-resolver λ r. Steps-if po _ (Steps-pure po _) (Steps-fail po)

  Steps-peer_of : (fd : Fd) (dst : SockAddr) → Steps R (peer_of os config fd dst)
  unfolding peer_of
  Steps-peer_of fd dst =
      Steps-if po _ (Steps-pure po dst) (
        Steps-bind po (Steps-peer fd)
          λ name. Steps-bind po (Steps-wanted name) λ a. Steps-pure po _)

  Steps-published : (src : SockAddr) (o : Option (List ℕ)) → Steps R (published os config src o)
  unfolding published
  Steps-published src none = Steps-pure po _
  Steps-published src (some name) = Steps-bind po Steps-resolver λ r. Steps-pure po _

  Steps-only_ipv6 : (sock : Fd) (b : Bool) → Steps R (only_ipv6 os config sock b)
  unfolding only_ipv6
  Steps-only_ipv6 sock false = Steps-pure po tt
  Steps-only_ipv6 sock true =
      Steps-bind po (Steps-option plain sock v6only_on) λ ok. Steps-demand ok

  Steps-session_udp_bind :
      (sock : Fd) (src : SockAddr) → Steps R (session_udp_bind os config sock src)
  unfolding session_udp_bind
  Steps-session_udp_bind sock src = Steps-bind po (Steps-get_self po) λ self.
      Steps-bind po (Steps-option plain sock reuseport) λ shared.
        Steps-bind po (Steps-demand shared) λ _.
          Steps-bind po (Steps-only_ipv6 sock config.ipv6_only) λ _.
            Steps-bind po (Steps-listen_on self.base.fd config.udp_listen_address) λ a.
              Steps-bind po (Steps-address sock _) λ ok. Steps-bind po (Steps-demand ok) λ _.
                Steps-bind po (Steps-peer_of self.base.fd src) λ dst.
                  Steps-bind po (Steps-connect sock dst) λ ok. Steps-bind po (Steps-demand ok) λ _.
                    Steps-bind po (associated _) λ _.
                      Steps-bind po (Steps-name sock)
                        λ name. Steps-bind po (Steps-wanted name) λ src. Steps-published src _

  -- A relation that all calls keep is kept by the methods of the session.
  pub Methods-session_class :
      {splicer : Fd → M Server (Unit {0})}
      → ((fd : Fd) → Steps R (splicer fd))
      → Methods (session_class os config splicer) R
  Methods-session_class spliced = record {
    binder = λ fd a. Steps-session_bind fd a;
    udp_binder = λ fd a. Steps-session_udp_bind fd a;
    udp_splicer = spliced;
  }

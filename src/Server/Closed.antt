-- ===== src/Server/Closed.antt =====
-- core/src/hev-socks5-server.c: relations between the states before and after a function, for the
-- authentication.
pub mod Work
use gen_net.Base.{ℕ, ℤ, Bool, true, false, not, Option, none, some, List, ◌==◌, if◌then◌else◌}
use gen_net.Rbtree.{Tree}
use gen_net.Addr.{Family, SockAddr}
use gen_net.Addr.Resolve.{Resolved}
use gen_net.User.{User}
use gen_net.Authenticator.{get}
use gen_net.Net.{
  Fd, Kind, stream, dgram, crashed, bound, named, Setting, v6only_off, rcvbuf, reuseaddr, opened,
  closed, configured, watched, connected, Event, Log, Os, State, M, pure, fail, attempt, get_self,
  call, look, ◌>>=◌, ◌>>◌, recv, send, socket, setsockopt, add_fd, connect, bind, getsockname,
  resolver, note,
}
use gen_net.Net.Steps.{
  IsPreorder, Steps, Steps-pure, Steps-fail, Steps-get_self, Steps-look, Steps-attempt, Steps-if,
  Steps-bind,
}
use gen_net.Socks5.{
  Socks5Type, untyped, tcp, udp_in_tcp, udp_in_udp, Timeouts, whole, read, watch, configure, made,
  socks5_socket, release, tcp_splice,
}
use gen_net.Server.{
  Server, Object, no_object, auth, user, Class, put_timeout, put_object, checked, settle, admit,
  look_up, read_auth_method, write_auth_method, read_auth_user, write_auth_user, authenticate,
  chosen, server_auth,
}
use gen_net.Server.Request.{
  succ, Request, put_family, resolved_request, with_rest, more_of, versioned, read_request,
  write_response,
}
use gen_net.Server.Relay.{
  put_fd0, put_fd1, abandon, server_connect, bound_socket, second_socket, first_socket, server_bind,
  bound_name, named_socket, server_udp_bind, any_port,
}
use gen_net.Server.Run.{
  put_type, perform, handshake, relay, serve, service, run, give_back, destruct, server_class,
}

-- what the authentication does to the state
pub record Talks (os : Os) (R : State Server → State Server → Type 0) : Type 0 where
  pub order : IsPreorder R
  pub received : (fd : Fd) (n : ℕ) → Steps R (recv os fd n)
  pub sent : (fd : Fd) (bytes : List ℕ) → Steps R (send os fd bytes)

-- Neither a descriptor that appears nor one that is closed.
abbrev pub IsPlain : Event → Type 0
IsPlain (opened k fd) = ⊥
IsPlain (closed fd) = ⊥
IsPlain _ = Unit

-- what the code does to the state that leaves the descriptors as they are
pub record Plain (os : Os) (R : State Server → State Server → Type 0) : Type 1 where
  pub talks : Talks os R
  pub calls :
      {A : Type 0} (ask : Log → A) (event : A → Event)
      → ((a : A) → IsPlain (event a))
      → Steps R (call ask event)
  pub timeout : (t : ℤ) → Steps R (put_timeout t)
  pub family : (f : Family) → Steps R (put_family f)
  pub type : (t : Socks5Type) → Steps R (put_type t)

-- and what it does to them
pub record Works (os : Os) (R : State Server → State Server → Type 0) : Type 1 where
  pub plain : Plain os R
  pub opens : (k : Kind) → Steps R (socket os k)
  pub closes : (fd : Fd) → Steps R (note (closed fd))
  pub fd0 : (fd : Fd) → Steps R (put_fd0 fd)
  pub fd1 : (fd : Fd) → Steps R (put_fd1 fd)

-- the methods of the class keep it too
pub record Methods (klass : Class) (R : State Server → State Server → Type 0) : Type 0 where
  pub binder : (fd : Fd) (a : SockAddr) → Steps R (klass.binder fd a)
  pub udp_binder : (fd : Fd) (a : SockAddr) → Steps R (klass.udp_binder fd a)
  pub udp_splicer : (fd : Fd) → Steps R (klass.udp_splicer fd)

module _ {os : Os} {R : State Server → State Server → Type 0} (talks : Talks os R) where
  po : IsPreorder R
  po = talks.order

  self_then :
      {A : Type 0} {f : Server → M Server A}
      → ((s : Server) → Steps R (f s))
      → Steps R (get_self >>= f)
  self_then h = Steps-bind po (Steps-get_self po) h

  Steps-whole : (n : ℕ) (r : Option (List ℕ)) → Steps R (whole {S = Server} n r)
  unfolding whole
  Steps-whole n none = Steps-fail po
  Steps-whole n (some bytes) = Steps-if po _ (Steps-pure po bytes) (Steps-fail po)

  pub Steps-read : (fd : Fd) (n : ℕ) → Steps R (read os fd n)
  unfolding read
  Steps-read fd n = Steps-bind po (talks.received fd n) (λ r. Steps-whole n r)

  pub Steps-checked : (ok : Bool) → Steps R (checked ok)
  unfolding checked
  Steps-checked ok = Steps-if po ok (Steps-pure po tt) (Steps-fail po)

  pub Steps-read_auth_method : Steps R (read_auth_method os)
  unfolding read_auth_method
  Steps-read_auth_method = self_then λ s. Steps-bind po (Steps-read s.base.fd 2) λ head.
      Steps-if po _ (Steps-fail po) (
        Steps-bind po (Steps-read s.base.fd _)
          λ methods. Steps-if po _ (Steps-pure po _) (Steps-fail po))

  pub Steps-write_auth_method : (m : Option ℕ) → Steps R (write_auth_method os m)
  unfolding write_auth_method
  Steps-write_auth_method m =
      self_then λ s. Steps-bind po (talks.sent s.base.fd _) λ ok. Steps-checked ok

  pub Steps-write_auth_user : (r : Option (Unit {0})) → Steps R (write_auth_user os r)
  unfolding write_auth_user
  Steps-write_auth_user r =
      self_then λ s. Steps-bind po (talks.sent s.base.fd _) λ ok. Steps-checked ok

  module _ (admitted : (o : Object) → Steps R (put_object o)) (crash : Steps R (note crashed)) where
    Steps-admit : (o : Option User) (pass : List ℕ) → Steps R (admit o pass)
    unfolding admit
    Steps-admit none pass = Steps-fail po
    Steps-admit (some u) pass = Steps-if po _ (admitted (user u)) (Steps-fail po)

    Steps-look_up : (o : Object) (name pass : List ℕ) → Steps R (look_up o name pass)
    unfolding look_up
    Steps-look_up no_object name pass = Steps-bind po crash λ _. Steps-fail po
    Steps-look_up (user u) name pass = Steps-bind po crash λ _. Steps-fail po
    Steps-look_up (auth t) name pass = Steps-admit (get t name) pass

    Steps-read_auth_user : Steps R (read_auth_user os)
    unfolding read_auth_user
    Steps-read_auth_user = self_then λ s. Steps-bind po (Steps-read s.base.fd 2) λ head.
        Steps-if po _ (Steps-fail po) (
          Steps-bind po (Steps-read s.base.fd _) λ name.
            Steps-if po _ (Steps-fail po)
              (Steps-bind po (Steps-read s.base.fd _) λ pass. Steps-look_up s.object _ pass))

    Steps-settle : (r : Option (Unit {0})) → Steps R (settle r)
    unfolding settle
    Steps-settle none = Steps-fail po
    Steps-settle (some x) = Steps-pure po tt

    Steps-chosen : (m : Option ℕ) → Steps R (chosen os m)
    unfolding chosen authenticate
    Steps-chosen none = Steps-fail po
    Steps-chosen (some m) = Steps-if po _ (Steps-pure po tt) (
        Steps-if po _
          (Steps-bind po (Steps-attempt po Steps-read_auth_user)
            λ r. Steps-bind po (Steps-write_auth_user r) λ _. Steps-settle r)
          (Steps-fail po))

    pub Steps-server_auth : Steps R (server_auth os)
    unfolding server_auth
    Steps-server_auth =
        Steps-bind po (Steps-attempt po Steps-read_auth_method)
          λ m. Steps-bind po (Steps-write_auth_method m) λ _. Steps-chosen m

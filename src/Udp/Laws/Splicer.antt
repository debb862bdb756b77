-- ===== src/Udp/Laws/Splicer.antt =====
-- core/src/hev-socks5-udp.c: relations between states that the forwarding keeps.
use gen_net.Base.{
  ℕ, zero, suc, Bool, true, false, ◌||◌, Option, none, some, List, [], ◌∷◌, replicate,
}
use gen_net.Addr.{Addr, SockAddr}
use gen_net.Net.{
  Fd, rewatched, watched, crashed, Datagram, Parcel, Os, State, M, get_self, ◌>>=◌, add_fd,
  resolver,
}
use gen_net.Net.Steps.{
  IsPreorder, Steps, Steps-pure, Steps-fail, Steps-get_self, Steps-look, Steps-attempt, Steps-if,
  Steps-bind,
}
use gen_net.Socks5.{yield, waitio}
use gen_net.Server.{Server}
use gen_net.Server.Closed.{Plain}
use gen_net.Server.Closed.Work.{Steps-note, Steps-watch}
use gen_net.Udp.{Answer, gave, error, refused, UdpOs, Msg, Received}
use gen_net.Udp.Datagrams.{mark_associated}
use gen_net.Udp.Splicer.{
  is_moved, is_idle, Loop, progress, routed, address, addressed, bind_to, bind_once, carry, route,
  forward, fwd_f, backward, fwd_b, turn_f, turn_b, splice_round, rest_of, splice_loop, watch_again,
  udp_relay, splice,
}
use gen_net.Udp.Laws.{Steps-udp_yielder, Steps-recvmmsg, Steps-sendmmsg, Steps-udp_fd}
use gen_net.Udp.Laws.Messages.{Steps-udp_sendmmsg, Steps-udp_recvmmsg}

module _ {os : Os} {R : State Server → State Server → Type 0} (plain : Plain os R) (u : UdpOs)
    (associated : Steps R mark_associated) {binder : Fd → SockAddr → M Server (Unit {0})}
    (binds : (fd : Fd) (a : SockAddr) → Steps R (binder fd a)) where
  po : IsPreorder R
  po = plain.talks.order

  self_then :
      {A : Type 0} {f : Server → M Server A}
      → ((s : Server) → Steps R (f s))
      → Steps R (get_self >>= f)
  self_then h = Steps-bind po (Steps-get_self po) h

  pub Steps-progress : (a : Answer ℕ) → Steps R (progress os u binder a)
  unfolding progress
  Steps-progress (gave zero) = Steps-pure po _
  Steps-progress (gave (suc n)) = Steps-pure po _
  Steps-progress refused = Steps-pure po _
  Steps-progress error = Steps-bind po (Steps-look po u.again) λ again. Steps-pure po _

  pub Steps-address : (o : Option Addr) (payload : List ℕ) → Steps R (address os u binder o payload)
  unfolding address routed resolver
  Steps-address none payload = Steps-fail po
  Steps-address (some a) [] = Steps-fail po
  Steps-address (some a) (b ∷ bs) = self_then λ s.
      Steps-bind po (Steps-look po os.resolver) λ r. Steps-if po _ (Steps-pure po _) (Steps-fail po)

  pub Steps-addressed : (n : ℕ) (ms : List Msg) → Steps R (addressed os u binder n ms)
  unfolding addressed
  Steps-addressed zero ms = Steps-pure po []
  Steps-addressed (suc n) [] = Steps-bind po (Steps-note plain crashed tt) λ _. Steps-fail po
  Steps-addressed (suc n) (m ∷ ms) =
      Steps-bind po (Steps-address m.addr m.payload)
        λ p. Steps-bind po (Steps-addressed n ms) λ rest. Steps-pure po _

  pub Steps-bind_to : (fd : Fd) (o : Option SockAddr) → Steps R (bind_to os u binder fd o)
  unfolding bind_to
  Steps-bind_to fd none = Steps-pure po tt
  Steps-bind_to fd (some a) = binds fd a

  pub Steps-bind_once :
      (fd : Fd) (b : Bool) (ps : List Parcel) → Steps R (bind_once os u binder fd b ps)
  unfolding bind_once
  Steps-bind_once fd true ps = Steps-pure po tt
  Steps-bind_once fd false [] = Steps-pure po tt
  Steps-bind_once fd false (p ∷ ps) = Steps-bind_to fd p.to

  pub Steps-carry :
      (fd : Fd) (b : Bool) (ps : List Parcel) (o : Option (Unit {0}))
      → Steps R (carry os u binder fd b ps o)
  unfolding carry
  Steps-carry fd b ps none = Steps-pure po _
  Steps-carry fd b ps (some x) =
      Steps-bind po ((Steps-sendmmsg plain u) fd ps)
        λ r. Steps-bind po (Steps-progress r) λ p. Steps-pure po _

  pub Steps-route :
      (fd : Fd) (b : Bool) (o : Option (List Parcel)) → Steps R (route os u binder fd b o)
  unfolding route
  Steps-route fd b none = Steps-pure po _
  Steps-route fd b (some ps) =
      Steps-bind po (Steps-attempt po (Steps-bind_once fd b ps)) λ r. Steps-carry fd b ps r

  pub Steps-forward :
      (fd : Fd) (b : Bool) (a : Answer Received) → Steps R (forward os u binder fd b a)
  unfolding forward
  Steps-forward fd b error = Steps-bind po (Steps-progress error) λ p. Steps-pure po _
  Steps-forward fd b refused = Steps-pure po _
  Steps-forward fd b (gave r) =
      Steps-if po _ (Steps-pure po _) (
        Steps-bind po (Steps-attempt po (Steps-addressed r.count r.msgs)) λ ps. Steps-route fd b ps)

  pub Steps-backward : (a : Answer (List Datagram)) → Steps R (backward os u binder a)
  unfolding backward
  Steps-backward error = Steps-progress error
  Steps-backward refused = Steps-pure po _
  Steps-backward (gave []) = Steps-pure po _
  Steps-backward (gave (d ∷ ds)) =
      Steps-bind po ((Steps-udp_sendmmsg plain u) _) λ r. Steps-progress r

  pub Steps-splice_round :
      (fd : Fd) (sizes : List ℕ) (l : Loop) → Steps R (splice_round os u binder fd sizes l)
  unfolding splice_round turn_f turn_b fwd_f fwd_b
  Steps-splice_round fd sizes l =
      Steps-bind po
        (Steps-if po _ (Steps-pure po _) (
          Steps-bind po ((Steps-udp_recvmmsg plain u associated) sizes true)
            λ a. Steps-forward fd l.bound a))
        λ f.
          Steps-bind po
            (Steps-if po _ (Steps-pure po _)
              (Steps-bind po ((Steps-recvmmsg plain u) fd sizes true) λ a. Steps-backward a))
            λ b. Steps-pure po _

  pub Steps-rest_of : (l : Loop) → Steps R (rest_of os u binder l)
  unfolding rest_of
  Steps-rest_of l =
      Steps-if po (is_moved l.res_f || is_moved l.res_b) ((Steps-udp_yielder plain u) yield) (
        Steps-if po (is_idle l.res_f || is_idle l.res_b) ((Steps-udp_yielder plain u) waitio)
          (Steps-pure po false))

  pub Steps-splice_loop :
      (k : ℕ) (fd : Fd) (sizes : List ℕ) (l : Loop) → Steps R (splice_loop os u binder k fd sizes l)
  unfolding splice_loop
  Steps-splice_loop zero fd sizes l = Steps-pure po false
  Steps-splice_loop (suc k) fd sizes l = Steps-bind po (Steps-splice_round fd sizes l) λ l'.
      Steps-bind po (Steps-rest_of l')
        λ more. Steps-if po more (Steps-splice_loop k fd sizes l') (Steps-pure po true)

  pub Steps-watch_again : (fd : Fd) → Steps R (watch_again os u binder fd)
  unfolding watch_again add_fd
  Steps-watch_again fd =
      Steps-bind po (plain.calls (λ log. u.mod_fd log fd) (λ _. rewatched fd) (λ _. tt)) λ ok.
        Steps-if po ok (Steps-pure po tt) (
          Steps-bind po (plain.calls (λ log. os.add_fd log fd) (watched fd) (λ _. tt))
            λ _. Steps-pure po tt)

  pub Steps-udp_relay : (k num : ℕ) (fd : Fd) → Steps R (udp_relay os u binder k num fd)
  unfolding udp_relay
  Steps-udp_relay k num fd = Steps-bind po (Steps-look po u.malloc) λ ok.
      Steps-if po _ (Steps-fail po) (
        Steps-bind po (Steps-udp_fd plain u) λ fd_a.
          Steps-bind po (Steps-watch_again fd_a) λ _.
            Steps-bind po (Steps-watch plain fd) λ _. Steps-splice_loop k fd (replicate num _) _)

  -- The relay keeps what its calls, its yielder and the binder keep.
  pub Steps-splice : (k num : ℕ) (fd : Fd) → Steps R (splice os u binder k num fd)
  unfolding splice
  Steps-splice k num fd = Steps-bind po (Steps-udp_relay k num fd) λ _. Steps-pure po tt

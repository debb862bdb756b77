-- ===== src/Udp/Laws/Messages.antt =====
-- core/src/hev-socks5-udp.c: relations between states that the receiving and sending keep.
use gen_net.Base.{ℕ, Bool, true, false, Option, none, some, List, [], ◌∷◌}
use gen_net.Net.{Fd, connected, Datagram, Parcel, Os, State, M, get_self, ◌>>=◌, connect}
use gen_net.Net.Steps.{IsPreorder, Steps, Steps-pure, Steps-get_self, Steps-if, Steps-bind}
use gen_net.Socks5.{Socks5Type, untyped, tcp, udp_in_tcp, udp_in_udp}
use gen_net.Server.{Server}
use gen_net.Server.Closed.{Plain}
use gen_net.Udp.{Answer, gave, error, refused, UdpOs, Msg, Packet, Received}
use gen_net.Udp.Stream.{
  Head, in_full, cut_short, send_frames, sendmmsg_tcp, complete, recv_head, with_body, with_head,
  recv_frames, recvmmsg_tcp,
}
use gen_net.Udp.Datagrams.{
  mark_associated, send_wraps, sendmmsg_udp, known_peer, with_datagrams, recvmmsg_udp, send_by,
  udp_sendmmsg, recv_by, udp_recvmmsg,
}
use gen_net.Udp.Laws.{Steps-recv_some, Steps-sendmsg, Steps-recvmmsg, Steps-sendmmsg, Steps-udp_fd}

module _ {os : Os} {R : State Server → State Server → Type 0} (plain : Plain os R) (u : UdpOs) where
  po : IsPreorder R
  po = plain.talks.order

  self_then :
      {A : Type 0} {f : Server → M Server A}
      → ((s : Server) → Steps R (f s))
      → Steps R (get_self >>= f)
  self_then h = Steps-bind po (Steps-get_self po) h

  -- the stream
  pub Steps-send_frames : (n : ℕ) (o : Option (List ℕ)) → Steps R (send_frames u n o)
  unfolding send_frames
  Steps-send_frames n none = Steps-pure po error
  Steps-send_frames n (some bytes) =
      Steps-bind po (Steps-udp_fd plain u)
        λ fd. Steps-bind po ((Steps-sendmsg plain u) fd bytes) λ r. Steps-pure po _

  pub Steps-complete : (fd : Fd) (a : Answer (List ℕ)) → Steps R (complete u fd a)
  unfolding complete
  Steps-complete fd error = Steps-pure po _
  Steps-complete fd refused = Steps-pure po _
  Steps-complete fd (gave bytes) =
      Steps-if po _ (Steps-bind po ((Steps-recv_some plain u) fd _ false) λ r. Steps-pure po _)
        (Steps-pure po _)

  pub Steps-with_body :
      (head : List ℕ) (addrlen n : ℕ) (got : List Msg)
      (next : List Msg → M Server (Answer Received)) (a : Answer (List ℕ))
      → ((ms : List Msg) → Steps R (next ms))
      → Steps R (with_body u head addrlen n got next a)
  unfolding with_body
  Steps-with_body head addrlen n got next error h = Steps-pure po _
  Steps-with_body head addrlen n got next refused h = Steps-pure po _
  Steps-with_body head addrlen n got next (gave bytes) h = Steps-if po _ (h _) (Steps-pure po _)

  pub Steps-with_head :
      (fd : Fd) (size : ℕ) (got : List Msg) (next : List Msg → M Server (Answer Received))
      (head : Head)
      → ((ms : List Msg) → Steps R (next ms))
      → Steps R (with_head u fd size got next head)
  unfolding with_head
  Steps-with_head fd size got next (cut_short r) h = Steps-pure po _
  Steps-with_head fd size got next (in_full head) h = Steps-if po _ (Steps-pure po error) (
      Steps-if po _ (Steps-pure po error) (
        Steps-bind po ((Steps-recv_some plain u) fd _ false)
          λ r. Steps-with_body head _ _ got next r h))

  pub Steps-recv_frames :
      (fd : Fd) (b : Bool) (sizes : List ℕ) (got : List Msg)
      → Steps R (recv_frames u fd b sizes got)
  unfolding recv_frames recv_head
  Steps-recv_frames fd b [] got = Steps-pure po _
  Steps-recv_frames fd b (size ∷ sizes) got =
      Steps-bind po (Steps-bind po ((Steps-recv_some plain u) fd 5 b) λ a. Steps-complete fd a)
        λ head. Steps-with_head fd size got _ head λ ms. Steps-recv_frames fd b sizes ms

  pub Steps-recvmmsg_tcp : (sizes : List ℕ) (b : Bool) → Steps R (recvmmsg_tcp u sizes b)
  unfolding recvmmsg_tcp
  Steps-recvmmsg_tcp sizes b =
      Steps-bind po (Steps-udp_fd plain u) λ fd. Steps-recv_frames fd b sizes []

  -- the datagrams
  pub Steps-send_wraps : (o : Option (List Parcel)) → Steps R (send_wraps os u o)
  unfolding send_wraps
  Steps-send_wraps none = Steps-pure po error
  Steps-send_wraps (some ps) =
      Steps-bind po (Steps-udp_fd plain u) λ fd. (Steps-sendmmsg plain u) fd ps

  pub Steps-send_by : (k : Socks5Type) (ps : List Packet) → Steps R (send_by os u k ps)
  unfolding send_by sendmmsg_tcp sendmmsg_udp
  Steps-send_by untyped ps = Steps-pure po error
  Steps-send_by tcp ps = Steps-pure po error
  Steps-send_by udp_in_tcp ps = Steps-send_frames _ _
  Steps-send_by udp_in_udp ps = Steps-send_wraps _

  pub Steps-udp_sendmmsg : (ps : List Packet) → Steps R (udp_sendmmsg os u ps)
  unfolding udp_sendmmsg
  Steps-udp_sendmmsg ps = self_then λ s. Steps-send_by s.base.type ps

  module _ (associated : Steps R mark_associated) where
    pub Steps-known_peer : (fd : Fd) (d : Datagram) (b : Bool) → Steps R (known_peer os u fd d b)
    unfolding known_peer connect
    Steps-known_peer fd d true = Steps-pure po true
    Steps-known_peer fd d false =
        Steps-bind po
          (plain.calls (λ log. os.connect log fd d.peer) (connected fd d.peer) (λ _. tt))
          λ ok.
            Steps-if po ok (Steps-bind po associated λ _. Steps-pure po true) (Steps-pure po false)

    pub Steps-with_datagrams :
        (fd : Fd) (a : Answer (List Datagram)) → Steps R (with_datagrams os u fd a)
    unfolding with_datagrams
    Steps-with_datagrams fd error = Steps-pure po _
    Steps-with_datagrams fd refused = Steps-pure po _
    Steps-with_datagrams fd (gave []) = Steps-pure po _
    Steps-with_datagrams fd (gave (d ∷ ds)) =
        self_then λ s. Steps-bind po (Steps-known_peer fd d _) λ ok. Steps-pure po _

    pub Steps-recv_by :
        (k : Socks5Type) (sizes : List ℕ) (b : Bool) → Steps R (recv_by os u k sizes b)
    unfolding recv_by recvmmsg_udp
    Steps-recv_by untyped sizes b = Steps-pure po error
    Steps-recv_by tcp sizes b = Steps-pure po error
    Steps-recv_by udp_in_tcp sizes b = Steps-recvmmsg_tcp sizes b
    Steps-recv_by udp_in_udp sizes b =
        Steps-bind po (Steps-udp_fd plain u)
          λ fd. Steps-bind po ((Steps-recvmmsg plain u) fd sizes b) λ a. Steps-with_datagrams fd a

    pub Steps-udp_recvmmsg : (sizes : List ℕ) (b : Bool) → Steps R (udp_recvmmsg os u sizes b)
    unfolding udp_recvmmsg
    Steps-udp_recvmmsg sizes b = self_then λ s. Steps-recv_by s.base.type sizes b

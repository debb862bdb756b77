-- ===== src/Udp/Laws.antt =====
-- core/src/hev-socks5-udp.c: relations between states that all calls of the relay keep.
pub mod Messages
pub mod Splicer
use gen_net.Base.{
  ◌||◌, ℕ, zero, suc, pos, Bool, true, false, ◌||◌, Option, none, some, List, [], ◌∷◌, replicate,
  ◌==◌, if◌then◌else◌,
}
use mathlib.Core.List.{map}
use gen_net.Addr.{Addr, SockAddr}
use gen_net.Addr.Resolve.{Resolved}
use gen_net.Net.{
  Fd, Event, received, sent, gathered, delivered, probed, yielded, rewatched, watched, connected,
  crashed, Datagram, Parcel, Log, Os, State, M, pure, get_self, call, look, ◌>>=◌, add_fd, connect,
  resolver, note,
}
use gen_net.Net.Steps.{
  IsPreorder, Steps, Steps-pure, Steps-fail, Steps-get_self, Steps-look, Steps-attempt, Steps-if,
  Steps-bind,
}
use gen_net.Socks5.{Socks5Type, untyped, tcp, udp_in_tcp, udp_in_udp, YieldType, yield, waitio}
use gen_net.Server.{Server}
use gen_net.Server.Closed.{IsPlain, Plain}
use gen_net.Server.Closed.Work.{Steps-note, Steps-watch}
use gen_net.Udp.{
  Answer, gave, error, refused, UdpOs, Msg, Packet, Received, bytes_of, is_positive, datagrams_of,
  base_yielder, hang_up, yield_as, udp_yielder, wait, task_io, recv_some, sendmsg, recvmmsg,
  sendmmsg, udp_fd,
}
use gen_net.Udp.Stream.{
  Head, in_full, cut_short, send_frames, sendmmsg_tcp, complete, recv_head, with_body, with_head,
  recv_frames, recvmmsg_tcp, frames,
}
use gen_net.Udp.Datagrams.{
  mark_associated, send_wraps, sendmmsg_udp, known_peer, with_datagrams, recvmmsg_udp, send_by,
  udp_sendmmsg, recv_by, udp_recvmmsg, wraps,
}
use gen_net.Udp.Splicer.{
  is_moved, is_idle, Loop, progress, routed, address, addressed, bind_to, bind_once, carry, route,
  forward, fwd_f, backward, fwd_b, turn_f, turn_b, splice_round, rest_of, splice_loop, watch_again,
  udp_relay, splice, loop_start,
}

module _ {os : Os} {R : State Server → State Server → Type 0} (plain : Plain os R) (u : UdpOs) where
  po : IsPreorder R
  po = plain.talks.order

  self_then :
      {A : Type 0} {f : Server → M Server A}
      → ((s : Server) → Steps R (f s))
      → Steps R (get_self >>= f)
  self_then h = Steps-bind po (Steps-get_self po) h

  pub Steps-base_yielder : (t : YieldType) → Steps R (base_yielder u t)
  unfolding base_yielder
  Steps-base_yielder t = self_then λ s.
      Steps-bind po (Steps-look po u.sleep)
        λ sleep. Steps-bind po (Steps-note plain yielded tt) λ _. Steps-pure po _

  pub Steps-hang_up : (gone : Bool) (t : YieldType) → Steps R (hang_up u gone t)
  unfolding hang_up
  Steps-hang_up true t = Steps-bind po (plain.timeout (pos 0)) λ _. Steps-pure po _
  Steps-hang_up false t = Steps-base_yielder t

  pub Steps-yield_as : (k : Socks5Type) (fd : Fd) (t : YieldType) → Steps R (yield_as u k fd t)
  unfolding yield_as
  Steps-yield_as untyped fd t = Steps-base_yielder t
  Steps-yield_as tcp fd t = Steps-base_yielder t
  Steps-yield_as udp_in_tcp fd t = Steps-base_yielder t
  Steps-yield_as udp_in_udp fd t =
      Steps-bind po (plain.calls (λ log. u.hung_up log fd) (probed fd) (λ _. tt))
        λ gone. Steps-hang_up gone t

  pub Steps-udp_yielder : (t : YieldType) → Steps R (udp_yielder u t)
  unfolding udp_yielder
  Steps-udp_yielder t = self_then λ s. Steps-yield_as s.base.type s.base.fd t

  pub Steps-wait : (n : ℕ) → Steps R (wait u n)
  unfolding wait
  Steps-wait zero = Steps-pure po true
  Steps-wait (suc n) =
      Steps-bind po (Steps-udp_yielder _) λ ok. Steps-if po ok (Steps-wait n) (Steps-pure po false)

  pub Steps-task_io :
      {A : Type 0} (ask : Log → Answer A) (event : Answer A → Event)
      → ((a : Answer A) → IsPlain (event a))
      → Steps R (task_io u ask event)
  unfolding task_io
  Steps-task_io ask event p = Steps-bind po (Steps-look po u.waits) λ n.
      Steps-bind po (Steps-wait n) λ ok.
        Steps-bind po (Steps-look po u.has_begun)
          λ begun. Steps-if po (ok || begun) (plain.calls ask event p) (Steps-pure po refused)

  pub Steps-recv_some : (fd : Fd) (n : ℕ) (b : Bool) → Steps R (recv_some u fd n b)
  unfolding recv_some
  Steps-recv_some fd n b =
      Steps-task_io (λ log. u.recv log fd n b) (λ a. received fd n (bytes_of a)) (λ _. tt)

  pub Steps-sendmsg : (fd : Fd) (bytes : List ℕ) → Steps R (sendmsg u fd bytes)
  unfolding sendmsg
  Steps-sendmsg fd bytes =
      Steps-task_io (λ log. u.sendmsg log fd bytes) (λ a. sent fd bytes (is_positive a)) (λ _. tt)

  pub Steps-recvmmsg : (fd : Fd) (sizes : List ℕ) (b : Bool) → Steps R (recvmmsg u fd sizes b)
  unfolding recvmmsg
  Steps-recvmmsg fd sizes b =
      Steps-task_io (λ log. u.recvmmsg log fd sizes b) (λ a. gathered fd (datagrams_of a)) (λ _. tt)

  pub Steps-sendmmsg : (fd : Fd) (ps : List Parcel) → Steps R (sendmmsg u fd ps)
  unfolding sendmmsg
  Steps-sendmmsg fd ps =
      Steps-task_io (λ log. u.sendmmsg log fd ps) (λ a. delivered fd ps (is_positive a)) (λ _. tt)

  pub Steps-udp_fd : Steps R udp_fd
  unfolding udp_fd
  Steps-udp_fd = self_then λ s. Steps-pure po _

-- ===== src/Udp/Progress/Turns.antt =====
-- core/src/hev-socks5-udp.c: each direction of the relay, and what a result says of the traffic.
use gen_net.Base.{
  ℕ, zero, suc, ◌+◌, ◌≤◌, ◌≡◌, refl, inl, inr, Bool, true, Option, none, some, List, [], ◌∷◌, ◌==◌,
  arith, Bool-cases,
}
use gen_net.Addr.{SockAddr}
use gen_net.Net.{Fd, sent, delivered, Datagram, Parcel, Log, Os, State, M, pure, look}
use gen_net.Net.Steps.{Steps, Steps-attempt}
use gen_net.Net.Triples.{
  Triple, Triple-bind, Triple-get_self, Triple-pure, Triple-weaken, Triple-if,
}
use gen_net.Socks5.{Socks5Type, untyped, tcp, udp_in_tcp, udp_in_udp}
use gen_net.Server.{Server}
use gen_net.Udp.{
  Answer, gave, error, refused, UdpOs, Packet, Received, is_positive, sendmsg, sendmmsg,
}
use gen_net.Udp.Stream.{sent_all, send_frames, sendmmsg_tcp}
use gen_net.Udp.Datagrams.{send_wraps, sendmmsg_udp, send_by, udp_sendmmsg}
use gen_net.Udp.Splicer.{
  Progress, moved, idle, ended, progress, carry, route, forward, fwd_f, backward, fwd_b,
}
use gen_net.Udp.Laws.{Steps-udp_fd}
use gen_net.Udp.Laws.Messages.{Steps-udp_recvmmsg}
use gen_net.Udp.Laws.{Steps-recvmmsg}
use gen_net.Udp.Laws.Splicer.{Steps-addressed, Steps-bind_once}
use gen_net.Udp.Progress.{
  traffic, Onward, Onward-Plain, Onward-mark_associated, At, Any, kept, up, Triple-task_io,
}

abbrev pub gain : Progress → ℕ
gain moved = 1
gain _ = 0

-- a value that no data goes with
resting :
    {A : Type 0} (a : A) (g : A → ℕ) (n : ℕ)
    → g a ≡ 0
    → Triple (At n) (pure a) (λ r s. At (n + g r) s) Any
resting a g n e = Triple-pure a (λ s h. (h.0, omega (arith, h.1, e)))

sent-grows :
    (fd : Fd) (bytes : List ℕ) (log : Log) (a : Answer ℕ)
    → traffic log + up a ≤ traffic (sent fd bytes (is_positive a) ∷ log)
sent-grows fd bytes log (gave zero) = omega arith
sent-grows fd bytes log (gave (suc n)) = omega arith
sent-grows fd bytes log error = omega arith
sent-grows fd bytes log refused = omega arith

delivered-grows :
    (fd : Fd) (ps : List Parcel) (log : Log) (a : Answer ℕ)
    → traffic log + up a ≤ traffic (delivered fd ps (is_positive a) ∷ log)
delivered-grows fd ps log (gave zero) = omega arith
delivered-grows fd ps log (gave (suc n)) = omega arith
delivered-grows fd ps log error = omega arith
delivered-grows fd ps log refused = omega arith

up-sent_all : (num : ℕ) (r : Answer ℕ) → up (sent_all num r) ≤ up r
up-sent_all zero (gave zero) = omega arith
up-sent_all (suc num) (gave zero) = omega arith
up-sent_all zero (gave (suc n)) = ground arith
up-sent_all (suc num) (gave (suc n)) = ground arith
up-sent_all num error = omega arith
up-sent_all num refused = omega arith

module _ (os : Os) (u : UdpOs) (n : ℕ) where
  abbrev Gains : Answer ℕ → State Server → Type 0
  Gains r s = At (n + up r) s

  Triple-sendmmsg : (fd : Fd) (ps : List Parcel) → Triple (At n) (sendmmsg u fd ps) Gains Any
  unfolding sendmmsg
  Triple-sendmmsg fd ps = Triple-task_io os u _ _ up n refl (delivered-grows fd ps)

  Triple-send_frames : (k : ℕ) (o : Option (List ℕ)) → Triple (At n) (send_frames u k o) Gains Any
  unfolding send_frames sendmsg
  Triple-send_frames k none = resting error up n refl
  Triple-send_frames k (some bytes) =
      Triple-bind (λ _ s. At n s) (kept _ n (Steps-udp_fd (Onward-Plain os) u))
        λ fd.
          Triple-bind Gains (Triple-task_io os u _ _ up n refl (sent-grows fd bytes))
            λ r. Triple-pure _ (λ s h. (h.0, omega (arith, h.1, up-sent_all k r)))

  Triple-send_wraps : (o : Option (List Parcel)) → Triple (At n) (send_wraps os u o) Gains Any
  unfolding send_wraps
  Triple-send_wraps none = resting error up n refl
  Triple-send_wraps (some ps) =
      Triple-bind (λ _ s. At n s) (kept _ n (Steps-udp_fd (Onward-Plain os) u))
        λ fd. Triple-sendmmsg fd ps

  Triple-send_by : (k : Socks5Type) (ps : List Packet) → Triple (At n) (send_by os u k ps) Gains Any
  unfolding send_by sendmmsg_tcp sendmmsg_udp
  Triple-send_by untyped ps = resting error up n refl
  Triple-send_by tcp ps = resting error up n refl
  Triple-send_by udp_in_tcp ps = Triple-send_frames _ _
  Triple-send_by udp_in_udp ps = Triple-send_wraps _

  Triple-udp_sendmmsg : (ps : List Packet) → Triple (At n) (udp_sendmmsg os u ps) Gains Any
  unfolding udp_sendmmsg
  Triple-udp_sendmmsg ps =
      Triple-bind (λ self s. At n s × (s.self ≡ self)) Triple-get_self
        λ self. Triple-weaken (λ s h. h.0) (Triple-send_by self.base.type ps)

  module _ {binder : Fd → SockAddr → M Server (Unit {0})}
      (binds : (fd : Fd) (a : SockAddr) → Steps Onward (binder fd a)) where
    abbrev pub Turned : Progress × Bool → State Server → Type 0
    Turned r s = At (n + gain r.0) s

    abbrev pub TurnedBack : Progress → State Server → Type 0
    TurnedBack p s = At (n + gain p) s

    Triple-progress : (r : Answer ℕ) → Triple (Gains r) (progress os u binder r) TurnedBack Any
    unfolding progress look
    Triple-progress (gave zero) = Triple-pure ended (λ s h. h)
    Triple-progress (gave (suc k)) = Triple-pure moved (λ s h. h)
    Triple-progress refused = Triple-pure ended (λ s h. h)
    Triple-progress error =
        Triple-bind (λ _ s. At (n + 0) s) (record { at = λ s h. h })
          λ again. elim (Bool-cases again) [
            | inl e ↦ rw e (Triple-pure idle (λ s h. h))
            | inr e ↦ rw e (Triple-pure ended (λ s h. h))
          ]

    Triple-carry :
        (fd : Fd) (b : Bool) (ps : List Parcel) (o : Option (Unit {0}))
        → Triple (At n) (carry os u binder fd b ps o) Turned Any
    unfolding carry
    Triple-carry fd b ps none = resting (ended, b) (λ r. gain r.0) n refl
    Triple-carry fd b ps (some x) =
        Triple-bind Gains (Triple-sendmmsg fd ps)
          λ r. Triple-bind TurnedBack (Triple-progress r) λ p. Triple-pure _ (λ s h. h)

    Triple-route :
        (fd : Fd) (b : Bool) (o : Option (List Parcel))
        → Triple (At n) (route os u binder fd b o) Turned Any
    unfolding route
    Triple-route fd b none = resting (ended, b) (λ r. gain r.0) n refl
    Triple-route fd b (some ps) =
        Triple-bind (λ _ s. At n s)
          (kept _ n (
            Steps-attempt (Onward-Plain os).talks.order
              (Steps-bind_once (Onward-Plain os) u Onward-mark_associated binds fd b ps)))
          λ o. Triple-carry fd b ps o

    Triple-forward :
        (fd : Fd) (b : Bool) (a : Answer Received)
        → Triple (At n) (forward os u binder fd b a) Turned Any
    unfolding forward
    Triple-forward fd b error =
        Triple-bind TurnedBack
          (Triple-weaken (λ s h. (h.0, omega (arith, h.1))) (Triple-progress error))
          λ p. Triple-pure _ (λ s h. h)
    Triple-forward fd b refused = resting (ended, b) (λ r. gain r.0) n refl
    Triple-forward fd b (gave r) =
        Triple-if (r.count == 0) (λ _. resting (ended, b) (λ r. gain r.0) n refl)
          λ _.
            Triple-bind (λ _ s. At n s)
              (kept _ n (
                Steps-attempt (Onward-Plain os).talks.order (
                  Steps-addressed (Onward-Plain os) u Onward-mark_associated binds r.count r.msgs)))
              λ o. Triple-route fd b o

    pub Triple-fwd_f :
        (fd : Fd) (sizes : List ℕ) (b : Bool)
        → Triple (At n) (fwd_f os u binder fd sizes b) Turned Any
    unfolding fwd_f
    Triple-fwd_f fd sizes b =
        Triple-bind (λ _ s. At n s)
          (kept _ n (Steps-udp_recvmmsg (Onward-Plain os) u Onward-mark_associated sizes true))
          λ a. Triple-forward fd b a

    Triple-backward :
        (a : Answer (List Datagram)) → Triple (At n) (backward os u binder a) TurnedBack Any
    unfolding backward
    Triple-backward error = Triple-weaken (λ s h. (h.0, omega (arith, h.1))) (Triple-progress error)
    Triple-backward refused = resting ended gain n refl
    Triple-backward (gave []) = resting ended gain n refl
    Triple-backward (gave (d ∷ ds)) =
        Triple-bind Gains (Triple-udp_sendmmsg _) λ r. Triple-progress r

    pub Triple-fwd_b :
        (fd : Fd) (sizes : List ℕ) → Triple (At n) (fwd_b os u binder fd sizes) TurnedBack Any
    unfolding fwd_b
    Triple-fwd_b fd sizes =
        Triple-bind (λ _ s. At n s) (kept _ n (Steps-recvmmsg (Onward-Plain os) u fd sizes true))
          λ a. Triple-backward a

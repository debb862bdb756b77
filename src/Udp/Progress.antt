-- ===== src/Udp/Progress.antt =====
-- core/src/hev-socks5-udp.c: how often the relay has given data to a socket, and what happens to it
-- on a connection whose timeout is 0.
pub mod Turns
pub mod Rounds
pub mod Each
use gen_net.Base.{
  ◌||◌, ℕ, zero, suc, ◌+◌, ◌≤◌, ◌≡◌, refl, ◌∙◌, ℤ, pos, Bool, true, false, none, some, List, [],
  ◌∷◌, arith,
}
use gen_net.Addr.{Family}
use gen_net.Net.{
  Fd, Event, sent, received, delivered, probed, yielded, Log, Os, State, M, pure, get_self, modify,
  call, look, ◌>>=◌, note, recv, send,
}
use gen_net.Net.Steps.{IsPreorder, Steps}
use gen_net.Net.Triples.{
  Triple, Triple-bind, Triple-get_self, Triple-pure, Triple-keeps, Triple-weaken, Triple-if,
}
use gen_net.Socks5.{
  Socks5, Socks5Type, untyped, tcp, udp_in_tcp, udp_in_udp, waitio, task_io_yielder,
}
use gen_net.Server.{Server, put_timeout}
use gen_net.Server.Request.{put_family}
use gen_net.Server.Run.{put_type}
use gen_net.Server.Closed.{Talks, Plain}
use gen_net.Server.Terminated.{StaysZero-set_timeout}
use gen_net.Udp.{
  Answer, gave, error, refused, UdpOs, base_yielder, hang_up, yield_as, udp_yielder, wait, task_io,
}
use gen_net.Udp.Laws.{Steps-wait}
use gen_net.Udp.Datagrams.{mark_associated}

-- how many calls have given data to a socket
abbrev pub traffic : Log → ℕ
traffic [] = 0
traffic (sent fd bytes true ∷ log) = suc (traffic log)
traffic (delivered fd ps true ∷ log) = suc (traffic log)
traffic (_ ∷ log) = traffic log

traffic-cons : (e : Event) (log : Log) → traffic log ≤ traffic (e ∷ log)
traffic-cons (sent fd bytes true) log = omega arith
traffic-cons (sent fd bytes false) log = omega arith
traffic-cons (delivered fd ps true) log = omega arith
traffic-cons (delivered fd ps false) log = omega arith
traffic-cons _ log = omega arith

-- The timeout is still 0 if it was, and nothing that was sent is undone.
pub record Onward (s t : State Server) : Type 0 where
  pub zero_kept : s.self.base.timeout ≡ pos 0 → t.self.base.timeout ≡ pos 0
  pub more : traffic s.log ≤ traffic t.log

order : IsPreorder Onward
order = record {
  stay = λ s. record { zero_kept = λ h. h; more = omega arith };
  trans = λ s t u f g. record {
    zero_kept = λ h. g.zero_kept (f.zero_kept h);
    more = omega (arith, f.more, g.more);
  };
}

Onward-call : {A : Type 0} (ask : Log → A) (event : A → Event) → Steps Onward (call ask event)
unfolding call
Onward-call ask event = record {
  at = λ s. record { zero_kept = λ h. h; more = traffic-cons (event (ask s.log)) s.log };
}

Onward-change :
    (f : Server → Server)
    → ((x : Server) → x.base.timeout ≡ pos 0 → (f x).base.timeout ≡ pos 0)
    → Steps Onward (modify f)
unfolding modify
Onward-change f h = record { at = λ s. record { zero_kept = h s.self; more = omega arith } }

pub Onward-Plain : (os : Os) → Plain os Onward
unfolding put_timeout put_family put_type recv send
Onward-Plain os = record {
  talks = record {
    order = order;
    received = λ fd n. Onward-call (λ log. os.recv log fd n) (received fd n);
    sent = λ fd bytes. Onward-call (λ log. os.send log fd bytes) (sent fd bytes);
  };
  calls = λ ask event p. Onward-call ask event;
  timeout = λ t. Onward-change _ (λ x h. StaysZero-set_timeout t x.base h);
  family = λ f. Onward-change _ (λ x h. h);
  type = λ t. Onward-change _ (λ x h. h);
}

pub Onward-mark_associated : Steps Onward mark_associated
unfolding mark_associated
Onward-mark_associated = Onward-change _ (λ x h. h)

-- a terminated connection, which has given data to a socket at least `n` times
abbrev pub At : ℕ → State Server → Type 0
At n s = (s.self.base.timeout ≡ pos 0) × (n ≤ traffic s.log)

abbrev pub Any : State Server → Type 0
Any s = Unit

pub kept :
    {A : Type 0} (m : M Server A) (n : ℕ) → Steps Onward m → Triple (At n) m (λ _ s. At n s) Any
kept m n steps =
    Triple-keeps m (At n) steps (λ s t r h. (r.zero_kept h.0, omega (arith, r.more, h.1)))
      (λ s h. tt)

zero-waits :
    (sleep : ℕ → ℤ) (b : Socks5)
    → b.timeout ≡ pos 0
    → sleep 0 ≡ pos 0
    → task_io_yielder sleep waitio b ≡ false
unfolding task_io_yielder
zero-waits sleep b h k = ground arith

module _ (os : Os) (u : UdpOs) (sleeps : (log : Log) → u.sleep log 0 ≡ pos 0) (n : ℕ) where
  -- Waiting for input ends.
  abbrev Refuses : Bool → State Server → Type 0
  Refuses ok s = At n s × (ok ≡ false)

  Triple-base_yielder : Triple (At n) (base_yielder u waitio) Refuses Any
  unfolding base_yielder get_self look note call pure ◌>>=◌
  Triple-base_yielder = record {
    at = λ s h. (h, zero-waits (u.sleep s.log) s.self.base h.0 (sleeps s.log));
  }

  Triple-hang_up : (gone : Bool) → Triple (At n) (hang_up u gone waitio) Refuses Any
  unfolding hang_up
  Triple-hang_up true =
      Triple-bind (λ _ s. At n s) (kept _ n ((Onward-Plain os).timeout (pos 0)))
        λ _. Triple-pure false (λ s h. (h, refl))
  Triple-hang_up false = Triple-base_yielder

  Triple-yield_as : (k : Socks5Type) (fd : Fd) → Triple (At n) (yield_as u k fd waitio) Refuses Any
  unfolding yield_as
  Triple-yield_as untyped fd = Triple-base_yielder
  Triple-yield_as tcp fd = Triple-base_yielder
  Triple-yield_as udp_in_tcp fd = Triple-base_yielder
  Triple-yield_as udp_in_udp fd =
      Triple-bind (λ _ s. At n s) (kept _ n (Onward-call (λ log. u.hung_up log fd) (probed fd)))
        λ gone. Triple-hang_up gone

  pub Triple-udp_yielder : Triple (At n) (udp_yielder u waitio) Refuses Any
  unfolding udp_yielder
  Triple-udp_yielder =
      Triple-bind (λ self s. At n s × (s.self ≡ self)) Triple-get_self
        λ self. Triple-weaken (λ s h. h.0) (Triple-yield_as self.base.type self.base.fd)

-- what a result adds to the traffic
abbrev pub up : Answer ℕ → ℕ
up (gave (suc n)) = 1
up _ = 0

-- A call on which data is given to a socket, or not.
pub Triple-task_io :
    {A : Type 0} (os : Os) (u : UdpOs) (ask : Log → Answer A) (event : Answer A → Event)
    (gain : Answer A → ℕ) (n : ℕ)
    → gain refused ≡ 0
    → ((log : Log) (a : Answer A) → traffic log + gain a ≤ traffic (event a ∷ log))
    → Triple (At n) (task_io u ask event) (λ r s. At (n + gain r) s) Any
unfolding task_io call look
Triple-task_io os u ask event gain n none_gained grows =
    Triple-bind (λ _ s. At n s) (record { at = λ s h. h })
      λ k.
        Triple-bind (λ _ s. At n s) (kept _ n (Steps-wait (Onward-Plain os) u k))
          λ ok.
            Triple-bind (λ _ s. At n s) (record { at = λ s h. h })
              λ begun.
                Triple-if (ok || begun)
                  (λ _. record { at = λ s h. (h.0, omega (arith, h.1, grows s.log (ask s.log))) })
                  (λ _. Triple-pure refused (λ s h. (h.0, omega (arith, h.1, none_gained))))

-- ===== src/Server/Ready.antt =====
-- core/src/hev-socks5-server.c: what a server has done when it says that a request succeeded.
pub mod Handshake
pub mod Reply
use gen_net.Base.{
  ℕ, ◌+◌, ◌≡◌, refl, sym, subst, ◌∙◌, ◌⊎◌, inl, inr, Bool, true, false, not, Option, none, some,
  List, [], ◌∷◌, arith, ◌==◌, if◌then◌else◌,
}
use gen_net.Addr.{Family, SockAddr, image}
use gen_net.Net.{
  Fd, Kind, stream, dgram, Event, opened, closed, received, sent, connected, v6only_off, Log, Os,
  State, M, pure, fail, attempt, call, modify, ◌>>=◌, ◌>>◌, recv, send, socket, note,
}
use gen_net.Net.Steps.{IsPreorder, Steps}
use gen_net.Net.Triples.{
  Has, Ends, Triple, Triple-bind, Triple-if, Triple-pure, Triple-fail, Triple-keeps,
}
use gen_net.Socks5.{
  Socks5Type, untyped, tcp, udp_in_tcp, udp_in_udp, made, socks5_socket, set_timeout,
}
use gen_net.Server.{Server, put_timeout}
use gen_net.Server.Request.{put_family}
use gen_net.Server.Run.{put_type}
use gen_net.Server.Closed.{Plain}
use gen_net.Server.Closed.Work.{Steps-option, Steps-watch, Steps-configure}

-- The sockets that a connection of the type needs are there.
abbrev pub IsReadyAs : Socks5Type → State Server → Type 0
IsReadyAs untyped s = ⊥
IsReadyAs tcp s =
    (fd : ℕ) × (a : SockAddr) × (s.self.fd0 ≡ some fd) × Has (connected (some fd) a true) s.log
IsReadyAs udp_in_tcp s = (fd : ℕ) × (s.self.fd0 ≡ some fd)
IsReadyAs udp_in_udp s = (fd : ℕ) × (other : ℕ) × (s.self.fd0 ≡ some fd) × (s.self.fd1 ≡ some other)

-- The places of the sockets stay, and the log grows.
pub record Grows (s t : State Server) : Type 0 where
  pub fd0 : t.self.fd0 ≡ s.self.fd0
  pub fd1 : t.self.fd1 ≡ s.self.fd1
  pub log : (e : Event) → Has e s.log → Has e t.log

pub Grows-call : {A : Type 0} (ask : Log → A) (event : A → Event) → Steps Grows (call ask event)
unfolding call
Grows-call ask event = record { at = λ s. record { fd0 = refl; fd1 = refl; log = λ e h. inr h } }

pub Grows-Plain : (os : Os) → Plain os Grows
unfolding put_timeout put_family put_type modify recv send
Grows-Plain os = record {
  talks = record {
    order = record {
      stay = λ s. record { fd0 = refl; fd1 = refl; log = λ e h. h };
      trans = λ s t u h k. record {
        fd0 = k.fd0 ∙ h.fd0;
        fd1 = k.fd1 ∙ h.fd1;
        log = λ e x. k.log e (h.log e x);
      };
    };
    received = λ fd n. Grows-call (λ log. os.recv log fd n) (received fd n);
    sent = λ fd bytes. Grows-call (λ log. os.send log fd bytes) (sent fd bytes);
  };
  calls = λ ask event p. Grows-call ask event;
  timeout = λ t. record { at = λ s. record { fd0 = refl; fd1 = refl; log = λ e h. h } };
  family = λ f. record { at = λ s. record { fd0 = refl; fd1 = refl; log = λ e h. h } };
  type = λ t. record { at = λ s. record { fd0 = refl; fd1 = refl; log = λ e h. h } };
}

pub IsReadyAs-Grows :
    (type : Socks5Type) (s t : State Server) → Grows s t → IsReadyAs type s → IsReadyAs type t
IsReadyAs-Grows untyped s t g h = h
IsReadyAs-Grows tcp s t g (fd, a, e, h) = (fd, a, g.fd0 ∙ e, g.log _ h)
IsReadyAs-Grows udp_in_tcp s t g (fd, e) = (fd, g.fd0 ∙ e)
IsReadyAs-Grows udp_in_udp s t g (fd, other, e, h) = (fd, other, g.fd0 ∙ e, g.fd1 ∙ h)

-- Nothing is said of a failure.
abbrev pub Any : State Server → Type 0
Any s = Unit

pub Triple-anything :
    {A : Type 0} {m : M Server A} {P : State Server → Type 0} → Triple P m (λ _ s. Any s) Any
Triple-anything {m = m} = record { at = λ s p. ended (m s).0 (m s).1 }
  where
    ended : {A : Type 0} (r : Option A) (s : State Server) → Ends (λ (_ : A) u. Any u) Any (r, s)
    ended none s = tt
    ended (some a) s = tt

-- a descriptor that is not -1
abbrev pub IsOpen : Fd → Type 0
IsOpen fd = (m : ℕ) × (fd ≡ some m)

module _ (os : Os) (P : State Server → Type 0)
    (kept : (s t : State Server) → Grows s t → P s → P t) where
  pub Triple-Grows : {A : Type 0} (m : M Server A) → Steps Grows m → Triple P m (λ _ s. P s) Any
  Triple-Grows m steps = Triple-keeps m P steps kept (λ s p. tt)

  Triple-made : (kind : Kind) (fd : Fd) → Triple P (made os kind fd) (λ r s. P s × IsOpen r) Any
  unfolding made
  Triple-made kind none = Triple-fail (λ s p. tt)
  Triple-made kind (some m) =
      Triple-bind (λ _ s. P s) (Triple-Grows _ (Steps-option (Grows-Plain os) (some m) v6only_off))
        λ ok.
          Triple-if ok
            (λ _.
              Triple-bind (λ _ s. P s) (Triple-Grows _ (Steps-watch (Grows-Plain os) (some m)))
                λ _.
                  Triple-bind (λ _ s. P s)
                    (Triple-Grows _ (Steps-configure (Grows-Plain os) kind (some m)))
                    λ _. Triple-pure (some m) (λ s p. (p, (m, refl))))
            (λ _. Triple-bind (λ _ s. Any s) Triple-anything (λ _. Triple-fail (λ s p. tt)))

  -- A socket that is returned is one.
  pub Triple-socket : (kind : Kind) → Triple P (socks5_socket os kind) (λ r s. P s × IsOpen r) Any
  unfolding socks5_socket socket
  Triple-socket kind =
      Triple-bind (λ _ s. P s)
        (Triple-Grows _ (Grows-call (λ log. os.socket log kind) (opened kind)))
        λ fd. Triple-made kind fd

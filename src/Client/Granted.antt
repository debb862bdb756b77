-- ===== src/Client/Granted.antt =====
-- core/src/hev-socks5-client.c: what a client has read when its handshake succeeds.
use gen_net.Base.{
  ℕ, ◌≡◌, refl, inl, inr, Bool, true, false, not, ◌||◌, Option, none, some, List, arith, ◌==◌,
  if◌then◌else◌, length, get_or,
}
use gen_net.Addr.{Addr}
use gen_net.Net.{Fd, Event, received, Os, State, M, pure, get_self, modify, call, ◌>>◌, recv}
use gen_net.Net.Steps.{Steps}
use gen_net.Net.Triples.{
  Has, Ends, Triple, Triple-bind, Triple-if, Triple-pure, Triple-fail, Triple-attempt,
  Triple-weaken, Triple-keeps,
}
use gen_net.Socks5.{Timeouts, whole, read}
use gen_net.Client.{
  Client, ClientClass, client_timeout, response, response_rest, read_response, handshake_standard,
  handshake_pipeline,
}
use gen_net.Client.Connect.{is_udp, result, client_handshake}

-- Nothing is said.
abbrev Any : State Client → Type 0
Any s = Unit

anything : {A : Type 0} {m : M Client A} {P : State Client → Type 0} → Triple P m (λ _ s. Any s) Any
anything {m = m} = record { at = λ s p. ended (m s).0 (m s).1 }
  where
    ended : {A : Type 0} (r : Option A) (s : State Client) → Ends (λ (_ : A) u. Any u) Any (r, s)
    ended none s = tt
    ended (some a) s = tt

-- The log grows.
pub record Logs (s t : State Client) : Type 0 where
  pub log : (e : Event) → Has e s.log → Has e t.log

-- The first four bytes of a response were read, and they grant the request.
pub record IsGranted (s : State Client) : Type 0 where
  pub fd : Fd
  pub head : List ℕ
  pub heard : Has (received fd 4 (some head)) s.log
  pub version : get_or head 0 0 ≡ 5
  pub reply : get_or head 1 0 ≡ 0

IsGranted-Logs : (s t : State Client) → Logs s t → IsGranted s → IsGranted t
IsGranted-Logs s t r g = record {
  fd = g.fd;
  head = g.head;
  heard = r.log _ g.heard;
  version = g.version;
  reply = g.reply;
}

tests_pass : (a b : ℕ) → not (a == 5) || not (b == 0) ≡ false → (a ≡ 5) × (b ≡ 0)
tests_pass a b h = ground arith

module _ (os : Os) where
  Triple-read :
      (fd : Fd) (n : ℕ)
      → Triple Any (read os fd n) (λ xs s. Has (received fd n (some xs)) s.log) Any
  unfolding read recv call
  Triple-read fd n =
      Triple-bind (λ r s. Has (received fd n r) s.log) (record { at = λ s p. inl refl })
        (λ r. Triple-whole r)
    where
      Triple-whole :
          (r : Option (List ℕ))
          → Triple
              (λ s. Has (received fd n r) s.log)
              (whole n r)
              (λ xs s. Has (received fd n (some xs)) s.log)
              Any
      Triple-whole none = Triple-fail (λ s p. tt)
      Triple-whole (some xs) =
          Triple-if (length xs == n) (λ _. Triple-pure xs (λ s h. h)) (λ _. Triple-fail (λ s p. tt))

  module _ (klass : ClientClass) (logs : (a : Addr) → Steps Logs (klass.set_upstream_addr a)) where
    Triple-response :
        (head : List ℕ) (r : Option ℕ)
        → Triple IsGranted (response os klass head r) (λ _ s. IsGranted s) Any
    unfolding response read whole recv call get_self
    Triple-response head none = Triple-fail (λ s p. tt)
    Triple-response head (some n) =
        Triple-bind (λ _ s. IsGranted s) (Triple-weaken (λ s g. g) granted_self)
          λ self.
            Triple-bind (λ _ s. IsGranted s)
              (Triple-bind (λ _ s. IsGranted s)
                (record { at = λ s g. IsGranted-Logs s _ (record { log = λ e h. inr h }) g })
                (λ r. settled r))
              λ rest. Triple-keeps _ IsGranted (logs _) IsGranted-Logs (λ s g. tt)
      where
        granted_self : Triple IsGranted get_self (λ _ s. IsGranted s) Any
        granted_self = record { at = λ s g. g }

        settled : (r : Option (List ℕ)) → Triple IsGranted (whole n r) (λ _ s. IsGranted s) Any
        settled none = Triple-fail (λ s p. tt)
        settled (some xs) =
            Triple-if (length xs == n) (λ _. Triple-pure xs (λ s h. h))
              (λ _. Triple-fail (λ s p. tt))

    Triple-read_response : Triple Any (read_response os klass) (λ _ s. IsGranted s) Any
    unfolding read_response
    Triple-read_response =
        Triple-bind (λ _ s. Any s) anything
          λ self.
            Triple-bind (λ xs s. Has (received self.base.fd 4 (some xs)) s.log)
              (Triple-read self.base.fd 4)
              λ head.
                Triple-if (not (get_or head 0 0 == 5) || not (get_or head 1 0 == 0))
                  (λ _. Triple-fail (λ s p. tt))
                  (λ e.
                    let (version, reply) = tests_pass (get_or head 0 0) (get_or head 1 0) e in
                    Triple-weaken
                      (λ s h. record {
                        fd = self.base.fd;
                        head = head;
                        heard = h;
                        version = version;
                        reply = reply;
                      })
                      (Triple-response head (response_rest (get_or head 3 0))))

    Triple-standard : Triple Any (handshake_standard os klass) (λ _ s. IsGranted s) Any
    unfolding handshake_standard
    Triple-standard =
        Triple-bind (λ _ s. Any s) anything
          λ _.
            Triple-bind (λ _ s. Any s) anything
              λ _.
                Triple-bind (λ _ s. Any s) anything
                  λ _. Triple-bind (λ _ s. Any s) anything λ _. Triple-read_response

    Triple-pipeline : Triple Any (handshake_pipeline os klass) (λ _ s. IsGranted s) Any
    unfolding handshake_pipeline
    Triple-pipeline =
        Triple-bind (λ _ s. Any s) anything
          λ _.
            Triple-bind (λ _ s. Any s) anything
              λ _.
                Triple-bind (λ _ s. Any s) anything
                  λ _.
                    Triple-bind (λ _ s. Any s) anything
                      λ _. Triple-bind (λ _ s. Any s) anything λ _. Triple-read_response

    module _ (timeouts : Timeouts) where
      timeout_kept :
          (b : Bool)
          → Triple IsGranted
              (if b then client_timeout timeouts.udp_timeout else pure tt)
              (λ _ s. IsGranted s)
              Any
      unfolding client_timeout modify pure
      timeout_kept true = record { at = λ s g. IsGranted-Logs s _ (record { log = λ e h. h }) g }
      timeout_kept false = record { at = λ s g. g }

      Triple-result :
          (r : Option (Unit {0})) (b : Bool)
          → Triple
              (λ s. Ends (λ _ u. IsGranted u) Any (r, s))
              (do if b then client_timeout timeouts.udp_timeout else pure tt; result r)
              (λ _ s. IsGranted s)
              Any
      unfolding result
      Triple-result none b = Triple-bind (λ _ s. Any s) anything (λ _. Triple-fail (λ s p. tt))
      Triple-result (some x) b =
          Triple-bind (λ _ s. IsGranted s) (timeout_kept b) (λ _. Triple-pure tt (λ s g. g))

      Triple-both :
          (pipeline : Bool)
          → Triple Any
              (if pipeline then handshake_pipeline os klass else handshake_standard os klass)
              (λ _ s. IsGranted s)
              Any
      Triple-both true = Triple-pipeline
      Triple-both false = Triple-standard

      Triple-client_handshake :
          (pipeline : Bool)
          → Triple Any (client_handshake os klass timeouts pipeline) (λ _ s. IsGranted s) Any
      unfolding client_handshake
      Triple-client_handshake pipeline =
          Triple-bind (λ _ s. Any s) anything
            λ _.
              Triple-bind (λ r s. Ends (λ _ u. IsGranted u) Any (r, s))
                (Triple-attempt (Triple-both pipeline))
                λ r.
                  Triple-bind (λ self s. Ends (λ _ u. IsGranted u) Any (r, s)) kept
                    λ self. Triple-result r (is_udp self.base.type)
        where
          kept : {P : State Client → Type 0} → Triple P get_self (λ _ s. P s) Any
          kept = record { at = unfold get_self in λ s p. p }

      granted :
          (r : Option (Unit {0})) (s : State Client)
          → Ends (λ _ u. IsGranted u) Any (r, s)
          → r ≡ some tt
          → IsGranted s
      granted none s p e = absurd (cc)
      granted (some x) s p e = p

      -- Each of the two handshakes succeeds only if the client has read a response of version 5
      -- that grants the request. The method that takes the address forgets nothing.
      pub client_handshake-IsGranted :
          (pipeline : Bool) (s : State Client)
          → let (r, s') = client_handshake os klass timeouts pipeline s in
            r ≡ some tt → IsGranted s'
      client_handshake-IsGranted pipeline s e =
          let (r, s') = client_handshake os klass timeouts pipeline s in
          granted r s' ((Triple-client_handshake pipeline).at s tt) e

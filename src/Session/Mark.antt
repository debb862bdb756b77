-- ===== src/Session/Mark.antt =====
-- hev-socks5-session.c: the mark of a session's sockets.
use gen_net.Base.{
  ℕ, ◌≡◌, ◌<◌, refl, sym, subst, ◌∙◌, Bool, true, Option, none, some, arith, ◌==◌, inl,
}
use gen_net.Addr.{SockAddr}
use gen_net.User.{User}
use gen_net.Net.{Fd, configured, mark, Os, State, M, get_self, modify, call, setsockopt}
use gen_net.Net.Steps.{Steps}
use gen_net.Net.Triples.{
  Has, Ends, Triple, Triple-bind, Triple-if, Triple-pure, Triple-fail, Triple-keeps, Triple-given,
}
use gen_net.Server.{Server, Object, user}
use gen_net.Server.Authorized.{Keeps, Keeps-Plain}
use gen_net.Server.Ready.{Any}
use gen_net.Session.{Config, user_mark, demand, set_mark, mark_or, session_bind, put_associated}
use gen_net.Session.Laws.{Steps-bind_source, Steps-bind_to_device}

pub Keeps-put_associated :
    (os : Os) (config : Config) (b : Bool) → Steps Keeps (put_associated os config b)
unfolding put_associated modify
Keeps-put_associated os config b = record { at = λ s. record { object = refl; log = λ e h. h } }

module _ (os : Os) (config : Config) (u : User) where
  abbrev Owned : State Server → Type 0
  Owned s = s.self.object ≡ user u

  kept : {A : Type 0} (m : M Server A) → Steps Keeps m → Triple Owned m (λ _ s. Owned s) Any
  kept m steps = Triple-keeps m Owned steps (λ s t k h. k.object ∙ h) (λ s h. tt)

  Triple-user_mark :
      (o : Object) → o ≡ user u → Triple Any (user_mark o) (λ m s. Any s × (m ≡ u.mark)) Any
  unfolding user_mark
  Triple-user_mark o e = rw (e, user_mark) (Triple-pure u.mark (λ s p. (tt, refl)))

  Triple-set_mark :
      (fd : Fd) (m : ℕ)
      → 0 < m
      → Triple Any (set_mark os config fd m) (λ _ s. Has (configured fd (mark m) true) s.log) Any
  unfolding set_mark setsockopt call demand
  Triple-set_mark fd m positive =
      Triple-if (m == 0) (λ e. absurd (ground arith))
        (λ _.
          Triple-bind (λ ok s. Has (configured fd (mark m) ok) s.log)
            (record { at = λ s p. inl refl })
            λ ok.
              Triple-if ok
                (λ e. Triple-pure tt (λ s h. subst (λ b. Has (configured fd (mark m) b) s.log) e h))
                (λ _. Triple-fail (λ s p. tt)))

  Triple-session_bind :
      (fd : Fd) (dest : SockAddr)
      → 0 < mark_or os config u.mark
      → Triple Owned
          (session_bind os config fd dest)
          (λ _ s. Has (configured fd (mark (mark_or os config u.mark)) true) s.log)
          Any
  unfolding session_bind get_self
  Triple-session_bind fd dest positive =
      Triple-bind (λ _ s. Owned s)
        (kept _ (Steps-bind_source (Keeps-Plain os) config (Keeps-put_associated os config) fd _))
        λ _.
          Triple-bind (λ _ s. Owned s)
            (kept _
              (Steps-bind_to_device (Keeps-Plain os) config (Keeps-put_associated os config) fd _))
            λ _.
              Triple-bind (λ self s. Any s × (self.object ≡ user u))
                (record { at = λ s h. (tt, h) })
                λ self. Triple-given λ e.
                  Triple-bind (λ m s. Any s × (m ≡ u.mark)) (Triple-user_mark self.object e)
                    λ m.
                      Triple-given
                        λ k. rw k (Triple-set_mark fd (mark_or os config u.mark) positive)

  marked :
      (fd : Fd) (m : ℕ) (r : Option (Unit {0})) (s : State Server)
      → Ends (λ _ t. Has (configured fd (mark m) true) t.log) Any (r, s)
      → r ≡ some tt
      → Has (configured fd (mark m) true) s.log
  marked fd m none s p e = absurd (cc)
  marked fd m (some x) s p e = p

  set_by :
      (fd : Fd) (dest : SockAddr) (s : State Server) (m : ℕ)
      → mark_or os config u.mark ≡ m
      → 0 < m
      → s.self.object ≡ user u
      → let (r, s') = session_bind os config fd dest s in
        r ≡ some tt → Has (configured fd (mark m) true) s'.log
  set_by fd dest s m same positive h e =
      let (r, s') = session_bind os config fd dest s in
      let triple = Triple-session_bind fd dest (subst (λ n. 0 < n) (sym same) positive) in
      marked fd m r s'
        (subst (λ n. Ends (λ _ t. Has (configured fd (mark n) true) t.log) Any (r, s')) same
          (triple.at s h))
        e

  -- Binding a socket for a session with a user succeeds only if the user's mark was set on the
  -- socket, where it is not 0; and where it is 0, only if the mark of the configuration was, where that
  -- is not 0.
  pub session_bind-marks :
      (fd : Fd) (dest : SockAddr) (s : State Server)
      → s.self.object ≡ user u
      → let (r, s') = session_bind os config fd dest s in
        r ≡ some tt
        → (0 < u.mark → Has (configured fd (mark u.mark) true) s'.log)
          × (u.mark ≡ 0
              → 0 < config.socket_mark
              → Has (configured fd (mark config.socket_mark) true) s'.log)
  session_bind-marks fd dest s h e = (
    λ positive. set_by fd dest s u.mark (ground arith) positive h e,
    λ zero_mark positive. set_by fd dest s config.socket_mark (ground arith) positive h e,
  )

-- ===== src/Server/Authorized/Login.antt =====
-- core/src/hev-socks5-server.c: what `hev_socks5_server_auth` ends with.
use gen_net.Base.{
  ℕ, ◌+◌, ◌≡◌, refl, sym, ap, subst, inl, inr, not, ◌||◌, Option, none, some, List, ◌∷◌, arith,
  ◌==◌, length, length-take, get_or, take, if◌then◌else◌,
}
use gen_net.Rbtree.{Tree}
use gen_net.User.{User, user_check, user_check_iff}
use gen_net.Authenticator.{get}
use gen_net.Net.{Fd, Event, received, Os, State, M, get_self, modify, call, ◌>>◌, recv, send}
use gen_net.Net.Steps.{Steps}
use gen_net.Net.Triples.{
  Has, Ends, Triple, Triple-bind, Triple-if, Triple-pure, Triple-fail, Triple-attempt,
  Triple-weaken, Triple-keeps, Triple-given,
}
use gen_net.Socks5.{whole, read}
use gen_net.Server.{
  Server, Object, auth, put_object, settle, admit, look_up, mem, has_object, read_auth_method,
  write_auth_method, read_auth_user, write_auth_user, authenticate, chosen, server_auth,
}
use gen_net.Server.Closed.{Talks, Steps-write_auth_method, Steps-write_auth_user}
use gen_net.Server.Authorized.{IsCalm, Presented, Verified, Waiting, Guarded, Verified-Keeps}

-- A property that the calm events keep.
record IsCalmly (t : Tree User) (P : State Server → Type 0) : Type 0 where
  event : (s : State Server) (e : Event) → IsCalm e → P s → P (record s { log = e ∷ s.log })
  waits : (s : State Server) → P s → Waiting t s

module _ (os : Os) (t : Tree User) where
  Waiting-IsCalmly : IsCalmly t (Waiting t)
  Waiting-IsCalmly = record {
    event = λ s e c w. record { object = w.object; calm = (c, w.calm) };
    waits = λ s w. w;
  }

  Has-IsCalmly :
      (P : State Server → Type 0) (e : Event) → IsCalmly t P → IsCalmly t (λ s. P s × Has e s.log)
  Has-IsCalmly P e c = record {
    event = λ s x calm (p, h). (c.event s x calm p, inr h);
    waits = λ s (p, h). c.waits s p;
  }

  Triple-self :
      Triple (Waiting t) get_self (λ self s. Waiting t s × (self.object ≡ auth t)) (Waiting t)
  unfolding get_self
  Triple-self = record { at = λ s w. (w, w.object) }

  module _ (P : State Server → Type 0) (c : IsCalmly t P) (fd : Fd) (n : ℕ) where
    Triple-whole :
        (r : Option (List ℕ))
        → Triple
            (λ s. P s × Has (received fd n r) s.log)
            (whole n r)
            (λ xs s. (P s × Has (received fd n (some xs)) s.log) × (length xs ≡ n))
            (Waiting t)
    unfolding whole
    Triple-whole none = Triple-fail (λ s p. c.waits s p.0)
    Triple-whole (some xs) =
        Triple-if (length xs == n) (λ e. Triple-pure xs (λ s p. (p, ground arith)))
          (λ e. Triple-fail (λ s p. c.waits s p.0))

    Triple-read :
        Triple P
          (read os fd n)
          (λ xs s. (P s × Has (received fd n (some xs)) s.log) × (length xs ≡ n))
          (Waiting t)
    unfolding read recv call
    Triple-read =
        Triple-bind (λ r s. P s × Has (received fd n r) s.log)
          (record { at = λ s p. (c.event s _ tt p, inl refl) }) (λ r. Triple-whole r)

  forget :
      {A : Type 0} {m : M Server A} {P : State Server → Type 0} {e : Event}
      {Q : A → State Server → Type 0} {N : State Server → Type 0}
      → Triple P m Q N
      → Triple (λ s. P s × Has e s.log) m Q N
  forget h = Triple-weaken (λ s p. p.0) h

  Triple-read_auth_method :
      Triple (Waiting t) (read_auth_method os) (λ m s. Waiting t s × (m ≡ 2)) (Waiting t)
  unfolding read_auth_method
  Triple-read_auth_method =
      Triple-bind (λ self s. Waiting t s × (self.object ≡ auth t)) Triple-self
        λ self. Triple-given λ e.
          Triple-bind _ (Triple-read (Waiting t) Waiting-IsCalmly self.base.fd 2) λ head.
            Triple-given λ _. forget (
              Triple-if (not (get_or head 0 0 == 5)) (λ _. Triple-fail (λ s w. w))
                (λ _.
                  Triple-bind _
                    (Triple-read (Waiting t) Waiting-IsCalmly self.base.fd (get_or head 1 0))
                    λ methods. Triple-given λ _. forget (
                      let method = if has_object self.object then 2 else 0 in
                      let two : method ≡ 2 = rw e refl in
                      Triple-if (mem method methods) (λ _. Triple-pure method (λ s w. (w, two)))
                        (λ _. Triple-fail (λ s w. w)))))

  -- The name and the password were read, and the lookup goes through the authenticator.
  module _ (fd : Fd) (nlen plen : ℕ) (name pass : List ℕ) (n : length name ≡ nlen + 1)
      (p : length pass ≡ plen) where
    abbrev Heard : State Server → Type 0
    Heard s =
        (Waiting t s × Has (received fd (nlen + 1) (some name)) s.log)
        × Has (received fd plen (some pass)) s.log

    Heard-Presented : (s : State Server) → Heard s → Presented (take nlen name) pass s.log
    Heard-Presented s ((w, a), b) =
        let e : length (take nlen name) ≡ nlen = omega (arith, length-take nlen name) in
        record {
          fd = fd;
          block = name;
          name_read = subst (λ k. Has (received fd (k + 1) (some name)) s.log) (sym e) a;
          name_of = ap (λ k. take k name) e;
          pass_read = subst (λ k. Has (received fd k (some pass)) s.log) (sym p) b;
        }

    Triple-admit :
        (o : Option User)
        → get t (take nlen name) ≡ o
        → Triple Heard (admit o pass) (λ _ s. Verified t s) (Waiting t)
    unfolding admit
    Triple-admit none e = Triple-fail (λ s h. h.0.0)
    Triple-admit (some u) e =
        Triple-if (user_check u pass)
          (λ ok. record {
            at =
                unfold put_object modify in
                λ s h. record {
                  name = take nlen name;
                  pass = pass;
                  who = u;
                  listed = e;
                  matches = (user_check_iff u pass).0 ok;
                  presented = Heard-Presented s h;
                  object = refl;
                };
          })
          (λ _. Triple-fail (λ s h. h.0.0))

    Triple-look_up :
        (o : Object)
        → o ≡ auth t
        → Triple Heard (look_up o (take nlen name) pass) (λ _ s. Verified t s) (Waiting t)
    unfolding look_up
    Triple-look_up o e = rw (e, look_up) (Triple-admit (get t (take nlen name)) refl)

  Triple-read_auth_user : Triple (Waiting t) (read_auth_user os) (λ _ s. Verified t s) (Waiting t)
  unfolding read_auth_user
  Triple-read_auth_user =
      Triple-bind (λ self s. Waiting t s × (self.object ≡ auth t)) Triple-self
        λ self. Triple-given λ e.
          let fd = self.base.fd in
          Triple-bind _ (Triple-read (Waiting t) Waiting-IsCalmly fd 2) λ head. Triple-given λ _.
            forget (
              let nlen = get_or head 1 0 in
              Triple-if (not (get_or head 0 0 == 1) || (nlen == 0)) (λ _. Triple-fail (λ s w. w))
                (λ _. Triple-bind _ (Triple-read (Waiting t) Waiting-IsCalmly fd (nlen + 1)) λ name.
                  Triple-given λ n.
                    let plen = get_or name nlen 0 in
                    Triple-if (plen == 0) (λ _. Triple-fail (λ s h. h.0))
                      (λ _.
                        Triple-bind _
                          (Triple-read _ (Has-IsCalmly (Waiting t) _ Waiting-IsCalmly) fd plen)
                          λ pass.
                            Triple-given
                              λ p. Triple-look_up fd nlen plen name pass n p self.object e)))

  -- Messages keep what is guarded.
  GuardedStep : State Server → State Server → Type 0
  GuardedStep s s' = (Waiting t s → Waiting t s') × (Verified t s → Verified t s')

  GuardedStep-send : (fd : Fd) (bytes : List ℕ) → Steps GuardedStep (send os fd bytes)
  unfolding send call GuardedStep
  GuardedStep-send fd bytes = record {
    at = λ s. (
      (λ w. record { object = w.object; calm = (tt, w.calm) }),
      (λ v. Verified-Keeps t s _ (record { object = refl; log = λ e h. inr h }) v),
    );
  }

  GuardedStep-recv : (fd : Fd) (n : ℕ) → Steps GuardedStep (recv os fd n)
  unfolding recv call GuardedStep
  GuardedStep-recv fd n = record {
    at = λ s. (
      (λ w. record { object = w.object; calm = (tt, w.calm) }),
      (λ v. Verified-Keeps t s _ (record { object = refl; log = λ e h. inr h }) v),
    );
  }

  GuardedStep-Talks : Talks os GuardedStep
  unfolding GuardedStep
  GuardedStep-Talks = record {
    order = record {
      stay = λ s. ((λ w. w), (λ v. v));
      trans = λ s u v h k. ((λ w. k.0 (h.0 w)), (λ w. k.1 (h.1 w)));
    };
    received = GuardedStep-recv;
    sent = GuardedStep-send;
  }

  Triple-settle :
      (r : Option (Unit {0}))
      → Triple
          (λ s. Ends (λ _ u. Verified t u) (Waiting t) (r, s))
          (do write_auth_user os r; settle r)
          (λ _ s. Verified t s)
          (Guarded t)
  unfolding settle GuardedStep
  Triple-settle none =
      Triple-bind (λ _ s. Waiting t s)
        (Triple-keeps _ (Waiting t) (Steps-write_auth_user GuardedStep-Talks none)
          (λ s s' k w. k.0 w) (λ s w. inl w))
        (λ _. Triple-fail (λ s w. inl w))
  Triple-settle (some x) =
      Triple-bind (λ _ s. Verified t s)
        (Triple-keeps _ (Verified t) (Steps-write_auth_user GuardedStep-Talks (some x))
          (λ s s' k v. k.1 v) (λ s v. inr v))
        (λ _. Triple-pure tt (λ s v. v))

  Triple-authenticate : Triple (Waiting t) (authenticate os) (λ _ s. Verified t s) (Guarded t)
  unfolding authenticate
  Triple-authenticate =
      Triple-bind (λ r s. Ends (λ _ u. Verified t u) (Waiting t) (r, s))
        (Triple-attempt Triple-read_auth_user) (λ r. Triple-settle r)

  Triple-chosen :
      (m : Option ℕ)
      → Triple
          (λ s. Ends (λ k u. Waiting t u × (k ≡ 2)) (Waiting t) (m, s))
          (do write_auth_method os m; chosen os m)
          (λ _ s. Verified t s)
          (Guarded t)
  unfolding chosen GuardedStep
  Triple-chosen none =
      Triple-bind (λ _ s. Waiting t s)
        (Triple-keeps _ (Waiting t) (Steps-write_auth_method GuardedStep-Talks none)
          (λ s s' k w. k.0 w) (λ s w. inl w))
        (λ _. Triple-fail (λ s w. inl w))
  Triple-chosen (some m) = Triple-given λ e. rw e (
      Triple-bind (λ _ s. Waiting t s)
        (Triple-keeps _ (Waiting t) (Steps-write_auth_method GuardedStep-Talks (some 2))
          (λ s s' k w. k.0 w) (λ s w. inl w))
        (λ _. Triple-authenticate))

  pub Triple-server_auth : Triple (Waiting t) (server_auth os) (λ _ s. Verified t s) (Guarded t)
  unfolding server_auth
  Triple-server_auth =
      Triple-bind (λ m s. Ends (λ k u. Waiting t u × (k ≡ 2)) (Waiting t) (m, s))
        (Triple-attempt Triple-read_auth_method) (λ m. Triple-chosen m)

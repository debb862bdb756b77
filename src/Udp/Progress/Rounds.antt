-- ===== src/Udp/Progress/Rounds.antt =====
-- core/src/hev-socks5-udp.c: the rounds of the relay on a connection whose timeout is 0.
use gen_net.Base.{
  ℕ, zero, suc, ◌+◌, ◌≤◌, ◌≡◌, refl, ◌⊎◌, inl, inr, pos, Bool, true, false, ◌||◌, List, arith,
}
use gen_net.Addr.{SockAddr}
use gen_net.Net.{Fd, Log, Os, State, M}
use gen_net.Net.Steps.{Steps}
use gen_net.Net.Triples.{Triple, Triple-bind, Triple-pure, Triple-weaken, Triple-if, Triple-map}
use gen_net.Socks5.{yield}
use gen_net.Server.{Server}
use gen_net.Udp.{UdpOs}
use gen_net.Udp.Splicer.{
  Progress, moved, idle, ended, is_moved, is_idle, is_ended, Loop, turn_f, turn_b, splice_round,
  rest_of, splice_loop,
}
use gen_net.Udp.Laws.{Steps-udp_yielder}
use gen_net.Udp.Progress.{Onward, Onward-Plain, At, Any, kept, Triple-udp_yielder}
use gen_net.Udp.Progress.Turns.{gain, Turned, TurnedBack, Triple-fwd_f, Triple-fwd_b}

gain-moved : (f b : Progress) → (is_moved f || is_moved b) ≡ true → 1 ≤ gain f + gain b
gain-moved moved b h = omega arith
gain-moved idle moved h = omega arith
gain-moved idle idle h = absurd (cc)
gain-moved idle ended h = absurd (cc)
gain-moved ended moved h = omega arith
gain-moved ended idle h = absurd (cc)
gain-moved ended ended h = absurd (cc)

module _ (os : Os) (u : UdpOs) (sleeps : (log : Log) → u.sleep log 0 ≡ pos 0)
    {binder : Fd → SockAddr → M Server (Unit {0})}
    (binds : (fd : Fd) (a : SockAddr) → Steps Onward (binder fd a)) where
  Triple-turn_f :
      (n : ℕ) (fd : Fd) (sizes : List ℕ) (l : Loop)
      → Triple (At n) (turn_f os u binder fd sizes l) (Turned os u n binds) Any
  unfolding turn_f
  Triple-turn_f n fd sizes l =
      Triple-if (is_ended l.res_f) (λ _. Triple-pure _ (λ s h. (h.0, omega (arith, h.1))))
        (λ _. Triple-fwd_f os u n binds fd sizes l.bound)

  Triple-turn_b :
      (n : ℕ) (fd : Fd) (sizes : List ℕ) (l : Loop)
      → Triple (At n) (turn_b os u binder fd sizes l) (TurnedBack os u n binds) Any
  unfolding turn_b
  Triple-turn_b n fd sizes l =
      Triple-if (is_ended l.res_b) (λ _. Triple-pure _ (λ s h. (h.0, omega (arith, h.1))))
        (λ _. Triple-fwd_b os u n binds fd sizes)

  pub Triple-splice_round :
      (n : ℕ) (fd : Fd) (sizes : List ℕ) (l : Loop)
      → Triple
          (At n)
          (splice_round os u binder fd sizes l)
          (λ r s. At (n + (gain r.res_f + gain r.res_b)) s)
          Any
  unfolding splice_round
  Triple-splice_round n fd sizes l =
      Triple-bind (Turned os u n binds) (Triple-turn_f n fd sizes l) λ f.
        Triple-bind (TurnedBack os u (n + gain f.0) binds) (Triple-turn_b (n + gain f.0) fd sizes l)
          λ b. Triple-pure _ (λ s h. (h.0, omega (arith, h.1)))

  -- There is another round only if data was given to a socket in this one.
  pub Triple-rest_of :
      (n : ℕ) (l : Loop)
      → Triple
          (At n)
          (rest_of os u binder l)
          (λ more s. At n s × (more ≡ true → (is_moved l.res_f || is_moved l.res_b) ≡ true))
          Any
  unfolding rest_of
  Triple-rest_of n l =
      Triple-if (is_moved l.res_f || is_moved l.res_b)
        (λ e.
          Triple-map (λ more s h. (h, λ _. e)) (λ s h. h)
            (kept _ n (Steps-udp_yielder (Onward-Plain os) u yield)))
        λ _.
          Triple-if (is_idle l.res_f || is_idle l.res_b)
            (λ _.
              Triple-map (λ more s h. (h.0, λ m. absurd (ground (arith, h.1)))) (λ s h. h)
                (Triple-udp_yielder os u sleeps n))
            (λ _. Triple-pure false (λ s h. (h, λ m. absurd (cc))))

  -- the rounds so far, unless the loop has ended
  abbrev pub Counted : ℕ → Bool → State Server → Type 0
  Counted n gave s = (gave ≡ true) ⊎ At n s

  pub Triple-splice_loop :
      (k n : ℕ) (fd : Fd) (sizes : List ℕ) (l : Loop)
      → Triple (At n) (splice_loop os u binder k fd sizes l) (Counted (n + k)) Any
  unfolding splice_loop
  Triple-splice_loop zero n fd sizes l = Triple-pure false (λ s h. inr (h.0, omega (arith, h.1)))
  Triple-splice_loop (suc k) n fd sizes l =
      Triple-bind (λ r s. At (n + (gain r.res_f + gain r.res_b)) s)
        (Triple-splice_round n fd sizes l)
        λ r.
          Triple-bind
            (λ more s.
              At (n + (gain r.res_f + gain r.res_b)) s
              × (more ≡ true → (is_moved r.res_f || is_moved r.res_b) ≡ true))
            (Triple-rest_of (n + (gain r.res_f + gain r.res_b)) r)
            λ more.
              Triple-if more
                (λ e.
                  Triple-weaken
                    (λ s h. (h.0.0, omega (arith, h.0.1, gain-moved r.res_f r.res_b (h.1 e))))
                    (Triple-map (λ gave s c. shift n k gave s c) (λ s h. h)
                      (Triple-splice_loop k (n + 1) fd sizes r)))
                (λ _. Triple-pure true (λ s h. inl refl))
    where
      shift :
          (n k : ℕ) (gave : Bool) (s : State Server)
          → Counted (n + 1 + k) gave s
          → Counted (n + suc k) gave s
      shift n k gave s (inl e) = inl e
      shift n k gave s (inr h) = inr (h.0, omega (arith, h.1))

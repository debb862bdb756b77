-- ===== src/Udp/Progress/Each.antt =====
-- core/src/hev-socks5-udp.c: each round of the relay on a connection whose timeout is 0.
use gen_net.Base.{
  ℕ, zero, suc, ◌+◌, ◌<◌, ◌≡◌, refl, inl, inr, pos, Bool, true, false, not, Option, none, some,
  List, arith, replicate, if◌then◌else◌,
}
use native.Mathlib.Nat.{eq-or-lt_of_le}
use gen_net.Addr.{SockAddr}
use gen_net.Net.{Fd, Log, Os, State, M, pure, fail, look, ◌>>=◌, continue}
use gen_net.Net.Steps.{Steps}
use gen_net.Net.Triples.{Ends, Triple, Triple-map}
use gen_net.Server.{Server}
use gen_net.Server.Closed.Work.{Steps-watch}
use gen_net.Socks5.{watch}
use gen_net.Udp.{UdpOs, udp_fd}
use gen_net.Udp.Splicer.{
  Loop, splice_round, rest_of, splice_loop, udp_relay, loop_start, udp_buf_size, watch_again,
}
use gen_net.Udp.Laws.{Steps-udp_fd}
use gen_net.Udp.Laws.Splicer.{Steps-watch_again}
use gen_net.Udp.Progress.{traffic, Onward, Onward-Plain, Onward-mark_associated, At, Any, kept}
use gen_net.Udp.Progress.Rounds.{Counted, Triple-splice_round, Triple-rest_of, Triple-splice_loop}

-- a run that has neither ended nor failed
abbrev pub GoesOn : Option Bool × State Server → Type 0
GoesOn r = r.0 ≡ some false

-- If the later run goes on, so does the earlier one, and the later one has given more data.
abbrev pub Gives : Option Bool × State Server → Option Bool × State Server → Type 0
Gives r q = GoesOn q → GoesOn r × (traffic r.1.log < traffic q.1.log)

abbrev Alive : State Server → Type 0
Alive s = s.self.base.timeout ≡ pos 0

-- `g` on a terminated connection is the earlier run of `f`
abbrev Precedes : M Server Bool → M Server Bool → Type 0
Precedes g f = (s : State Server) → Alive s → Gives (g s) (f s)

module _ {A : Type 0} where
  continue-Gives :
      (r : Option A) (s : State Server) (g f : A → M Server Bool)
      → Ends (λ _ t. At 0 t) Any (r, s)
      → ((a : A) → Precedes (g a) (f a))
      → Gives (continue r g s) (continue r f s)
  continue-Gives none s g f h k e = absurd (cc)
  continue-Gives (some a) s g f h k e = k a s h.0 e

  >>=-Precedes :
      (m : M Server A) (g f : A → M Server Bool)
      → Triple (At 0) m (λ _ s. At 0 s) Any
      → ((a : A) → Precedes (g a) (f a))
      → Precedes (m >>= g) (m >>= f)
  unfolding ◌>>=◌
  >>=-Precedes m g f t k s h =
      let (r, s') = m s in continue-Gives r s' g f (t.at s (h, omega arith)) k

if-Precedes :
    (b : Bool) (g f : M Server Bool)
    → Precedes g f
    → Precedes (if b then g else pure true) (if b then f else pure true)
unfolding pure
if-Precedes true g f h = h
if-Precedes false g f h = λ s p e. absurd (cc)

unless-Precedes :
    (b : Bool) (g f : M Server Bool)
    → Precedes g f
    → Precedes (if b then fail else g) (if b then fail else f)
unfolding fail
unless-Precedes true g f h = λ s p e. absurd (cc)
unless-Precedes false g f h = h

module _ (os : Os) (u : UdpOs) (sleeps : (log : Log) → u.sleep log 0 ≡ pos 0)
    {binder : Fd → SockAddr → M Server (Unit {0})}
    (binds : (fd : Fd) (a : SockAddr) → Steps Onward (binder fd a)) where
  once :
      (n : ℕ) (r : Option Bool) (s : State Server)
      → Ends (Counted os u sleeps binds (n + 1)) Any (r, s)
      → r ≡ some false
      → n < traffic s.log
  once n none s h e = absurd (cc)
  once n (some b) s (inl d) e = absurd (cc)
  once n (some b) s (inr h) e = omega (arith, h.1)

  splice_loop-Precedes :
      (k : ℕ) (fd : Fd) (sizes : List ℕ) (l : Loop)
      → Precedes (splice_loop os u binder k fd sizes l) (splice_loop os u binder (suc k) fd sizes l)
  unfolding splice_loop pure
  splice_loop-Precedes zero fd sizes l = λ s h e. (
    refl,
    once (traffic s.log) _ _
        ((Triple-splice_loop os u sleeps binds 1 (traffic s.log) fd sizes l).at s (h, omega arith))
        e,
  )
  splice_loop-Precedes (suc k) fd sizes l =
      >>=-Precedes (splice_round os u binder fd sizes l) _ _
        (Triple-map (λ r s h. (h.0, omega arith)) (λ s h. h)
          (Triple-splice_round os u sleeps binds 0 fd sizes l))
        λ next.
          >>=-Precedes (rest_of os u binder next) _ _
            (Triple-map (λ more s h. h.0) (λ s h. h) (Triple-rest_of os u sleeps binds 0 next))
            λ more. if-Precedes more _ _ (splice_loop-Precedes k fd sizes next)

  udp_relay-Precedes :
      (k num : ℕ) (fd : Fd)
      → Precedes (udp_relay os u binder k num fd) (udp_relay os u binder (suc k) num fd)
  unfolding udp_relay look
  udp_relay-Precedes k num fd =
      >>=-Precedes (look u.malloc) _ _ (record { at = λ s h. h })
        λ ok. unless-Precedes (not ok) _ _ (
          >>=-Precedes udp_fd _ _ (kept _ 0 (Steps-udp_fd (Onward-Plain os) u)) λ fd_a.
            >>=-Precedes (watch_again os u binder fd_a) _ _
              (kept _ 0 (Steps-watch_again (Onward-Plain os) u Onward-mark_associated binds fd_a))
              λ _.
                >>=-Precedes (watch os fd) _ _ (kept _ 0 (Steps-watch (Onward-Plain os) fd))
                  λ _. splice_loop-Precedes k fd (replicate num udp_buf_size) loop_start)

  -- On a connection whose timeout is 0, a relay that has not ended after so many rounds has given
  -- data to a socket in each of them.
  pub udp_relay-Moves :
      (fuel k num : ℕ) (fd : Fd) (s : State Server)
      → k < fuel
      → s.self.base.timeout ≡ pos 0
      → (udp_relay os u binder fuel num fd s).0 ≡ some false
      → traffic (udp_relay os u binder k num fd s).1.log
        < traffic (udp_relay os u binder (suc k) num fd s).1.log
  udp_relay-Moves zero k num fd s l h e = absurd (omega arith)
  udp_relay-Moves (suc j) k num fd s l h e =
      let (before, more) = udp_relay-Precedes j num fd s h e in
      elim (eq-or-lt_of_le {n = k} {m = j} (omega (arith, l))) [
        | inl same ↦ rw same more
        | inr lt ↦ udp_relay-Moves j k num fd s lt h before
      ]

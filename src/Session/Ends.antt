-- ===== src/Session/Ends.antt =====
-- hev-socks5-session.c: the UDP relay of a session that was terminated.
use gen_net.Base.{ℕ, suc, ◌<◌, ◌≡◌, pos, Bool, some, arith, false}
use gen_net.Net.{Fd, Log, Os, State, modify}
use gen_net.Net.Steps.{Steps}
use gen_net.Server.{Server}
use gen_net.Session.{Config, session_bind, put_associated}
use gen_net.Session.Laws.{Steps-session_bind}
use gen_net.Udp.{UdpOs}
use gen_net.Udp.Splicer.{udp_relay}
use gen_net.Udp.Progress.{traffic, Onward, Onward-Plain}
use gen_net.Udp.Progress.Each.{udp_relay-Moves}

Onward-put_associated :
    (os : Os) (config : Config) (b : Bool) → Steps Onward (put_associated os config b)
unfolding put_associated modify
Onward-put_associated os config b = record {
  at = λ s. record { zero_kept = λ h. h; more = omega arith };
}

-- The UDP relay of a terminated session that has not ended after `fuel` rounds has given data to a
-- socket in each of them: what a relay of `k + 1` rounds has given is more than that of `k` rounds,
-- for each `k` below `fuel`. Sleeping for no time returns 0.
pub session_relay-Moves :
    (os : Os) (u : UdpOs) (config : Config) (fuel k num : ℕ) (fd : Fd) (s : State Server)
    → ((log : Log) → u.sleep log 0 ≡ pos 0)
    → k < fuel
    → s.self.base.timeout ≡ pos 0
    → (udp_relay os u (session_bind os config) fuel num fd s).0 ≡ some false
    → traffic (udp_relay os u (session_bind os config) k num fd s).1.log
      < traffic (udp_relay os u (session_bind os config) (suc k) num fd s).1.log
session_relay-Moves os u config fuel k num fd s sleeps below zero_timeout unfinished =
    udp_relay-Moves os u sleeps
      (λ sock a.
        Steps-session_bind (Onward-Plain os) config (Onward-put_associated os config) sock a)
      fuel k num fd s below zero_timeout unfinished

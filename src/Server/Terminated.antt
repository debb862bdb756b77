-- ===== src/Server/Terminated.antt =====
-- core/src/hev-socks5-server.c and hev-socks5.c: connections that were terminated.
use gen_net.Base.{ℕ, ◌≡◌, ℤ, pos, false, arith}
use gen_net.Net.{
  Fd, Event, Log, Os, State, M, modify, call, recv, send, note, received, sent, socket, opened,
  closed,
}
use gen_net.Net.Steps.{IsPreorder, Steps}
use gen_net.Socks5.{Socks5, Timeouts, set_timeout, waitio, task_io_yielder}
use gen_net.Server.{Server, Object, put_timeout, put_object}
use gen_net.Server.Request.{put_family}
use gen_net.Server.Relay.{put_fd0, put_fd1}
use gen_net.Server.Run.{put_type, run, server_class}
use gen_net.Server.Closed.{Talks, Plain, Works}
use gen_net.Server.Closed.Work.{Methods-server_class}
use gen_net.Server.Closed.Work.Run.{Steps-run}

-- The timeout is still 0 if it was.
abbrev pub StaysZero : State Server → State Server → Type 0
StaysZero s t = s.self.base.timeout ≡ pos 0 → t.self.base.timeout ≡ pos 0

order : IsPreorder StaysZero
order = record { stay = λ s h. h; trans = λ s t u f g h. g (f h) }

StaysZero-call : {A : Type 0} (ask : Log → A) (event : A → Event) → Steps StaysZero (call ask event)
unfolding call
StaysZero-call ask event = record { at = λ s h. h }

StaysZero-Talks : (os : Os) → Talks os StaysZero
unfolding recv send note
StaysZero-Talks os = record {
  order = order;
  received = λ fd n. StaysZero-call (λ log. os.recv log fd n) (received fd n);
  sent = λ fd bytes. StaysZero-call (λ log. os.send log fd bytes) (sent fd bytes);
}

pub StaysZero-set_timeout :
    (t : ℤ) (b : Socks5) → b.timeout ≡ pos 0 → (set_timeout t b).timeout ≡ pos 0
unfolding set_timeout
StaysZero-set_timeout t b h = ground arith

StaysZero-Plain : (os : Os) → Plain os StaysZero
unfolding put_timeout put_family put_type modify
StaysZero-Plain os = record {
  talks = StaysZero-Talks os;
  calls = λ ask event p. StaysZero-call ask event;
  timeout = λ t. record { at = λ s h. StaysZero-set_timeout t s.self.base h };
  family = λ f. record { at = λ s h. h };
  type = λ t. record { at = λ s h. h };
}

StaysZero-Works : (os : Os) → Works os StaysZero
unfolding put_fd0 put_fd1 modify socket note
StaysZero-Works os = record {
  plain = StaysZero-Plain os;
  opens = λ k. StaysZero-call (λ log. os.socket log k) (opened k);
  closes = λ fd. StaysZero-call (λ _. tt) (λ _. closed fd);
  fd0 = λ fd. record { at = λ s h. h };
  fd1 = λ fd. record { at = λ s h. h };
}

StaysZero-put_object : (o : Object) → Steps StaysZero (put_object o)
unfolding put_object modify
StaysZero-put_object o = record { at = λ s h. h }

zero_fails :
    (sleep : ℕ → ℤ) (b : Socks5)
    → b.timeout ≡ pos 0
    → sleep 0 ≡ pos 0
    → task_io_yielder sleep waitio b ≡ false
unfolding task_io_yielder
zero_fails sleep b h k = ground arith

module _ (os : Os) (splicer : Fd → M Server (Unit {0})) (timeouts : Timeouts) (cmd : ℕ)
    (spliced : (fd : Fd) → Steps StaysZero (splicer fd)) where
  -- Once a connection was terminated, by a timeout of 0, none of the timeouts that the rest of its
  -- run sets takes effect, if the UDP splicer leaves the timeout at 0 too. So the timeout is 0 at
  -- the end, and waiting for input fails if sleeping for no time returns 0.
  pub run-terminated :
      (sleep : ℕ → ℤ) (s : State Server)
      → s.self.base.timeout ≡ pos 0
      → sleep 0 ≡ pos 0
      → let s' = (run os (server_class os splicer) timeouts cmd s).1 in
        (s'.self.base.timeout ≡ pos 0) × (task_io_yielder sleep waitio s'.self.base ≡ false)
  run-terminated sleep s h k =
      let s' = (run os (server_class os splicer) timeouts cmd s).1 in
      let e =
        (Steps-run (StaysZero-Works os) (Methods-server_class (StaysZero-Plain os) spliced) timeouts
            StaysZero-put_object cmd).at
          s h in
      (e, zero_fails sleep s'.self.base e k)

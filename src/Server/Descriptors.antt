-- ===== src/Server/Descriptors.antt =====
-- core/src/hev-socks5-server.c: the accounts of the descriptors that are opened and closed.
pub mod Sockets
pub mod Run
pub mod Whole
use gen_net.Base.{
  ℕ, ℤ, zero, suc, ◌+◌, ◌≡◌, refl, sym, ◌∙◌, ap, Bool, true, false, not, Option, none, some, List,
  [], ◌∷◌, arith, ◌==◌, if◌then◌else◌,
}
use gen_net.Addr.{Family, SockAddr}
use gen_net.Net.{
  Fd, Kind, Event, opened, closed, received, sent, Log, Os, State, M, call, modify, recv, send,
  note,
}
use gen_net.Net.Steps.{IsPreorder, Steps}
use gen_net.Socks5.{Socks5, Socks5Type, set_timeout}
use gen_net.Server.{Server, Object, put_timeout, put_object}
use gen_net.Server.Request.{put_family}
use gen_net.Server.Run.{put_type}
use gen_net.Server.Closed.{IsPlain, Plain}

-- 1 for the descriptor `n`, and 0 for every other and for none
abbrev pub counts : ℕ → Fd → ℕ
counts n none = 0
counts n (some m) = if m == n then 1 else 0

-- how often a log opens the descriptor
abbrev pub opens : ℕ → Log → ℕ
opens n [] = 0
opens n (opened k fd ∷ log) = counts n fd + opens n log
opens n (_ ∷ log) = opens n log

-- how often a log closes the descriptor
abbrev pub closes : ℕ → Log → ℕ
closes n [] = 0
closes n (closed fd ∷ log) = counts n fd + closes n log
closes n (_ ∷ log) = closes n log

-- The state has the sockets `a` and `b` and the client's `c`, and beside them `k` descriptors `n`
-- that were opened wait to be closed.
pub record Holds (n : ℕ) (c a b : Fd) (k : ℕ) (s : State Server) : Type 0 where
  pub fd0 : s.self.fd0 ≡ a
  pub fd1 : s.self.fd1 ≡ b
  pub fd : s.self.base.fd ≡ c
  pub count : opens n s.log ≡ closes n s.log + counts n a + counts n b + k

-- No descriptor is lost: each that is open is the server's own.
pub record Accounted (n : ℕ) (c : Fd) (s : State Server) : Type 0 where
  pub fd : s.self.base.fd ≡ c
  pub count : opens n s.log ≡ closes n s.log + counts n s.self.fd0 + counts n s.self.fd1

pub Holds-Accounted : (n : ℕ) (c a b : Fd) (s : State Server) → Holds n c a b 0 s → Accounted n c s
Holds-Accounted n c a b s h = record {
  fd = h.fd;
  count = rw (h.fd0, h.fd1) (omega (arith, h.count));
}

-- nothing is opened or closed
pub record Steady (n : ℕ) (s t : State Server) : Type 0 where
  pub fd0 : t.self.fd0 ≡ s.self.fd0
  pub fd1 : t.self.fd1 ≡ s.self.fd1
  pub fd : t.self.base.fd ≡ s.self.base.fd
  pub opens_same : opens n t.log ≡ opens n s.log
  pub closes_same : closes n t.log ≡ closes n s.log

pub Steady-Holds :
    (n : ℕ) (c a b : Fd) (k : ℕ) (s t : State Server)
    → Steady n s t
    → Holds n c a b k s
    → Holds n c a b k t
Steady-Holds n c a b k s t r h = record {
  fd0 = r.fd0 ∙ h.fd0;
  fd1 = r.fd1 ∙ h.fd1;
  fd = r.fd ∙ h.fd;
  count = omega (arith, r.opens_same, r.closes_same, h.count);
}

pub Steady-Accounted :
    (n : ℕ) (c : Fd) (s t : State Server) → Steady n s t → Accounted n c s → Accounted n c t
Steady-Accounted n c s t r h = record {
  fd = r.fd ∙ h.fd;
  count = rw (r.fd0, r.fd1) (omega (arith, r.opens_same, r.closes_same, h.count));
}

set_timeout-fd : (t : ℤ) (b : Socks5) → (set_timeout t b).fd ≡ b.fd
unfolding set_timeout
set_timeout-fd t b = ground arith

module _ (n : ℕ) where
  Steady-refl : (s : State Server) → Steady n s s
  Steady-refl s = record {
    fd0 = refl;
    fd1 = refl;
    fd = refl;
    opens_same = refl;
    closes_same = refl;
  }

  pub plain-opens : (e : Event) (log : Log) → IsPlain e → opens n (e ∷ log) ≡ opens n log
  plain-opens (opened k fd) log p = absurd p
  plain-opens (closed fd) log p = absurd p
  plain-opens _ log p = refl

  pub plain-closes : (e : Event) (log : Log) → IsPlain e → closes n (e ∷ log) ≡ closes n log
  plain-closes (opened k fd) log p = absurd p
  plain-closes (closed fd) log p = absurd p
  plain-closes _ log p = refl

  pub Steady-call :
      {A : Type 0} (ask : Log → A) (event : A → Event)
      → ((a : A) → IsPlain (event a))
      → Steps (Steady n) (call ask event)
  unfolding call
  Steady-call ask event p = record {
    at = λ s. record {
      fd0 = refl;
      fd1 = refl;
      fd = refl;
      opens_same = plain-opens (event (ask s.log)) s.log (p (ask s.log));
      closes_same = plain-closes (event (ask s.log)) s.log (p (ask s.log));
    };
  }

  pub Steady-Plain : (os : Os) → Plain os (Steady n)
  unfolding put_timeout put_family put_type modify recv send
  Steady-Plain os = record {
    talks = record {
      order = record {
        stay = Steady-refl;
        trans = λ s t u h k. record {
          fd0 = k.fd0 ∙ h.fd0;
          fd1 = k.fd1 ∙ h.fd1;
          fd = k.fd ∙ h.fd;
          opens_same = k.opens_same ∙ h.opens_same;
          closes_same = k.closes_same ∙ h.closes_same;
        };
      };
      received = λ fd m. Steady-call (λ log. os.recv log fd m) (received fd m) (λ _. tt);
      sent = λ fd bytes. Steady-call (λ log. os.send log fd bytes) (sent fd bytes) (λ _. tt);
    };
    calls = Steady-call;
    timeout = λ t. record {
      at = λ s. record {
        fd0 = refl;
        fd1 = refl;
        fd = set_timeout-fd t s.self.base;
        opens_same = refl;
        closes_same = refl;
      };
    };
    family = λ f. record {
      at = λ s. record { fd0 = refl; fd1 = refl; fd = refl; opens_same = refl; closes_same = refl };
    };
    type = λ t. record {
      at = λ s. record { fd0 = refl; fd1 = refl; fd = refl; opens_same = refl; closes_same = refl };
    };
  }

  pub Steady-put_object : (o : Object) → Steps (Steady n) (put_object o)
  unfolding put_object modify
  Steady-put_object o = record {
    at = λ s. record { fd0 = refl; fd1 = refl; fd = refl; opens_same = refl; closes_same = refl };
  }

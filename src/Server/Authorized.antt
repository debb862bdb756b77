-- ===== src/Server/Authorized.antt =====
-- core/src/hev-socks5-server.c: when a client counts as let in by an authenticator.
pub mod Login
pub mod Run
use gen_net.Base.{
  ℕ, suc, ◌+◌, ◌≡◌, refl, sym, ap, subst, ◌∙◌, ◌⊎◌, inl, inr, Bool, true, false, not, ◌||◌, Option,
  none, some, List, [], ◌∷◌, ◌++◌, arith, ◌==◌, length, length-take, Option-cases, get_or, take,
  if◌then◌else◌,
}
use gen_net.Rbtree.{Tree}
use gen_net.User.{User, user_check, user_check_iff}
use gen_net.Authenticator.{get}
use gen_net.Addr.{SockAddr, Family, zero_addr}
use gen_net.Net.{
  Fd, Kind, Event, received, sent, opened, closed, configured, watched, rewatched, unwatched, bound,
  connected, named, spliced, crashed, Log, Os, State, M, pure, fail, attempt, get_self, modify,
  call, ◌>>=◌, ◌>>◌, recv, send, socket, note,
}
use gen_net.Net.Steps.{IsPreorder, Steps}
use gen_net.Net.Triples.{
  Has, Ends, Triple, Triple-bind, Triple-if, Triple-get_self, Triple-pure, Triple-fail,
  Triple-attempt, Triple-weaken, Triple-keeps, Triple-given,
}
use gen_net.Socks5.{Socks5Type, Timeouts, whole, read, watch}
use gen_net.Server.{
  Server, Object, no_object, auth, user, Class, put_timeout, put_object, checked, settle, admit,
  look_up, mem, has_object, read_auth_method, write_auth_method, read_auth_user, write_auth_user,
  authenticate, chosen, server_auth,
}
use gen_net.Server.Request.{succ, put_family, read_request, write_response}
use gen_net.Server.Relay.{put_fd0, put_fd1}
use gen_net.Server.Run.{put_type, perform, handshake, service, run}
use gen_net.Server.Closed.{
  Plain, Talks, Works, Methods, Steps-read_auth_method, Steps-write_auth_method,
  Steps-write_auth_user,
}

-- what a client may cause that has not been let in
abbrev pub IsCalm : Event → Type 0
IsCalm (opened k fd) = ⊥
IsCalm (bound fd a ok) = ⊥
IsCalm (connected fd a ok) = ⊥
IsCalm (spliced c fd) = ⊥
IsCalm crashed = ⊥
IsCalm _ = Unit

abbrev pub AllCalm : Log → Type 0
AllCalm [] = Unit
AllCalm (e ∷ log) = IsCalm e × AllCalm log

-- The client sent the name and the password, each in its message.
pub record Presented (name pass : List ℕ) (log : Log) : Type 0 where
  pub fd : Fd
  pub block : List ℕ
  pub name_read : Has (received fd (length name + 1) (some block)) log
  pub name_of : take (length name) block ≡ name
  pub pass_read : Has (received fd (length pass) (some pass)) log

-- The object is a user of the authenticator whose name and password the client sent.
pub record Verified (t : Tree User) (s : State Server) : Type 0 where
  pub name : List ℕ
  pub pass : List ℕ
  pub who : User
  pub listed : get t name ≡ some who
  pub matches : who.pass ≡ pass
  pub presented : Presented name pass s.log
  pub object : s.self.object ≡ user who

-- nothing was opened, and nobody has been let in
pub record Waiting (t : Tree User) (s : State Server) : Type 0 where
  pub object : s.self.object ≡ auth t
  pub calm : AllCalm s.log

abbrev pub Guarded : Tree User → State Server → Type 0
Guarded t s = Waiting t s ⊎ Verified t s

-- The object stays, and the log grows.
pub record Keeps (s t : State Server) : Type 0 where
  pub object : t.self.object ≡ s.self.object
  pub log : (e : Event) → Has e s.log → Has e t.log

pub Keeps-IsPreorder : IsPreorder Keeps
Keeps-IsPreorder = record {
  stay = λ s. record { object = refl; log = λ e h. h };
  trans = λ s t u h k. record { object = k.object ∙ h.object; log = λ e x. k.log e (h.log e x) };
}

pub Keeps-call : {A : Type 0} (ask : Log → A) (event : A → Event) → Steps Keeps (call ask event)
unfolding call
Keeps-call ask event = record { at = λ s. record { object = refl; log = λ e h. inr h } }

pub Keeps-Plain : (os : Os) → Plain os Keeps
unfolding put_timeout put_family put_type modify recv send note
Keeps-Plain os = record {
  talks = record {
    order = Keeps-IsPreorder;
    received = λ fd n. Keeps-call (λ log. os.recv log fd n) (received fd n);
    sent = λ fd bytes. Keeps-call (λ log. os.send log fd bytes) (sent fd bytes);
  };
  calls = λ ask event p. Keeps-call ask event;
  timeout = λ t. record { at = λ s. record { object = refl; log = λ e h. h } };
  family = λ f. record { at = λ s. record { object = refl; log = λ e h. h } };
  type = λ t. record { at = λ s. record { object = refl; log = λ e h. h } };
}

pub Keeps-Works : (os : Os) → Works os Keeps
unfolding put_fd0 put_fd1 modify socket note
Keeps-Works os = record {
  plain = Keeps-Plain os;
  opens = λ k. Keeps-call (λ log. os.socket log k) (opened k);
  closes = λ fd. Keeps-call (λ _. tt) (λ _. closed fd);
  fd0 = λ fd. record { at = λ s. record { object = refl; log = λ e h. h } };
  fd1 = λ fd. record { at = λ s. record { object = refl; log = λ e h. h } };
}

pub Verified-Keeps :
    (t : Tree User) (s s' : State Server) → Keeps s s' → Verified t s → Verified t s'
Verified-Keeps t s s' k v = record {
  name = v.name;
  pass = v.pass;
  who = v.who;
  listed = v.listed;
  matches = v.matches;
  presented = record {
    fd = v.presented.fd;
    block = v.presented.block;
    name_read = k.log _ v.presented.name_read;
    name_of = v.presented.name_of;
    pass_read = k.log _ v.presented.pass_read;
  };
  object = k.object ∙ v.object;
}

-- ===== src/Net.antt =====
-- The calls that the sockets code makes into the system and into the task library, none of which
-- is in the repository's own sources. A call appends an event to a log, and an oracle answers it from
-- the log so far. So the answers may depend on everything that happened, and nothing is assumed of
-- them.
pub mod Steps
pub mod Triples
pub mod Runs
use gen_net.Base.{ℕ, Bool, true, false, Option, none, some, List, [], ◌∷◌, ◌++◌, if◌then◌else◌}
use gen_net.Addr.{SockAddr}
use gen_net.Addr.Resolve.{Resolver}

-- a descriptor, where none is -1
abbrev pub Fd : Type 0
Fd = Option ℕ

-- `SOCK_STREAM` and `SOCK_DGRAM`
pub data Kind : Type 0 where
  stream dgram : Kind

-- the socket options that the program sets
pub data Setting : Type 0 where
  v6only_off v6only_on rcvbuf reuseaddr reuseport fastopen : Setting
  bind_device : List ℕ → Setting
  mark : ℕ → Setting

-- What one call on datagrams takes in or gives away. `to` is none where the socket is connected.
pub record Datagram : Type 0 where
  pub peer : SockAddr
  pub payload : List ℕ

pub record Parcel : Type 0 where
  pub to : Option SockAddr
  pub content : List ℕ

pub data Event : Type 0 where
  received : Fd → ℕ → Option (List ℕ) → Event
  sent : Fd → List ℕ → Bool → Event
  opened : Kind → Fd → Event
  closed : Fd → Event
  configured : Fd → Setting → Bool → Event
  watched : Fd → Bool → Event
  rewatched : Fd → Event
  unwatched : Fd → Event
  bound : Fd → SockAddr → Bool → Event
  connected : Fd → SockAddr → Bool → Event
  listens : Fd → Bool → Event
  named : Fd → Option SockAddr → Event
  spliced : Fd → Fd → Event
  gathered : Fd → List Datagram → Event
  delivered : Fd → List Parcel → Bool → Event
  probed : Fd → Bool → Event
  yielded : Event
  crashed : Event

abbrev pub Log : Type 0
Log = List Event

-- The answers. `recv` and `send` wait for all of their bytes (`MSG_WAITALL`): `recv` gives none for a
-- negative result and the bytes that arrived else, `send` whether its result is positive.
pub record Os : Type 0 where
  pub recv : Log → Fd → ℕ → Option (List ℕ)
  pub send : Log → Fd → List ℕ → Bool
  pub socket : Log → Kind → Fd
  pub setsockopt : Log → Fd → Setting → Bool
  pub add_fd : Log → Fd → Bool
  pub bind : Log → Fd → SockAddr → Bool
  pub connect : Log → Fd → SockAddr → Bool
  pub listen : Log → Fd → Bool
  pub dup : Log → Fd → Fd
  pub getsockname : Log → Fd → Option SockAddr
  pub getpeername : Log → Fd → Option SockAddr
  pub resolver : Log → Resolver

-- an object, and what has happened
pub record State (S : Type 0) : Type 0 where
  pub self : S
  pub log : Log

-- A function of the program: none is its result -1. What it did before stays done.
abbrev pub M : Type 0 → Type 0 → Type 0
M S A = State S → Option A × State S

module _ {S : Type 0} where
  unfoldable pub pure : {A : Type 0} → A → M S A
  pure a s = (some a, s)

  -- `return -1`
  unfoldable pub fail : {A : Type 0} → M S A
  fail s = (none, s)

  -- what the caller does with each result
  unfoldable pub attempt : {A : Type 0} → M S A → M S (Option A)
  attempt m s = let (r, s') = m s in (some r, s')

  unfoldable pub get_self : M S S
  get_self s = (some s.self, s)

  unfoldable pub modify : (S → S) → M S (Unit {0})
  modify f s = (some tt, record s { self = f s.self })

  -- a call that the oracle answers
  unfoldable pub call : {A : Type 0} → (Log → A) → (A → Event) → M S A
  call ask event s = let a = ask s.log in (some a, record s { log = event a ∷ s.log })

  unfoldable pub look : {A : Type 0} → (Log → A) → M S A
  look ask s = (some (ask s.log), s)

module _ {S A B : Type 0} where
  abbrev pub continue : Option A → (A → M S B) → M S B
  continue none f s = (none, s)
  continue (some a) f s = f a s

  infixl 5 ◌>>=◌ ◌>>◌
  unfoldable pub ◌>>=◌ : M S A → (A → M S B) → M S B
  unfolding pure fail attempt get_self modify call look
  ◌>>=◌ m f s = let (r, s') = m s in continue r f s'

  abbrev pub ◌>>◌ : M S A → M S B → M S B
  m >> n = m >>= λ _. n

-- The calls, each with its event.
module _ {S : Type 0} (os : Os) where
  unfoldable pub recv : Fd → ℕ → M S (Option (List ℕ))
  unfolding call
  recv fd n = call (λ log. os.recv log fd n) (received fd n)

  unfoldable pub send : Fd → List ℕ → M S Bool
  unfolding call
  send fd bytes = call (λ log. os.send log fd bytes) (sent fd bytes)

  unfoldable pub socket : Kind → M S Fd
  unfolding call
  socket kind = call (λ log. os.socket log kind) (opened kind)

  unfoldable pub setsockopt : Fd → Setting → M S Bool
  unfolding call
  setsockopt fd o = call (λ log. os.setsockopt log fd o) (configured fd o)

  unfoldable pub bind : Fd → SockAddr → M S Bool
  unfolding call
  bind fd a = call (λ log. os.bind log fd a) (bound fd a)

  unfoldable pub connect : Fd → SockAddr → M S Bool
  unfolding call
  connect fd a = call (λ log. os.connect log fd a) (connected fd a)

  unfoldable pub listen : Fd → M S Bool
  unfolding call
  listen fd = call (λ log. os.listen log fd) (listens fd)

  -- a copy counts as one more open socket
  unfoldable pub dup : Fd → M S Fd
  unfolding call
  dup fd = call (λ log. os.dup log fd) (opened stream)

  unfoldable pub getsockname : Fd → M S (Option SockAddr)
  unfolding call
  getsockname fd = call (λ log. os.getsockname log fd) (named fd)

  unfoldable pub getpeername : Fd → M S (Option SockAddr)
  unfolding call
  getpeername fd = call (λ log. os.getpeername log fd) (named fd)

  unfoldable pub add_fd : Fd → M S Bool
  unfolding call
  add_fd fd = call (λ log. os.add_fd log fd) (watched fd)

  unfoldable pub resolver : M S Resolver
  unfolding look
  resolver = look os.resolver

module _ {S : Type 0} where
  -- a call whose result is not used
  unfoldable pub note : Event → M S (Unit {0})
  unfolding call
  note e = call (λ _. tt) (λ _. e)

-- ===== src/Udp.antt =====
-- core/src/hev-socks5-udp.c: UDP over a connection of the server. The answers of the system to the
-- calls of this file are an oracle of their own, and so is `errno`, since other tasks set it too.
pub mod Stream
pub mod Datagrams
pub mod Splicer
pub mod Laws
pub mod Frames
pub mod Unwrapped
pub mod Truncated
pub mod Progress
mod Examples
use gen_net.Base.{
  ℕ, zero, suc, ℤ, pos, Bool, true, false, ◌||◌, Option, none, some, List, [], ◌∷◌, length,
  if◌then◌else◌,
}
use gen_net.Addr.{Addr}
use gen_net.Net.{
  Fd, Event, received, sent, gathered, delivered, probed, yielded, Datagram, Parcel, Log, Os, M,
  pure, get_self, modify, call, look, ◌>>=◌, ◌>>◌, note,
}
use gen_net.Socks5.{Socks5, udp_in_udp, Socks5Type, YieldType, waitio, task_io_yielder}
use gen_net.Server.{Server, put_timeout}
use gen_net.Server.Run.{get_fd}

-- The result of a call: a value for one that is not negative, `error` for -1, and `refused` for -2,
-- which is what the task library returns when the yielder makes it stop before any data has gone.
pub data Answer (A : Type 0) : Type 0 where
  gave : A → Answer A
  error : Answer A
  refused : Answer A

-- The answers of the system. `waits` is how often a call waits before it is answered, `has_begun`
-- whether some data had gone before the last wait, whose size a call returns that the yielder makes
-- stop, and `hung_up`
-- whether a read of one byte ends or fails otherwise than by `EAGAIN`. A receive gives the bytes that
-- arrived, at most as many as it asks for. `again` is whether `errno` is `EAGAIN`.
pub record UdpOs : Type 0 where
  pub waits : Log → ℕ
  pub has_begun : Log → Bool
  pub hung_up : Log → Fd → Bool
  pub sleep : Log → ℕ → ℤ
  pub recv : Log → Fd → ℕ → Bool → Answer (List ℕ)
  pub sendmsg : Log → Fd → List ℕ → Answer ℕ
  pub recvmmsg : Log → Fd → List ℕ → Bool → Answer (List Datagram)
  pub sendmmsg : Log → Fd → List Parcel → Answer ℕ
  pub again : Log → Bool
  pub malloc : Log → Bool
  pub mod_fd : Log → Fd → Bool

-- `HevSocks5UDPMsg` after it was received, where an address of none is NULL
pub record Msg : Type 0 where
  pub addr : Option Addr
  pub payload : List ℕ

-- `HevSocks5UDPMsg` to send, whose address is not NULL
pub record Packet : Type 0 where
  pub dest : Addr
  pub payload : List ℕ

-- A positive result of `hev_socks5_udp_recvmmsg`, and the messages that it has filled in.
pub record Received : Type 0 where
  pub count : ℕ
  pub msgs : List Msg

abbrev pub received_all : List Msg → Answer Received
received_all msgs = gave (record { count = length msgs; msgs = msgs })

-- what the log says of an answer
abbrev pub bytes_of : Answer (List ℕ) → Option (List ℕ)
bytes_of (gave bytes) = some bytes
bytes_of _ = none

abbrev pub is_positive : Answer ℕ → Bool
is_positive (gave (suc n)) = true
is_positive _ = false

abbrev pub datagrams_of : Answer (List Datagram) → List Datagram
datagrams_of (gave ds) = ds
datagrams_of _ = []

module _ (u : UdpOs) where
  unfoldable pub base_yielder : YieldType → M Server Bool
  base_yielder t = do
    self ← get_self
    sleep ← look u.sleep
    note yielded
    pure (task_io_yielder sleep t self.base)

  unfoldable pub hang_up : Bool → YieldType → M Server Bool
  unfolding put_timeout base_yielder
  hang_up true t = do put_timeout (pos 0); pure false
  hang_up false t = base_yielder t

  unfoldable pub yield_as : Socks5Type → Fd → YieldType → M Server Bool
  unfolding hang_up
  yield_as udp_in_udp fd t = do gone ← call (λ log. u.hung_up log fd) (probed fd); hang_up gone t
  yield_as _ fd t = base_yielder t

  -- `task_io_yielder`: whether the task goes on
  unfoldable pub udp_yielder : YieldType → M Server Bool
  unfolding yield_as
  udp_yielder t = do self ← get_self; yield_as self.base.type self.base.fd t

  -- the yielder, as often as a call of the task library waits
  unfoldable pub wait : ℕ → M Server Bool
  unfolding udp_yielder
  wait zero = pure true
  wait (suc n) = do ok ← udp_yielder waitio; let rest = wait n; if ok then rest else pure false

  unfoldable pub task_io :
      {A : Type 0} → (Log → Answer A) → (Answer A → Event) → M Server (Answer A)
  unfolding wait
  task_io ask event = do
    n ← look u.waits
    ok ← wait n
    begun ← look u.has_begun
    if ok || begun then call ask event else pure refused

  -- `hev_task_io_socket_recv` and `hev_task_io_socket_recvmsg`
  unfoldable pub recv_some : Fd → ℕ → Bool → M Server (Answer (List ℕ))
  unfolding task_io
  recv_some fd n nonblock =
      task_io (λ log. u.recv log fd n nonblock) (λ a. received fd n (bytes_of a))

  unfoldable pub sendmsg : Fd → List ℕ → M Server (Answer ℕ)
  unfolding task_io
  sendmsg fd bytes = task_io (λ log. u.sendmsg log fd bytes) (λ a. sent fd bytes (is_positive a))

  unfoldable pub recvmmsg : Fd → List ℕ → Bool → M Server (Answer (List Datagram))
  unfolding task_io
  recvmmsg fd sizes nonblock =
      task_io (λ log. u.recvmmsg log fd sizes nonblock) (λ a. gathered fd (datagrams_of a))

  unfoldable pub sendmmsg : Fd → List Parcel → M Server (Answer ℕ)
  unfolding task_io
  sendmmsg fd ps = task_io (λ log. u.sendmmsg log fd ps) (λ a. delivered fd ps (is_positive a))

-- `hev_socks5_udp_get_fd`
unfoldable pub udp_fd : M Server Fd
udp_fd = do self ← get_self; pure (get_fd self)

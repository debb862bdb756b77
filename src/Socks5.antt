-- ===== src/Socks5.antt =====
-- core/src/hev-socks5.c, hev-socks5-misc.c and hev-socks5-tcp.c: what the server and the client
-- share. The process-wide timeouts are an argument.
use gen_net.Base.{
  ℕ, ℤ, pos, negsuc, is_zero, is_nonpositive, Bool, true, false, not, Option, none, some, List,
  ◌==◌, length, if◌then◌else◌,
}
use gen_net.Addr.{Family, unspec}
use gen_net.Net.{
  Fd, Kind, stream, dgram, v6only_off, rcvbuf, rewatched, unwatched, closed, spliced, Os, M, pure,
  fail, ◌>>=◌, ◌>>◌, recv, socket, setsockopt, add_fd, note,
}

-- `HevSocks5Type`
pub data Socks5Type : Type 0 where
  untyped tcp udp_in_tcp udp_in_udp : Socks5Type

-- `HevSocks5`
pub record Socks5 : Type 0 where
  pub fd : Fd
  pub timeout : ℤ
  pub type : Socks5Type
  pub udp_associated : Bool
  pub addr_family : Family

-- The static variables behind `hev_socks5_set_connect_timeout` and its like.
pub record Timeouts : Type 0 where
  pub connect_timeout : ℤ
  pub tcp_timeout : ℤ
  pub udp_timeout : ℤ

-- `hev_socks5_construct`, whose memory was cleared before
unfoldable pub socks5_construct : Socks5Type → Socks5
socks5_construct type = record {
  fd = none;
  timeout = negsuc 0;
  type = type;
  udp_associated = false;
  addr_family = unspec;
}

-- `hev_socks5_set_timeout`
unfoldable pub set_timeout : ℤ → Socks5 → Socks5
set_timeout t s = if is_zero s.timeout then s else record s { timeout = t }

-- `hev_socks5_set_addr_family`
unfoldable pub set_addr_family : Family → Socks5 → Socks5
set_addr_family f s = record s { addr_family = f }

-- `HevTaskYieldType`
pub data YieldType : Type 0 where
  yield waitio : YieldType

-- `hev_socks5_task_io_yielder`: whether the task goes on, where `sleep` is `hev_task_sleep`
unfoldable pub task_io_yielder : (ℕ → ℤ) → YieldType → Socks5 → Bool
task_io_yielder sleep yield s = true
task_io_yielder sleep waitio s = elim s.timeout [
  | negsuc _ ↦ true
  | pos t ↦ not (is_nonpositive (sleep t))
]

module _ {S : Type 0} where
  unfoldable pub whole : ℕ → Option (List ℕ) → M S (List ℕ)
  whole n none = fail
  whole n (some bytes) = if length bytes == n then pure bytes else fail

  -- `hev_task_del_fd` and `close`
  unfoldable pub release : Fd → M S (Unit {0})
  release fd = do note (unwatched fd); note (closed fd)

module _ {S : Type 0} (os : Os) where
  -- `hev_task_io_socket_recv` with the test of its result that the callers make
  unfoldable pub read : Fd → ℕ → M S (List ℕ)
  unfolding whole
  read fd n = do bytes ← recv os fd n; whole n bytes

  -- `hev_task_add_fd`, or else `hev_task_mod_fd`
  unfoldable pub watch : Fd → M S (Unit {0})
  watch fd = do ok ← add_fd os fd; if ok then pure tt else note (rewatched fd)

  unfoldable pub configure : Kind → Fd → M S (Unit {0})
  configure stream fd = pure tt
  configure dgram fd = do _ ← setsockopt os fd rcvbuf; pure tt

  unfoldable pub made : Kind → Fd → M S Fd
  unfolding watch configure
  made kind none = fail
  made kind (some n) = do
    ok ← setsockopt os (some n) v6only_off
    if ok
        then (do watch (some n); configure kind (some n); pure (some n))
        else (do note (closed (some n)); fail)

  -- `hev_socks5_socket`
  unfoldable pub socks5_socket : Kind → M S Fd
  unfolding made
  socks5_socket kind = do fd ← socket os kind; made kind fd

  -- `hev_socks5_tcp_splicer`, from the object's descriptor
  unfoldable pub tcp_splice : Fd → Fd → M S (Unit {0})
  unfolding watch
  tcp_splice none fd = fail
  tcp_splice (some c) fd = do watch fd; note (spliced (some c) fd)

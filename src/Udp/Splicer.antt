-- ===== src/Udp/Splicer.antt =====
-- core/src/hev-socks5-udp.c: forwarding in both directions. The loop runs on fuel, since a relay may
-- go on for as long as data comes in.
use gen_net.Base.{
  ℕ, zero, suc, Bool, true, false, not, ◌||◌, Option, none, some, List, [], ◌∷◌, ◌==◌, replicate,
  if◌then◌else◌,
}
use mathlib.Core.List.{map}
use gen_net.Addr.{Addr, SockAddr, zero_addr, addr_from_sockaddr6}
use gen_net.Addr.Resolve.{Resolved, addr_into_sockaddr6}
use gen_net.Net.{
  Fd, rewatched, crashed, Datagram, Parcel, Os, M, pure, fail, attempt, get_self, call, look, ◌>>=◌,
  ◌>>◌, add_fd, resolver, note,
}
use gen_net.Socks5.{yield, waitio, watch}
use gen_net.Server.{Server}
use gen_net.Udp.{
  Answer, gave, error, refused, UdpOs, Msg, Packet, Received, recvmmsg, sendmmsg, udp_fd,
  udp_yielder,
}
use gen_net.Udp.Datagrams.{udp_sendmmsg, udp_recvmmsg}

-- what a direction returns: 1, 0 and -1
pub data Progress : Type 0 where
  moved idle ended : Progress

abbrev pub is_moved : Progress → Bool
is_moved moved = true
is_moved _ = false

abbrev pub is_idle : Progress → Bool
is_idle idle = true
is_idle _ = false

abbrev pub is_ended : Progress → Bool
is_ended ended = true
is_ended _ = false

abbrev pub packet_of : Datagram → Packet
packet_of d = record { dest = (addr_from_sockaddr6 d.peer).0; payload = d.payload }

abbrev pub parcel_of : SockAddr → List ℕ → Parcel
parcel_of a payload = record { to = some a; content = payload }

-- the variables of the loop
pub record Loop : Type 0 where
  pub res_f : Progress
  pub res_b : Progress
  pub bound : Bool

abbrev pub loop_start : Loop
loop_start = record { res_f = moved; res_b = moved; bound = false }

abbrev pub udp_buf_size : ℕ
udp_buf_size = 1500

module _ (os : Os) (u : UdpOs) (binder : Fd → SockAddr → M Server (Unit {0})) where
  -- `if (res <= 0)`, at the end of each direction
  unfoldable pub progress : Answer ℕ → M Server Progress
  progress (gave zero) = pure ended
  progress (gave (suc n)) = pure moved
  progress refused = pure ended
  progress error = do again ← look u.again; pure (if again then idle else ended)

  unfoldable pub routed : Resolved → List ℕ → M Server Parcel
  routed r payload = if r.found then pure (parcel_of r.saddr payload) else fail

  unfoldable pub address : Option Addr → List ℕ → M Server Parcel
  unfolding routed
  address none payload = fail
  address (some a) [] = fail
  address (some a) (b ∷ bs) = do
    self ← get_self
    r ← resolver os
    routed (addr_into_sockaddr6 r a zero_addr self.base.addr_family) (b ∷ bs)

  -- The first loop of `hev_socks5_udp_fwd_f`, over as many messages as were received. The address
  -- of one that was not filled in is not initialised.
  unfoldable pub addressed : ℕ → List Msg → M Server (List Parcel)
  unfolding address
  addressed zero msgs = pure []
  addressed (suc n) [] = do note crashed; fail
  addressed (suc n) (m ∷ ms) = do
    parcel ← address m.addr m.payload
    rest ← addressed n ms
    pure (parcel ∷ rest)

  unfoldable pub bind_to : Fd → Option SockAddr → M Server (Unit {0})
  bind_to fd none = pure tt
  bind_to fd (some a) = binder fd a

  unfoldable pub bind_once : Fd → Bool → List Parcel → M Server (Unit {0})
  unfolding bind_to
  bind_once fd true parcels = pure tt
  bind_once fd false [] = pure tt
  bind_once fd false (p ∷ ps) = bind_to fd p.to

  unfoldable pub carry : Fd → Bool → List Parcel → Option (Unit {0}) → M Server (Progress × Bool)
  unfolding progress
  carry fd bound parcels none = pure (ended, bound)
  carry fd bound parcels (some _) = do r ← sendmmsg u fd parcels; p ← progress r; pure (p, true)

  unfoldable pub route : Fd → Bool → Option (List Parcel) → M Server (Progress × Bool)
  unfolding bind_once carry
  route fd bound none = pure (ended, bound)
  route fd bound (some parcels) = do
    ready ← attempt (bind_once fd bound parcels)
    carry fd bound parcels ready

  unfoldable pub forward : Fd → Bool → Answer Received → M Server (Progress × Bool)
  unfolding addressed route progress
  forward fd bound error = do p ← progress error; pure (p, bound)
  forward fd bound refused = pure (ended, bound)
  forward fd bound (gave r) =
      if r.count == 0
      then pure (ended, bound)
      else (do parcels ← attempt (addressed r.count r.msgs); route fd bound parcels)

  -- `hev_socks5_udp_fwd_f`, with what it returns and leaves in `*bind`
  unfoldable pub fwd_f : Fd → List ℕ → Bool → M Server (Progress × Bool)
  unfolding forward
  fwd_f fd sizes bound = do r ← udp_recvmmsg os u sizes true; forward fd bound r

  unfoldable pub backward : Answer (List Datagram) → M Server Progress
  unfolding progress
  backward error = progress error
  backward refused = pure ended
  backward (gave []) = pure ended
  backward (gave (d ∷ ds)) = do r ← udp_sendmmsg os u (map packet_of (d ∷ ds)); progress r

  -- `hev_socks5_udp_fwd_b`
  unfoldable pub fwd_b : Fd → List ℕ → M Server Progress
  unfolding backward
  fwd_b fd sizes = do r ← recvmmsg u fd sizes true; backward r

  unfoldable pub turn_f : Fd → List ℕ → Loop → M Server (Progress × Bool)
  unfolding fwd_f
  turn_f fd sizes l = if is_ended l.res_f then pure (ended, l.bound) else fwd_f fd sizes l.bound

  unfoldable pub turn_b : Fd → List ℕ → Loop → M Server Progress
  unfolding fwd_b
  turn_b fd sizes l = if is_ended l.res_b then pure ended else fwd_b fd sizes

  -- what each round of the loop does
  unfoldable pub splice_round : Fd → List ℕ → Loop → M Server Loop
  unfolding turn_f turn_b
  splice_round fd sizes l = do
    f ← turn_f fd sizes l
    b ← turn_b fd sizes l
    pure (record { res_f = f.0; res_b = b; bound = f.1 })

  -- the end of each round: whether there is another one
  unfoldable pub rest_of : Loop → M Server Bool
  rest_of l =
      if is_moved l.res_f || is_moved l.res_b
      then udp_yielder u yield
      else if is_idle l.res_f || is_idle l.res_b
      then udp_yielder u waitio
      else pure false

  -- whether the loop has ended within the fuel
  unfoldable pub splice_loop : ℕ → Fd → List ℕ → Loop → M Server Bool
  unfolding splice_round rest_of
  splice_loop zero fd sizes l = pure false
  splice_loop (suc k) fd sizes l = do
    next ← splice_round fd sizes l
    more ← rest_of next
    let rest = splice_loop k fd sizes next
    if more then rest else pure true

  -- `hev_task_mod_fd`, or else `hev_task_add_fd`
  unfoldable pub watch_again : Fd → M Server (Unit {0})
  watch_again fd = do
    ok ← call (λ log. u.mod_fd log fd) (λ _. rewatched fd)
    if ok then pure tt else (do _ ← add_fd os fd; pure tt)

  -- `hev_socks5_udp_splicer`
  unfoldable pub udp_relay : ℕ → ℕ → Fd → M Server Bool
  unfolding watch_again splice_loop
  udp_relay fuel num fd_b = do
    ok ← look u.malloc
    if not ok then fail else do
      fd_a ← udp_fd
      watch_again fd_a
      watch os fd_b
      splice_loop fuel fd_b (replicate num udp_buf_size) loop_start

  -- as the method of the UDP interface, whose result the server does not use
  unfoldable pub splice : ℕ → ℕ → Fd → M Server (Unit {0})
  unfolding udp_relay
  splice fuel num fd_b = do _ ← udp_relay fuel num fd_b; pure tt

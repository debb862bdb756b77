-- ===== src/Udp/Datagrams.antt =====
-- core/src/hev-socks5-udp.c: messages in datagrams (`udp_in_udp`), and the choice between the two
-- ways. A message is three bytes that are reserved, the address, and the data.
use gen_net.Base.{
  ℕ, ◌+◌, Bool, true, false, Option, none, some, List, [], ◌∷◌, ◌++◌, ltb, length, get_or, drop,
  if◌then◌else◌,
}
use gen_net.Addr.{Addr, addr_len, image}
use gen_net.Net.{Fd, Datagram, Parcel, Os, M, pure, get_self, modify, ◌>>=◌, ◌>>◌, connect}
use gen_net.Socks5.{Socks5Type, untyped, tcp, udp_in_tcp, udp_in_udp}
use gen_net.Server.{Server}
use gen_net.Udp.{
  Answer, gave, error, refused, UdpOs, Msg, Packet, Received, received_all, recvmmsg, sendmmsg,
  udp_fd,
}
use gen_net.Udp.Stream.{sendmmsg_tcp, recvmmsg_tcp}

-- the three buffers of one message
abbrev pub wrap : Packet → ℕ → Parcel
wrap p n = record { to = none; content = 0 ∷ 0 ∷ 0 ∷ (image p.dest n ++ p.payload) }

unfoldable pub wrapped : Packet → Option ℕ → Option (List Parcel) → Option (List Parcel)
wrapped p (some n) (some rest) = some (wrap p n ∷ rest)
wrapped p _ _ = none

unfoldable pub wraps : List Packet → Option (List Parcel)
unfolding wrapped
wraps [] = some []
wraps (p ∷ ps) = wrapped p (addr_len p.dest) (wraps ps)

-- behind the address, whose length is `n` bytes
unfoldable pub split_at : Addr → List ℕ → Option ℕ → Option Msg
split_at a content none = none
split_at a content (some n) =
    if ltb (length content) (3 + n)
    then none
    else some (record { addr = some a; payload = drop (3 + n) content })

-- One datagram, or none where the function returns -1. One of less than four bytes makes a message
-- with no address and no data.
unfoldable pub unwrap : List ℕ → Option Msg
unfolding split_at
unwrap content =
    let a : Addr = record { atype = get_or content 3 0; body = drop 4 content } in
    if ltb (length content) 4
    then some (record { addr = none; payload = [] })
    else split_at a content (addr_len a)

unfoldable pub unwrapped : Option Msg → Option (List Msg) → Option (List Msg)
unwrapped (some m) (some rest) = some (m ∷ rest)
unwrapped _ _ = none

unfoldable pub unwraps : List Datagram → Option (List Msg)
unfolding unwrap unwrapped
unwraps [] = some []
unwraps (d ∷ ds) = unwrapped (unwrap d.payload) (unwraps ds)

abbrev pub received_or_error : Option (List Msg) → Answer Received
received_or_error none = error
received_or_error (some msgs) = received_all msgs

-- `self->udp_associated = 1`
unfoldable pub mark_associated : M Server (Unit {0})
mark_associated = modify (λ s. record s { base = record s.base { udp_associated = true } })

module _ (os : Os) (u : UdpOs) where
  unfoldable pub send_wraps : Option (List Parcel) → M Server (Answer ℕ)
  send_wraps none = pure error
  send_wraps (some parcels) = do fd ← udp_fd; sendmmsg u fd parcels

  -- `hev_socks5_udp_sendmmsg_udp`
  unfoldable pub sendmmsg_udp : List Packet → M Server (Answer ℕ)
  unfolding send_wraps wraps
  sendmmsg_udp ps = send_wraps (wraps ps)

  -- the first sender is the one that the socket is connected to
  unfoldable pub known_peer : Fd → Datagram → Bool → M Server Bool
  unfolding mark_associated
  known_peer fd d true = pure true
  known_peer fd d false = do
    ok ← connect os fd d.peer
    if ok then (do mark_associated; pure true) else pure false

  unfoldable pub with_datagrams : Fd → Answer (List Datagram) → M Server (Answer Received)
  unfolding known_peer unwraps
  with_datagrams fd error = pure error
  with_datagrams fd refused = pure refused
  with_datagrams fd (gave []) = pure (received_all [])
  with_datagrams fd (gave (d ∷ ds)) = do
    self ← get_self
    ok ← known_peer fd d self.base.udp_associated
    pure (if ok then received_or_error (unwraps (d ∷ ds)) else error)

  -- `hev_socks5_udp_recvmmsg_udp`
  unfoldable pub recvmmsg_udp : List ℕ → Bool → M Server (Answer Received)
  unfolding with_datagrams
  recvmmsg_udp sizes nonblock = do
    fd ← udp_fd
    r ← recvmmsg u fd sizes nonblock
    with_datagrams fd r

  unfoldable pub send_by : Socks5Type → List Packet → M Server (Answer ℕ)
  unfolding sendmmsg_udp
  send_by udp_in_tcp ps = sendmmsg_tcp u ps
  send_by udp_in_udp ps = sendmmsg_udp ps
  send_by untyped ps = pure error
  send_by tcp ps = pure error

  -- `hev_socks5_udp_sendmmsg`
  unfoldable pub udp_sendmmsg : List Packet → M Server (Answer ℕ)
  unfolding send_by
  udp_sendmmsg ps = do self ← get_self; send_by self.base.type ps

  unfoldable pub recv_by : Socks5Type → List ℕ → Bool → M Server (Answer Received)
  unfolding recvmmsg_udp
  recv_by udp_in_tcp sizes nonblock = recvmmsg_tcp u sizes nonblock
  recv_by udp_in_udp sizes nonblock = recvmmsg_udp sizes nonblock
  recv_by untyped sizes nonblock = pure error
  recv_by tcp sizes nonblock = pure error

  -- `hev_socks5_udp_recvmmsg`
  unfoldable pub udp_recvmmsg : List ℕ → Bool → M Server (Answer Received)
  unfolding recv_by
  udp_recvmmsg sizes nonblock = do self ← get_self; recv_by self.base.type sizes nonblock

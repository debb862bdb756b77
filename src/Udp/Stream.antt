-- ===== src/Udp/Stream.antt =====
-- core/src/hev-socks5-udp.c: messages in a TCP stream (`udp_in_tcp`). A message is a header of three
-- bytes, the length of its data and that of the header with the address, the address, and the data.
use gen_net.Base.{
  ℕ, ◌+◌, ◌-◌, ◌%◌, ◌^◌, Bool, false, ◌&&◌, Option, none, some, List, [], ◌∷◌, ◌++◌, ltb, ◌==◌,
  length, get_or, take, drop, htons, ntohs, if◌then◌else◌,
}
use gen_net.Addr.{addr_len, image}
use gen_net.Net.{Fd, M, pure, ◌>>=◌}
use gen_net.Server.{Server}
use gen_net.Udp.{
  Answer, gave, error, refused, UdpOs, Msg, Packet, Received, received_all, recv_some, sendmsg,
  udp_fd,
}

-- the three buffers of one message, where `n` is the length of the address
abbrev pub frame : Packet → ℕ → List ℕ
frame p n = htons (length p.payload) ++ ((3 + n) % 256 ∷ (image p.dest n ++ p.payload))

unfoldable pub framed : Packet → Option ℕ → Option (List ℕ) → Option (List ℕ)
framed p (some n) (some rest) = some (frame p n ++ rest)
framed p _ _ = none

unfoldable pub frames : List Packet → Option (List ℕ)
unfolding framed
frames [] = some []
frames (p ∷ ps) = framed p (addr_len p.dest) (frames ps)

-- the result for `num` messages
abbrev pub sent_all : ℕ → Answer ℕ → Answer ℕ
sent_all num (gave n) = if n == 0 then error else gave num
sent_all num _ = error

-- What the first five bytes of a message are: all of them, or the result that says why not.
pub data Head : Type 0 where
  in_full : List ℕ → Head
  cut_short : Answer Received → Head

abbrev pub counted : ℕ → List Msg → Answer Received
counted n msgs = gave (record { count = n; msgs = msgs })

-- `if (res != 5)`
abbrev pub as_head : List ℕ → Head
as_head bytes = if length bytes == 5 then in_full bytes else cut_short (counted (length bytes) [])

-- `res +=` the result of the second receive, where `res` was positive
unfoldable pub joined : List ℕ → Answer (List ℕ) → Head
joined bytes (gave rest) = as_head (bytes ++ rest)
joined bytes error = cut_short (counted (length bytes - 1) [])
joined bytes refused =
    if length bytes == 1 then cut_short error else cut_short (counted (length bytes - 2) [])

-- the messages so far are returned, if there are any
abbrev pub so_far : List Msg → Answer Received → Answer Received
so_far [] r = r
so_far (m ∷ ms) r = received_all (m ∷ ms)

-- `msgv[i].len - addrlen`, as a `size_t`
abbrev pub room : ℕ → ℕ → ℕ
room size addrlen = (size + 2 ^ 64 - addrlen) % 2 ^ 64

-- The message in the buffer: two bytes of the header, and those that followed. The address ends
-- where it says itself, so it is given with all bytes behind it.
abbrev pub unframe : List ℕ → ℕ → List ℕ → Msg
unframe head addrlen bytes = record {
  addr = some (record { atype = get_or head 3 0; body = get_or head 4 0 ∷ bytes });
  payload = drop (addrlen - 2) bytes;
}

module _ (u : UdpOs) where
  unfoldable pub send_frames : ℕ → Option (List ℕ) → M Server (Answer ℕ)
  send_frames num none = pure error
  send_frames num (some bytes) = do fd ← udp_fd; r ← sendmsg u fd bytes; pure (sent_all num r)

  -- `hev_socks5_udp_sendmmsg_tcp`
  unfoldable pub sendmmsg_tcp : List Packet → M Server (Answer ℕ)
  unfolding send_frames frames
  sendmmsg_tcp ps = send_frames (length ps) (frames ps)

  unfoldable pub complete : Fd → Answer (List ℕ) → M Server Head
  unfolding joined
  complete fd error = pure (cut_short error)
  complete fd refused = pure (cut_short refused)
  complete fd (gave bytes) =
      if ltb 0 (length bytes) && ltb (length bytes) 5
      then (do rest ← recv_some u fd (5 - length bytes) false; pure (joined bytes rest))
      else pure (as_head bytes)

  unfoldable pub recv_head : Fd → Bool → M Server Head
  unfolding complete
  recv_head fd nonblock = do first ← recv_some u fd 5 nonblock; complete fd first

  -- behind the body of a message, with the rest of the loop
  unfoldable pub with_body :
      List ℕ
      → ℕ
      → ℕ
      → List Msg
      → (List Msg → M Server (Answer Received))
      → Answer (List ℕ)
      → M Server (Answer Received)
  with_body head addrlen n got next error = pure error
  with_body head addrlen n got next refused = pure refused
  with_body head addrlen n got next (gave bytes) =
      if length bytes == n
      then next (got ++ unframe head addrlen bytes ∷ [])
      else pure (counted (length bytes) got)

  unfoldable pub with_head :
      Fd
      → ℕ
      → List Msg
      → (List Msg → M Server (Answer Received))
      → Head
      → M Server (Answer Received)
  unfolding with_body
  with_head fd size got next (cut_short r) = pure (so_far got r)
  with_head fd size got next (in_full head) =
      let hdrlen = get_or head 2 0 in
      let addrlen = hdrlen - 3 in
      let datlen = ntohs (take 2 head) in
      let n = addrlen - 2 + datlen in
      if ltb hdrlen 5
      then pure error
      else if ltb (room size addrlen) datlen
      then pure error
      else (do r ← recv_some u fd n false; with_body head addrlen n got next r)

  -- the loop, over the sizes of the buffers that are left
  unfoldable pub recv_frames : Fd → Bool → List ℕ → List Msg → M Server (Answer Received)
  unfolding recv_head with_head
  recv_frames fd nonblock [] got = pure (received_all got)
  recv_frames fd nonblock (size ∷ sizes) got = do
    head ← recv_head fd nonblock
    with_head fd size got (λ msgs. recv_frames fd nonblock sizes msgs) head

  -- `hev_socks5_udp_recvmmsg_tcp`
  unfoldable pub recvmmsg_tcp : List ℕ → Bool → M Server (Answer Received)
  unfolding recv_frames
  recvmmsg_tcp sizes nonblock = do fd ← udp_fd; recv_frames fd nonblock sizes []

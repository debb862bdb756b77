-- ===== src/Client/Exchange.antt =====
-- core/src/hev-socks5-client.c and hev-socks5-server.c: one side as the system of the other side.
pub mod Response
pub mod Credentials
use gen_net.Base.{
  ℕ, suc, ◌+◌, ◌-◌, ◌%◌, ◌<◌, ◌≤◌, ◌≡◌, ◌≢◌, refl, sym, ap, subst, ◌∙◌, ◌⊎◌, inl, inr, Option, none,
  some, List, [], ◌∷◌, ◌++◌, append_assoc, append-nil, arith, length, get_or, take, drop,
  length-append, take_all, take-append_length, drop-append_length, drop-drop, ◌==◌, ==_iff,
  if◌then◌else◌, not, ◌||◌, Bool, true, false, Bool-cases,
}
use gen_net.Addr.{Addr, SockAddr, image, addr_from_sockaddr6}
use gen_net.Addr.Codec.{IsSockAddr, addr_len-from}
use gen_net.Net.{
  Fd, sent, received, Log, Os, State, M, pure, fail, get_self, call, ◌>>=◌, recv, send,
}
use gen_net.Net.Runs.{>>=-at}
use gen_net.Socks5.{read, whole}
use gen_net.Server.{Server, look_up, read_auth_user, checked}
use gen_net.Server.Request.{write_response}
use gen_net.Client.{
  Client, ClientClass, credentials, creds_message, write_creds, write_auth_creds, written,
  response_rest, response, read_response,
}
use gen_net.Udp.Frames.{consumed}

-- the bytes that were sent, in order
abbrev pub stream_of : Log → List ℕ
stream_of [] = []
stream_of (sent fd bytes ok ∷ log) = stream_of log ++ bytes
stream_of (_ ∷ log) = stream_of log

-- a system that answers each receive from the stream, in order, with all the bytes it asks for, if
-- there are so many
abbrev pub fed : Os → List ℕ → Os
fed os stream = record os { recv = λ log fd n. some (take n (drop (consumed log) stream)) }

-- an object before anything has happened
abbrev pub fresh : {S : Type 0} → S → State S
fresh self = record { self = self; log = [] }

module _ {S : Type 0} (os : Os) (stream : List ℕ) where
  abbrev pub heard : Fd → ℕ → List ℕ → State S → State S
  heard fd n bytes s = record s { log = received fd n (some bytes) ∷ s.log }

  -- A read takes its bytes off the stream.
  pub read-takes :
      (fd : Fd) (n : ℕ) (s : State S) (xs ys : List ℕ)
      → length xs ≡ n
      → drop (consumed s.log) stream ≡ xs ++ ys
      → (read (fed os stream) fd n s ≡ (some xs, heard fd n xs s))
        × (drop (consumed (heard fd n xs s).log) stream ≡ ys)
  unfolding read whole recv call pure fail ◌>>=◌
  read-takes fd n s xs ys l h =
      let e : take n (drop (consumed s.log) stream) ≡ xs =
        rw h (take-append_length xs ys n (sym l)) in
      (
        rw e (ground arith),
        sym (drop-drop (length xs) (consumed s.log) stream)
            ∙ rw h (drop-append_length xs ys _ refl),
      )

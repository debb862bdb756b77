-- ===== src/Udp/Frames.antt =====
-- core/src/hev-socks5-udp.c: messages that are sent into a TCP stream and received from it, where the
-- first receive of a message may get a part of the bytes that it asks for.
pub mod RoundTrip
use gen_net.Base.{
  ℕ, zero, suc, ◌+◌, ◌-◌, ◌%◌, ◌^◌, ◌≤◌, ◌<◌, ◌≡◌, refl, sym, ap, subst, ◌∙◌, ◌⊎◌, inl, inr, Bool,
  true, false, Option, none, some, List, [], ◌∷◌, ◌++◌, append_assoc, append-nil, arith, ltb, ◌==◌,
  if◌then◌else◌, length, get_or, take, drop, htons, ntohs, ntohs-htons, length-htons, length-append,
  length-take, length-drop, take-append_length, drop-append_length, take-append_le, drop-append_le,
  take-append-drop, take_all, drop-drop, Bool-cases,
}
use gen_net.Addr.{Addr, addr_len, image}
use gen_net.Net.{Fd, Event, received, Log, State, M, pure, get_self, call, look, ◌>>=◌}
use gen_net.Net.Runs.{>>=-at}
use gen_net.Server.{Server}
use gen_net.Udp.{
  Answer, gave, UdpOs, Msg, Packet, Received, received_all, recv_some, task_io, wait, udp_fd,
}
use gen_net.Udp.Stream.{
  Head, in_full, frame, framed, frames, unframe, room, joined, complete, recv_head, with_body,
  with_head, recv_frames, recvmmsg_tcp,
}

-- how many bytes were received
abbrev pub consumed : Log → ℕ
consumed [] = 0
consumed (received fd n (some bytes) ∷ log) = consumed log + length bytes
consumed (_ ∷ log) = consumed log

abbrev pub portion : Bool → ℕ → ℕ → ℕ
portion true k n = if ltb k n then suc k else n
portion false k n = n

-- A system that answers each receive from the stream, in order: one that waits for all bytes with all
-- of them, and another with at least one, as `piece` says.
abbrev pub feeding : UdpOs → List ℕ → (Log → ℕ) → UdpOs
feeding u stream piece = record u {
  waits = λ log. 0;
  recv = λ log fd n nonblock.
      gave (take (portion nonblock (piece log) n) (drop (consumed log) stream));
}

-- A packet that a buffer of `size` bytes takes, whose address is `n` bytes long.
pub record Fits (size n : ℕ) (p : Packet) : Type 0 where
  pub known : addr_len p.dest ≡ some n
  pub present : n ≤ length p.dest.body + 1
  pub header : n < 253
  pub short : length p.payload < 65536
  pub space : n + length p.payload ≤ size
  pub word : size < 2 ^ 64

abbrev pub AllFit : List ℕ → List Packet → Type 0
AllFit [] [] = Unit
AllFit (size ∷ sizes) (p ∷ ps) = ((n : ℕ) × Fits size n p) × AllFit sizes ps
AllFit _ _ = ⊥

-- The message has the address of the packet, to its last byte, and its data.
pub record Carries (p : Packet) (m : Msg) : Type 0 where
  pub addr : Addr
  pub length_of : ℕ
  pub given : m.addr ≡ some addr
  pub long : addr_len addr ≡ some length_of
  pub sent_long : addr_len p.dest ≡ some length_of
  pub same : image addr length_of ≡ image p.dest length_of
  pub payload : m.payload ≡ p.payload

abbrev pub AllCarry : List Packet → List Msg → Type 0
AllCarry [] [] = Unit
AllCarry (p ∷ ps) (m ∷ ms) = Carries p m × AllCarry ps ms
AllCarry _ _ = ⊥

portion_bounds : (b : Bool) (k n : ℕ) → 0 < n → (0 < portion b k n) × (portion b k n ≤ n)
portion_bounds true k n h = ground arith
portion_bounds false k n h = ground arith

pub addr_len-ge : (a : Addr) (n : ℕ) → addr_len a ≡ some n → 4 ≤ n
unfolding addr_len
addr_len-ge a n h = ground arith

module _ (u : UdpOs) (stream : List ℕ) (piece : Log → ℕ) where
  abbrev pub fed : UdpOs
  fed = feeding u stream piece

  -- the bytes of the stream that are left
  abbrev pub Left : List ℕ → State Server → Type 0
  Left bytes s = drop (consumed s.log) stream ≡ bytes

  abbrev pub heard : Fd → ℕ → List ℕ → State Server → State Server
  heard fd n bytes s = record s { log = received fd n (some bytes) ∷ s.log }

  recv_some-at :
      (fd : Fd) (n : ℕ) (b : Bool) (s : State Server)
      → recv_some fed fd n b s ≡ (
        some (gave (take (portion b (piece s.log) n) (drop (consumed s.log) stream))),
        heard fd n (take (portion b (piece s.log) n) (drop (consumed s.log) stream)) s,
      )
  unfolding recv_some task_io wait pure call look ◌>>=◌
  recv_some-at fd n b s = refl

  -- A receive takes its bytes off the stream.
  pub recv_some-Left :
      (fd : Fd) (n : ℕ) (b : Bool) (s : State Server) (xs ys : List ℕ)
      → length xs ≡ portion b (piece s.log) n
      → Left (xs ++ ys) s
      → (recv_some fed fd n b s ≡ (some (gave xs), heard fd n xs s)) × Left ys (heard fd n xs s)
  recv_some-Left fd n b s xs ys l h =
      let e : take (portion b (piece s.log) n) (drop (consumed s.log) stream) ≡ xs =
        rw h (take-append_length xs ys _ (sym l)) in
      (
        recv_some-at fd n b s ∙ rw e refl,
        sym (drop-drop (length xs) (consumed s.log) stream)
            ∙ rw h (drop-append_length xs ys _ refl),
      )

  -- The header is found in_full, in one piece or in two.
  abbrev pub Heads : Fd → Bool → State Server → List ℕ → List ℕ → Type 0
  Heads fd b s xs ys =
      (t : State Server) × (recv_head fed fd b s ≡ (some (in_full xs), t))
      × Left ys t
      × (t.self ≡ s.self)

  one_piece :
      (fd : Fd) (b : Bool) (s : State Server) (xs ys : List ℕ)
      → length xs ≡ 5
      → portion b (piece s.log) 5 ≡ 5
      → Left (xs ++ ys) s
      → Heads fd b s xs ys
  unfolding recv_head complete pure
  one_piece fd b s xs ys l k h =
      let (e, left) = recv_some-Left fd 5 b s xs ys (l ∙ sym k) h in
      let t = heard fd 5 xs s in
      let end : complete fed fd (gave xs) t ≡ (some (in_full xs), t) = rw l refl in
      (t, >>=-at (recv_some fed fd 5 b) (complete fed fd) e ∙ end, left, refl)

  two_pieces :
      (fd : Fd) (b : Bool) (s : State Server) (xs ys : List ℕ)
      → length xs ≡ 5
      → 0 < portion b (piece s.log) 5
      → portion b (piece s.log) 5 < 5
      → Left (xs ++ ys) s
      → Heads fd b s xs ys
  unfolding recv_head complete joined pure
  two_pieces fd b s xs ys l pos_k lt h =
      let k = portion b (piece s.log) 5 in
      let first = take k xs in
      let others = drop k xs in
      let lf : length first ≡ k = omega (arith, length-take k xs) in
      let lo : length others ≡ 5 - k = omega (arith, length-drop k xs) in
      let split : first ++ (others ++ ys) ≡ xs ++ ys =
        sym (append_assoc first others ys) ∙ ap (λ r. r ++ ys) (take-append-drop k xs) in
      let (e, left) = recv_some-Left fd 5 b s first (others ++ ys) lf (h ∙ sym split) in
      let t = heard fd 5 first s in
      let m = 5 - length first in
      let (e', left') = recv_some-Left fd m false t others ys (omega arith) left in
      let t' = heard fd m others t in
      let c1 : ltb 0 (length first) ≡ true = ground arith in
      let c2 : ltb (length first) 5 ≡ true = ground arith in
      let all : length (first ++ others) ≡ 5 = rw (take-append-drop k xs) l in
      let end : complete fed fd (gave first) t ≡ (some (in_full xs), t') =
        rw (c1, c2)
          (>>=-at (recv_some fed fd m false) (λ r. pure (joined first r)) e'
            ∙ rw all (rw (take-append-drop k xs) refl)) in
      (t', >>=-at (recv_some fed fd 5 b) (complete fed fd) e ∙ end, left', refl)

  pub recv_head-Left :
      (fd : Fd) (b : Bool) (s : State Server) (xs ys : List ℕ)
      → length xs ≡ 5
      → Left (xs ++ ys) s
      → Heads fd b s xs ys
  recv_head-Left fd b s xs ys l h =
      let (low, high) = portion_bounds b (piece s.log) 5 (omega arith) in
      elim (Bool-cases (portion b (piece s.log) 5 == 5)) [
        | inl e ↦ one_piece fd b s xs ys l (ground arith) h
        | inr e ↦ two_pieces fd b s xs ys l low (ground arith) h
      ]

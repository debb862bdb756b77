-- ===== src/Udp/Truncated.antt =====
-- core/src/hev-socks5-udp.c: a stream that fails in the middle of a header.
use gen_net.Base.{
  ℕ, suc, ◌-◌, ◌<◌, ◌≡◌, refl, ap, ◌∙◌, inl, Bool, true, false, none, some, List, [], ◌∷◌, arith,
  ltb, ◌==◌, length,
}
use gen_net.Addr.{SockAddr}
use gen_net.Net.{
  Fd, received, crashed, Log, Os, State, M, pure, fail, attempt, get_self, call, look, ◌>>=◌, note,
}
use gen_net.Net.Runs.{>>=-at}
use gen_net.Net.Triples.{Has}
use gen_net.Socks5.{Socks5Type, udp_in_tcp}
use gen_net.Server.{Server}
use gen_net.Server.Run.{get_fd}
use gen_net.Udp.{Answer, gave, error, UdpOs, bytes_of, recv_some, task_io, wait, udp_fd}
use gen_net.Udp.Stream.{
  cut_short, counted, joined, complete, recv_head, with_head, recv_frames, recvmmsg_tcp,
}
use gen_net.Udp.Datagrams.{udp_recvmmsg, recv_by}
use gen_net.Udp.Splicer.{ended, addressed, route, forward, fwd_f}

module _ (os : Os) (u : UdpOs) (binder : Fd → SockAddr → M Server (Unit {0})) (s : State Server)
    (calm : (log : Log) → u.waits log ≡ 0) where
  abbrev fd : Fd
  fd = get_fd s.self

  abbrev heard : ℕ → Answer (List ℕ) → Log → State Server
  heard n a log = record s { log = received fd n (bytes_of a) ∷ log }

  recv_some-at :
      (n : ℕ) (b : Bool) (log : Log)
      → recv_some u fd n b (record s { log = log })
        ≡ (some (u.recv log fd n b), heard n (u.recv log fd n b) log)
  unfolding recv_some task_io wait pure call look ◌>>=◌
  recv_some-at n b log = rw (calm log) refl

  by_stream :
      (k : Socks5Type) (sizes : List ℕ)
      → k ≡ udp_in_tcp
      → recv_by os u k sizes true ≡ recvmmsg_tcp u sizes true
  unfolding recv_by
  by_stream k sizes e = rw e refl

  -- a count without messages
  forward_lost :
      (bound : Bool) (k j : ℕ)
      → k ≡ suc j
      → (t : State Server)
      → forward os u binder fd bound (counted k []) t
        ≡ (some (ended, bound), record t { log = crashed ∷ t.log })
  unfolding forward addressed route note call attempt fail pure ◌>>=◌
  forward_lost bound k j e t =
      let zero_test : (suc j == 0) ≡ false = ground arith in rw (e, zero_test) refl

  module _ (bytes : List ℕ) (size : ℕ) (sizes : List ℕ) (bound : Bool) (many : 1 < length bytes)
      (few : length bytes < 5) (first : u.recv s.log fd 5 true ≡ gave bytes)
      (second : u.recv (received fd 5 (some bytes) ∷ s.log) fd (5 - length bytes) false
        ≡ error) where
    abbrev log1 : Log
    log1 = received fd 5 (some bytes) ∷ s.log

    abbrev log2 : Log
    log2 = received fd (5 - length bytes) none ∷ log1

    head_fails :
        recv_head u fd true s
        ≡ (some (cut_short (counted (length bytes - 1) [])), record s { log = log2 })
    unfolding recv_head complete joined pure
    head_fails =
        let c1 : ltb 0 (length bytes) ≡ true = ground arith in
        let c2 : ltb (length bytes) 5 ≡ true = ground arith in
        let e1 : recv_some u fd 5 true s ≡ (some (gave bytes), record s { log = log1 }) =
          recv_some-at 5 true s.log ∙ rw first refl in
        let e2 : recv_some u fd (5 - length bytes) false (record s { log = log1 })
            ≡ (some error, record s { log = log2 }) =
          recv_some-at (5 - length bytes) false log1 ∙ rw second refl in
        >>=-at (recv_some u fd 5 true) (complete u fd) e1
        ∙ rw (c1, c2)
            (>>=-at (recv_some u fd (5 - length bytes) false) (λ r. pure (joined bytes r)) e2)

    -- one less than the bytes of the header that arrived
    lost_messages :
        recvmmsg_tcp u (size ∷ sizes) true s
        ≡ (some (counted (length bytes - 1) []), record s { log = log2 })
    unfolding recvmmsg_tcp recv_frames with_head udp_fd get_self pure ◌>>=◌
    lost_messages =
        let e : udp_fd s ≡ (some fd, s) = refl in
        >>=-at udp_fd (λ n. recv_frames u n true (size ∷ sizes) []) e
        ∙ >>=-at (recv_head u fd true)
            (λ head. with_head u fd size [] (λ msgs. recv_frames u fd true sizes msgs) head)
            head_fails

    -- If a connection fails behind two to four bytes of a header, the result is a count of messages
    -- though there is none, and the next step reads an address that was never set.
    pub fwd_f-Crashes :
        s.self.base.type ≡ udp_in_tcp
        → let (r, t) = fwd_f os u binder fd (size ∷ sizes) bound s in
          (r ≡ some (ended, bound)) × Has crashed t.log
    unfolding fwd_f udp_recvmmsg get_self
    fwd_f-Crashes type =
        let e : get_self s ≡ (some s.self, s) = refl in
        let received : udp_recvmmsg os u (size ∷ sizes) true s
            ≡ (some (counted (length bytes - 1) []), record s { log = log2 }) =
          >>=-at get_self (λ self. recv_by os u self.base.type (size ∷ sizes) true) e
          ∙ ap (λ f. f s) (by_stream s.self.base.type (size ∷ sizes) type)
          ∙ lost_messages in
        let (j, ej) = positive in
        let all =
          >>=-at (udp_recvmmsg os u (size ∷ sizes) true) (λ r. forward os u binder fd bound r)
            received
          ∙ forward_lost bound (length bytes - 1) j ej (record s { log = log2 }) in
        rw all (refl, inl refl)
      where
        positive : (j : ℕ) × (length bytes - 1 ≡ suc j)
        positive = (length bytes - 2, omega arith)

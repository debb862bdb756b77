-- ===== src/Udp/Frames/RoundTrip.antt =====
-- core/src/hev-socks5-udp.c: all messages of a stream.
use gen_net.Base.{
  ℕ, zero, suc, ◌+◌, ◌-◌, ◌%◌, ◌^◌, ◌≤◌, ◌<◌, ◌≡◌, refl, ap, subst, ◌∙◌, Bool, true, false, Option,
  none, some, List, [], ◌∷◌, ◌++◌, append_assoc, append-nil, arith, ltb, ◌==◌, length, get_or, take,
  drop, htons, ntohs, ntohs-htons, length-append, length-take, take-append_length,
  drop-append_length,
}
use gen_net.Addr.{Addr, addr_len}
use gen_net.Net.{Fd, Log, State, M, pure, get_self, ◌>>=◌}
use gen_net.Net.Runs.{>>=-at}
use gen_net.Server.{Server}
use gen_net.Server.Run.{get_fd}
use gen_net.Udp.{Answer, UdpOs, Msg, Packet, Received, received_all, recv_some, udp_fd}
use gen_net.Udp.Stream.{
  in_full, frame, framed, frames, unframe, room, recv_head, with_body, with_head, recv_frames,
  recvmmsg_tcp,
}
use gen_net.Udp.Frames.{
  consumed, feeding, Fits, AllFit, Carries, AllCarry, addr_len-ge, Left, heard, recv_some-Left,
  recv_head-Left,
}

-- the first five bytes of a message, and those behind them
abbrev head_of : Packet → ℕ → ℕ → List ℕ
head_of p n b = htons (length p.payload) ++ ((3 + n) % 256 ∷ p.dest.atype ∷ b ∷ [])

abbrev tail_of : Packet → ℕ → List ℕ → List ℕ
tail_of p m rest = take m rest ++ p.payload

frame-split :
    (p : Packet) (m b : ℕ) (rest more : List ℕ)
    → p.dest.body ≡ b ∷ rest
    → frame p (suc (suc m)) ++ more ≡ head_of p (suc (suc m)) b ++ (tail_of p m rest ++ more)
unfolding htons
frame-split p m b rest more e = rw e refl

module _ (u : UdpOs) (stream : List ℕ) (piece : Log → ℕ) where
  abbrev system : UdpOs
  system = feeding u stream piece

  with_head-Left :
      (fd : Fd) (size n len : ℕ) (got : List Msg) (next : List Msg → M Server (Answer Received))
      (h tail ys : List ℕ) (s : State Server)
      → get_or h 2 0 ≡ 3 + n
      → 4 ≤ n
      → ntohs (take 2 h) ≡ len
      → n + len ≤ size
      → size < 2 ^ 64
      → length tail ≡ n - 2 + len
      → Left u stream piece (tail ++ ys) s
      → (t : State Server) × (with_head system fd size got next (in_full h) s
          ≡ next (got ++ unframe h n tail ∷ []) t)
        × Left u stream piece ys t
        × (t.self ≡ s.self)
  unfolding with_head with_body
  with_head-Left fd size n len got next h tail ys s eh four el fits word lt left =
      let (e, left') = recv_some-Left u stream piece fd (n - 2 + len) false s tail ys lt left in
      let t = heard u stream piece fd (n - 2 + len) tail s in
      let e3 : 3 + n - 3 ≡ n = omega arith in
      let t1 : ltb (3 + n) 5 ≡ false = ground arith in
      let r : len ≤ room size n = omega arith in
      let t2 : ltb (room size n) len ≡ false = ground arith in
      let t3 : (length tail == n - 2 + len) ≡ true = ground arith in
      (
        t,
        rw (eh, el, e3, t1, t2)
            (>>=-at (recv_some system fd (n - 2 + len) false)
                (with_body system h n (n - 2 + len) got next) e
              ∙ rw t3 refl),
        left',
        refl,
      )

-- the fields of the header that was sent
head-fields :
    (p : Packet) (n b : ℕ)
    → n < 253
    → length p.payload < 65536
    → (get_or (head_of p n b) 2 0 ≡ 3 + n)
      × (ntohs (take 2 (head_of p n b)) ≡ length p.payload)
      × (length (head_of p n b) ≡ 5)
unfolding htons
head-fields p n b h k = (omega arith, ntohs-htons (length p.payload) k, refl)

pub addr_len-body :
    (a : Addr) (b : ℕ) (xs ys : List ℕ)
    → a.body ≡ b ∷ xs
    → addr_len (record { atype = a.atype; body = b ∷ ys }) ≡ addr_len a
unfolding addr_len
addr_len-body a b xs ys e = rw e refl

unframe-Carries :
    (p : Packet) (m b : ℕ) (rest : List ℕ)
    → p.dest.body ≡ b ∷ rest
    → addr_len p.dest ≡ some (suc (suc m))
    → m ≤ length rest
    → Carries p (unframe (head_of p (suc (suc m)) b) (suc (suc m)) (tail_of p m rest))
unfolding htons
unframe-Carries p m b rest e known h =
    let l : m ≡ length (take m rest) = omega (arith, length-take m rest) in
    let cut : take m (take m rest ++ p.payload) ≡ take m rest =
      take-append_length (take m rest) p.payload m l in
    record {
      addr = record { atype = p.dest.atype; body = b ∷ tail_of p m rest };
      length_of = suc (suc m);
      given = refl;
      long = addr_len-body p.dest b rest (tail_of p m rest) e ∙ known;
      sent_long = known;
      same = rw e (ap (λ r. p.dest.atype ∷ b ∷ r) cut);
      payload = drop-append_length (take m rest) p.payload (suc (suc m) - 2) (omega (arith, l));
    }

framed-some :
    (p : Packet) (n : ℕ) (o : Option (List ℕ)) (bytes : List ℕ)
    → framed p (some n) o ≡ some bytes
    → (rest : List ℕ) × (o ≡ some rest) × (bytes ≡ frame p n ++ rest)
unfolding framed
framed-some p n none bytes h = absurd (cc)
framed-some p n (some rest) bytes h = (rest, refl, (cc))

frames-cons :
    (p : Packet) (ps : List Packet) (n : ℕ) (bytes : List ℕ)
    → addr_len p.dest ≡ some n
    → frames (p ∷ ps) ≡ some bytes
    → (rest : List ℕ) × (frames ps ≡ some rest) × (bytes ≡ frame p n ++ rest)
unfolding frames
frames-cons p ps n bytes known h =
    framed-some p n (frames ps) bytes (subst (λ o. framed p o (frames ps) ≡ some bytes) known h)

module _ (u : UdpOs) (stream : List ℕ) (piece : Log → ℕ) (fd : Fd) (nonblock : Bool) where
  -- what is received for the packets, behind the messages so far
  abbrev Arrives : List ℕ → List Packet → List Msg → State Server → Type 0
  Arrives sizes ps got s =
      (msgs : List Msg) × (t : State Server) × (recv_frames (feeding u stream piece) fd nonblock
          sizes got s
        ≡ (some (received_all (got ++ msgs)), t))
      × AllCarry ps msgs

  -- one message, of an address that has its first byte
  Arrives-next :
      (size : ℕ) (sizes : List ℕ) (p : Packet) (ps : List Packet) (got : List Msg) (m b : ℕ)
      (body more : List ℕ) (s : State Server)
      → Fits size (suc (suc m)) p
      → p.dest.body ≡ b ∷ body
      → Left u stream piece (frame p (suc (suc m)) ++ more) s
      → ((got' : List Msg) (t : State Server)
          → Left u stream piece more t
          → Arrives sizes ps got' t)
      → Arrives (size ∷ sizes) (p ∷ ps) got s
  unfolding recv_frames
  Arrives-next size sizes p ps got m b body more s f e left later =
      let n = suc (suc m) in
      let head = head_of p n b in
      let tail = tail_of p m body in
      let (fh, fl, five) = head-fields p n b f.header f.short in
      let split = frame-split p m b body more e in
      let (t, he, hleft, hs) =
        recv_head-Left u stream piece fd nonblock s head (tail ++ more) five (left ∙ split) in
      let next = λ (msgs : List Msg). recv_frames (feeding u stream piece) fd nonblock sizes msgs in
      let lb : length p.dest.body ≡ suc (length body) = rw e refl in
      let lm : m ≤ length body = omega (arith, lb, f.present) in
      let lt : length tail ≡ n - 2 + length p.payload =
        omega (arith, length-append (take m body) p.payload, length-take m body) in
      let (t', ee, left', hs') =
        with_head-Left u stream piece fd size n (length p.payload) got next head tail more t fh
          (addr_len-ge p.dest n f.known) fl f.space f.word lt hleft in
      let msg = unframe head n tail in
      let (msgs, t'', last, carried) = later (got ++ msg ∷ []) t' left' in
      (
        msg ∷ msgs,
        t'',
        >>=-at (recv_head (feeding u stream piece) fd nonblock)
              (with_head (feeding u stream piece) fd size got next) he
            ∙ ee
            ∙ last
            ∙ ap (λ r. (some (received_all r), t'')) (append_assoc got (msg ∷ []) msgs),
        (unframe-Carries p m b body e f.known lm, carried),
      )

  Arrives-first :
      (size : ℕ) (sizes : List ℕ) (p : Packet) (ps : List Packet) (got : List Msg) (n : ℕ)
      (body more : List ℕ) (s : State Server)
      → Fits size n p
      → p.dest.body ≡ body
      → Left u stream piece (frame p n ++ more) s
      → ((got' : List Msg) (t : State Server)
          → Left u stream piece more t
          → Arrives sizes ps got' t)
      → Arrives (size ∷ sizes) (p ∷ ps) got s
  Arrives-first size sizes p ps got n [] more s f e left later =
      absurd (omega (arith, f.present, ap length e, addr_len-ge p.dest n f.known))
  Arrives-first size sizes p ps got zero (b ∷ body) more s f e left later =
      absurd (omega (arith, addr_len-ge p.dest zero f.known))
  Arrives-first size sizes p ps got (suc zero) (b ∷ body) more s f e left later =
      absurd (omega (arith, addr_len-ge p.dest (suc zero) f.known))
  Arrives-first size sizes p ps got (suc (suc m)) (b ∷ body) more s f e left later =
      Arrives-next size sizes p ps got m b body more s f e left later

  Arrives-all :
      (sizes : List ℕ) (ps : List Packet) (got : List Msg) (bytes more : List ℕ) (s : State Server)
      → AllFit sizes ps
      → frames ps ≡ some bytes
      → Left u stream piece (bytes ++ more) s
      → Arrives sizes ps got s
  unfolding recv_frames pure
  Arrives-all [] [] got bytes more s fit h left = ([], s, rw append-nil refl, tt)
  Arrives-all [] (p ∷ ps) got bytes more s fit h left = absurd fit
  Arrives-all (size ∷ sizes) [] got bytes more s fit h left = absurd fit
  Arrives-all (size ∷ sizes) (p ∷ ps) got bytes more s ((n, f), fits) h left =
      let (rest, hr, e) = frames-cons p ps n bytes f.known h in
      Arrives-first size sizes p ps got n p.dest.body (rest ++ more) s f refl
        (left ∙ rw e (append_assoc (frame p n) rest more))
        λ got' t left'. Arrives-all sizes ps got' rest more t fits hr left'

-- What is sent for any number of packets and received by buffers that they fit gives as many
-- messages, with the same addresses and the same data, in the same order, however the stream cuts
-- the headers into pieces and whatever follows in it.
pub recvmmsg_tcp-AllCarry :
    (u : UdpOs) (stream : List ℕ) (piece : Log → ℕ) (nonblock : Bool) (sizes : List ℕ)
    (ps : List Packet) (bytes more : List ℕ) (s : State Server)
    → AllFit sizes ps
    → frames ps ≡ some bytes
    → drop (consumed s.log) stream ≡ bytes ++ more
    → (msgs : List Msg) × ((recvmmsg_tcp (feeding u stream piece) sizes nonblock s).0
        ≡ some (received_all msgs))
      × AllCarry ps msgs
unfolding recvmmsg_tcp udp_fd get_self pure ◌>>=◌
recvmmsg_tcp-AllCarry u stream piece nonblock sizes ps bytes more s fit h left =
    let (msgs, t, e, carried) =
      Arrives-all u stream piece (get_fd s.self) nonblock sizes ps [] bytes more s fit h left in
    (msgs, ap (λ r. r.0) e, carried)

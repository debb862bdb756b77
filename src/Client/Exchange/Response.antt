-- ===== src/Client/Exchange/Response.antt =====
-- core/src/hev-socks5-client.c: reading the response that hev-socks5-server.c writes.
use gen_net.Base.{
  ℕ, ◌-◌, ◌≡◌, ◌≢◌, refl, sym, ap, ◌∙◌, Option, none, some, List, [], ◌∷◌, append-nil, arith,
  length, get_or,
}
use gen_net.Addr.{Addr, SockAddr, image, addr_from_sockaddr6}
use gen_net.Addr.Codec.{IsSockAddr, addr_len-from}
use gen_net.Net.{Os, State, pure, fail, get_self, call, ◌>>=◌, send}
use gen_net.Net.Runs.{>>=-at}
use gen_net.Socks5.{read}
use gen_net.Server.{Server, checked}
use gen_net.Server.Request.{write_response}
use gen_net.Client.{Client, ClientClass, response_rest, response, read_response}
use gen_net.Client.Wire.{response_rest_lem}
use gen_net.Udp.Frames.{consumed}
use gen_net.Client.Exchange.{stream_of, fed, fresh, heard, read-takes}

-- `write_response` sends this, whatever the system answers.
response_stream :
    (os : Os) (rep : ℕ) (addr : SockAddr) (s : Server)
    → let (a, n) = addr_from_sockaddr6 addr in
      stream_of (write_response os rep addr (fresh s)).1.log ≡ 5 ∷ rep ∷ 0 ∷ image a n
unfolding write_response send call checked get_self pure fail ◌>>=◌
response_stream os rep addr s = ground arith

-- The client has read the whole message and hands over the address that the server wrote.
abbrev pub HandsOver :
    ClientClass → Addr → List ℕ → Client → Option (Unit {0}) × State Client → Type 0
HandsOver klass a bytes c r =
    (t : State Client) × (t.self ≡ c)
    × (consumed t.log ≡ length bytes)
    × (r ≡ klass.set_upstream_addr a t)

self-at : {S : Type 0} (s : State S) → get_self s ≡ (some s.self, s)
unfolding get_self
self-at s = refl

module _ (os : Os) (klass : ClientClass) (c : Client) where
  response-at :
      (stream head : List ℕ) (n : ℕ) (body : List ℕ) (s : State Client)
      → read (fed os stream) s.self.base.fd n s
        ≡ (some body, heard os stream s.self.base.fd n body s)
      → response (fed os stream) klass head (some n) s
        ≡ klass.set_upstream_addr
            (record { atype = get_or head 3 0; body = body })
            (heard os stream s.self.base.fd n body s)
  unfolding response
  response-at stream head n body s h =
      >>=-at get_self _ (self-at s) ∙ >>=-at (read (fed os stream) s.self.base.fd n) _ h

  response-HandsOver :
      (t : ℕ) (body : List ℕ)
      → response_rest t ≡ some (length body)
      → let bytes = 5 ∷ 0 ∷ 0 ∷ t ∷ body in
        HandsOver klass
          (record { atype = t; body = body })
          bytes
          c
          (read_response (fed os bytes) klass (fresh c))
  unfolding read_response get_self ◌>>=◌
  response-HandsOver t body rest =
      let bytes = 5 ∷ 0 ∷ 0 ∷ t ∷ body in
      let head = 5 ∷ 0 ∷ 0 ∷ t ∷ [] in
      let (e, left) = read-takes os bytes c.base.fd 4 (fresh c) head body refl refl in
      let s1 = heard os bytes c.base.fd 4 head (fresh c) in
      let (e', left') =
        read-takes os bytes c.base.fd (length body) s1 body [] refl
          (left ∙ sym (append-nil body)) in
      (
        heard os bytes c.base.fd (length body) body s1,
        refl,
        omega arith,
        >>=-at (read (fed os bytes) c.base.fd 4) _ e
            ∙ ap (λ o. response (fed os bytes) klass head o s1) rest
            ∙ response-at bytes head (length body) body s1 e',
      )

  refused-none :
      (rep t : ℕ) (body : List ℕ)
      → rep ≢ 0
      → (read_response (fed os (5 ∷ rep ∷ 0 ∷ t ∷ body)) klass (fresh c)).0 ≡ none
  unfolding read_response get_self fail ◌>>=◌
  refused-none rep t body h =
      let bytes = 5 ∷ rep ∷ 0 ∷ t ∷ body in
      let head = 5 ∷ rep ∷ 0 ∷ t ∷ [] in
      let (e, left) = read-takes os bytes c.base.fd 4 (fresh c) head body refl refl in
      ap (λ r. r.0) (>>=-at (read (fed os bytes) c.base.fd 4) _ e) ∙ ground arith

-- A client that reads what the server has written as its response reads all of it, and hands over the
-- address that the server has written, if the reply is that of success; else it fails. The address
-- that the server is given is well formed.
pub read_response-write_response :
    (os os' : Os) (klass : ClientClass) (rep : ℕ) (addr : SockAddr) (s : Server) (c : Client)
    → IsSockAddr addr
    → let bytes = stream_of (write_response os rep addr (fresh s)).1.log in
      let r = read_response (fed os' bytes) klass (fresh c) in
      (rep ≡ 0 → HandsOver klass (addr_from_sockaddr6 addr).0 bytes c r) × (rep ≢ 0 → r.0 ≡ none)
read_response-write_response os os' klass rep addr s c h =
    let (a, n) = addr_from_sockaddr6 addr in
    let (e, l, whole_lem) = addr_len-from addr h in
    let size : length a.body ≡ n - 1 = omega (arith, l, ap length whole_lem) in
    let rest = response_rest_lem addr ∙ ap some (sym size) in
    rw (response_stream os rep addr s, whole_lem)
      (
        λ z. rw z (response-HandsOver os' klass c a.atype a.body rest),
        λ z. refused-none os' klass c rep a.atype a.body z,
      )

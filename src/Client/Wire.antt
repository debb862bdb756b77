-- ===== src/Client/Wire.antt =====
-- core/src/hev-socks5-client.c and hev-socks5-server.c: the messages between the two.
use gen_net.Base.{
  ℕ, ◌+◌, ◌-◌, ◌≡◌, refl, some, List, [], ◌∷◌, arith, length, get_or, take, drop, take_all,
}
use gen_net.Addr.{Addr, SockAddr, addr_len, image, addr_from_sockaddr6}
use gen_net.Server.Request.{req_addr, addr_rest}
use gen_net.Client.{request_message, response_rest}

-- an address that is not shorter than it says
abbrev pub IsWhole : Addr → ℕ → Type 0
IsWhole a n = (addr_len a ≡ some n) × (length a.body + 1 ≡ n)

whole_image : (a : Addr) (n : ℕ) → IsWhole a n → image a n ≡ a.atype ∷ a.body
whole_image a n h = take_all n (a.atype ∷ a.body) (omega (arith, h.1))

-- the type says how many bytes follow the first two
rest_length :
    (t b : ℕ) (bs : List ℕ) (n : ℕ)
    → IsWhole (record { atype = t; body = b ∷ bs }) n
    → addr_rest (record { atype = t; body = b ∷ [] }) ≡ some (length bs)
unfolding addr_len addr_rest
rest_length t b bs n (e, l) = ground arith

parsed :
    (cmd t : ℕ) (body : List ℕ) (n : ℕ)
    → IsWhole (record { atype = t; body = body }) n
    → let bytes = 5 ∷ cmd ∷ 0 ∷ t ∷ body in
      let rest = drop 5 bytes in
      (addr_rest (req_addr (take 5 bytes) []) ≡ some (length rest))
      × (req_addr (take 5 bytes) rest ≡ record { atype = t; body = body })
unfolding addr_len
parsed cmd t [] n (e, l) = absurd (ground arith)
parsed cmd t (b ∷ bs) n h = (rest_length t b bs n h, refl)

-- The server reads five bytes of a client's request, takes from them how many follow, and gets
-- the address that the client was asked for, if that is of the length that its type says.
pub request-parses :
    (cmd : ℕ) (a : Addr) (n : ℕ)
    → IsWhole a n
    → let bytes = request_message cmd a n in
      let req = take 5 bytes in
      let rest = drop 5 bytes in
      (get_or req 1 0 ≡ cmd)
      × (addr_rest (req_addr req []) ≡ some (length rest))
      × (req_addr req rest ≡ a)
request-parses cmd a n h =
    rw (whole_image a n h) (let (r, q) = parsed cmd a.atype a.body n h in (refl, r, q))

pub response_rest_lem :
    (s : SockAddr) → let (a, n) = addr_from_sockaddr6 s in response_rest a.atype ≡ some (n - 1)
unfolding addr_from_sockaddr6
response_rest_lem s = ground arith

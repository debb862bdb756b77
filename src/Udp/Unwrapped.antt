-- ===== src/Udp/Unwrapped.antt =====
-- core/src/hev-socks5-udp.c: messages that are sent in datagrams and received from them.
use gen_net.Base.{
  ℕ, zero, suc, ◌+◌, ◌≤◌, ◌≡◌, refl, ap, subst, ◌∙◌, false, Option, none, some, List, [], ◌∷◌, ◌++◌,
  arith, ltb, length, take, drop, length-append, length-take, take-append_length,
  drop-append_length,
}
use gen_net.Addr.{Addr, addr_len}
use gen_net.Net.{Datagram, Parcel}
use gen_net.Udp.{Msg, Packet}
use gen_net.Udp.Datagrams.{wrap, wrapped, wraps, split_at, unwrap, unwrapped, unwraps}
use gen_net.Udp.Frames.{Carries, AllCarry, addr_len-ge}
use gen_net.Udp.Frames.RoundTrip.{addr_len-body}

-- the bytes of each address are there
abbrev pub ArePresent : List Packet → Type 0
ArePresent [] = Unit
ArePresent (p ∷ ps) =
    ((n : ℕ) (_ : addr_len p.dest ≡ some n) → n ≤ length p.dest.body + 1) × ArePresent ps

-- The datagrams bring what the parcels hold, from any peer.
abbrev pub Bring : List Datagram → List Parcel → Type 0
Bring [] [] = Unit
Bring (d ∷ ds) (p ∷ ps) = (d.payload ≡ p.content) × Bring ds ps
Bring _ _ = ⊥

abbrev Unwraps : Packet → List ℕ → Type 0
Unwraps p content = (m : Msg) × (unwrap content ≡ some m) × Carries p m

unwrap_parts :
    (p : Packet) (m b : ℕ) (rest : List ℕ)
    → p.dest.body ≡ b ∷ rest
    → addr_len p.dest ≡ some (suc (suc m))
    → m ≤ length rest
    → Unwraps p (wrap p (suc (suc m))).content
unfolding unwrap split_at
unwrap_parts p m b rest e known h =
    let data' = take m rest ++ p.payload in
    let l : m ≡ length (take m rest) = omega (arith, length-take m rest) in
    let a : Addr = record { atype = p.dest.atype; body = b ∷ data' } in
    let long : addr_len a ≡ some (suc (suc m)) = addr_len-body p.dest b rest data' e ∙ known in
    let content = 0 ∷ 0 ∷ 0 ∷ p.dest.atype ∷ b ∷ data' in
    let t1 : ltb (length content) 4 ≡ false = ground arith in
    let t2 : ltb (length content) (3 + suc (suc m)) ≡ false =
      ground (arith, length-append (take m rest) p.payload) in
    let off : drop (3 + suc (suc m)) content ≡ p.payload =
      drop-append_length (0 ∷ 0 ∷ 0 ∷ p.dest.atype ∷ b ∷ take m rest) p.payload _
        (omega (arith, l)) in
    (
      record { addr = some a; payload = p.payload },
      rw e (rw (t1, long) (rw t2 (rw off refl))),
      record {
        addr = a;
        length_of = suc (suc m);
        given = refl;
        long = long;
        sent_long = known;
        same =
            rw e (ap (λ r. p.dest.atype ∷ b ∷ r) (take-append_length (take m rest) p.payload m l));
        payload = refl;
      },
    )

unwrap_body :
    (p : Packet) (n : ℕ) (body : List ℕ)
    → p.dest.body ≡ body
    → addr_len p.dest ≡ some n
    → n ≤ length p.dest.body + 1
    → Unwraps p (wrap p n).content
unwrap_body p n [] e known h = absurd (omega (arith, ap length e, addr_len-ge p.dest n known))
unwrap_body p zero (b ∷ body) e known h = absurd (omega (arith, addr_len-ge p.dest zero known))
unwrap_body p (suc zero) (b ∷ body) e known h =
    absurd (omega (arith, addr_len-ge p.dest (suc zero) known))
unwrap_body p (suc (suc m)) (b ∷ body) e known h =
    let l : length p.dest.body ≡ suc (length body) = ap length e in
    unwrap_parts p m b body e known (omega arith)

wrapped_cases :
    (p : Packet) (o : Option ℕ) (r : Option (List Parcel)) (parcels : List Parcel)
    → wrapped p o r ≡ some parcels
    → (n : ℕ) × (rest : List Parcel) × (o ≡ some n) × (r ≡ some rest) × (parcels ≡ wrap p n ∷ rest)
unfolding wrapped
wrapped_cases p none r parcels h = absurd (cc)
wrapped_cases p (some n) none parcels h = absurd (cc)
wrapped_cases p (some n) (some rest) parcels h = (n, rest, refl, refl, (cc))

-- What is sent for any number of packets is received as the same messages, with the same addresses
-- and the same data, from whichever peer the datagrams come. The bytes of each address are there.
pub unwraps-wraps :
    (ps : List Packet) (parcels : List Parcel) (ds : List Datagram)
    → ArePresent ps
    → wraps ps ≡ some parcels
    → Bring ds parcels
    → (msgs : List Msg) × (unwraps ds ≡ some msgs) × AllCarry ps msgs
unfolding wraps unwraps unwrapped
unwraps-wraps [] [] [] present h bring = ([], refl, tt)
unwraps-wraps [] (p ∷ ps) ds present h bring = absurd (cc)
unwraps-wraps [] [] (d ∷ ds) present h bring = absurd bring
unwraps-wraps (p ∷ ps) parcels [] present h bring =
    let (n, rest, known, hr, e) = wrapped_cases p (addr_len p.dest) (wraps ps) parcels h in
    absurd (subst (Bring []) e bring)
unwraps-wraps (p ∷ ps) parcels (d ∷ ds) present h bring =
    let (n, rest, known, hr, e) = wrapped_cases p (addr_len p.dest) (wraps ps) parcels h in
    let (here, later) = subst (Bring (d ∷ ds)) e bring in
    let (m, um, carried) = unwrap_body p n p.dest.body refl known (present.0 n known) in
    let (msgs, ums, all) = unwraps-wraps ps rest ds present.1 hr later in
    (m ∷ msgs, rw (here, um, ums) refl, (carried, all))

-- ===== src/Client/Exchange/Credentials.antt =====
-- core/src/hev-socks5-server.c: reading the credentials that hev-socks5-client.c writes.
use gen_net.Base.{
  ℕ, ◌+◌, ◌%◌, ◌<◌, ◌≡◌, ◌≢◌, refl, sym, ap, ◌∙◌, ◌⊎◌, inl, inr, Option, none, some, List, [], ◌∷◌,
  ◌++◌, append_assoc, append-nil, arith, length, get_or, take, drop, length-append, take_all,
  take-append_length, ◌==◌, if◌then◌else◌, Bool, true, false, Bool-cases,
}
use gen_net.Net.{Os, State, M, pure, fail, get_self, call, ◌>>=◌, send}
use gen_net.Net.Runs.{>>=-at}
use gen_net.Socks5.{read}
use gen_net.Server.{Server, look_up, read_auth_user}
use gen_net.Client.{Client, credentials, creds_message, write_creds, write_auth_creds, written}
use gen_net.Udp.Frames.{consumed}
use gen_net.Client.Exchange.{stream_of, fed, fresh, heard, read-takes}

creds_stream :
    (os : Os) (c : Client) (name pass : List ℕ)
    → credentials c ≡ some (name, pass)
    → stream_of (write_auth_creds os (fresh c)).1.log ≡ creds_message (name, pass)
unfolding write_auth_creds write_creds send call written get_self pure fail ◌>>=◌
creds_stream os c name pass e = rw e (ground arith)

short_message :
    (name pass : List ℕ)
    → length name < 256
    → length pass < 256
    → creds_message (name, pass) ≡ 1 ∷ length name ∷ (name ++ (length pass ∷ pass))
unfolding creds_message
short_message name pass h k =
    let n : length name % 256 ≡ length name = omega arith in
    let p : length pass % 256 ≡ length pass = omega arith in
    rw (n, p, take_all (length name) name (omega arith), take_all (length pass) pass (omega arith))
      refl

behind_name : (name : List ℕ) (p : ℕ) → get_or (name ++ (p ∷ [])) (length name) 0 ≡ p
behind_name [] p = refl
behind_name (x ∷ xs) p = behind_name xs p

-- The server has read the whole message and looks up the name and the password.
abbrev pub LooksUp : List ℕ → List ℕ → List ℕ → Server → Option (Unit {0}) × State Server → Type 0
LooksUp name pass bytes s r =
    (t : State Server) × (t.self ≡ s)
    × (consumed t.log ≡ length bytes)
    × (r ≡ look_up s.object name pass t)

not-fails :
    {A : Type 0} (b : Bool) (m : M Server A) (t : State Server)
    → b ≡ false
    → (if b then fail else m) t ≡ m t
not-fails true m t e = absurd (cc)
not-fails false m t e = refl

fails :
    {A : Type 0} (b : Bool) (m : M Server A) (t : State Server)
    → b ≡ true
    → ((if b then fail else m) t).0 ≡ none
unfolding fail
fails true m t e = refl
fails false m t e = absurd (cc)

module _ (os : Os) (s : Server) (name pass : List ℕ) where
  abbrev message : List ℕ
  message = 1 ∷ length name ∷ (name ++ (length pass ∷ pass))

  abbrev block : List ℕ
  block = name ++ (length pass ∷ [])

  abbrev s1 : State Server
  s1 = heard os message s.base.fd 2 (1 ∷ length name ∷ []) (fresh s)

  abbrev s2 : State Server
  s2 = heard os message s.base.fd (length name + 1) block s1

  abbrev s3 : State Server
  s3 = heard os message s.base.fd (length pass) pass s2

  read_head : read (fed os message) s.base.fd 2 (fresh s) ≡ (some (1 ∷ length name ∷ []), s1)
  read_head =
      (read-takes os message s.base.fd 2 (fresh s) (1 ∷ length name ∷ [])
        (name ++ (length pass ∷ pass)) refl refl).0

  read_block :
      (read (fed os message) s.base.fd (length name + 1) s1 ≡ (some block, s2))
      × (drop (consumed s2.log) message ≡ pass)
  read_block =
      read-takes os message s.base.fd (length name + 1) s1 block pass
        (length-append name (length pass ∷ [])) (sym (append_assoc name (length pass ∷ []) pass))

  read_pass : read (fed os message) s.base.fd (length pass) s2 ≡ (some pass, s3)
  read_pass =
      (read-takes os message s.base.fd (length pass) s2 pass [] refl
        (read_block.1 ∙ sym (append-nil pass))).0

  abbrev then_pass : ℕ → List ℕ → M Server (Unit {0})
  then_pass plen found =
      if plen == 0
      then fail
      else (do given ← read (fed os message) s.base.fd plen; look_up s.object found given)

  abbrev then_name : ℕ → M Server (Unit {0})
  then_name nlen = if nlen == 0 then fail else (do
    found ← read (fed os message) s.base.fd (nlen + 1)
    then_pass (get_or found nlen 0) (take nlen found))

  past_head : read_auth_user (fed os message) (fresh s) ≡ then_name (length name) s1
  unfolding read_auth_user get_self ◌>>=◌
  past_head = >>=-at (read (fed os message) s.base.fd 2) _ read_head

  past_name : length name ≢ 0 → then_name (length name) s1 ≡ then_pass (length pass) name s2
  past_name n =
      not-fails (length name == 0) _ s1 (ground arith)
      ∙ >>=-at (read (fed os message) s.base.fd (length name + 1)) _ read_block.0
      ∙ ap (λ q. then_pass q (take (length name) block) s2) (behind_name name (length pass))
      ∙ ap (λ q. then_pass (length pass) q s2)
          (take-append_length name (length pass ∷ []) (length name) refl)

  both-LooksUp :
      length name ≢ 0
      → length pass ≢ 0
      → LooksUp name pass message s (read_auth_user (fed os message) (fresh s))
  both-LooksUp n p = (
    s3,
    refl,
    omega (arith, length-append name (length pass ∷ []), length-append name (length pass ∷ pass)),
    past_head
        ∙ past_name n
        ∙ not-fails (length pass == 0) _ s2 (ground arith)
        ∙ >>=-at (read (fed os message) s.base.fd (length pass)) _ read_pass,
  )

  nameless-none : length name ≡ 0 → (read_auth_user (fed os message) (fresh s)).0 ≡ none
  nameless-none e = ap (λ r. r.0) past_head ∙ fails (length name == 0) _ s1 (ground arith)

  passless-none :
      length name ≢ 0 → length pass ≡ 0 → (read_auth_user (fed os message) (fresh s)).0 ≡ none
  passless-none n e =
      ap (λ r. r.0) (past_head ∙ past_name n) ∙ fails (length pass == 0) _ s2 (ground arith)

-- A server that reads what a client has written as its credentials, of at most 255 bytes each,
-- reads all of it and looks up the client's name and password, if neither is empty; else it refuses.
pub read_auth_user-write_auth_creds :
    (os os' : Os) (c : Client) (s : Server) (name pass : List ℕ)
    → credentials c ≡ some (name, pass)
    → length name < 256
    → length pass < 256
    → let bytes = stream_of (write_auth_creds os (fresh c)).1.log in
      let r = read_auth_user (fed os' bytes) (fresh s) in
      (length name ≢ 0 → length pass ≢ 0 → LooksUp name pass bytes s r)
      × ((length name ≡ 0) ⊎ (length pass ≡ 0) → r.0 ≡ none)
read_auth_user-write_auth_creds os os' c s name pass e h k =
    rw (creds_stream os c name pass e, short_message name pass h k)
      (
        λ n p. both-LooksUp os' s name pass n p,
        λ z. elim (Bool-cases (length name == 0)) [
          | inl n ↦ nameless-none os' s name pass (ground (arith, n))
          | inr n ↦ elim z [
            | inl m ↦ nameless-none os' s name pass m
            | inr p ↦ passless-none os' s name pass (ground (arith, n)) p
          ]
        ],
      )

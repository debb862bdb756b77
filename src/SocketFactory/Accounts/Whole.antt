-- ===== src/SocketFactory/Accounts/Whole.antt =====
-- hev-socket-factory.c: the accounts from the construction to the end of a factory.
use gen_net.Base.{
  ℕ, zero, suc, ◌+◌, ◌≡◌, ap, Bool, true, false, Option, none, some, List, [], ◌∷◌, arith,
}
use gen_net.Addr.{SockAddr, zero_addr}
use gen_net.Addr.Resolve.{AddrInfo}
use gen_net.Session.{from_result}
use gen_net.Net.{Fd, Os, State, M, pure, modify, call, ◌>>=◌, note}
use gen_net.Net.Triples.{
  Ends, Triple, Triple-bind, Triple-pure, Triple-get_self, Triple-weaken, Triple-attempt,
}
use gen_net.Server.Descriptors.{counts, opens, closes}
use gen_net.SocketFactory.{
  SocketFactory, if_resolved, socket_factory_new, close_kept, socket_factory_destroy, sockets_for,
  sockets_of,
}
use gen_net.SocketFactory.Accounts.{Accounted, among, Hands, Triple-get}

module _ (n : ℕ) where
  -- the factory is gone, and so many descriptors `n` are open
  abbrev pub Left : ℕ → State SocketFactory → Type 0
  Left k s = opens n s.log ≡ closes n s.log + k

  module _ (os : Os) where
    Triple-rest :
        (loop : M SocketFactory (List ℕ)) (k : ℕ) {N : State SocketFactory → Type 0}
        → ((j : ℕ) → Triple (Accounted n j) loop (λ fds s. Accounted n (j + among n fds) s) N)
        → (r : Option ℕ)
        → Triple
            (λ s. Ends (Hands n os k) (Accounted n k) (r, s))
            (elim r [ none ↦ pure [] | some fd ↦ do rest ← loop; pure (fd ∷ rest) ])
            (λ fds s. Accounted n (k + among n fds) s)
            N
    Triple-rest loop k t none = Triple-pure [] (λ s h. record { count = omega (arith, h.count) })
    Triple-rest loop k t (some fd) =
        Triple-bind (λ fds s. Accounted n (k + counts n (some fd) + among n fds) s)
          (t (k + counts n (some fd)))
          λ rest. Triple-pure (fd ∷ rest) (λ s h. record { count = omega (arith, h.count) })

    Triple-sockets_for :
        (m k : ℕ) {N : State SocketFactory → Type 0}
        → Triple (Accounted n k) (sockets_for os m) (λ fds s. Accounted n (k + among n fds) s) N
    unfolding sockets_for
    Triple-sockets_for zero k = Triple-pure [] (λ s h. record { count = omega (arith, h.count) })
    Triple-sockets_for (suc m) k =
        Triple-bind (λ r s. Ends (Hands n os k) (Accounted n k) (r, s))
          (Triple-attempt (Triple-get n os k))
          (Triple-rest (sockets_for os m) k (λ j. Triple-sockets_for m j))

    Triple-close_kept :
        (kept : Fd) (k : ℕ) {N : State SocketFactory → Type 0}
        → Triple (λ s. Accounted n k s × (s.self.fd ≡ kept)) (close_kept kept) (λ _ s. Left k s) N
    unfolding close_kept note call
    Triple-close_kept none k = Triple-pure tt (λ s (h, e).
        let same : counts n s.self.fd ≡ 0 = ap (counts n) e in omega (arith, h.count, same))
    Triple-close_kept (some c) k = record {
      at = λ s (h, e).
          let same : counts n s.self.fd ≡ counts n (some c) = ap (counts n) e in
          omega (arith, h.count, same);
    }

    Triple-destroy :
        (k : ℕ) {N : State SocketFactory → Type 0}
        → Triple (Accounted n k) socket_factory_destroy (λ _ s. Left k s) N
    unfolding socket_factory_destroy modify
    Triple-destroy k =
        Triple-bind (λ self s. Accounted n k s × (s.self ≡ self)) Triple-get_self
          λ self.
            Triple-bind (λ _ s. Left k s)
              (Triple-weaken (λ s p. (p.0, ap (λ f. f.fd) p.1)) (Triple-close_kept self.fd k))
              λ _. record { at = λ s h. h }

    Triple-sockets_of :
        (m : ℕ) {N : State SocketFactory → Type 0}
        → Triple (Accounted n 0) (sockets_of os m) (λ fds s. Left (among n fds) s) N
    unfolding sockets_of
    Triple-sockets_of m =
        Triple-bind (λ fds s. Accounted n (0 + among n fds) s) (Triple-sockets_for m 0)
          λ fds.
            Triple-bind (λ _ s. Left (0 + among n fds) s) (Triple-destroy (0 + among n fds))
              λ _. Triple-pure fds (λ s h. omega (arith, h))

new-none :
    (r : Bool × SockAddr) (v6 fast : Bool) (f : SocketFactory)
    → if_resolved r v6 fast ≡ some f
    → f.fd ≡ none
unfolding if_resolved
new-none (true, a) v6 fast f e = ground arith
new-none (false, a) v6 fast f e = absurd (cc)

-- A new factory that is asked for a socket for each of any number of workers, until it has none to
-- give, and is then destroyed, leaves exactly the descriptors open that it gave, whatever the system
-- answers.
pub sockets_of-Left :
    (os : Os) (n m : ℕ) (info : Option AddrInfo) (v6 fast : Bool) (f : SocketFactory)
    → socket_factory_new true info v6 fast ≡ some f
    → Ends
        (λ fds s. Left n (among n fds) s)
        (λ _. ⊥)
        (sockets_of os m (record { self = f; log = [] }))
unfolding socket_factory_new
sockets_of-Left os n m info v6 fast f made =
    let none_kept : counts n f.fd ≡ 0 =
      ap (counts n) (new-none (from_result info zero_addr) v6 fast f made) in
    (Triple-sockets_of n os m).at (record { self = f; log = [] })
      (record { count = omega (arith, none_kept) })

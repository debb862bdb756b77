-- ===== src/Worker/Sessions/Accounts.antt =====
-- hev-socks5-worker.c: the descriptors that were accepted.
use gen_net.Base.{
  ℕ, suc, ◌+◌, ◌≤◌, ◌<◌, ◌≡◌, refl, sym, ap, subst, ◌∙◌, true, false, Option, List, [], ◌∷◌, ◌++◌,
  arith, length, length-append,
}
use mathlib.Core.List.{map, map-append}
use gen_net.HevList.{list_first}
use gen_net.HevList.Linked.{NotIn}
use gen_net.HevList.Refines.{Represents, Represents-empty, add_tail-Represents}
use gen_net.HevList.Refines.Removal.{list_del-Represents, nodes-Represents}
use gen_net.HevList.Sequences.{IsIn, remove, IsIn-Places}
use gen_net.Worker.Owners.{count}
use gen_net.Worker.Sessions.{
  Sessions, no_sessions, Happening, accepted, failed_accept, refused, ends, put, enter,
  give_back_fd, terminate_all, leave, happen, happen_all,
}

-- the sessions that are running, where `n` were made
abbrev pub running : Happening → ℕ → List ℕ → List ℕ
running (accepted fd true true) n xs = xs ++ n ∷ []
running (ends i) n xs = remove i xs
running _ n xs = xs

abbrev pub made_by : Happening → ℕ → ℕ
made_by (accepted fd true true) n = suc n
made_by _ n = n

abbrev pub runnings : List Happening → ℕ → List ℕ → List ℕ
runnings [] n xs = xs
runnings (e ∷ es) n xs = runnings es (made_by e n) (running e n xs)

-- only a session that runs ends
abbrev pub MayEnd : Happening → List ℕ → Type 0
MayEnd (ends i) xs = IsIn i xs
MayEnd _ xs = Unit

abbrev pub MayHappen : List Happening → ℕ → List ℕ → Type 0
MayHappen [] n xs = Unit
MayHappen (e ∷ es) n xs = MayEnd e xs × MayHappen es (made_by e n) (running e n xs)

-- the descriptors that were accepted
abbrev pub fds : List Happening → List ℕ
fds [] = []
fds (accepted fd s t ∷ es) = fd ∷ fds es
fds (_ ∷ es) = fds es

abbrev AllBelow : ℕ → List ℕ → Type 0
AllBelow n [] = Unit
AllBelow n (x ∷ xs) = (x < n) × AllBelow n xs

-- each descriptor was closed or is the one of a session that runs
pub record Accounts (p : Sessions) (xs : List ℕ) (taken : ℕ → ℕ) : Type 0 where
  pub set : Represents p.session_set xs
  pub below : AllBelow p.made xs
  pub short : length xs ≤ p.made
  pub account : (n : ℕ) → count n p.closed + count n (map p.fd_of xs) ≡ taken n

below-NotIn : (n : ℕ) (xs : List ℕ) → AllBelow n xs → NotIn n xs
below-NotIn n [] h = tt
below-NotIn n (x ∷ xs) h = ((λ e. omega (arith, h.0)), below-NotIn n xs h.1)

below-suc : (n : ℕ) (xs : List ℕ) → AllBelow n xs → AllBelow (suc n) (xs ++ n ∷ [])
below-suc n [] h = (omega arith, tt)
below-suc n (x ∷ xs) h = (omega (arith, h.0), below-suc n xs h.1)

below-remove : (n i : ℕ) (ys zs : List ℕ) → AllBelow n (ys ++ i ∷ zs) → AllBelow n (ys ++ zs)
below-remove n i [] zs h = h.1
below-remove n i (y ∷ ys) zs h = (h.0, below-remove n i ys zs h.1)

-- a new session changes the descriptor of no other one
map-put :
    (f : ℕ → ℕ) (n v : ℕ) (xs : List ℕ)
    → AllBelow n xs
    → map (put f n v) (xs ++ n ∷ []) ≡ map f xs ++ v ∷ []
map-put f n v [] h = ground arith
map-put f n v (x ∷ xs) h =
    let e : put f n v x ≡ f x = ground (arith, h.0) in rw (e, map-put f n v xs h.1) refl

count-append : (n : ℕ) (xs ys : List ℕ) → count n (xs ++ ys) ≡ count n xs + count n ys
count-append n [] ys = omega arith
count-append n (x ∷ xs) ys = omega (arith, count-append n xs ys)

Accounts-same :
    (p : Sessions) (xs : List ℕ) (f g : ℕ → ℕ)
    → ((n : ℕ) → f n ≡ g n)
    → Accounts p xs f
    → Accounts p xs g
Accounts-same p xs f g e a = record {
  set = a.set;
  below = a.below;
  short = a.short;
  account = λ n. a.account n ∙ e n;
}

abbrev plus : Happening → (ℕ → ℕ) → ℕ → ℕ
plus e taken n = count n (fds (e ∷ [])) + taken n

module _ (auth : Option ℕ) (p : Sessions) (xs : List ℕ) (taken : ℕ → ℕ)
    (a : Accounts p xs taken) where
  enter-Accounts :
      (fd : ℕ) → Accounts (enter auth fd p) (xs ++ p.made ∷ []) (plus (accepted fd true true) taken)
  unfolding enter
  enter-Accounts fd = record {
    set = add_tail-Represents p.session_set p.made xs a.set (below-NotIn p.made xs a.below);
    below = below-suc p.made xs a.below;
    short = omega (arith, length-append xs (p.made ∷ []), a.short);
    account = λ n. omega (
      arith,
      a.account n,
      ap (count n) (map-put p.fd_of p.made fd xs a.below),
      count-append n (map p.fd_of xs) (fd ∷ []),
    );
  }

  give_back-Accounts : (fd : ℕ) → Accounts (give_back_fd fd p) xs (λ n. count n (fd ∷ []) + taken n)
  unfolding give_back_fd
  give_back-Accounts fd = record {
    set = a.set;
    below = a.below;
    short = a.short;
    account = λ n. omega (arith, a.account n);
  }

  leave-Accounts : (i : ℕ) → IsIn i xs → Accounts (leave i p) (remove i xs) taken
  unfolding leave
  leave-Accounts i h =
      let (ys, zs, e, r) = IsIn-Places i xs h in
      let b = subst (AllBelow p.made) e a.below in
      let split = λ (n : ℕ) (us : List ℕ). count-append n (map p.fd_of ys) us in
      subst (λ l. Accounts (leave i p) l taken) (sym r)
        (record {
          set =
              list_del-Represents p.session_set i ys zs (subst (Represents p.session_set) e a.set);
          below = below-remove p.made i ys zs b;
          short =
              omega (arith, a.short, ap length e, length-append ys (i ∷ zs), length-append ys zs);
          account = λ n. omega (
            arith,
            a.account n,
            ap (λ l. count n (map p.fd_of l)) e,
            ap (count n) (map-append p.fd_of ys (i ∷ zs)),
            ap (count n) (map-append p.fd_of ys zs),
            count-append n (map p.fd_of ys) (p.fd_of i ∷ map p.fd_of zs),
            count-append n (map p.fd_of ys) (map p.fd_of zs),
          );
        })

  -- the loop at the end visits the sessions that run
  terminates : happen auth refused p ≡ record p { terminated = xs; accepting = false }
  unfolding happen terminate_all list_first
  terminates = rw (nodes-Represents p.session_set xs p.made a.set a.short) refl

  happen-Accounts :
      (e : Happening)
      → MayEnd e xs
      → Accounts (happen auth e p) (running e p.made xs) (plus e taken)
  unfolding happen
  happen-Accounts (accepted fd true true) h = enter-Accounts fd
  happen-Accounts (accepted fd true false) h = give_back-Accounts fd
  happen-Accounts (accepted fd false t) h = give_back-Accounts fd
  happen-Accounts failed_accept h = Accounts-same p xs taken _ (λ n. omega arith) a
  happen-Accounts refused h =
      subst (λ q. Accounts q xs (plus refused taken)) (sym terminates)
        (Accounts-same _ xs taken _ (λ n. omega arith)
          (record { set = a.set; below = a.below; short = a.short; account = a.account }))
  happen-Accounts (ends i) h =
      Accounts-same (leave i p) (remove i xs) taken _ (λ n. omega arith) (leave-Accounts i h)

made-happen :
    (auth : Option ℕ) (p : Sessions) (xs : List ℕ) (taken : ℕ → ℕ) (a : Accounts p xs taken)
    (e : Happening)
    → (happen auth e p).made ≡ made_by e p.made
unfolding happen enter give_back_fd leave
made-happen auth p xs taken a (accepted fd true true) = refl
made-happen auth p xs taken a (accepted fd true false) = refl
made-happen auth p xs taken a (accepted fd false t) = refl
made-happen auth p xs taken a failed_accept = refl
made-happen auth p xs taken a refused = ap (λ q. q.made) (terminates auth p xs taken a)
made-happen auth p xs taken a (ends i) = refl

fds-cons :
    (n : ℕ) (e : Happening) (es : List Happening)
    → count n (fds (e ∷ es)) ≡ count n (fds (e ∷ [])) + count n (fds es)
fds-cons n (accepted fd s t) es = omega arith
fds-cons n failed_accept es = omega arith
fds-cons n refused es = omega arith
fds-cons n (ends i) es = omega arith

happen_all-Accounts :
    (auth : Option ℕ) (es : List Happening) (p : Sessions) (m : ℕ) (xs : List ℕ) (taken : ℕ → ℕ)
    → p.made ≡ m
    → Accounts p xs taken
    → MayHappen es m xs
    → Accounts (happen_all auth es p) (runnings es m xs) (λ n. count n (fds es) + taken n)
unfolding happen_all
happen_all-Accounts auth [] p m xs taken e a h = Accounts-same p xs taken _ (λ n. omega arith) a
happen_all-Accounts auth (c ∷ es) p m xs taken e a h =
    let b = happen-Accounts auth p xs taken a c h.0 in
    let b' = subst (λ k. Accounts (happen auth c p) (running c k xs) (plus c taken)) e b in
    let m' = made-happen auth p xs taken a c ∙ ap (made_by c) e in
    Accounts-same _ _ _ _ (λ n. omega (arith, fds-cons n c es))
      (happen_all-Accounts auth es (happen auth c p) (made_by c m) (running c m xs) (plus c taken)
        m' b' h.1)

none-Accounts : Accounts no_sessions [] (λ n. 0)
none-Accounts = record {
  set = Represents-empty;
  below = tt;
  short = omega arith;
  account = λ n. refl;
}

-- Whatever is accepted, whatever cannot be allocated and whichever sessions end, the list of a
-- worker holds the sessions that run, in the order in which they came; each descriptor that was
-- accepted was closed, or is the one of such a session, as often as it was accepted; and when the
-- task is told to stop, it terminates exactly these sessions. Only a session that runs ends.
pub happen_all-Accounted :
    (auth : Option ℕ) (es : List Happening)
    → MayHappen es 0 []
    → let p = happen_all auth es no_sessions in
      let xs = runnings es 0 [] in
      Represents p.session_set xs
      × ((n : ℕ) → count n p.closed + count n (map p.fd_of xs) ≡ count n (fds es))
      × ((happen auth refused p).terminated ≡ xs)
happen_all-Accounted auth es h =
    let p = happen_all auth es no_sessions in
    let xs = runnings es 0 [] in
    let a = happen_all-Accounts auth es no_sessions 0 [] (λ n. 0) refl none-Accounts h in
    (
      a.set,
      λ n. omega (arith, a.account n),
      ap (λ q. q.terminated) (terminates auth p xs (λ n. count n (fds es) + 0) a),
    )

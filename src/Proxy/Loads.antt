-- ===== src/Proxy/Loads.antt =====
-- hev-socks5-proxy.c: what a load hands to the workers, and the references to the authenticator.
use gen_net.Base.{
  ℕ, suc, ap, ◌+◌, ◌-◌, ◌≡◌, refl, true, Option, none, some, List, [], ◌∷◌, ◌++◌, arith, length,
}
use gen_net.Rbtree.{Tree, leaf}
use gen_net.User.{User}
use gen_net.Worker.Handed.{Free, Serves, Free-Serves}
use gen_net.Worker.{Worker}
use gen_net.Config.{Settings}
use gen_net.Config.Getters.{get_auth_file}
use gen_net.Proxy.{
  Memory, Loaded, loaded, load_lines, load_file, source, hand_over, Proxy, hand_out, Files,
  load_from, proxy_load,
}
use gen_net.Proxy.Users.{Finds, first_of, load_lines-Finds}

abbrev pub AllFree : List Worker → Type 0
AllFree [] = Unit
AllFree (w ∷ ws) = Free w × AllFree ws

abbrev pub AllServe : ℕ → List Worker → Type 0
AllServe a [] = Unit
AllServe a (w ∷ ws) = Serves a w × AllServe a ws

hand_over-AllServe :
    (a refs : ℕ) (ws : List Worker) → AllFree ws → AllServe a (hand_over a refs ws).0
unfolding hand_over
hand_over-AllServe a refs [] h = tt
hand_over-AllServe a refs (w ∷ ws) h = (Free-Serves a w h.0, hand_over-AllServe a (suc refs) ws h.1)

hand_over-refs : (a refs : ℕ) (ws : List Worker) → (hand_over a refs ws).1 ≡ refs + length ws
unfolding hand_over
hand_over-refs a refs [] = omega arith
hand_over-refs a refs (w ∷ ws) = omega (arith, hand_over-refs a (suc refs) ws)

hand_over-length : (a refs : ℕ) (ws : List Worker) → length (hand_over a refs ws).0 ≡ length ws
unfolding hand_over
hand_over-length a refs [] = refl
hand_over-length a refs (w ∷ ws) = ap suc (hand_over-length a (suc refs) ws)

-- The load has made one more authenticator, whose names find what `spec` says; there are the same
-- number of workers, each of which serves with it, and as many references to it.
abbrev pub Shares : Proxy → (List ℕ → Option User) → Option Proxy → Type 0
Shares p spec none = ⊥
Shares p spec (some p') =
    (l : Loaded) × (p'.auths ≡ p.auths ++ l ∷ [])
    × Finds (some l.users) spec
    × (length p'.workers ≡ length p.workers)
    × (l.refs ≡ length p'.workers)
    × AllServe (length p.auths) p'.workers

hand_out-Shares :
    (p : Proxy) (o : Option (Tree User)) (spec : List ℕ → Option User)
    → AllFree p.workers
    → Finds o spec
    → Shares p spec (hand_out p (loaded 1 o))
unfolding hand_out loaded
hand_out-Shares p none spec h c = c
hand_out-Shares p (some t) spec h c =
    let a = length p.auths in
    let same = hand_over-length a 1 p.workers in
    (
      record { users = t; refs = (hand_over a 1 p.workers).1 - 1 },
      refl,
      c,
      same,
      omega (arith, hand_over-refs a 1 p.workers, same),
      hand_over-AllServe a 1 p.workers h,
    )

-- Loading a file of users that can be opened reads no null pointer and makes an authenticator in
-- which a name finds the user of the first line that gives one with that name, whichever
-- allocations for a user fail. There are as many references to it as workers. Each worker uses it,
-- at the latest when its event task has had eight turns, or was started and is stopped by then. The
-- workers are new, or were started, after which anything may have happened but that a thread is in
-- the middle of asking for something.
pub proxy_load-Shares :
    (files : Files) (mem : Memory) (s : Settings) (p : Proxy) (f : List ℕ)
    (ls : List (Memory × List ℕ))
    → AllFree p.workers
    → get_auth_file s ≡ some f
    → files f ≡ some ls
    → Shares p (first_of ls) (proxy_load files mem true s p)
unfolding proxy_load source load_from load_file
proxy_load-Shares files mem s p f ls free file opened =
    rw (file, opened)
      (hand_out-Shares p (load_lines ls leaf) (first_of ls) free (load_lines-Finds ls))

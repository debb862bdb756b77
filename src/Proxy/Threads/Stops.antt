-- ===== src/Proxy/Threads/Stops.antt =====
-- hev-socks5-proxy.c: a thread that asks to stop, and the list of workers.
use gen_net.Base.{ℕ, ◌≡◌, refl, Bool, true, false, List, [], ◌∷◌, arith}
use gen_net.Proxy.Threads.{
  Main, down, aborting, undoing, created, ready, continuing, serving, back, joining, Stopper, quiet,
  releasing, holding, telling, Threads, before_init, proxy_init, main_turn, stop_begin, stop_turn,
  Turn, starts, main_goes, stops, stopper_goes, works, init_at, turn, interleaved,
}

-- between a start that has succeeded and the end of `SYNC_WAIT` in `hev_socks5_proxy_fini`
abbrev pub is_up : Main → Bool
is_up ready = true
is_up continuing = true
is_up serving = true
is_up back = true
is_up _ = false

-- the thread will walk the list of workers, or may
abbrev may_tell : Stopper → Bool
may_tell (holding b) = b
may_tell (telling b) = true
may_tell _ = false

abbrev pub is_telling : Stopper → Bool
is_telling (telling b) = b
is_telling _ = false

record IsSafe (s : Threads) : Type 0 where
  sends : s.bits.send_set ≡ true → is_up s.main ≡ true
  tells : may_tell s.stopper ≡ true → is_up s.main ≡ true
  waits : may_tell s.stopper ≡ true → s.bits.wait_set ≡ true

main_turn-IsSafe : (m : Main) (s : Threads) → s.main ≡ m → IsSafe s → IsSafe (main_turn m s)
unfolding main_turn
main_turn-IsSafe down s e c = c
main_turn-IsSafe aborting s e c = ground arith
main_turn-IsSafe undoing s e c = ground arith
main_turn-IsSafe created s e c = ground arith
main_turn-IsSafe ready s e c = ground arith
main_turn-IsSafe continuing s e c = ground arith
main_turn-IsSafe serving s e c = ground arith
main_turn-IsSafe back s e c = ground arith
main_turn-IsSafe joining s e c = ground arith

stop_turn-IsSafe : (t : Stopper) (s : Threads) → s.stopper ≡ t → IsSafe s → IsSafe (stop_turn t s)
unfolding stop_turn
stop_turn-IsSafe quiet s e c = c
stop_turn-IsSafe releasing s e c = ground arith
stop_turn-IsSafe (holding true) s e c = ground arith
stop_turn-IsSafe (holding false) s e c = ground arith
stop_turn-IsSafe (telling b) s e c = ground arith

stop_begin-IsSafe : (s : Threads) → IsSafe s → IsSafe (stop_begin s)
unfolding stop_begin
stop_begin-IsSafe s c = ground arith

init_at-IsSafe :
    (m : Main) (ok : Bool) (n : ℕ) (s : Threads) → s.main ≡ m → IsSafe s → IsSafe (init_at m ok n s)
unfolding init_at proxy_init
init_at-IsSafe down ok n s e c = ground arith
init_at-IsSafe aborting ok n s e c = c
init_at-IsSafe undoing ok n s e c = c
init_at-IsSafe created ok n s e c = c
init_at-IsSafe ready ok n s e c = c
init_at-IsSafe continuing ok n s e c = c
init_at-IsSafe serving ok n s e c = c
init_at-IsSafe back ok n s e c = c
init_at-IsSafe joining ok n s e c = c

turn-IsSafe : (t : Turn) (s : Threads) → IsSafe s → IsSafe (turn t s)
unfolding turn
turn-IsSafe (starts ok n) s c = init_at-IsSafe s.main ok n s refl c
turn-IsSafe main_goes s c = main_turn-IsSafe s.main s refl c
turn-IsSafe stops s c = stop_begin-IsSafe s c
turn-IsSafe stopper_goes s c = stop_turn-IsSafe s.stopper s refl c
turn-IsSafe (works k ok) s c = record { sends = c.sends; tells = c.tells; waits = c.waits }

interleaved-IsSafe : (ts : List Turn) (s : Threads) → IsSafe s → IsSafe (interleaved ts s)
unfolding interleaved
interleaved-IsSafe [] s c = c
interleaved-IsSafe (t ∷ ts) s c = interleaved-IsSafe ts (turn t s) (turn-IsSafe t s c)

before_init-IsSafe : IsSafe before_init
before_init-IsSafe = ground arith

-- However the threads interleave, over any number of starts and ends, a thread that asks to stop
-- walks the list of workers only while it is complete: behind a start that has succeeded, and
-- before the main thread joins the others and frees the list.
pub stops-IsUp :
    (ts : List Turn)
    → let s = interleaved ts before_init in is_telling s.stopper ≡ true → is_up s.main ≡ true
stops-IsUp ts h = let c = interleaved-IsSafe ts before_init before_init-IsSafe in ground arith

-- ===== src/Proxy/Examples.antt =====
-- hev-socks5-proxy.c: a file of users for two workers.
use gen_net.Base.{inl, inr, ℕ, ◌≡◌, refl, true, false, none, some, List, [], ◌∷◌, replicate, memcmp}
use gen_net.Authenticator.{name_cmp}
use gen_net.User.{user_construct, user_mark_new}
use gen_net.Worker.{
  Choice, asks, begin_send, go_on, load, proceeds, reads, receive, schedule, set_next, sets, step,
  take_turn, worker_load, worker_new, worker_set_auth, worker_start,
}
use gen_net.Config.{Settings, reset}
use gen_net.Config.Text.{codes, skip_spaces, signed, digits}
use gen_net.Proxy.{
  Memory, field, scan_s, without_0x, scan_mark, scan_pass, scan_name, scan_line, user_of, line_user,
  load_single, source, Proxy, hand_out, Files, load_from, proxy_load,
}
use gen_net.Proxy.Threads.{
  joining, spinning, before_init, proxy_init, main_turn, stop_begin, stop_turn, work_turn, turn_at,
  all_over, Turn, starts, main_goes, stops, stopper_goes, works, init_at, turn, interleaved,
}
use gen_net.Proxy.Threads.Stops.{is_up, is_telling, stops-IsUp}
use gen_net.Proxy.Users.{first_of}
use gen_net.Proxy.Loads.{Shares, proxy_load-Shares, AllFree}

abbrev enough : Memory
enough = (true, true, true)

-- the third line has no password, and the memory for the fourth one is short
abbrev lines : List (Memory × List ℕ)
lines =
    (enough, codes "ann pw 0x1F\n")
    ∷ (enough, codes " ann  other\n")
    ∷ (enough, codes "carl\n")
    ∷ ((true, true, false), codes "dora pw\n")
    ∷ (enough, codes "bob x 100000002\n")
    ∷ []

abbrev files : Files
files f = some lines

abbrev settings : Settings
settings = record reset { auth_file = codes "users" }

-- one worker that was not started, and one that a thread has asked to reload
abbrev a_history : List Choice
a_history = sets 7 ∷ asks load ∷ proceeds ∷ proceeds ∷ proceeds ∷ reads ∷ reads ∷ []

abbrev proxy : Proxy
proxy = record {
  workers = worker_new ∷ schedule a_history (worker_start worker_new) ∷ [];
  auths = [];
}

proxy-AllFree : AllFree proxy.workers
unfolding schedule step begin_send go_on take_turn worker_load receive worker_set_auth set_next
    worker_start worker_new
proxy-AllFree = (inl refl, (inr (a_history, refl, refl), tt))

proxy_load-Shares_example :
    Shares proxy (first_of lines) (proxy_load files enough true settings proxy)
proxy_load-Shares_example =
    proxy_load-Shares files enough settings proxy (codes "users") lines proxy-AllFree refl refl

lines_read :
    (first_of lines (codes "ann")
      ≡ some (record { name = codes "ann"; pass = codes "pw"; mark = 31 }))
    × (first_of lines (codes "bob")
        ≡ some (record { name = codes "bob"; pass = codes "x"; mark = 2 }))
    × (first_of lines (codes "carl") ≡ none)
    × (first_of lines (codes "dora") ≡ none)
unfolding first_of line_user user_of user_mark_new user_construct scan_line scan_name scan_pass
    scan_s scan_mark without_0x skip_spaces signed digits field name_cmp memcmp
lines_read = (refl, refl, refl, refl)

-- a password without a name: the length of a null pointer is asked for
nameless : proxy_load files enough true (record reset { password = codes "pw" }) proxy ≡ none
unfolding proxy_load load_from source load_single hand_out
nameless = refl

-- two starts, with a request to stop during the second one
abbrev busy : List Turn
busy =
    starts true 1
    ∷ main_goes
    ∷ main_goes
    ∷ main_goes
    ∷ works 0 true
    ∷ stops
    ∷ stopper_goes
    ∷ stopper_goes
    ∷ stopper_goes
    ∷ works 0 true
    ∷ main_goes
    ∷ main_goes
    ∷ main_goes
    ∷ stopper_goes
    ∷ main_goes
    ∷ main_goes
    ∷ starts true 2
    ∷ main_goes
    ∷ stops
    ∷ main_goes
    ∷ stopper_goes
    ∷ []

busy_telling : is_telling (interleaved busy before_init).stopper ≡ true
unfolding interleaved turn init_at proxy_init main_turn stop_begin stop_turn work_turn turn_at
    all_over
busy_telling = refl

stops-IsUp_example : is_up (interleaved busy before_init).main ≡ true
stops-IsUp_example = stops-IsUp busy busy_telling

-- A request to stop before the start: the main thread goes back at once and waits for a thread that
-- nothing will let go on.
abbrev early : List Turn
early =
    stops
    ∷ stopper_goes
    ∷ stopper_goes
    ∷ starts true 1
    ∷ main_goes
    ∷ main_goes
    ∷ main_goes
    ∷ replicate 50 main_goes

early_hangs :
    let s = interleaved (replicate 50 (works 0 true)) (interleaved early before_init) in
    (s.main ≡ joining) × (s.threads ≡ spinning ∷ [])
unfolding interleaved turn init_at proxy_init main_turn stop_begin stop_turn work_turn turn_at
    all_over
early_hangs = (refl, refl)

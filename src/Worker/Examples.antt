-- ===== src/Worker/Examples.antt =====
-- hev-socks5-worker.c with two requests and three connections.
use gen_net.Base.{
  ℕ, ◌+◌, ◌≤◌, ◌≡◌, refl, ◌⊎◌, inl, true, false, some, List, [], ◌∷◌, length, replicate,
}
use mathlib.Core.List.{map}
use gen_net.Worker.{
  load, stop, outside, worker_new, worker_start, worker_destroy, begin_send, go_on, take_turn,
  worker_load, receive, set_next, worker_set_auth, Choice, asks, sets, proceeds, reads, step,
  schedule,
}
use gen_net.Worker.Requests.{stops_in, loads_in, one_if, pipe-Short}
use gen_net.Worker.Requests.Stops.{stop-Reaches}
use gen_net.Worker.Reload.{load-Reaches}
use gen_net.Worker.Owners.{count, held, times_set, worker_destroy-Releases}
use gen_net.HevList.Refines.{Represents}
use gen_net.Worker.Sessions.{
  no_sessions, Happening, accepted, failed_accept, refused, ends, happen, happen_all,
}
use gen_net.Worker.Sessions.Accounts.{happen_all-Accounted}

-- a request to reload that the task has begun to read
abbrev earlier : List Choice
earlier = sets 1 ∷ reads ∷ asks load ∷ proceeds ∷ proceeds ∷ reads ∷ proceeds ∷ []

abbrev meanwhile : List Choice
meanwhile = proceeds ∷ reads ∷ asks load ∷ proceeds ∷ proceeds ∷ []

pipe-Short_example :
    let w = schedule earlier (worker_start worker_new) in
    (length w.pipe ≤ 2)
    × (stops_in w.pipe ≤ one_if w.tsync.sent_s)
    × (loads_in w.pipe ≤ one_if w.tsync.sent_r)
pipe-Short_example = pipe-Short earlier

free_before : (schedule earlier (worker_start worker_new)).sender ≡ outside
unfolding schedule step begin_send go_on take_turn worker_load receive worker_set_auth set_next
    worker_start worker_new
free_before = refl

free_after :
    (schedule (asks stop ∷ meanwhile) (schedule earlier (worker_start worker_new))).sender ≡ outside
unfolding schedule step begin_send go_on take_turn worker_load receive worker_set_auth set_next
    worker_start worker_new
free_after = refl

stop-Reaches_example :
    (schedule
      (replicate 8 reads)
      (schedule (asks stop ∷ meanwhile) (schedule earlier (worker_start worker_new)))).run
    ≡ false
stop-Reaches_example = stop-Reaches earlier meanwhile free_before free_after

used_before : (schedule earlier (worker_start worker_new)).auth_curr ≡ some 1
unfolding schedule step begin_send go_on take_turn worker_load receive worker_set_auth set_next
    worker_start worker_new
used_before = refl

free_reload :
    (schedule (sets 2 ∷ asks load ∷ meanwhile) (schedule earlier (worker_start worker_new))).sender
    ≡ outside
unfolding schedule step begin_send go_on take_turn worker_load receive worker_set_auth set_next
    worker_start worker_new
free_reload = refl

load-Reaches_example :
    let t =
      schedule
        (replicate 8 reads)
        (schedule (sets 2 ∷ asks load ∷ meanwhile) (schedule earlier (worker_start worker_new))) in
    (t.auth_curr ≡ some 2) ⊎ (t.run ≡ false)
load-Reaches_example =
    load-Reaches 2 earlier meanwhile 1 (refl, (refl, (refl, (refl, (refl, tt))))) free_before
      used_before free_reload

worker_destroy-Releases_example :
    let w = schedule earlier (worker_start worker_new) in
    (count 1 w.unrefs + held 1 w.auth_curr + held 1 w.auth_next ≡ times_set 1 earlier)
    × (w.sender ≡ outside → count 1 (worker_destroy w).unrefs ≡ times_set 1 earlier)
worker_destroy-Releases_example = worker_destroy-Releases 1 earlier

abbrev connections : List Happening
connections =
    accepted 10 true true
    ∷ accepted 11 false true
    ∷ failed_accept
    ∷ accepted 12 true true
    ∷ ends 0
    ∷ accepted 13 true false
    ∷ []

happen_all-Accounted_example :
    let p = happen_all (some 1) connections no_sessions in
    Represents p.session_set (1 ∷ [])
    × ((n : ℕ)
        → count n p.closed + count n (map p.fd_of (1 ∷ [])) ≡ count n (10 ∷ 11 ∷ 12 ∷ 13 ∷ []))
    × ((happen (some 1) refused p).terminated ≡ 1 ∷ [])
happen_all-Accounted_example =
    happen_all-Accounted (some 1) connections (tt, (tt, (tt, (tt, (inl refl, (tt, tt))))))

-- ===== src/Worker/Requests.antt =====
-- hev-socks5-worker.c: the requests that are on their way to the event task.
pub mod Stops
use gen_net.Base.{
  ℕ, zero, suc, ◌+◌, ◌≤◌, ◌≡◌, refl, sym, ◌∙◌, ◌⊎◌, inl, inr, Bool, true, false, not, Option, none,
  some, List, [], ◌∷◌, ◌++◌, arith, length, if◌then◌else◌,
}
use gen_net.Worker.{
  Message, stop, load, Sync, Sender, outside, entered, marked, leaving, Reader, unstarted, starting,
  loading, reading, got, stopping, finished, Worker, worker_new, worker_start, begin_send, go_on,
  worker_load, receive, take_turn, set_next, worker_set_auth, Choice, asks, sets, proceeds, reads,
  step, schedule,
}

-- how many requests to stop, and how many to reload, are in the pipe
abbrev pub stops_in : List Message → ℕ
stops_in [] = 0
stops_in (stop ∷ l) = suc (stops_in l)
stops_in (load ∷ l) = stops_in l

abbrev pub loads_in : List Message → ℕ
loads_in [] = 0
loads_in (stop ∷ l) = loads_in l
loads_in (load ∷ l) = suc (loads_in l)

-- how many are about to be written, and how many were read and are not yet noted
abbrev pub stops_out : Sender → ℕ
stops_out (marked stop true) = 1
stops_out _ = 0

abbrev pub loads_out : Sender → ℕ
loads_out (marked load true) = 1
loads_out _ = 0

abbrev pub stops_held : Reader → ℕ
stops_held (got stop) = 1
stops_held _ = 0

abbrev pub loads_held : Reader → ℕ
loads_held (got load) = 1
loads_held _ = 0

abbrev pub holds : Sender → Bool
holds outside = false
holds _ = true

abbrev pub one_if : Bool → ℕ
one_if true = 1
one_if false = 0

-- The bits of `tsync` say what is on its way.
pub record IsConsistent (w : Worker) : Type 0 where
  pub sends : w.tsync.send ≡ true
  pub waits : w.tsync.wait ≡ holds w.sender
  pub stops : stops_in w.pipe + stops_out w.sender + stops_held w.reader ≡ one_if w.tsync.sent_s
  pub loads : loads_in w.pipe + loads_out w.sender + loads_held w.reader ≡ one_if w.tsync.sent_r
  pub ended : w.reader ≡ finished → w.run ≡ false

stops_in-append :
    (l : List Message) (r : Message) → stops_in (l ++ r ∷ []) ≡ stops_in l + stops_in (r ∷ [])
stops_in-append [] r = ground arith
stops_in-append (stop ∷ l) r = omega (arith, stops_in-append l r)
stops_in-append (load ∷ l) r = omega (arith, stops_in-append l r)

loads_in-append :
    (l : List Message) (r : Message) → loads_in (l ++ r ∷ []) ≡ loads_in l + loads_in (r ∷ [])
loads_in-append [] r = ground arith
loads_in-append (stop ∷ l) r = omega (arith, loads_in-append l r)
loads_in-append (load ∷ l) r = omega (arith, loads_in-append l r)

pub length-pipe : (l : List Message) → length l ≡ stops_in l + loads_in l
length-pipe [] = omega arith
length-pipe (stop ∷ l) = omega (arith, length-pipe l)
length-pipe (load ∷ l) = omega (arith, length-pipe l)

worker_new-IsConsistent : IsConsistent (worker_start worker_new)
unfolding worker_start worker_new
worker_new-IsConsistent = record {
  sends = refl;
  waits = refl;
  stops = refl;
  loads = refl;
  ended = λ e. cc;
}

begin_send-IsConsistent :
    (r : Message) (w : Worker) → IsConsistent w → IsConsistent (begin_send r w)
unfolding begin_send
begin_send-IsConsistent stop w c = ground arith
begin_send-IsConsistent load w c = ground arith

go_on-IsConsistent :
    (s : Sender) (w : Worker) → w.sender ≡ s → IsConsistent w → IsConsistent (go_on s w)
unfolding go_on
go_on-IsConsistent outside w e c = c
go_on-IsConsistent (entered stop true) w e c = ground arith
go_on-IsConsistent (entered load true) w e c = ground arith
go_on-IsConsistent (entered stop false) w e c = ground arith
go_on-IsConsistent (entered load false) w e c = ground arith
go_on-IsConsistent (marked stop true) w e c =
    ground (arith, stops_in-append w.pipe stop, loads_in-append w.pipe stop)
go_on-IsConsistent (marked load true) w e c =
    ground (arith, stops_in-append w.pipe load, loads_in-append w.pipe load)
go_on-IsConsistent (marked stop false) w e c = ground arith
go_on-IsConsistent (marked load false) w e c = ground arith
go_on-IsConsistent leaving w e c = ground arith

worker_load-IsConsistent :
    (o : Option ℕ) (w : Worker)
    → w.reader ≡ loading
    → IsConsistent w
    → IsConsistent (record (worker_load o w) { reader = reading })
unfolding worker_load
worker_load-IsConsistent none w e c = ground arith
worker_load-IsConsistent (some a) w e c = ground arith

receive-IsConsistent :
    (l : List Message) (w : Worker)
    → w.reader ≡ reading
    → w.pipe ≡ l
    → IsConsistent w
    → IsConsistent (receive l w)
unfolding receive
receive-IsConsistent [] w e p c = c
receive-IsConsistent (stop ∷ l) w e p c = ground arith
receive-IsConsistent (load ∷ l) w e p c = ground arith

take_turn-IsConsistent :
    (r : Reader) (w : Worker) → w.reader ≡ r → IsConsistent w → IsConsistent (take_turn r w)
unfolding take_turn
take_turn-IsConsistent unstarted w e c = c
take_turn-IsConsistent starting w e c = ground arith
take_turn-IsConsistent loading w e c = worker_load-IsConsistent w.auth_next w e c
take_turn-IsConsistent reading w e c = receive-IsConsistent w.pipe w e refl c
take_turn-IsConsistent (got load) w e c = ground arith
take_turn-IsConsistent (got stop) w e c = ground arith
take_turn-IsConsistent stopping w e c = ground arith
take_turn-IsConsistent finished w e c = c

set_next-IsConsistent :
    (o : Option ℕ) (a : ℕ) (w : Worker) → IsConsistent w → IsConsistent (set_next o a w)
unfolding set_next
set_next-IsConsistent none a w c = ground arith
set_next-IsConsistent (some b) a w c = ground arith

pub step-IsConsistent : (c : Choice) (w : Worker) → IsConsistent w → IsConsistent (step c w)
unfolding step worker_set_auth
step-IsConsistent (asks r) w c = begin_send-IsConsistent r w c
step-IsConsistent (sets a) w c = set_next-IsConsistent w.auth_curr a w c
step-IsConsistent proceeds w c = go_on-IsConsistent w.sender w refl c
step-IsConsistent reads w c = take_turn-IsConsistent w.reader w refl c

pub schedule-IsConsistent :
    (cs : List Choice) (w : Worker) → IsConsistent w → IsConsistent (schedule cs w)
unfolding schedule
schedule-IsConsistent [] w h = h
schedule-IsConsistent (c ∷ cs) w h = schedule-IsConsistent cs (step c w) (step-IsConsistent c w h)

-- however the threads take turns after the start
pub started-IsConsistent : (cs : List Choice) → IsConsistent (schedule cs (worker_start worker_new))
started-IsConsistent cs = schedule-IsConsistent cs _ worker_new-IsConsistent

pub pipe-le : (w : Worker) → IsConsistent w → length w.pipe ≤ 2
pipe-le w c = ground (arith, length-pipe w.pipe)

-- However many threads ask for whatever, at most two requests are in the pipe, one of each kind, and
-- their bits are set: so writing to it never has to wait.
pub pipe-Short :
    (cs : List Choice)
    → let w = schedule cs (worker_start worker_new) in
      (length w.pipe ≤ 2)
      × (stops_in w.pipe ≤ one_if w.tsync.sent_s)
      × (loads_in w.pipe ≤ one_if w.tsync.sent_r)
pipe-Short cs =
    let w = schedule cs (worker_start worker_new) in
    let c = started-IsConsistent cs in (pipe-le w c, omega (arith, c.stops), omega (arith, c.loads))

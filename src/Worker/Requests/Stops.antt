-- ===== src/Worker/Requests/Stops.antt =====
-- hev-socks5-worker.c: a request to stop.
use gen_net.Base.{
  ℕ, zero, suc, ◌+◌, ◌*◌, ◌≤◌, ◌≡◌, refl, sym, ap, subst, ◌∙◌, ◌⊎◌, inl, inr, Bool, true, false,
  ◌||◌, List, [], ◌∷◌, arith, length, replicate,
}
use gen_net.Worker.{
  Message, stop, load, Sender, outside, entered, marked, leaving, Reader, unstarted, starting,
  loading, reading, got, stopping, finished, Worker, worker_new, worker_start, begin_send, go_on,
  worker_load, receive, take_turn, set_next, worker_set_auth, Choice, asks, sets, proceeds, reads,
  step, schedule,
}
use gen_net.Worker.Requests.{
  IsConsistent, step-IsConsistent, schedule-IsConsistent, started-IsConsistent, pipe-le, stops_in,
}

abbrev pub is_on : Reader → Bool
is_on unstarted = false
is_on _ = true

abbrev pub is_stopping : Reader → Bool
is_stopping stopping = true
is_stopping finished = true
is_stopping _ = false

abbrev enters_stop : Sender → Bool
enters_stop (entered stop true) = true
enters_stop _ = false

-- A request to stop is on its way, or was read.
abbrev will_stop : Worker → Bool
will_stop w = w.tsync.sent_s || is_stopping w.reader || enters_stop w.sender

record Stops (w : Worker) : Type 0 where
  on : is_on w.reader ≡ true
  stops : will_stop w ≡ true

go_on-Stops : (s : Sender) (w : Worker) → w.sender ≡ s → Stops w → Stops (go_on s w)
unfolding go_on
go_on-Stops outside w e c = c
go_on-Stops (entered stop true) w e c = ground arith
go_on-Stops (entered load true) w e c = ground arith
go_on-Stops (entered stop false) w e c = ground arith
go_on-Stops (entered load false) w e c = ground arith
go_on-Stops (marked stop true) w e c = ground arith
go_on-Stops (marked load true) w e c = ground arith
go_on-Stops (marked r false) w e c = ground arith
go_on-Stops leaving w e c = ground arith

take_turn-Stops : (r : Reader) (w : Worker) → w.reader ≡ r → Stops w → Stops (take_turn r w)
unfolding take_turn worker_load receive
take_turn-Stops unstarted w e c = c
take_turn-Stops starting w e c = ground arith
take_turn-Stops loading w e c = ground arith
take_turn-Stops reading w e c = ground arith
take_turn-Stops (got load) w e c = ground arith
take_turn-Stops (got stop) w e c = ground arith
take_turn-Stops stopping w e c = ground arith
take_turn-Stops finished w e c = c

begin_send-Stops : (r : Message) (w : Worker) → IsConsistent w → Stops w → Stops (begin_send r w)
unfolding begin_send
begin_send-Stops stop w i c = ground arith
begin_send-Stops load w i c = ground arith

step-Stops : (c : Choice) (w : Worker) → IsConsistent w → Stops w → Stops (step c w)
unfolding step worker_set_auth set_next
step-Stops (asks r) w i c = begin_send-Stops r w i c
step-Stops (sets a) w i c = ground arith
step-Stops proceeds w i c = go_on-Stops w.sender w refl c
step-Stops reads w i c = take_turn-Stops w.reader w refl c

schedule-Stops : (cs : List Choice) (w : Worker) → IsConsistent w → Stops w → Stops (schedule cs w)
unfolding schedule
schedule-Stops [] w i h = h
schedule-Stops (c ∷ cs) w i h =
    schedule-Stops cs (step c w) (step-IsConsistent c w i) (step-Stops c w i h)

-- how many turns the event task may take before it has read all requests
abbrev pub pending : Reader → ℕ
pending starting = 2
pending loading = 1
pending (got r) = 2
pending stopping = 1
pending _ = 0

abbrev pub turns : Worker → ℕ
turns w = 3 * length w.pipe + pending w.reader

module _ (w : Worker) (i : IsConsistent w) (h : Stops w) (o : w.sender ≡ outside) where
  receive-turns :
      (l : List Message) → w.pipe ≡ l → w.reader ≡ reading → turns (receive l w) + 1 ≤ turns w
  unfolding receive
  receive-turns [] p e = absurd (ground (arith, i.stops, h.stops, ap stops_in p))
  receive-turns (r ∷ rest) p e = rw (p, e) (omega arith)

  take_turn-turns :
      (r : Reader) → w.reader ≡ r → (w.reader ≡ finished) ⊎ (turns (take_turn r w) + 1 ≤ turns w)
  unfolding take_turn worker_load
  take_turn-turns unstarted e = absurd (ground (arith, h.on))
  take_turn-turns starting e = inr (ground arith)
  take_turn-turns loading e = inr (ground arith)
  take_turn-turns reading e = inr (receive-turns w.pipe refl e)
  take_turn-turns (got load) e = inr (ground arith)
  take_turn-turns (got stop) e = inr (ground arith)
  take_turn-turns stopping e = inr (ground arith)
  take_turn-turns finished e = inl e

pub take_turn-sender : (r : Reader) (w : Worker) → (take_turn r w).sender ≡ w.sender
unfolding take_turn worker_load receive
take_turn-sender r w = ground arith

take_turn-finished : (r : Reader) (w : Worker) → r ≡ finished → take_turn r w ≡ w
unfolding take_turn
take_turn-finished r w e = rw e refl

pub finished_run :
    (n : ℕ) (w : Worker)
    → w.reader ≡ finished
    → w.run ≡ false
    → (schedule (replicate n reads) w).run ≡ false
unfolding schedule step
finished_run zero w e f = f
finished_run (suc n) w e f =
    subst (λ v. (schedule (replicate n reads) v).run ≡ false)
      (sym (take_turn-finished w.reader w e)) (finished_run n w e f)

-- The event task stops within its turns.
reads-Stop :
    (n : ℕ) (w : Worker)
    → IsConsistent w
    → Stops w
    → w.sender ≡ outside
    → turns w ≤ n
    → (schedule (replicate n reads) w).run ≡ false
unfolding schedule step
reads-Stop zero w i h o b = ground (arith, take_turn-turns w i h o w.reader refl, i.ended)
reads-Stop (suc n) w i h o b = elim (take_turn-turns w i h o w.reader refl) [
  | inl e ↦ finished_run (suc n) w e (i.ended e)
  | inr l ↦
      reads-Stop n (take_turn w.reader w) (step-IsConsistent reads w i) (step-Stops reads w i h)
        (take_turn-sender w.reader w ∙ o) (omega arith)
]

begin_stop-Stops :
    (w : Worker)
    → IsConsistent w
    → is_on w.reader ≡ true
    → w.sender ≡ outside
    → Stops (step (asks stop) w)
unfolding step begin_send
begin_stop-Stops w i h o = ground arith

pub step-on : (c : Choice) (w : Worker) → is_on w.reader ≡ true → is_on (step c w).reader ≡ true
unfolding step begin_send go_on take_turn worker_load receive worker_set_auth set_next
step-on (asks r) w h = ground arith
step-on (sets a) w h = ground arith
step-on proceeds w h = ground arith
step-on reads w h = ground arith

pub schedule-on :
    (cs : List Choice) (w : Worker) → is_on w.reader ≡ true → is_on (schedule cs w).reader ≡ true
unfolding schedule
schedule-on [] w h = h
schedule-on (c ∷ cs) w h = schedule-on cs (step c w) (step-on c w h)

pub started-on : is_on (worker_start worker_new).reader ≡ true
unfolding worker_start worker_new
started-on = refl

pub turns-le : (w : Worker) → length w.pipe ≤ 2 → turns w ≤ 8
turns-le w h = ground arith

-- Once a thread has asked a worker that was started to stop, and no thread is in the middle of asking,
-- the worker stops within eight turns of its event task, whatever the threads and the task did before
-- and in the meantime.
pub stop-Reaches :
    (before during : List Choice)
    → let w = schedule before (worker_start worker_new) in
      let v = schedule (asks stop ∷ during) w in
      w.sender ≡ outside → v.sender ≡ outside → (schedule (replicate 8 reads) v).run ≡ false
unfolding schedule step
stop-Reaches before during free done =
    let w = schedule before (worker_start worker_new) in
    let i = started-IsConsistent before in
    let asked = step (asks stop) w in
    let i' = step-IsConsistent (asks stop) w i in
    let s = begin_stop-Stops w i (schedule-on before _ started-on) free in
    let v = schedule during asked in
    let iv = schedule-IsConsistent during asked i' in
    reads-Stop 8 v iv (schedule-Stops during asked i' s) done (turns-le v (pipe-le v iv))

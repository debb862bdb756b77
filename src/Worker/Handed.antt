-- ===== src/Worker/Handed.antt =====
-- hev-socks5-worker.c: an authenticator that one thread sets before it asks to reload.
use gen_net.Base.{
  ℕ, ◌≡◌, refl, ◌∙◌, ap, subst, ◌⊎◌, inl, inr, Bool, true, false, not, Option, none, some, List, [],
  ◌∷◌, arith, replicate, Option-cases,
}
use gen_net.Worker.{
  Message, stop, load, Sender, outside, entered, marked, leaving, Reader, unstarted, starting,
  loading, reading, got, stopping, finished, Worker, worker_new, worker_start, begin_send, go_on,
  worker_load, receive, take_turn, set_next, worker_set_auth, Choice, asks, sets, proceeds, reads,
  step, schedule, sent_flag,
}
use gen_net.Worker.Requests.{IsConsistent, started-IsConsistent}
use gen_net.Worker.Requests.Stops.{is_on, schedule-on, started-on}
use gen_net.Worker.Reload.{InUse, reads-InUse, load-Reaches}

-- what a thread does that is alone
abbrev pub handed : ℕ → List Choice
handed a = sets a ∷ asks load ∷ proceeds ∷ proceeds ∷ proceeds ∷ []

-- only behind one that is in use does another one wait
abbrev Ordered : Worker → Type 0
Ordered w = w.auth_curr ≡ none → w.auth_next ≡ none

load-Ordered :
    (o : Option ℕ) (w : Worker)
    → Ordered w
    → Ordered (record (worker_load o w) { reader = reading })
unfolding worker_load
load-Ordered none w h = h
load-Ordered (some b) w h = λ e. absurd (cc)

take_turn-Ordered : (r : Reader) (w : Worker) → Ordered w → Ordered (take_turn r w)
unfolding take_turn receive
take_turn-Ordered unstarted w h = h
take_turn-Ordered starting w h = h
take_turn-Ordered loading w h = load-Ordered w.auth_next w h
take_turn-Ordered reading w h = ground arith
take_turn-Ordered (got load) w h = h
take_turn-Ordered (got stop) w h = h
take_turn-Ordered stopping w h = h
take_turn-Ordered finished w h = h

go_on-Ordered : (s : Sender) (w : Worker) → Ordered w → Ordered (go_on s w)
unfolding go_on
go_on-Ordered outside w h = h
go_on-Ordered (entered r true) w h = h
go_on-Ordered (entered r false) w h = h
go_on-Ordered (marked r true) w h = h
go_on-Ordered (marked r false) w h = h
go_on-Ordered leaving w h = h

set_next-Ordered : (o : Option ℕ) (a : ℕ) (w : Worker) → w.auth_curr ≡ o → Ordered (set_next o a w)
unfolding set_next
set_next-Ordered none a w e = λ h. absurd (cc)
set_next-Ordered (some c) a w e = λ h. absurd (cc)

step-Ordered : (c : Choice) (w : Worker) → Ordered w → Ordered (step c w)
unfolding step begin_send worker_set_auth
step-Ordered (asks r) w h = ground arith
step-Ordered (sets a) w h = set_next-Ordered w.auth_curr a w refl
step-Ordered proceeds w h = go_on-Ordered w.sender w h
step-Ordered reads w h = take_turn-Ordered w.reader w h

schedule-Ordered : (cs : List Choice) (w : Worker) → Ordered w → Ordered (schedule cs w)
unfolding schedule
schedule-Ordered [] w h = h
schedule-Ordered (c ∷ cs) w h = schedule-Ordered cs (step c w) (step-Ordered c w h)

started-Ordered : Ordered (worker_start worker_new)
unfolding worker_start worker_new
started-Ordered = λ h. refl

begin_send-InUse : (a : ℕ) (r : Message) (w : Worker) → InUse a w → InUse a (begin_send r w)
unfolding begin_send
begin_send-InUse a r w h = ground arith

go_on-InUse : (a : ℕ) (s : Sender) (w : Worker) → InUse a w → InUse a (go_on s w)
unfolding go_on
go_on-InUse a outside w h = h
go_on-InUse a (entered r true) w h = h
go_on-InUse a (entered r false) w h = h
go_on-InUse a (marked r true) w h = h
go_on-InUse a (marked r false) w h = h
go_on-InUse a leaving w h = h

-- Where none is in use and none waits, it is in use at once.
first-InUse :
    (a : ℕ) (w : Worker) → w.auth_curr ≡ none → w.auth_next ≡ none → InUse a (schedule (handed a) w)
unfolding schedule step worker_set_auth set_next
first-InUse a w e n =
    let v = worker_set_auth a w in
    let now : InUse a v = ground arith in
    let sent = begin_send load v in
    let once = go_on sent.sender sent in
    let twice = go_on once.sender once in
    go_on-InUse a twice.sender twice (
      go_on-InUse a once.sender once
        (go_on-InUse a sent.sender sent (begin_send-InUse a load v now)))

-- The thread that holds the bit is done within three steps.
proceeds-from : (s : Sender) (w : Worker) → w.sender ≡ s → step proceeds w ≡ go_on s w
unfolding step
proceeds-from s w e = ap (λ t. go_on t w) e

sends-from :
    (s : Sender) (w : Worker) → w.sender ≡ s → (step proceeds w).sender ≡ (go_on s w).sender
sends-from s w e = ap (λ v. v.sender) (proceeds-from s w e)

free-outside : (w : Worker) → w.sender ≡ outside → (step proceeds w).sender ≡ outside
unfolding go_on
free-outside w e = sends-from outside w e ∙ e

leaving-outside : (w : Worker) → w.sender ≡ leaving → (step proceeds w).sender ≡ outside
unfolding go_on
leaving-outside w e = sends-from leaving w e

marked-outside :
    (r : Message) (b : Bool) (w : Worker)
    → w.sender ≡ marked r b
    → (step proceeds (step proceeds w)).sender ≡ outside
unfolding go_on
marked-outside r true w e = leaving-outside (step proceeds w) (sends-from (marked r true) w e)
marked-outside r false w e = free-outside (step proceeds w) (sends-from (marked r false) w e)

entered-outside :
    (r : Message) (b : Bool) (w : Worker)
    → w.sender ≡ entered r b
    → (step proceeds (step proceeds (step proceeds w))).sender ≡ outside
unfolding go_on
entered-outside r true w e =
    marked-outside r (not (sent_flag r w.tsync)) (step proceeds w) (sends-from (entered r true) w e)
entered-outside r false w e =
    free-outside (step proceeds (step proceeds w))
      (leaving-outside (step proceeds w) (sends-from (entered r false) w e))

asked-entered :
    (a : ℕ) (w : Worker)
    → IsConsistent w
    → w.sender ≡ outside
    → (step (asks load) (step (sets a) w)).sender ≡ entered load w.tsync.send
unfolding step begin_send worker_set_auth set_next
asked-entered a w i o = ground arith

handed-outside :
    (a : ℕ) (w : Worker)
    → IsConsistent w
    → w.sender ≡ outside
    → (schedule (handed a) w).sender ≡ outside
unfolding schedule
handed-outside a w i o = entered-outside load w.tsync.send _ (asked-entered a w i o)

-- The worker uses the authenticator once its event task has had eight turns, or was stopped.
abbrev pub Serves : ℕ → Worker → Type 0
Serves a v =
    let t = schedule (replicate 8 reads) v in
    (t.auth_curr ≡ some a) ⊎ ((t.run ≡ false) × (is_on t.reader ≡ true))

handed-Serves :
    (a : ℕ) (before : List Choice)
    → (schedule before (worker_start worker_new)).sender ≡ outside
    → Serves a (schedule (handed a) (schedule before (worker_start worker_new)))
handed-Serves a before free =
    let w = schedule before (worker_start worker_new) in
    let v = schedule (handed a) w in
    let i = started-IsConsistent before in
    let on =
      schedule-on (replicate 8 reads) v
        (schedule-on (handed a) w (schedule-on before _ started-on)) in
    elim (Option-cases w.auth_curr) [
      | inl none_used ↦
          let none_waits =
            schedule-Ordered before (worker_start worker_new) started-Ordered none_used in
          inl (reads-InUse a 8 v (first-InUse a w none_used none_waits))
      | inr (c, used) ↦
          elim (load-Reaches a before (proceeds ∷ proceeds ∷ proceeds ∷ []) c
            (refl, (refl, (refl, tt))) free used (handed-outside a w i free)) [
              | inl e ↦ inl e
              | inr e ↦ inr (e, on)
            ]
    ]

-- A worker that was not started yet uses it at once.
new-Serves : (a : ℕ) → Serves a (schedule (handed a) worker_new)
unfolding worker_new
new-Serves a = inl (reads-InUse a 8 _ (first-InUse a worker_new refl refl))

-- A worker that was made and not started yet, or one that was started and that no thread is asking
-- for something, whatever happened before.
abbrev pub Free : Worker → Type 0
Free w =
    (w ≡ worker_new)
    ⊎ ((before : List Choice) × (w ≡ schedule before (worker_start worker_new))
        × (w.sender ≡ outside))

pub Free-Serves : (a : ℕ) (w : Worker) → Free w → Serves a (schedule (handed a) w)
Free-Serves a w (inl e) = rw e (new-Serves a)
Free-Serves a w (inr (before, e, free)) =
    rw e (handed-Serves a before (subst (λ v. v.sender ≡ outside) e free))

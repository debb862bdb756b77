-- ===== src/Worker/Reload.antt =====
-- hev-socks5-worker.c: a request to reload, behind a new authenticator.
use gen_net.Base.{
  ℕ, zero, suc, ◌+◌, ◌≤◌, ◌≡◌, refl, ap, ◌∙◌, ◌⊎◌, inl, inr, Bool, true, false, ◌||◌, Option, none,
  some, List, [], ◌∷◌, arith, replicate,
}
use gen_net.Worker.{
  Message, stop, load, Sender, outside, entered, marked, leaving, Reader, unstarted, starting,
  loading, reading, got, stopping, finished, Worker, worker_new, worker_start, begin_send, go_on,
  worker_load, receive, take_turn, set_next, worker_set_auth, Choice, asks, sets, proceeds, reads,
  step, schedule,
}
use gen_net.Worker.Requests.{
  IsConsistent, step-IsConsistent, schedule-IsConsistent, started-IsConsistent, pipe-le, loads_in,
}
use gen_net.Worker.Requests.Stops.{
  is_on, is_stopping, schedule-on, started-on, turns, turns-le, finished_run, take_turn-sender,
}

abbrev is_loading : Reader → Bool
is_loading loading = true
is_loading _ = false

abbrev enters_load : Sender → Bool
enters_load (entered load true) = true
enters_load _ = false

-- A request to reload is on its way, or was read, or the task stops.
abbrev will_load : Worker → Bool
will_load w = w.tsync.sent_r || is_loading w.reader || enters_load w.sender || is_stopping w.reader

-- `a` is in use, or will be
record Loads (a : ℕ) (w : Worker) : Type 0 where
  on : is_on w.reader ≡ true
  loads :
      ((w.auth_curr ≡ some a) × (w.auth_next ≡ none))
      ⊎ ((w.auth_next ≡ some a) × (will_load w ≡ true))

abbrev is_set : Choice → Bool
is_set (sets a) = true
is_set _ = false

-- no other authenticator is set
abbrev pub NoneSet : List Choice → Type 0
NoneSet [] = Unit
NoneSet (c ∷ cs) = (is_set c ≡ false) × NoneSet cs

module _ (a : ℕ) where
  go_on-Loads : (s : Sender) (w : Worker) → w.sender ≡ s → Loads a w → Loads a (go_on s w)
  unfolding go_on
  go_on-Loads outside w e c = c
  go_on-Loads (entered stop true) w e c = ground arith
  go_on-Loads (entered load true) w e c = ground arith
  go_on-Loads (entered stop false) w e c = ground arith
  go_on-Loads (entered load false) w e c = ground arith
  go_on-Loads (marked stop true) w e c = ground arith
  go_on-Loads (marked load true) w e c = ground arith
  go_on-Loads (marked r false) w e c = ground arith
  go_on-Loads leaving w e c = ground arith

  load-Loads :
      (o : Option ℕ) (w : Worker)
      → w.auth_next ≡ o
      → w.reader ≡ loading
      → Loads a w
      → Loads a (record (worker_load o w) { reader = reading })
  unfolding worker_load
  load-Loads none w n e c = ground arith
  load-Loads (some b) w n e c = ground arith

  take_turn-Loads : (r : Reader) (w : Worker) → w.reader ≡ r → Loads a w → Loads a (take_turn r w)
  unfolding take_turn receive
  take_turn-Loads unstarted w e c = c
  take_turn-Loads starting w e c = ground arith
  take_turn-Loads loading w e c = load-Loads w.auth_next w refl e c
  take_turn-Loads reading w e c = ground arith
  take_turn-Loads (got load) w e c = ground arith
  take_turn-Loads (got stop) w e c = ground arith
  take_turn-Loads stopping w e c = ground arith
  take_turn-Loads finished w e c = c

  begin_send-Loads :
      (r : Message) (w : Worker) → IsConsistent w → Loads a w → Loads a (begin_send r w)
  unfolding begin_send
  begin_send-Loads stop w i c = ground arith
  begin_send-Loads load w i c = ground arith

  step-Loads :
      (c : Choice) (w : Worker) → is_set c ≡ false → IsConsistent w → Loads a w → Loads a (step c w)
  unfolding step
  step-Loads (asks r) w n i c = begin_send-Loads r w i c
  step-Loads (sets b) w n i c = absurd (cc)
  step-Loads proceeds w n i c = go_on-Loads w.sender w refl c
  step-Loads reads w n i c = take_turn-Loads w.reader w refl c

  schedule-Loads :
      (cs : List Choice) (w : Worker)
      → NoneSet cs
      → IsConsistent w
      → Loads a w
      → Loads a (schedule cs w)
  unfolding schedule
  schedule-Loads [] w n i h = h
  schedule-Loads (c ∷ cs) w n i h =
      schedule-Loads cs (step c w) n.1 (step-IsConsistent c w i) (step-Loads c w n.0 i h)

  abbrev pub InUse : Worker → Type 0
  InUse w = (w.auth_curr ≡ some a) × (w.auth_next ≡ none)

  load-InUse :
      (o : Option ℕ) (w : Worker)
      → w.auth_next ≡ o
      → InUse w
      → InUse (record (worker_load o w) { reader = reading })
  unfolding worker_load
  load-InUse none w e h = h
  load-InUse (some b) w e h = absurd (cc)

  take_turn-InUse : (r : Reader) (w : Worker) → InUse w → InUse (take_turn r w)
  unfolding take_turn receive
  take_turn-InUse unstarted w h = h
  take_turn-InUse starting w h = h
  take_turn-InUse loading w h = load-InUse w.auth_next w refl h
  take_turn-InUse reading w h = ground arith
  take_turn-InUse (got load) w h = h
  take_turn-InUse (got stop) w h = h
  take_turn-InUse stopping w h = h
  take_turn-InUse finished w h = h

  pub reads-InUse :
      (n : ℕ) (w : Worker) → InUse w → (schedule (replicate n reads) w).auth_curr ≡ some a
  unfolding schedule step
  reads-InUse zero w h = h.0
  reads-InUse (suc n) w h = reads-InUse n (take_turn w.reader w) (take_turn-InUse w.reader w h)

  module _ (w : Worker) (i : IsConsistent w) (h : Loads a w) (o : w.sender ≡ outside) where
    abbrev Goes : Worker → Type 0
    Goes v = (w.reader ≡ finished) ⊎ (InUse w ⊎ (turns v + 1 ≤ turns w))

    receive-Goes : (l : List Message) → w.pipe ≡ l → w.reader ≡ reading → Goes (receive l w)
    unfolding receive
    receive-Goes [] p e = inr (inl (ground (arith, i.loads, h.loads, ap loads_in p)))
    receive-Goes (r ∷ rest) p e = inr (inr (rw (p, e) (omega arith)))

    take_turn-Goes : (r : Reader) → w.reader ≡ r → Goes (take_turn r w)
    unfolding take_turn worker_load
    take_turn-Goes unstarted e = absurd (ground (arith, h.on))
    take_turn-Goes starting e = inr (inr (ground arith))
    take_turn-Goes loading e = inr (inr (ground arith))
    take_turn-Goes reading e = receive-Goes w.pipe refl e
    take_turn-Goes (got load) e = inr (inr (ground arith))
    take_turn-Goes (got stop) e = inr (inr (ground arith))
    take_turn-Goes stopping e = inr (inr (ground arith))
    take_turn-Goes finished e = inl e

  abbrev Settled : Worker → Type 0
  Settled w = (w.auth_curr ≡ some a) ⊎ (w.run ≡ false)

  reads-Settled :
      (n : ℕ) (w : Worker)
      → IsConsistent w
      → Loads a w
      → w.sender ≡ outside
      → turns w ≤ n
      → Settled (schedule (replicate n reads) w)
  unfolding schedule step
  reads-Settled zero w i h o b = elim (take_turn-Goes w i h o w.reader refl) [
    | inl e ↦ inr (i.ended e)
    | inr (inl u) ↦ inl u.0
    | inr (inr l) ↦ absurd (omega arith)
  ]
  reads-Settled (suc n) w i h o b = elim (take_turn-Goes w i h o w.reader refl) [
    | inl e ↦ inr (finished_run (suc n) w e (i.ended e))
    | inr (inl u) ↦ inl (reads-InUse (suc n) w u)
    | inr (inr l) ↦
        reads-Settled n (take_turn w.reader w) (step-IsConsistent reads w i)
          (step-Loads reads w refl i h) (take_turn-sender w.reader w ∙ o) (omega arith)
  ]

  -- what setting `a` and asking does, where another one is in use
  asked-Loads :
      (w : Worker) (c : ℕ)
      → IsConsistent w
      → is_on w.reader ≡ true
      → w.sender ≡ outside
      → w.auth_curr ≡ some c
      → Loads a (step (asks load) (step (sets a) w))
  unfolding step begin_send worker_set_auth set_next
  asked-Loads w c i h o u = ground arith

  -- Once an authenticator has been set in place of another one and a thread has asked to reload, and
  -- no thread is in the middle of asking, eight turns of the event task put it in use or have
  -- stopped the worker, whatever happened before and whatever the threads ask for in the meantime,
  -- if they set no other.
  pub load-Reaches :
      (before during : List Choice) (c : ℕ)
      → NoneSet during
      → let w = schedule before (worker_start worker_new) in
        let v = schedule (sets a ∷ asks load ∷ during) w in
        w.sender ≡ outside
        → w.auth_curr ≡ some c
        → v.sender ≡ outside
        → let t = schedule (replicate 8 reads) v in (t.auth_curr ≡ some a) ⊎ (t.run ≡ false)
  unfolding schedule step
  load-Reaches before during c none_set free used done =
      let w = schedule before (worker_start worker_new) in
      let i = started-IsConsistent before in
      let i' = step-IsConsistent (asks load) _ (step-IsConsistent (sets a) w i) in
      let l = asked-Loads w c i (schedule-on before _ started-on) free used in
      let v = schedule (sets a ∷ asks load ∷ during) w in
      let iv = schedule-IsConsistent during _ i' in
      reads-Settled 8 v iv (schedule-Loads during _ none_set i' l) done (turns-le v (pipe-le v iv))

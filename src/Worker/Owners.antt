-- ===== src/Worker/Owners.antt =====
-- hev-socks5-worker.c: the references to authenticators that a worker takes.
use gen_net.Base.{
  ℕ, ◌+◌, ◌≡◌, refl, ap, true, false, Option, none, some, List, [], ◌∷◌, arith, ◌==◌, if◌then◌else◌,
}
use gen_net.Worker.{
  Message, stop, load, Sender, outside, entered, marked, leaving, Reader, unstarted, starting,
  loading, reading, got, stopping, finished, Worker, worker_new, worker_start, begin_send, go_on,
  worker_load, receive, take_turn, set_next, worker_set_auth, worker_destroy, Choice, asks, sets,
  proceeds, reads, step, schedule, unref,
}
use gen_net.Worker.Requests.{IsConsistent, started-IsConsistent}

abbrev pub count : ℕ → List ℕ → ℕ
count x [] = 0
count x (a ∷ l) = (if a == x then 1 else 0) + count x l

-- how often `x` was set
abbrev pub times_set : ℕ → List Choice → ℕ
times_set x [] = 0
times_set x (sets a ∷ cs) = (if a == x then 1 else 0) + times_set x cs
times_set x (_ ∷ cs) = times_set x cs

abbrev pub held : ℕ → Option ℕ → ℕ
held x none = 0
held x (some a) = if a == x then 1 else 0

module _ (x : ℕ) where
  -- the references to `x` that were taken
  abbrev taken : Worker → ℕ
  taken w = count x w.unrefs + held x w.auth_curr + held x w.auth_next

  count-unref : (o : Option ℕ) (l : List ℕ) → count x (unref o l) ≡ held x o + count x l
  count-unref none l = omega arith
  count-unref (some a) l = refl

  load-taken :
      (o : Option ℕ) (w : Worker)
      → w.auth_next ≡ o
      → taken (record (worker_load o w) { reader = reading }) ≡ taken w
  unfolding worker_load
  load-taken none w e = refl
  load-taken (some a) w e = omega (arith, count-unref w.auth_curr w.unrefs, ap (held x) e)

  take_turn-taken : (r : Reader) (w : Worker) → taken (take_turn r w) ≡ taken w
  unfolding take_turn receive
  take_turn-taken unstarted w = refl
  take_turn-taken starting w = refl
  take_turn-taken loading w = load-taken w.auth_next w refl
  take_turn-taken reading w = ground arith
  take_turn-taken (got load) w = refl
  take_turn-taken (got stop) w = refl
  take_turn-taken stopping w = refl
  take_turn-taken finished w = refl

  go_on-taken : (s : Sender) (w : Worker) → taken (go_on s w) ≡ taken w
  unfolding go_on
  go_on-taken outside w = refl
  go_on-taken (entered r true) w = refl
  go_on-taken (entered r false) w = refl
  go_on-taken (marked r true) w = refl
  go_on-taken (marked r false) w = refl
  go_on-taken leaving w = refl

  begin_send-taken : (r : Message) (w : Worker) → taken (begin_send r w) ≡ taken w
  unfolding begin_send
  begin_send-taken r w = ground arith

  set_next-taken :
      (o : Option ℕ) (a : ℕ) (w : Worker)
      → w.auth_curr ≡ o
      → taken (set_next o a w) ≡ (if a == x then 1 else 0) + taken w
  unfolding set_next
  set_next-taken none a w e = omega (arith, count-unref w.auth_curr w.unrefs)
  set_next-taken (some b) a w e = omega (arith, count-unref w.auth_next w.unrefs)

  -- what a choice takes
  abbrev takes : Choice → ℕ
  takes c = times_set x (c ∷ [])

  step-taken : (c : Choice) (w : Worker) → taken (step c w) ≡ takes c + taken w
  unfolding step worker_set_auth
  step-taken (asks r) w = omega (arith, begin_send-taken r w)
  step-taken (sets a) w = omega (arith, set_next-taken w.auth_curr a w refl)
  step-taken proceeds w = omega (arith, go_on-taken w.sender w)
  step-taken reads w = omega (arith, take_turn-taken w.reader w)

  times_set-cons : (c : Choice) (cs : List Choice) → times_set x (c ∷ cs) ≡ takes c + times_set x cs
  times_set-cons (asks r) cs = omega arith
  times_set-cons (sets a) cs = omega arith
  times_set-cons proceeds cs = omega arith
  times_set-cons reads cs = omega arith

  schedule-taken :
      (cs : List Choice) (w : Worker) → taken (schedule cs w) ≡ times_set x cs + taken w
  unfolding schedule
  schedule-taken [] w = omega arith
  schedule-taken (c ∷ cs) w =
      omega (arith, schedule-taken cs (step c w), step-taken c w, times_set-cons c cs)

  started-taken : taken (worker_start worker_new) ≡ 0
  unfolding worker_start worker_new
  started-taken = refl

  -- Whatever happens to a worker, each authenticator that is set is in use, or waits to be, or its
  -- reference was given up; and destroying the worker when no thread is in the middle of asking has
  -- given each up exactly as often as it was set.
  pub worker_destroy-Releases :
      (cs : List Choice)
      → let w = schedule cs (worker_start worker_new) in
        (count x w.unrefs + held x w.auth_curr + held x w.auth_next ≡ times_set x cs)
        × (w.sender ≡ outside → count x (worker_destroy w).unrefs ≡ times_set x cs)
  unfolding worker_destroy
  worker_destroy-Releases cs =
      let w = schedule cs (worker_start worker_new) in
      let i = started-IsConsistent cs in
      let e = schedule-taken cs (worker_start worker_new) in
      let all : taken w ≡ times_set x cs = omega (arith, started-taken) in
      (all, λ o. free w (times_set x cs) i o all)
    where
      free :
          (w : Worker) (n : ℕ)
          → IsConsistent w
          → w.sender ≡ outside
          → taken w ≡ n
          → count x (worker_destroy w).unrefs ≡ n
      free w n i o e = ground (
        arith,
        count-unref w.auth_next (unref w.auth_curr w.unrefs),
        count-unref w.auth_curr w.unrefs,
      )

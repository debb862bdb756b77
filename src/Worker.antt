-- ===== src/Worker.antt =====
-- hev-socks5-worker.c: a worker, to which other threads send requests to stop and to reload. Each
-- atomic operation is one step, and a schedule chooses whose step is next. Authenticators are
-- numbered.
pub mod Requests
pub mod Reload
pub mod Handed
pub mod Owners
pub mod Sessions
mod Examples
use gen_net.Base.{ℕ, Bool, true, false, not, Option, none, some, List, [], ◌∷◌, ◌++◌, if◌then◌else◌}

-- `SYNC_STOP` and `SYNC_LOAD`, and the bytes 's' and 'r'
pub data Message : Type 0 where
  stop load : Message

-- the bits of `tsync`
pub record Sync : Type 0 where
  pub send : Bool
  pub wait : Bool
  pub stop_set : Bool
  pub load_set : Bool
  pub sent_s : Bool
  pub sent_r : Bool

-- Where the thread is that holds `SYNC_WAIT`, in `hev_socks5_worker_send`. `entered` has the old
-- value of `SYNC_SEND`, and `marked` whether the byte has to be written.
pub data Sender : Type 0 where
  outside : Sender
  entered : Message → Bool → Sender
  marked : Message → Bool → Sender
  leaving : Sender

-- where `hev_socks5_event_task_entry` is
pub data Reader : Type 0 where
  unstarted starting loading reading stopping finished : Reader
  got : Message → Reader

-- `HevSocks5Worker`, the pipe between its `event_fds`, and the two threads. `unrefs` are the
-- authenticators whose reference was given up.
pub record Worker : Type 0 where
  pub run : Bool
  pub tsync : Sync
  pub auth_curr : Option ℕ
  pub auth_next : Option ℕ
  pub pipe : List Message
  pub sender : Sender
  pub reader : Reader
  pub unrefs : List ℕ

abbrev pub unref : Option ℕ → List ℕ → List ℕ
unref none l = l
unref (some a) l = a ∷ l

abbrev pub sent_flag : Message → Sync → Bool
sent_flag stop t = t.sent_s
sent_flag load t = t.sent_r

abbrev pub put_sent : Message → Bool → Sync → Sync
put_sent stop b t = record t { sent_s = b }
put_sent load b t = record t { sent_r = b }

-- `atomic_fetch_or (&self->tsync, type)`
abbrev pub raise_bit : Message → Sync → Sync
raise_bit stop t = record t { stop_set = true }
raise_bit load t = record t { load_set = true }

-- `hev_socks5_worker_new`, when everything succeeds
unfoldable pub worker_new : Worker
worker_new = record {
  run = false;
  tsync = record {
    send = true;
    wait = false;
    stop_set = false;
    load_set = false;
    sent_s = false;
    sent_r = false;
  };
  auth_curr = none;
  auth_next = none;
  pipe = [];
  sender = outside;
  reader = unstarted;
  unrefs = [];
}

-- `hev_socks5_worker_start`, up to the start of the tasks
unfoldable pub worker_start : Worker → Worker
worker_start w =
    if w.tsync.stop_set
    then record w { tsync = record w.tsync { stop_set = false } }
    else record w { run = true; reader = starting }

-- The first step of `hev_socks5_worker_send`: it is tried again while another thread holds the bit.
unfoldable pub begin_send : Message → Worker → Worker
begin_send r w =
    if w.tsync.wait
    then w
    else record w { tsync = record w.tsync { wait = true }; sender = entered r w.tsync.send }

-- the other steps of `hev_socks5_worker_send`
unfoldable pub go_on : Sender → Worker → Worker
go_on outside w = w
go_on (entered r true) w = record w {
  tsync = put_sent r true w.tsync;
  sender = marked r (not (sent_flag r w.tsync));
}
go_on (entered r false) w = record w { tsync = raise_bit r w.tsync; sender = leaving }
go_on (marked r true) w = record w { pipe = w.pipe ++ r ∷ []; sender = leaving }
go_on (marked r false) w = record w { tsync = record w.tsync { wait = false }; sender = outside }
go_on leaving w = record w { tsync = record w.tsync { wait = false }; sender = outside }

-- `hev_socks5_worker_load`
unfoldable pub worker_load : Option ℕ → Worker → Worker
worker_load none w = w
worker_load (some a) w = record w {
  auth_curr = some a;
  auth_next = none;
  unrefs = unref w.auth_curr w.unrefs;
}

unfoldable pub receive : List Message → Worker → Worker
receive [] w = w
receive (r ∷ rest) w = record w { pipe = rest; reader = got r }

-- the steps of `hev_socks5_event_task_entry`
unfoldable pub take_turn : Reader → Worker → Worker
unfolding worker_load receive
take_turn unstarted w = w
take_turn starting w = record w {
  tsync = record w.tsync { load_set = false };
  reader = if w.tsync.load_set then loading else reading;
}
take_turn loading w = record (worker_load w.auth_next w) { reader = reading }
take_turn reading w = receive w.pipe w
take_turn (got load) w = record w { tsync = record w.tsync { sent_r = false }; reader = loading }
take_turn (got stop) w = record w { tsync = record w.tsync { sent_s = false }; reader = stopping }
take_turn stopping w = record w { run = false; reader = finished }
take_turn finished w = w

-- `hev_socks5_worker_set_auth`, with the reference that it takes. The task never clears `auth_curr`,
-- so its test still holds when the pointer is exchanged.
unfoldable pub set_next : Option ℕ → ℕ → Worker → Worker
set_next none a w = record w { auth_curr = some a; unrefs = unref w.auth_curr w.unrefs }
set_next (some c) a w = record w { auth_next = some a; unrefs = unref w.auth_next w.unrefs }

unfoldable pub worker_set_auth : ℕ → Worker → Worker
unfolding set_next
worker_set_auth a w = set_next w.auth_curr a w

-- `hev_socks5_worker_destroy`, without the tasks and the descriptors. It waits for a thread that
-- holds the bit.
unfoldable pub worker_destroy : Worker → Worker
worker_destroy w =
    let quiet = record w { tsync = record w.tsync { send = false } } in
    if w.tsync.wait then quiet else record quiet {
      auth_curr = none;
      auth_next = none;
      unrefs = unref w.auth_next (unref w.auth_curr w.unrefs);
    }

-- what a schedule chooses: a thread that asks for something, the thread that holds the bit, or the
-- event task
pub data Choice : Type 0 where
  asks : Message → Choice
  sets : ℕ → Choice
  proceeds : Choice
  reads : Choice

unfoldable pub step : Choice → Worker → Worker
unfolding begin_send go_on take_turn worker_set_auth
step (asks r) w = begin_send r w
step (sets a) w = worker_set_auth a w
step proceeds w = go_on w.sender w
step reads w = take_turn w.reader w

unfoldable pub schedule : List Choice → Worker → Worker
unfolding step
schedule [] w = w
schedule (c ∷ cs) w = schedule cs (step c w)

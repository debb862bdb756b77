-- ===== src/Proxy/Threads.antt =====
-- hev-socks5-proxy.c: how the main thread, the threads of the workers and the threads that ask to stop
-- meet at `tsync`. Each step is one atomic operation, or a wait for a thread or a worker.
pub mod Stops
use gen_net.Base.{
  ℕ, zero, suc, Bool, true, false, not, ◌&&◌, List, [], ◌∷◌, if◌then◌else◌, replicate,
}

-- the bits of `tsync`: `SYNC_CONT`, `SYNC_ABRT`, `SYNC_SEND`, `SYNC_SENT`, `SYNC_WAIT`, `SYNC_STOP`
pub record Bits : Type 0 where
  pub cont : Bool
  pub abrt : Bool
  pub send_set : Bool
  pub sent_set : Bool
  pub wait_set : Bool
  pub stop_bit : Bool

-- Where the main thread is: `down` is outside of everything. `hev_socks5_proxy_init` is at `aborting`
-- or at `created`, `hev_socks5_proxy_run` begins at `ready`, and `hev_socks5_proxy_fini` at `back`,
-- or at `undoing` where the start has failed. It frees the list of workers behind `joining`.
pub data Main : Type 0 where
  down aborting undoing created ready continuing serving back joining : Main

-- The thread in `hev_socks5_proxy_stop` that holds `SYNC_WAIT`. `holding` has the old value of
-- `SYNC_SEND`, and `telling` whether the workers have to be told.
pub data Stopper : Type 0 where
  quiet releasing : Stopper
  holding telling : Bool → Stopper

-- `work_thread_handler`
pub data Thread : Type 0 where
  spinning working over : Thread

-- `told` is whether the workers at hand were asked to stop.
pub record Threads : Type 0 where
  pub bits : Bits
  pub main : Main
  pub stopper : Stopper
  pub threads : List Thread
  pub told : Bool

abbrev pub before_init : Threads
before_init = record {
  bits = record {
    cont = false;
    abrt = false;
    send_set = false;
    sent_set = false;
    wait_set = false;
    stop_bit = false;
  };
  main = down;
  stopper = quiet;
  threads = [];
  told = false;
}

-- `hev_socks5_proxy_init` up to its last thread, or up to where it fails with so many threads made.
-- It has cleared the two bits before.
unfoldable pub proxy_init : Bool → ℕ → Threads → Threads
proxy_init ok n s = record s {
  bits = record s.bits { cont = false; abrt = false };
  main = if ok then created else aborting;
  threads = replicate n spinning;
  told = false;
}

unfoldable pub all_over : List Thread → Bool
all_over [] = true
all_over (over ∷ ts) = all_over ts
all_over (t ∷ ts) = false

-- the steps behind those of `proxy_init`
unfoldable pub main_turn : Main → Threads → Threads
unfolding all_over
main_turn down s = s
main_turn aborting s = record s { bits = record s.bits { abrt = true }; main = undoing }
main_turn created s = record s { bits = record s.bits { send_set = true }; main = ready }
main_turn ready s = record s {
  bits = record s.bits { stop_bit = false };
  main = if s.bits.stop_bit then back else continuing;
}
main_turn continuing s = record s { bits = record s.bits { cont = true }; main = serving }
main_turn serving s = record s { main = if s.told then back else serving }
main_turn back s = record s {
  bits = record s.bits { send_set = false; sent_set = false; stop_bit = false };
  main = if s.bits.wait_set then back else joining;
}
main_turn undoing s = record s {
  bits = record s.bits { send_set = false; sent_set = false; stop_bit = false };
  main = if s.bits.wait_set then undoing else joining;
}
main_turn joining s = if all_over s.threads then record s { main = down; threads = [] } else s

-- the first step of `hev_socks5_proxy_stop`, which is tried again while another thread holds the bit
unfoldable pub stop_begin : Threads → Threads
stop_begin s =
    if s.bits.wait_set
    then s
    else record s { bits = record s.bits { wait_set = true }; stopper = holding s.bits.send_set }

-- its other steps
unfoldable pub stop_turn : Stopper → Threads → Threads
stop_turn quiet s = s
stop_turn (holding true) s = record s {
  bits = record s.bits { sent_set = true };
  stopper = telling (not s.bits.sent_set);
}
stop_turn (holding false) s = record s {
  bits = record s.bits { stop_bit = true; abrt = true };
  stopper = releasing;
}
stop_turn (telling b) s = record s { told = if b then true else s.told; stopper = releasing }
stop_turn releasing s = record s { bits = record s.bits { wait_set = false }; stopper = quiet }

-- the steps of `work_thread_handler`, where `ok` is whether the task system starts
unfoldable pub work_turn : Bool → Bits → Bool → Thread → Thread
work_turn ok b told spinning =
    if b.abrt then over else if b.cont then (if ok then working else over) else spinning
work_turn ok b told working = if told then over else working
work_turn ok b told over = over

-- a turn of the thread at a place in the list
unfoldable pub turn_at : ℕ → (Thread → Thread) → List Thread → List Thread
turn_at k f [] = []
turn_at zero f (t ∷ ts) = f t ∷ ts
turn_at (suc k) f (t ∷ ts) = t ∷ turn_at k f ts

pub data Turn : Type 0 where
  starts : Bool → ℕ → Turn
  main_goes stops stopper_goes : Turn
  works : ℕ → Bool → Turn

-- the main thread calls `hev_socks5_proxy_init` again only behind `hev_socks5_proxy_fini`
unfoldable pub init_at : Main → Bool → ℕ → Threads → Threads
unfolding proxy_init
init_at down ok n s = proxy_init ok n s
init_at _ ok n s = s

unfoldable pub turn : Turn → Threads → Threads
unfolding init_at main_turn stop_begin stop_turn work_turn turn_at
turn (starts ok n) s = init_at s.main ok n s
turn main_goes s = main_turn s.main s
turn stops s = stop_begin s
turn stopper_goes s = stop_turn s.stopper s
turn (works k ok) s = record s { threads = turn_at k (work_turn ok s.bits s.told) s.threads }

unfoldable pub interleaved : List Turn → Threads → Threads
unfolding turn
interleaved [] s = s
interleaved (t ∷ ts) s = interleaved ts (turn t s)

-- ===== src/Worker/Sessions.antt =====
-- hev-socks5-worker.c: the task that accepts connections, and the tasks of its sessions. A session is
-- numbered by when it was made, and is the node of the same number in the list of sessions.
pub mod Accounts
use gen_net.Base.{
  ℕ, suc, ◌+◌, Bool, true, false, Option, none, some, List, [], ◌∷◌, ◌==◌, if◌then◌else◌,
}
use gen_net.HevList.{HevList, empty, add_tail, list_del, list_first, nodes}

-- The sessions of a worker: the list, the descriptor and the authenticator of each session, how many
-- were made, which ones were told to terminate, the descriptors that were closed, and whether the
-- task still accepts.
pub record Sessions : Type 0 where
  pub session_set : HevList
  pub fd_of : ℕ → ℕ
  pub auth_of : ℕ → Option ℕ
  pub made : ℕ
  pub terminated : List ℕ
  pub closed : List ℕ
  pub accepting : Bool

abbrev pub no_sessions : Sessions
no_sessions = record {
  session_set = empty;
  fd_of = λ i. 0;
  auth_of = λ i. none;
  made = 0;
  terminated = [];
  closed = [];
  accepting = true;
}

-- What happens: a descriptor is accepted, and whether a session and a task can be made for it; an
-- accept fails with -1; it is refused by the yielder; the run of a session ends.
pub data Happening : Type 0 where
  accepted : ℕ → Bool → Bool → Happening
  failed_accept refused : Happening
  ends : ℕ → Happening

abbrev pub put {ℓ} : {A : Type ℓ} → (ℕ → A) → ℕ → A → ℕ → A
put f k v i = if k == i then v else f i

-- a session that is run
unfoldable pub enter : Option ℕ → ℕ → Sessions → Sessions
enter auth fd p = record p {
  session_set = add_tail p.made p.session_set;
  fd_of = put p.fd_of p.made fd;
  auth_of = put p.auth_of p.made auth;
  made = suc p.made;
}

-- `close`, or the end of a session that was not run
unfoldable pub give_back_fd : ℕ → Sessions → Sessions
give_back_fd fd p = record p { closed = fd ∷ p.closed }

-- the loop behind the accept loop, over the nodes that it visits
unfoldable pub terminate_all : Option (List ℕ) → Sessions → Sessions
terminate_all none p = p
terminate_all (some l) p = record p { terminated = l; accepting = false }

-- `hev_socks5_session_task_entry`, behind the run
unfoldable pub leave : ℕ → Sessions → Sessions
leave i p = record p { session_set = list_del i p.session_set; closed = p.fd_of i ∷ p.closed }

-- one round of `hev_socks5_worker_task_entry`, or the end of a session's task, where `auth` is
-- `auth_curr`
unfoldable pub happen : Option ℕ → Happening → Sessions → Sessions
unfolding enter give_back_fd terminate_all leave
happen auth (accepted fd false t) p = give_back_fd fd p
happen auth (accepted fd true false) p = give_back_fd fd p
happen auth (accepted fd true true) p = enter auth fd p
happen auth failed_accept p = p
happen auth refused p = terminate_all (nodes p.made (list_first p.session_set) p.session_set) p
happen auth (ends i) p = leave i p

unfoldable pub happen_all : Option ℕ → List Happening → Sessions → Sessions
unfolding happen
happen_all auth [] p = p
happen_all auth (e ∷ es) p = happen_all auth es (happen auth e p)

-- ===== src/Proxy.antt =====
-- hev-socks5-proxy.c: the users that a load reads from a file or from the settings, and what it hands
-- to the workers. A text is the list of its characters, of which none is zero.
pub mod Users
pub mod Loads
pub mod Threads
mod Examples
use gen_net.Base.{
  ℕ, zero, suc, ◌+◌, ◌-◌, ◌%◌, ◌^◌, Bool, true, false, Option, none, some, List, [], ◌∷◌, ◌++◌, leb,
  ◌==◌, if◌then◌else◌, length,
}
use gen_net.Rbtree.{Tree, leaf}
use gen_net.User.{User, user_mark_new}
use gen_net.Authenticator.{Outcome, add}
use gen_net.Worker.{Worker, load, Choice, asks, sets, proceeds, schedule}
use gen_net.Config.{Settings}
use gen_net.Config.Text.{lower, is_space, skip_spaces, signed, digits, as_ulong}
use gen_net.Config.Getters.{get_auth_file, get_auth_username, get_auth_password}

-- the characters of a field, at most so many, and what follows them
unfoldable pub field : ℕ → List ℕ → List ℕ × List ℕ
field zero cs = ([], cs)
field (suc n) [] = ([], [])
field (suc n) (c ∷ cs) =
    let (taken, rest) = field n cs in if is_space c then ([], c ∷ cs) else (c ∷ taken, rest)

-- `%255s`, which fails at the end of the line
unfoldable pub scan_s : List ℕ → Option (List ℕ × List ℕ)
unfolding skip_spaces field
scan_s cs = elim (skip_spaces cs) [ [] ↦ none | c ∷ rest ↦ some (field 255 (c ∷ rest)) ]

-- what follows the `0x` that a hexadecimal number may begin with
unfoldable pub without_0x : List ℕ → List ℕ
without_0x (c ∷ x ∷ cs) =
    if c == b'0' then (if lower x == b'x' then cs else c ∷ x ∷ cs) else c ∷ x ∷ cs
without_0x cs = cs

-- `%lx`, where the value was 0, as an `unsigned int`
unfoldable pub scan_mark : List ℕ → ℕ
unfolding skip_spaces signed digits without_0x
scan_mark cs =
    let (minus, rest) = signed (skip_spaces cs) in
    as_ulong minus (digits 16 0 (without_0x rest)).0 % 2 ^ 32

-- A line's name, password and mark
abbrev pub Entry : Type 0
Entry = List ℕ × List ℕ × ℕ

unfoldable pub scan_pass : List ℕ → Option (List ℕ × List ℕ) → Option Entry
unfolding scan_mark
scan_pass name none = none
scan_pass name (some (pass, rest)) = some (name, pass, scan_mark rest)

unfoldable pub scan_name : Option (List ℕ × List ℕ) → Option Entry
unfolding scan_s scan_pass
scan_name none = none
scan_name (some (name, rest)) = scan_pass name (scan_s rest)

-- `sscanf (line, "%255s %255s %lx\n", name, pass, &mark)`, where none is a result below 2
unfoldable pub scan_line : List ℕ → Option Entry
unfolding scan_s scan_name
scan_line cs = scan_name (scan_s cs)

-- whether the three allocations of a new user succeed
abbrev pub Memory : Type 0
Memory = Bool × Bool × Bool

unfoldable pub user_of : Memory → Option Entry → Option User
user_of mem none = none
user_of (self, name_mem, pass_mem) (some (name, pass, mark)) =
    user_mark_new self name_mem pass_mem name pass mark

-- A line of the file, with what the allocations find
unfoldable pub line_user : Memory × List ℕ → Option User
unfolding scan_line user_of
line_user (mem, line) = user_of mem (scan_line line)

-- what is left of the result of `hev_socks5_authenticator_add`
unfoldable pub added : Outcome → Option (Tree User)
added none = none
added (some (ok, t)) = some t

unfoldable pub add_user : Option User → Tree User → Option (Tree User)
unfolding added
add_user none t = some t
add_user (some u) t = added (add t u)

unfoldable pub and_then : Option (Tree User) → (Tree User → Option (Tree User)) → Option (Tree User)
and_then none next = none
and_then (some t) next = next t

-- the loop of `hev_socks5_proxy_load_file`, where none is a null pointer that was read
unfoldable pub load_lines : List (Memory × List ℕ) → Tree User → Option (Tree User)
unfolding line_user add_user and_then
load_lines [] t = some t
load_lines (l ∷ ls) t = and_then (add_user (line_user l) t) (λ t'. load_lines ls t')

-- The authenticator of a load: its users, and how many references to it are left for the caller.
pub record Loaded : Type 0 where
  pub users : Tree User
  pub refs : ℕ

unfoldable pub loaded : ℕ → Option (Tree User) → Option Loaded
loaded refs none = none
loaded refs (some t) = some (record { users = t; refs = refs })

-- `hev_socks5_proxy_load_file`: without the file, the reference is given up.
unfoldable pub load_file : Option (List (Memory × List ℕ)) → Option Loaded
unfolding load_lines loaded
load_file none = loaded 0 (some leaf)
load_file (some ls) = loaded 1 (load_lines ls leaf)

-- the single user of the settings: `strlen` reads through a null pointer if one is not set
unfoldable pub load_single : Memory → Option (List ℕ) → Option (List ℕ) → Option Loaded
unfolding user_of add_user loaded
load_single mem (some name) (some pass) =
    loaded 1 (add_user (user_of mem (some (name, pass, 0))) leaf)
load_single mem name pass = none

-- what is there to load
pub data Source : Type 0 where
  nothing : Source
  from_file : List ℕ → Source
  single : Option (List ℕ) → Option (List ℕ) → Source

unfoldable pub source : Option (List ℕ) → Option (List ℕ) → Option (List ℕ) → Source
source none none none = nothing
source (some file) name pass = from_file file
source none name pass = single name pass

-- `hev_socks5_worker_set_auth` and `hev_socks5_worker_reload`, up to its end, for a worker that no
-- other thread is asking for something
abbrev pub handed_to : ℕ → Worker → Worker
handed_to a w = schedule (sets a ∷ asks load ∷ proceeds ∷ proceeds ∷ proceeds ∷ []) w

-- the loop over the workers, each of which takes a reference
unfoldable pub hand_over : ℕ → ℕ → List Worker → List Worker × ℕ
hand_over a refs [] = ([], refs)
hand_over a refs (w ∷ ws) =
    let (rest, all_refs) = hand_over a (suc refs) ws in (handed_to a w ∷ rest, all_refs)

-- The workers, and the authenticators that were ever made, with the references to them. A worker
-- names one by its index.
pub record Proxy : Type 0 where
  pub workers : List Worker
  pub auths : List Loaded

-- The authenticator is handed to the workers, and the load gives up its own reference.
unfoldable pub hand_out : Proxy → Option Loaded → Option Proxy
unfolding hand_over
hand_out p none = none
hand_out p (some l) =
    let (workers, refs) = hand_over (length p.auths) l.refs p.workers in
    some (record { workers = workers; auths = p.auths ++ (record l { refs = refs - 1 }) ∷ [] })

-- the file system: the lines of a file, if it can be opened
abbrev pub Files : Type 0
Files = List ℕ → Option (List (Memory × List ℕ))

unfoldable pub load_from : Files → Memory → Bool → Source → Proxy → Option Proxy
unfolding load_file load_single hand_out
load_from files mem made nothing p = some p
load_from files mem false src p = some p
load_from files mem true (from_file f) p = hand_out p (load_file (files f))
load_from files mem true (single name pass) p = hand_out p (load_single mem name pass)

-- `hev_socks5_proxy_load`: whether the authenticator can be made is an argument.
unfoldable pub proxy_load : Files → Memory → Bool → Settings → Proxy → Option Proxy
unfolding source load_from
proxy_load files mem made s p =
    load_from files mem made (source (get_auth_file s) (get_auth_username s) (get_auth_password s))
      p

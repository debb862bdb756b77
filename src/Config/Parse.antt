-- ===== src/Config/Parse.antt =====
-- hev-config.c: the section `auth`, and reading the sections of a document.
use gen_net.Base.{ℕ, Bool, true, false, Option, none, some, List, [], ◌∷◌, if◌then◌else◌}
use gen_net.Config.{scalar, mapping, Pairs, no_pairs, pair, Ref, nothing, refers, Settings, reset}
use gen_net.Config.Text.{codes, same_text, copied}
use gen_net.Config.Scalars.{scalars}
use gen_net.Config.MainSection.{parse_main}
use gen_net.Config.MiscSection.{parse_misc}

pub record Login : Type 0 where
  pub user : Option (List ℕ)
  pub pass : Option (List ℕ)
  pub file : Option (List ℕ)

unfoldable pub auth_loop : List (List ℕ × List ℕ) → Login → Login
auth_loop [] l = l
auth_loop ((k, v) ∷ rest) l = auth_loop rest (
    if same_text k (codes "username")
    then record l { user = some v }
    else if same_text k (codes "password")
    then record l { pass = some v }
    else if same_text k (codes "file")
    then record l { file = some v }
    else l)

unfoldable pub put_login : Option (List ℕ) → Option (List ℕ) → Option (List ℕ) → Settings → Settings
put_login (some file) user pass s = record s { auth_file = copied 1023 file }
put_login none (some user) (some pass) s = record s {
  username = copied 255 user;
  password = copied 255 pass;
}
put_login none user pass s = s

-- `hev_config_parse_auth`
unfoldable pub parse_auth : Ref → Settings → Bool × Settings
unfolding scalars auth_loop put_login
parse_auth (refers (mapping ps)) s =
    let l : Login = auth_loop (scalars ps) (record { user = none; pass = none; file = none }) in
    (true, put_login l.file l.user l.pass s)
parse_auth base s = (false, s)

unfoldable pub section : List ℕ → Ref → Settings → Bool × Settings
unfolding parse_main parse_auth parse_misc
section k v s =
    if same_text k (codes "main")
    then parse_main v s
    else if same_text k (codes "auth")
    then parse_auth v s
    else if same_text k (codes "misc")
    then parse_misc v s
    else (true, s)

unfoldable pub next_section : (Settings → Bool × Settings) → Bool × Settings → Bool × Settings
next_section rest (false, s) = (false, s)
next_section rest (true, s) = rest s

-- the loop of `hev_config_parse_doc`
unfoldable pub sections : Pairs → Settings → Bool × Settings
unfolding section next_section
sections no_pairs s = (true, s)
sections (pair nothing v rest) s = sections rest s
sections (pair k nothing rest) s = sections rest s
sections (pair (refers (scalar k)) v rest) s = next_section (λ t. sections rest t) (section k v s)
sections (pair k v rest) s = (true, s)

-- `hev_config_parse_doc`
unfoldable pub parse_doc : Ref → Settings → Bool × Settings
unfolding sections
parse_doc (refers (mapping ps)) s = sections ps s
parse_doc root s = (false, s)

-- `hev_config_init_from_str` and `hev_config_init_from_file`, where none is a document that could
-- not be read or parsed
unfoldable pub config_init : Option Ref → Settings → Bool × Settings
unfolding parse_doc
config_init none s = (false, reset)
config_init (some root) s = parse_doc root reset

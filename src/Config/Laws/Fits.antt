-- ===== src/Config/Laws/Fits.antt =====
-- hev-config.c: the buffers, the timeouts and the range of ports, after any document.
use gen_net.Base.{ℕ, Bool, true, false, Option, none, some, List, arith, ◌==◌}
use gen_net.Config.{
  scalar, mapping, sequence, Pairs, no_pairs, pair, Ref, nothing, missing, refers, Settings, reset,
}
use gen_net.Config.Laws.Ranges.{scan_range-lt, stored-le}
use gen_net.Config.Scalars.{scalars}
use gen_net.Config.MainSection.{
  Main, no_main, put_ports, with_ports, with_address, end_main, parse_main,
}
use gen_net.Config.Parse.{parse_auth, section, next_section, sections, parse_doc, config_init}
use gen_net.Config.MiscSection.{misc_loop, no_waits, parse_misc}
use gen_net.Config.Laws.Bounds.{
  Fits, length-copied, if-second, stored-Fits, reset-Fits, misc_loop-Fits, main_loop-Fits,
  put_waits-Fits, put_login-Fits, put_main-Fits,
}

put_ports-Fits : (t : Option (List ℕ)) (s : Settings) → Fits s → Fits (put_ports t s).1
unfolding put_ports
put_ports-Fits none s c = c
put_ports-Fits (some t) s c =
    let (beg_lt, end_lt) = scan_range-lt t in
    stored-Fits _ _ _ s (λ e. stored-le _ _ end_lt e beg_lt) c

with_ports-Fits : (m : Main) (r : Bool × Settings) → Fits r.1 → Fits (with_ports m r).1
unfolding with_ports
with_ports-Fits m (false, s) c = c
with_ports-Fits m (true, s) c = put_main-Fits m s c

with_address-Fits :
    (port addr : Option (List ℕ)) (m : Main) (s : Settings)
    → Fits s
    → Fits (with_address port addr m s).1
unfolding with_address
with_address-Fits (some port) (some addr) m s c =
    let (p, _, i, l, f, w) = c.all in
    with_ports-Fits m _ (
      put_ports-Fits m.udp_port _
        (record { all = (p, (length-copied 255 addr, length-copied 7 port), i, l, f, w) }))
with_address-Fits none addr m s c = c
with_address-Fits (some port) none m s c = c

end_main-Fits : (m : Main) (s : Settings) → Fits s → Fits (end_main (m, s)).1
unfolding end_main
end_main-Fits m s c =
    if-second (s.workers == 0) (false, s) _ c (with_address-Fits m.port m.addr m s c)

parse_main-Fits : (r : Ref) (s : Settings) → Fits s → Fits (parse_main r s).1
unfolding parse_main
parse_main-Fits (refers (mapping ps)) s c =
    end_main-Fits _ _ (main_loop-Fits (scalars ps) no_main s c)
parse_main-Fits (refers (scalar t)) s c = c
parse_main-Fits (refers sequence) s c = c
parse_main-Fits nothing s c = c
parse_main-Fits missing s c = c

parse_auth-Fits : (r : Ref) (s : Settings) → Fits s → Fits (parse_auth r s).1
unfolding parse_auth
parse_auth-Fits (refers (mapping ps)) s c = put_login-Fits _ _ _ s c
parse_auth-Fits (refers (scalar t)) s c = c
parse_auth-Fits (refers sequence) s c = c
parse_auth-Fits nothing s c = c
parse_auth-Fits missing s c = c

parse_misc-Fits : (r : Ref) (s : Settings) → Fits s → Fits (parse_misc r s).1
unfolding parse_misc
parse_misc-Fits (refers (mapping ps)) s c =
    put_waits-Fits (misc_loop (scalars ps) no_waits s) (misc_loop-Fits (scalars ps) no_waits s c)
parse_misc-Fits (refers (scalar t)) s c = c
parse_misc-Fits (refers sequence) s c = c
parse_misc-Fits nothing s c = c
parse_misc-Fits missing s c = c

section-Fits : (k : List ℕ) (v : Ref) (s : Settings) → Fits s → Fits (section k v s).1
unfolding section
section-Fits k v s c =
    let main = parse_main-Fits v s c in
    let auth = parse_auth-Fits v s c in let misc = parse_misc-Fits v s c in ground arith

if-passes :
    (r : Bool × Settings) (next : Settings → Bool × Settings)
    → ((t : Settings) → Fits t → Fits (next t).1)
    → Fits r.1
    → Fits (next_section next r).1
unfolding next_section
if-passes (false, s) next h c = c
if-passes (true, s) next h c = h s c

sections-Fits : (ps : Pairs) (s : Settings) → Fits s → Fits (sections ps s).1
unfolding sections
sections-Fits no_pairs s c = c
sections-Fits (pair nothing v rest) s c = sections-Fits rest s c
sections-Fits (pair missing nothing rest) s c = sections-Fits rest s c
sections-Fits (pair (refers n) nothing rest) s c = sections-Fits rest s c
sections-Fits (pair missing missing rest) s c = c
sections-Fits (pair missing (refers n) rest) s c = c
sections-Fits (pair (refers (scalar k)) missing rest) s c =
    if-passes _ _ (sections-Fits rest) (section-Fits k missing s c)
sections-Fits (pair (refers (scalar k)) (refers n) rest) s c =
    if-passes _ _ (sections-Fits rest) (section-Fits k (refers n) s c)
sections-Fits (pair (refers (mapping ps)) missing rest) s c = c
sections-Fits (pair (refers (mapping ps)) (refers n) rest) s c = c
sections-Fits (pair (refers sequence) missing rest) s c = c
sections-Fits (pair (refers sequence) (refers n) rest) s c = c

parse_doc-Fits : (r : Ref) (s : Settings) → Fits s → Fits (parse_doc r s).1
unfolding parse_doc
parse_doc-Fits (refers (mapping ps)) s c = sections-Fits ps s c
parse_doc-Fits (refers (scalar t)) s c = c
parse_doc-Fits (refers sequence) s c = c
parse_doc-Fits nothing s c = c
parse_doc-Fits missing s c = c

-- Whatever the document, and whether or not it is accepted, the settings that are left fit: each
-- text and its final zero are within their buffer, the timeouts of TCP and UDP are positive as
-- `int`s, and the range of the UDP ports ends within 32 bits.
pub config_init-Fits : (d : Option Ref) (old : Settings) → Fits (config_init d old).1
unfolding config_init
config_init-Fits none old = reset-Fits
config_init-Fits (some root) old = parse_doc-Fits root reset reset-Fits

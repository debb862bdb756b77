-- ===== src/Config/Examples.antt =====
-- hev-config.c: a document with three sections, and what it leaves.
use gen_net.Base.{
  ◌+◌, ◌^◌, ◌≤◌, ◌<◌, ◌≡◌, refl, ◌↔◌, arith, true, false, Option, none, some, [], ◌∷◌,
}
use mathlib.Core.List.{Memᴰ}
use Prim.Native.String.{String}
use gen_net.Addr.{inet}
use gen_net.Config.{
  scalar, mapping, Pairs, no_pairs, pair, Ref, nothing, missing, refers, Settings, error, reset,
}
use gen_net.Config.Text.{
  codes, same_text, same_caseless, skip_spaces, signed, digits, strtoul10, strtol10, any_base,
  strtoul0, scan_u, scan_end, scan_range,
}
use gen_net.Config.Scalars.{scalars}
use gen_net.Config.MainSection.{
  main_setting, main_key, main_loop, put_ports, put_main, with_ports, with_address, end_main,
  parse_main,
}
use gen_net.Config.Parse.{
  put_login, auth_loop, parse_auth, section, next_section, sections, parse_doc, config_init,
}
use gen_net.Config.MiscSection.{
  parse_log_level, misc_wait, misc_setting, misc_loop, put_waits, parse_misc,
}
use gen_net.Config.Getters.{
  at_most_one, get_misc_log_file, get_auth_username, get_auth_password, get_udp_listen_port,
  udp_listen_ports, session_config,
}
use gen_net.Config.Laws.Bounds.{Fits}
use gen_net.Config.Laws.Fits.{config_init-Fits}
use gen_net.Config.Laws.Ports.{config_init-range}

abbrev text : String → Ref
text s = refers (scalar (codes s))

abbrev main_pairs : Pairs
main_pairs = pair (text "workers") (text " 4") (
    pair (text "port") (text "10800000") (
      pair nothing missing (
        pair (text "listen-address") (text "::") (
          pair (text "udp-port") (text "1000-1003") (
            pair (text "mark") (text "0x1f") (
              pair (text "bind-address") (text "10.0.0.1")
                (pair (text "workers") (text "2") no_pairs)))))))

abbrev misc_pairs : Pairs
misc_pairs = pair (text "read-write-timeout") (text "60000") (
    pair (text "udp-read-write-timeout") (text "-1") (
      pair (text "log-file") (text "null")
        (pair (text "log-level") (text "error") (pair (text "limit-nofile") (text "-2") no_pairs))))

abbrev auth_pairs : Pairs
auth_pairs = pair (text "password") (text "secret") (pair (text "username") (text "") no_pairs)

abbrev document : Option Ref
document = some (
    refers (
      mapping (
        pair (text "main") (refers (mapping main_pairs)) (
          pair (text "misc") (refers (mapping misc_pairs))
            (pair (text "auth") (refers (mapping auth_pairs)) no_pairs)))))

abbrev left : Settings
left = (config_init document reset).1

abbrev unmain : Pairs
unmain = pair (text "misc") (refers (mapping misc_pairs)) no_pairs

-- An empty user name is the same as none, whatever the password.
document_read :
    ((config_init document reset).0 ≡ true)
    × (left.workers ≡ 2)
    × (left.listen_port ≡ codes "1080000")
    × (left.udp_listen_port_beg ≡ 1000)
    × (left.udp_listen_port_mod ≡ 4)
    × (left.socket_mark ≡ 31)
    × (left.tcp_read_write_timeout ≡ 60000)
    × (left.udp_read_write_timeout ≡ 60000)
    × (left.log_level ≡ error)
    × (left.limit_nofile ≡ 4294967294)
    × (get_auth_username left ≡ none)
    × (get_auth_password left ≡ some (codes "secret"))
    × (get_misc_log_file left ≡ none)
    × ((session_config left 6).udp_listen_port ≡ 1002)
    × ((session_config left 6).bind_address inet ≡ some (codes "10.0.0.1"))
    × (udp_listen_ports 5 left 4294967294 ≡ 1002 ∷ 1003 ∷ 1000 ∷ 1001 ∷ 1002 ∷ [])
unfolding config_init parse_doc sections section next_section parse_main parse_auth parse_misc
    scalars main_loop main_key main_setting end_main with_address with_ports put_main put_ports
    auth_loop put_login misc_loop misc_wait misc_setting put_waits parse_log_level same_text
    same_caseless strtoul10 strtol10 strtoul0 any_base skip_spaces signed digits scan_range scan_u
    scan_end get_misc_log_file get_udp_listen_port udp_listen_ports
document_read =
    (refl, refl, refl, refl, refl, refl, refl, refl, refl, refl, refl, refl, refl, refl, refl, refl)

-- without the section `main`, the document is accepted, and there is no worker
without_main :
    let r = config_init (some (refers (mapping unmain))) reset in (r.0 ≡ true) × (r.1.workers ≡ 0)
unfolding config_init parse_doc sections section next_section parse_main parse_misc scalars
    misc_loop misc_wait misc_setting put_waits parse_log_level same_text strtoul10 strtol10
    skip_spaces signed digits
without_main = (refl, refl)

config_init-Fits_example : Fits (config_init document reset).1
config_init-Fits_example = config_init-Fits document reset

many_ports : at_most_one left.udp_listen_port_mod ≡ false
unfolding config_init parse_doc sections section next_section parse_main parse_auth parse_misc
    scalars main_loop main_key main_setting end_main with_address with_ports put_main put_ports
    auth_loop put_login misc_loop misc_wait misc_setting put_waits same_text scan_range scan_u
    scan_end skip_spaces signed digits strtoul10
many_ports = refl

no_wrap : 7 + left.udp_listen_port_mod ≤ 2 ^ 32
unfolding config_init parse_doc sections section next_section parse_main parse_auth parse_misc
    scalars main_loop main_key main_setting end_main with_address with_ports put_main put_ports
    auth_loop put_login misc_loop misc_wait misc_setting put_waits same_text scan_range scan_u
    scan_end skip_spaces signed digits strtoul10
no_wrap = omega arith

config_init-range_example : Memᴰ 1002 (udp_listen_ports left.udp_listen_port_mod left 7) ↔ (
    (left.udp_listen_port_beg ≤ 1002)
    × (1002 < left.udp_listen_port_beg + left.udp_listen_port_mod))
config_init-range_example = config_init-range document reset 7 1002 many_ports no_wrap

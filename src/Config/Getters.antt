-- ===== src/Config/Getters.antt =====
-- hev-config.c: the functions that the other parts ask for a setting.
use gen_net.Base.{
  ℕ, zero, suc, ◌+◌, ◌%◌, ◌^◌, Bool, ◌||◌, Option, none, some, List, [], ◌∷◌, leb, if◌then◌else◌,
}
use gen_net.Addr.{Family, inet6}
use gen_net.Session.{Config}
use gen_net.Config.{Settings}
use gen_net.Config.Text.{codes, same_text}

-- `if ('\0' == s[0]) return NULL;`
abbrev pub unless_empty : List ℕ → Option (List ℕ)
unless_empty [] = none
unless_empty (c ∷ cs) = some (c ∷ cs)

-- `hev_config_get_udp_public_address`
abbrev pub get_udp_public_address : Settings → Family → Option (List ℕ)
get_udp_public_address s inet6 = unless_empty s.udp_public_address6
get_udp_public_address s _ = unless_empty s.udp_public_address4

-- `hev_config_get_bind_address`
abbrev pub get_bind_address : Settings → Family → Option (List ℕ)
get_bind_address s inet6 = unless_empty s.bind_address6
get_bind_address s _ = unless_empty s.bind_address4

-- `hev_config_get_auth_username`
abbrev pub get_auth_username : Settings → Option (List ℕ)
get_auth_username s = unless_empty s.username

-- `hev_config_get_auth_password`
abbrev pub get_auth_password : Settings → Option (List ℕ)
get_auth_password s = unless_empty s.password

-- `hev_config_get_auth_file`
abbrev pub get_auth_file : Settings → Option (List ℕ)
get_auth_file s = unless_empty s.auth_file

-- `hev_config_get_misc_pid_file`
abbrev pub get_misc_pid_file : Settings → Option (List ℕ)
get_misc_pid_file s = unless_empty s.pid_file

-- `hev_config_get_misc_log_file`
unfoldable pub get_misc_log_file : Settings → Option (List ℕ)
get_misc_log_file s = if same_text s.log_file (codes "null") then none else unless_empty s.log_file

-- `n <= 1` of an `int`
abbrev pub at_most_one : ℕ → Bool
at_most_one n = leb n 1 || leb (2 ^ 31) n

-- `hev_config_get_udp_listen_port`: the port and the counter, which wraps at 32 bits
unfoldable pub get_udp_listen_port : Settings → ℕ → ℕ × ℕ
get_udp_listen_port s inc =
    if at_most_one s.udp_listen_port_mod
    then (s.udp_listen_port_beg, inc)
    else ((s.udp_listen_port_beg + inc % s.udp_listen_port_mod) % 2 ^ 32, suc inc % 2 ^ 32)

-- the ports that so many calls return, one after the other
unfoldable pub udp_listen_ports : ℕ → Settings → ℕ → List ℕ
unfolding get_udp_listen_port
udp_listen_ports zero s inc = []
udp_listen_ports (suc n) s inc =
    let (port, inc) = get_udp_listen_port s inc in port ∷ udp_listen_ports n s inc

-- what a session asks for, where the counter of the UDP ports has the value given
abbrev pub session_config : Settings → ℕ → Config
session_config s inc = record {
  bind_address = get_bind_address s;
  bind_interface = unless_empty s.bind_interface;
  socket_mark = s.socket_mark;
  udp_listen_address = unless_empty s.udp_listen_address;
  udp_listen_port = (get_udp_listen_port s inc).0;
  ipv6_only = s.listen_ipv6_only;
  udp_public_address = get_udp_public_address s;
  address_family = s.addr_family;
}

-- ===== src/Config/MainSection.antt =====
-- hev-config.c: the section `main`.
use gen_net.Base.{
  ℕ, ◌+◌, ◌-◌, Bool, true, false, not, ◌&&◌, Option, none, some, List, [], ◌∷◌, ltb, ◌==◌,
  if◌then◌else◌,
}
use gen_net.Addr.{Family, inet, inet6}
use gen_net.Config.{mapping, Ref, refers, Settings}
use gen_net.Config.Text.{codes, same_text, strtoul10, strtoul0, scan_range, copied}
use gen_net.Config.Scalars.{scalars, is_true, u32}

-- the local variables of `hev_config_parse_main`
pub record Main : Type 0 where
  pub addr : Option (List ℕ)
  pub port : Option (List ℕ)
  pub mark : Option (List ℕ)
  pub tfso : Option (List ℕ)
  pub udp_addr : Option (List ℕ)
  pub udp_addr4 : Option (List ℕ)
  pub udp_addr6 : Option (List ℕ)
  pub udp_port : Option (List ℕ)
  pub bind_saddr : Option (List ℕ)
  pub bind_saddr4 : Option (List ℕ)
  pub bind_saddr6 : Option (List ℕ)
  pub bind_iface : Option (List ℕ)
  pub addr_type : Option (List ℕ)

abbrev pub no_main : Main
no_main = record {
  addr = none;
  port = none;
  mark = none;
  tfso = none;
  udp_addr = none;
  udp_addr4 = none;
  udp_addr6 = none;
  udp_port = none;
  bind_saddr = none;
  bind_saddr4 = none;
  bind_saddr6 = none;
  bind_iface = none;
  addr_type = none;
}

-- the two settings that the loop itself writes
unfoldable pub main_setting : List ℕ → List ℕ → Settings → Settings
main_setting k v s =
    if same_text k (codes "workers")
    then record s { workers = u32 (strtoul10 v) }
    else if same_text k (codes "listen-ipv6-only")
    then record s { listen_ipv6_only = is_true v }
    else s

unfoldable pub main_key : List ℕ → List ℕ → Main → Main
main_key k v m =
    if same_text k (codes "port")
    then record m { port = some v }
    else if same_text k (codes "listen-address")
    then record m { addr = some v }
    else if same_text k (codes "udp-port")
    then record m { udp_port = some v }
    else if same_text k (codes "udp-listen-address")
    then record m { udp_addr = some v }
    else if same_text k (codes "udp-public-address-v4")
    then record m { udp_addr4 = some v }
    else if same_text k (codes "udp-public-address-v6")
    then record m { udp_addr6 = some v }
    else if same_text k (codes "bind-address")
    then record m { bind_saddr = some v }
    else if same_text k (codes "bind-address-v4")
    then record m { bind_saddr4 = some v }
    else if same_text k (codes "bind-address-v6")
    then record m { bind_saddr6 = some v }
    else if same_text k (codes "bind-interface")
    then record m { bind_iface = some v }
    else if same_text k (codes "domain-address-type")
    then record m { addr_type = some v }
    else if same_text k (codes "mark")
    then record m { mark = some v }
    else if same_text k (codes "tcp-fastopen")
    then record m { tfso = some v }
    else m

unfoldable pub main_loop : List (List ℕ × List ℕ) → Main → Settings → Main × Settings
unfolding main_key main_setting
main_loop [] m s = (m, s)
main_loop ((k, v) ∷ rest) m s = main_loop rest (main_key k v m) (main_setting k v s)

-- `if (v) strncpy (buf, v, 256 - 1)`
abbrev pub copy_if : Option (List ℕ) → List ℕ → List ℕ
copy_if none old = old
copy_if (some v) old = copied 255 v

-- The bind address of one family: its own key, or else the common one. Empty texts do not count.
abbrev pub bind_or : Option (List ℕ) → Option (List ℕ) → List ℕ → List ℕ
bind_or (some (c ∷ cs)) common old = copied 255 (c ∷ cs)
bind_or own (some (c ∷ cs)) old = copied 255 (c ∷ cs)
bind_or own common old = old

abbrev pub family_named : Option (List ℕ) → Family → Family
family_named none f = f
family_named (some t) f =
    if same_text t (codes "ipv4") then inet else if same_text t (codes "ipv6") then inet6 else f

abbrev pub mark_from : Option (List ℕ) → ℕ → ℕ
mark_from none old = old
mark_from (some t) old = u32 (strtoul0 t)

abbrev pub true_from : Option (List ℕ) → Bool → Bool
true_from none old = old
true_from (some t) old = is_true t

-- the end of the range, and its size
abbrev pub range_end : ℕ → ℕ → ℕ
range_end beg end = if end == 0 then beg else end

unfoldable pub put_ports : Option (List ℕ) → Settings → Bool × Settings
put_ports none s = (true, s)
put_ports (some t) s =
    let (beg, end) = scan_range t in
    if not (end == 0) && ltb end beg then (false, s) else (
      true,
      record s {
        udp_listen_port_beg = beg;
        udp_listen_port_mod = u32 (range_end beg end - beg + 1);
      },
    )

-- the rest of `hev_config_parse_main`
unfoldable pub put_main : Main → Settings → Settings
put_main m s = record s {
  udp_listen_address = copy_if m.udp_addr s.udp_listen_address;
  udp_public_address4 = copy_if m.udp_addr4 s.udp_public_address4;
  udp_public_address6 = copy_if m.udp_addr6 s.udp_public_address6;
  bind_address4 = bind_or m.bind_saddr4 m.bind_saddr s.bind_address4;
  bind_address6 = bind_or m.bind_saddr6 m.bind_saddr s.bind_address6;
  bind_interface = copy_if m.bind_iface s.bind_interface;
  addr_family = family_named m.addr_type s.addr_family;
  socket_mark = mark_from m.mark s.socket_mark;
  tcp_fastopen = true_from m.tfso s.tcp_fastopen;
}

unfoldable pub with_ports : Main → Bool × Settings → Bool × Settings
unfolding put_main
with_ports m (false, s) = (false, s)
with_ports m (true, s) = (true, put_main m s)

unfoldable pub with_address : Option (List ℕ) → Option (List ℕ) → Main → Settings → Bool × Settings
unfolding put_ports with_ports
with_address (some port) (some addr) m s = with_ports m (
    put_ports m.udp_port
      (record s { listen_port = copied 7 port; listen_address = copied 255 addr }))
with_address port addr m s = (false, s)

unfoldable pub end_main : Main × Settings → Bool × Settings
unfolding with_address
end_main (m, s) = if s.workers == 0 then (false, s) else with_address m.port m.addr m s

-- `hev_config_parse_main`: whether it succeeds, and the settings
unfoldable pub parse_main : Ref → Settings → Bool × Settings
unfolding scalars main_loop end_main
parse_main (refers (mapping ps)) s = end_main (main_loop (scalars ps) no_main s)
parse_main base s = (false, s)

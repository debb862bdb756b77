-- ===== src/Config.antt =====
-- hev-config.c: the settings, and how they are read from a document that the YAML library has parsed.
-- An `int` is its pattern of 32 bits. The static variables are a record.
pub mod Text
pub mod Scalars
pub mod MainSection
pub mod MiscSection
pub mod Parse
pub mod Getters
pub mod Laws
mod Examples
use gen_net.Base.{ℕ, Bool, true, false, Option, none, some, List, [], ◌∷◌}
use gen_net.Addr.{Family, unspec}

-- `yaml_node_t` and the pairs of a mapping. A reference is `nothing` for the index 0, and `missing`
-- for one that the document does not have.
mutual
  pub data Node : Type 0 where
    scalar : List ℕ → Node
    mapping : Pairs → Node
    sequence : Node

  pub data Pairs : Type 0 where
    no_pairs : Pairs
    pair : Ref → Ref → Pairs → Pairs

  pub data Ref : Type 0 where
    nothing missing : Ref
    refers : Node → Ref

-- `HEV_LOGGER_…`
pub data Level : Type 0 where
  debug info warn error : Level

pub record Settings : Type 0 where
  pub workers : ℕ
  pub listen_ipv6_only : Bool
  pub listen_address : List ℕ
  pub listen_port : List ℕ
  pub udp_listen_address : List ℕ
  pub udp_public_address4 : List ℕ
  pub udp_public_address6 : List ℕ
  pub bind_address4 : List ℕ
  pub bind_address6 : List ℕ
  pub bind_interface : List ℕ
  pub auth_file : List ℕ
  pub username : List ℕ
  pub password : List ℕ
  pub log_file : List ℕ
  pub pid_file : List ℕ
  pub udp_listen_port_beg : ℕ
  pub udp_listen_port_mod : ℕ
  pub task_stack_size : ℕ
  pub udp_recv_buffer_size : ℕ
  pub udp_copy_buffer_nums : ℕ
  pub connect_timeout : ℕ
  pub tcp_read_write_timeout : ℕ
  pub udp_read_write_timeout : ℕ
  pub limit_nofile : ℕ
  pub log_level : Level
  pub addr_family : Family
  pub socket_mark : ℕ
  pub tcp_fastopen : Bool

-- `hev_config_reset`
abbrev pub reset : Settings
reset = record {
  workers = 0;
  listen_ipv6_only = false;
  listen_address = [];
  listen_port = [];
  udp_listen_address = [];
  udp_public_address4 = [];
  udp_public_address6 = [];
  bind_address4 = [];
  bind_address6 = [];
  bind_interface = [];
  auth_file = [];
  username = [];
  password = [];
  log_file = [];
  pid_file = [];
  udp_listen_port_beg = 0;
  udp_listen_port_mod = 0;
  task_stack_size = 8192;
  udp_recv_buffer_size = 524288;
  udp_copy_buffer_nums = 10;
  connect_timeout = 10000;
  tcp_read_write_timeout = 300000;
  udp_read_write_timeout = 60000;
  limit_nofile = 65535;
  log_level = warn;
  addr_family = unspec;
  socket_mark = 0;
  tcp_fastopen = false;
}

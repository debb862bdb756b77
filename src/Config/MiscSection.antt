-- ===== src/Config/MiscSection.antt =====
-- hev-config.c: the section `misc`.
use gen_net.Base.{ℕ, ◌-◌, ◌^◌, Bool, true, false, ◌&&◌, List, [], ◌∷◌, ltb, if◌then◌else◌}
use gen_net.Config.{mapping, Ref, refers, Level, debug, info, warn, error, Settings}
use gen_net.Config.Text.{codes, same_text, strtoul10, strtol10, copied}
use gen_net.Config.Scalars.{scalars, u32}

-- `hev_config_parse_log_level`
unfoldable pub parse_log_level : List ℕ → Level
parse_log_level v =
    if same_text v (codes "debug")
    then debug
    else if same_text v (codes "info")
    then info
    else if same_text v (codes "error")
    then error
    else warn

-- an `int` that is above 0
abbrev pub is_positive32 : ℕ → Bool
is_positive32 n = ltb 0 n && ltb n (2 ^ 31)

abbrev pub minus_one : ℕ
minus_one = 2 ^ 32 - 1

pub record Waits : Type 0 where
  pub tcp_rw : ℕ
  pub udp_rw : ℕ
  pub rw : ℕ

abbrev pub no_waits : Waits
no_waits = record { tcp_rw = minus_one; udp_rw = minus_one; rw = minus_one }

unfoldable pub misc_wait : List ℕ → List ℕ → Waits → Waits
misc_wait k v w =
    if same_text k (codes "read-write-timeout")
    then record w { rw = u32 (strtoul10 v) }
    else if same_text k (codes "tcp-read-write-timeout")
    then record w { tcp_rw = u32 (strtoul10 v) }
    else if same_text k (codes "udp-read-write-timeout")
    then record w { udp_rw = u32 (strtoul10 v) }
    else w

unfoldable pub misc_setting : List ℕ → List ℕ → Settings → Settings
unfolding parse_log_level
misc_setting k v s =
    if same_text k (codes "task-stack-size")
    then record s { task_stack_size = u32 (strtoul10 v) }
    else if same_text k (codes "udp-recv-buffer-size")
    then record s { udp_recv_buffer_size = u32 (strtoul10 v) }
    else if same_text k (codes "udp-copy-buffer-nums")
    then record s { udp_copy_buffer_nums = u32 (strtoul10 v) }
    else if same_text k (codes "connect-timeout")
    then record s { connect_timeout = u32 (strtoul10 v) }
    else if same_text k (codes "pid-file")
    then record s { pid_file = copied 1023 v }
    else if same_text k (codes "log-file")
    then record s { log_file = copied 1023 v }
    else if same_text k (codes "log-level")
    then record s { log_level = parse_log_level v }
    else if same_text k (codes "limit-nofile")
    then record s { limit_nofile = u32 (strtol10 v) }
    else s

unfoldable pub misc_loop : List (List ℕ × List ℕ) → Waits → Settings → Waits × Settings
unfolding misc_wait misc_setting
misc_loop [] w s = (w, s)
misc_loop ((k, v) ∷ rest) w s = misc_loop rest (misc_wait k v w) (misc_setting k v s)

-- the timeout of one kind: its own key, or else the common one, or else the old value
abbrev pub wait_or : ℕ → ℕ → ℕ → ℕ
wait_or own common old =
    if is_positive32 own then own else if is_positive32 common then common else old

unfoldable pub put_waits : Waits × Settings → Settings
put_waits (w, s) = record s {
  tcp_read_write_timeout = wait_or w.tcp_rw w.rw s.tcp_read_write_timeout;
  udp_read_write_timeout = wait_or w.udp_rw w.rw s.udp_read_write_timeout;
}

-- `hev_config_parse_misc`
unfoldable pub parse_misc : Ref → Settings → Bool × Settings
unfolding scalars misc_loop put_waits
parse_misc (refers (mapping ps)) s = (true, put_waits (misc_loop (scalars ps) no_waits s))
parse_misc base s = (false, s)

-- ===== src/Config/Laws/Bounds.antt =====
-- hev-config.c: that the settings fit, and the steps of the sections keep it.
use gen_net.Base.{
  ℕ, ◌+◌, ◌^◌, ◌≤◌, ◌≡◌, refl, Bool, true, false, Option, none, some, List, [], ◌∷◌, arith, length,
  length-take, if◌then◌else◌,
}
use gen_net.Config.{Settings, reset}
use gen_net.Config.Text.{copied}
use gen_net.Config.MainSection.{Main, main_setting, main_loop, copy_if, bind_or, put_main}
use gen_net.Config.Parse.{put_login}
use gen_net.Config.MiscSection.{is_positive32, Waits, misc_setting, misc_loop, wait_or, put_waits}

-- A text and its final zero fit into the buffer, a timeout is a positive `int`, and the range of the
-- UDP ports ends within 32 bits.
abbrev pub PortsFit : Settings → Type 0
PortsFit s = s.udp_listen_port_beg + s.udp_listen_port_mod ≤ 2 ^ 32

abbrev pub AddressFits : Settings → Type 0
AddressFits s = (length s.listen_address ≤ 255) × (length s.listen_port ≤ 7)

abbrev pub MainFits : Settings → Type 0
MainFits s =
    (length s.udp_listen_address ≤ 255)
    × (length s.udp_public_address4 ≤ 255)
    × (length s.udp_public_address6 ≤ 255)
    × (length s.bind_address4 ≤ 255)
    × (length s.bind_address6 ≤ 255)
    × (length s.bind_interface ≤ 255)

abbrev pub LoginFits : Settings → Type 0
LoginFits s = (length s.auth_file ≤ 1023) × (length s.username ≤ 255) × (length s.password ≤ 255)

abbrev pub FilesFit : Settings → Type 0
FilesFit s = (length s.log_file ≤ 1023) × (length s.pid_file ≤ 1023)

abbrev pub WaitsFit : Settings → Type 0
WaitsFit s =
    (is_positive32 s.tcp_read_write_timeout ≡ true)
    × (is_positive32 s.udp_read_write_timeout ≡ true)

pub record Fits (s : Settings) : Type 0 where
  pub all : PortsFit s × AddressFits s × MainFits s × LoginFits s × FilesFit s × WaitsFit s

pub length-copied : (n : ℕ) (v : List ℕ) → length (copied n v) ≤ n
length-copied n v = omega (arith, length-take n v)

pub copy_if-le :
    (o : Option (List ℕ)) (old : List ℕ) → length old ≤ 255 → length (copy_if o old) ≤ 255
copy_if-le none old h = h
copy_if-le (some v) old h = length-copied 255 v

pub bind_or-le :
    (own common : Option (List ℕ)) (old : List ℕ)
    → length old ≤ 255
    → length (bind_or own common old) ≤ 255
bind_or-le (some (c ∷ cs)) common old h = length-copied 255 (c ∷ cs)
bind_or-le none (some (c ∷ cs)) old h = length-copied 255 (c ∷ cs)
bind_or-le (some []) (some (c ∷ cs)) old h = length-copied 255 (c ∷ cs)
bind_or-le none none old h = h
bind_or-le none (some []) old h = h
bind_or-le (some []) none old h = h
bind_or-le (some []) (some []) old h = h

pub wait_or-Positive :
    (own common old : ℕ) → is_positive32 old ≡ true → is_positive32 (wait_or own common old) ≡ true
wait_or-Positive own common old h = ground arith

pub if-Fits : (b : Bool) (s t : Settings) → Fits s → Fits t → Fits (if b then s else t)
if-Fits true s t c d = c
if-Fits false s t c d = d

pub if-second :
    (b : Bool) (x y : Bool × Settings) → Fits x.1 → Fits y.1 → Fits (if b then x else y).1
if-second true x y c d = c
if-second false x y c d = d

pub stored-Fits :
    (b : Bool) (beg size : ℕ) (s : Settings)
    → (b ≡ false → beg + size ≤ 2 ^ 32)
    → Fits s
    → let r : Bool × Settings =
        if b
        then (false, s)
        else (true, record s { udp_listen_port_beg = beg; udp_listen_port_mod = size }) in
      Fits r.1
stored-Fits true beg size s h c = c
stored-Fits false beg size s h c =
    let (_, a, m, l, f, w) = c.all in record { all = (h refl, a, m, l, f, w) }

pub reset-Fits : Fits reset
reset-Fits = record {
  all = (
    omega arith,
    (omega arith, omega arith),
    (omega arith, omega arith, omega arith, omega arith, omega arith, omega arith),
    (omega arith, omega arith, omega arith),
    (omega arith, omega arith),
    (refl, refl),
  );
}

pub misc_setting-Fits : (k v : List ℕ) (s : Settings) → Fits s → Fits (misc_setting k v s)
unfolding misc_setting
misc_setting-Fits k v s c = let short = length-copied 1023 v in ground arith

pub main_setting-Fits : (k v : List ℕ) (s : Settings) → Fits s → Fits (main_setting k v s)
unfolding main_setting
main_setting-Fits k v s c = ground arith

pub misc_loop-Fits :
    (kvs : List (List ℕ × List ℕ)) (w : Waits) (s : Settings) → Fits s → Fits (misc_loop kvs w s).1
unfolding misc_loop
misc_loop-Fits [] w s c = c
misc_loop-Fits ((k, v) ∷ rest) w s c = misc_loop-Fits rest _ _ (misc_setting-Fits k v s c)

pub main_loop-Fits :
    (kvs : List (List ℕ × List ℕ)) (m : Main) (s : Settings) → Fits s → Fits (main_loop kvs m s).1
unfolding main_loop
main_loop-Fits [] m s c = c
main_loop-Fits ((k, v) ∷ rest) m s c = main_loop-Fits rest _ _ (main_setting-Fits k v s c)

pub put_waits-Fits : (r : Waits × Settings) → Fits r.1 → Fits (put_waits r)
unfolding put_waits
put_waits-Fits (w, s) c =
    let (p, a, m, l, f, (tcp, udp)) = c.all in
    record {
      all = (
        p,
        a,
        m,
        l,
        f,
        (wait_or-Positive w.tcp_rw w.rw _ tcp, wait_or-Positive w.udp_rw w.rw _ udp),
      );
    }

pub put_login-Fits :
    (file user pass : Option (List ℕ)) (s : Settings) → Fits s → Fits (put_login file user pass s)
unfolding put_login
put_login-Fits (some file) user pass s c =
    let (p, a, m, (_, u, w), f, t) = c.all in
    record { all = (p, a, m, (length-copied 1023 file, u, w), f, t) }
put_login-Fits none (some user) (some pass) s c =
    let (p, a, m, (l, _, _), f, t) = c.all in
    record { all = (p, a, m, (l, length-copied 255 user, length-copied 255 pass), f, t) }
put_login-Fits none none pass s c = c
put_login-Fits none (some user) none s c = c

pub put_main-Fits : (m : Main) (s : Settings) → Fits s → Fits (put_main m s)
unfolding put_main
put_main-Fits m s c =
    let (p, a, (ul, u4, u6, b4, b6, i), l, f, t) = c.all in
    record {
      all = (
        p,
        a,
        (
          copy_if-le m.udp_addr _ ul,
          copy_if-le m.udp_addr4 _ u4,
          copy_if-le m.udp_addr6 _ u6,
          bind_or-le m.bind_saddr4 m.bind_saddr _ b4,
          bind_or-le m.bind_saddr6 m.bind_saddr _ b6,
          copy_if-le m.bind_iface _ i,
        ),
        l,
        f,
        t,
      );
    }

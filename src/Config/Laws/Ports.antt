-- ===== src/Config/Laws/Ports.antt =====
-- hev-config.c: the ports that hev_config_get_udp_listen_port hands out in turn.
use gen_net.Base.{
  ℕ, zero, suc, ◌+◌, ◌-◌, ◌%◌, ◌^◌, ◌≤◌, ◌<◌, ◌≡◌, sym, ap, subst, ◌∙◌, ◌↔◌, ◌⊎◌, inl, inr, false,
  Option, arith,
}
use mathlib.Core.List.{Memᴰ}
use native.Mathlib.Nat.{mod-lt, mod-eq_of_lt, mod-add-mod, add-mod_right}
use gen_net.Config.{Ref, Settings}
use gen_net.Config.Parse.{config_init}
use gen_net.Config.Laws.Fits.{config_init-Fits}
use gen_net.Config.Getters.{at_most_one, get_udp_listen_port, udp_listen_ports}

le-or : (k r : ℕ) → (r ≤ k) ⊎ (k < r)
le-or k r = grind arith

-- the steps to a remainder
steps_to : (m r k : ℕ) → r < m → k < m → (j : ℕ) × (j < m) × ((r + j) % m ≡ k)
steps_to m r k h g = elim (le-or k r) [
  | inl l ↦ (k - r, omega arith, ap (λ n. n % m) (omega arith) ∙ mod-eq_of_lt g)
  | inr l ↦
      (k + m - r, omega arith, ap (λ n. n % m) (omega arith) ∙ add-mod_right k m ∙ mod-eq_of_lt g)
]

module _ (s : Settings) (many : at_most_one s.udp_listen_port_mod ≡ false)
    (fits : s.udp_listen_port_beg + s.udp_listen_port_mod ≤ 2 ^ 32) where
  abbrev lowest : ℕ
  lowest = s.udp_listen_port_beg

  abbrev span : ℕ
  span = s.udp_listen_port_mod

  in_range : (inc : ℕ) → lowest + inc % span < lowest + span
  in_range inc = let below = mod-lt inc {m = span} (ground arith) in omega arith

  next-eq : (inc : ℕ) → get_udp_listen_port s inc ≡ (lowest + inc % span, suc inc % 2 ^ 32)
  unfolding get_udp_listen_port
  next-eq inc = let below = in_range inc in ground arith

  ports-within :
      (n inc p : ℕ) → Memᴰ p (udp_listen_ports n s inc) → (lowest ≤ p) × (p < lowest + span)
  unfolding udp_listen_ports
  ports-within zero inc p h = elim h [ ]
  ports-within (suc n) inc p (Memᴰ.head e) =
      let below = in_range inc in let port = e ∙ ap (λ r. r.0) (next-eq inc) in omega arith
  ports-within (suc n) inc p (Memᴰ.tail h) = ports-within n _ p h

  ports-reach :
      (n inc j : ℕ)
      → j < n
      → inc + n ≤ 2 ^ 32
      → Memᴰ (lowest + (inc + j) % span) (udp_listen_ports n s inc)
  unfolding udp_listen_ports
  ports-reach zero inc j h g = elim h [ ]
  ports-reach (suc n) inc zero h g =
      Memᴰ.head (ap (λ i. lowest + i % span) (omega arith) ∙ sym (ap (λ r. r.0) (next-eq inc)))
  ports-reach (suc n) inc (suc j) h g =
      let wraps : (get_udp_listen_port s inc).1 ≡ suc inc =
        ap (λ r. r.1) (next-eq inc) ∙ mod-eq_of_lt (omega arith) in
      let rest = ports-reach n (suc inc) j (omega arith) (omega arith) in
      let same : suc inc + j ≡ inc + suc j = omega arith in
      Memᴰ.tail (
        subst (λ i. Memᴰ (lowest + i % span) (udp_listen_ports n s (get_udp_listen_port s inc).1))
          same
          (subst (λ c. Memᴰ (lowest + (suc inc + j) % span) (udp_listen_ports n s c)) (sym wraps)
            rest))

  udp_listen_ports-range :
      (inc p : ℕ)
      → inc + span ≤ 2 ^ 32
      → Memᴰ p (udp_listen_ports span s inc) ↔ ((lowest ≤ p) × (p < lowest + span))
  udp_listen_ports-range inc p g = (
    ports-within span inc p,
    λ (low, high).
        let (j, below, e) =
          steps_to span (inc % span) (p - lowest) (mod-lt inc (ground arith)) (omega arith) in
        let at : lowest + (inc + j) % span ≡ p =
          ap (λ i. lowest + i) (sym (mod-add-mod inc span j) ∙ e) ∙ omega arith in
        subst (λ q. Memᴰ q (udp_listen_ports span s inc)) at (ports-reach span inc j below g),
  )

-- Whatever document was read: where it leaves a range of two ports or more, as many calls in a row
-- as the range has ports return exactly the ports of the range, if the counter does not wrap at
-- 32 bits in between.
pub config_init-range :
    (d : Option Ref) (old : Settings) (inc p : ℕ)
    → let s = (config_init d old).1 in
      at_most_one s.udp_listen_port_mod ≡ false
      → inc + s.udp_listen_port_mod ≤ 2 ^ 32
      → Memᴰ p (udp_listen_ports s.udp_listen_port_mod s inc)
        ↔ ((s.udp_listen_port_beg ≤ p) × (p < s.udp_listen_port_beg + s.udp_listen_port_mod))
config_init-range d old inc p many g =
    udp_listen_ports-range (config_init d old).1 many (config_init-Fits d old).all.0 inc p g

-- ===== src/Config/Laws/Ranges.antt =====
-- hev-config.c: the range of ports that `sscanf` reads.
use gen_net.Base.{
  ℕ, ◌+◌, ◌-◌, ◌^◌, ◌≤◌, ◌<◌, ◌≡◌, Bool, true, false, not, ◌&&◌, Option, none, some, List, [], ◌∷◌,
  arith, ltb, ◌==◌, if◌then◌else◌,
}
use gen_net.Config.Text.{scan_u, scan_end, scan_range}
use gen_net.Config.Scalars.{u32}
use gen_net.Config.MainSection.{range_end}

-- a value that was read has 32 bits
abbrev Read : Option (ℕ × List ℕ) → Type 0
Read none = 0 ≤ 0
Read (some v) = v.0 < 2 ^ 32

scan_u-Read : (t : List ℕ) → Read (scan_u t)
unfolding scan_u
scan_u-Read t = ground arith

abbrev Below : ℕ × ℕ → Type 0
Below r = (r.0 < 2 ^ 32) × (r.1 < 2 ^ 32)

end-Below :
    (o : Option (ℕ × List ℕ)) (beg : ℕ)
    → Read o
    → beg < 2 ^ 32
    → Below (elim o [ none ↦ (beg, 0) | some (n, _) ↦ (beg, n) ])
end-Below none beg r h = (h, omega arith)
end-Below (some v) beg r h = (h, r)

if-Below : (b : Bool) (x y : ℕ × ℕ) → Below x → Below y → Below (if b then x else y)
if-Below true x y h g = h
if-Below false x y h g = g

scan_end-Below : (t : List ℕ) (beg : ℕ) → beg < 2 ^ 32 → Below (scan_end t beg)
unfolding scan_end
scan_end-Below [] beg h = (h, omega arith)
scan_end-Below (c ∷ cs) beg h =
    if-Below (c == b'-') _ (beg, 0) (end-Below (scan_u cs) beg (scan_u-Read cs) h) (h, omega arith)

range-Below :
    (o : Option (ℕ × List ℕ))
    → Read o
    → Below (elim o [ none ↦ (0, 0) | some (beg, rest) ↦ scan_end rest beg ])
range-Below none r = (omega arith, omega arith)
range-Below (some (beg, rest)) r = scan_end-Below rest beg r

pub scan_range-lt : (t : List ℕ) → ((scan_range t).0 < 2 ^ 32) × ((scan_range t).1 < 2 ^ 32)
unfolding scan_range
scan_range-lt t = range-Below (scan_u t) (scan_u-Read t)

-- the range that is stored ends within 32 bits
pub stored-le :
    (beg end : ℕ)
    → end < 2 ^ 32
    → (not (end == 0) && ltb end beg) ≡ false
    → beg < 2 ^ 32
    → beg + u32 (range_end beg end - beg + 1) ≤ 2 ^ 32
stored-le beg end h e b = ground arith

-- ===== src/Wire/Laws.antt =====
-- A number that fits its width is read back.
use atomfs.Base.{ℕ, zero, suc, ◌/◌, ◌^◌, ◌<◌, ◌≡◌, refl, arith, length, ap}
use native.Mathlib.Nat.{pow-suc}
use atomfs.Wire.{get_le, put_le}

pub get_le-put_le : (w n : ℕ) → n < 256 ^ w → get_le (put_le w n) ≡ n
unfolding get_le put_le
get_le-put_le zero n h = omega arith
get_le-put_le (suc w) n h = omega (arith, get_le-put_le w (n / 256) (omega (arith, pow-suc 256 w)))

pub length-put_le : (w n : ℕ) → length (put_le w n) ≡ w
unfolding put_le
length-put_le zero n = refl
length-put_le (suc w) n = ap suc (length-put_le w (n / 256))

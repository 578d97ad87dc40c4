-- ===== src/Metrics/Signed.antt =====
-- Signed integers of known sign, as the running average computes with them.
use pmctrack.Prelude.{
  ℕ, zero, suc, ◌+◌, ◌-◌, ◌*◌, ◌/◌, ◌^◌, ◌≤◌, ◌<◌, ◌≡◌, refl, ap, false, arith, leb,
}
use pmctrack.Prelude.Int.{
  pos, negsuc, ◌+ℤ◌, ◌-ℤ◌, ◌*ℤ◌, ◌/ℤ◌, sub_ℕ, +ℤ_parts, -ℤ_parts, eq_of_parts,
}
use native.Mathlib.Nat.{mul-le-mul_right}

-- The part of a distance that is kept is no longer than the distance.
pub shrink : (f n : ℕ) → f ≤ 100 → f * n / 100 ≤ n
shrink f n h = omega (arith, mul-le-mul_right {m = f} {n = 100} n h)

pub minus_ge : (a v : ℕ) → v ≤ a → pos a -ℤ pos v ≡ pos (a - v)
minus_ge a v h =
    eq_of_parts (pos a -ℤ pos v) (pos (a - v)) (omega (arith, -ℤ_parts (pos a) (pos v)))

pub minus_lt : (a v : ℕ) → a < v → pos a -ℤ pos v ≡ negsuc (v - a - 1)
minus_lt a v h =
    eq_of_parts (pos a -ℤ pos v) (negsuc (v - a - 1)) (omega (arith, -ℤ_parts (pos a) (pos v)))

pub times_pos : (f n : ℕ) → pos f *ℤ pos n ≡ pos (f * n)
unfolding ◌*ℤ◌
times_pos f n = ground arith

pub times_neg : (f n : ℕ) → pos f *ℤ negsuc n ≡ sub_ℕ 0 (f * suc n)
unfolding ◌*ℤ◌
times_neg f n = ground arith

pub over_neg : (n : ℕ) → sub_ℕ 0 n /ℤ pos 100 ≡ sub_ℕ 0 (n / 100)
unfolding ◌/ℤ◌
over_neg zero = refl
over_neg (suc n) =
    let b : leb (suc n) 0 ≡ false = ground arith in
    rw (b) (ap (λ k. sub_ℕ 0 (k / 100)) {x = suc (suc n - 0 - 1)} (omega arith))

pub over_pos : (n : ℕ) → pos n /ℤ pos 100 ≡ pos (n / 100)
unfolding ◌/ℤ◌
over_pos n = refl

pub plus_pos : (q v : ℕ) → pos q +ℤ pos v ≡ pos (q + v)
plus_pos q v = eq_of_parts (pos q +ℤ pos v) (pos (q + v)) (omega (arith, +ℤ_parts (pos q) (pos v)))

pub plus_neg : (q v : ℕ) → q ≤ v → sub_ℕ 0 q +ℤ pos v ≡ pos (v - q)
plus_neg q v h =
    eq_of_parts (sub_ℕ 0 q +ℤ pos v) (pos (v - q)) (ground (arith, +ℤ_parts (sub_ℕ 0 q) (pos v)))

-- A product of a factor of at most 100 percent
pub factor_below : (f n : ℕ) → f ≤ 100 → n ≤ 20000000 → f * n < 2 ^ 31
factor_below f n h k = omega (arith, mul-le-mul_right {m = f} {n = 100} n h)

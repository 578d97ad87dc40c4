-- ===== src/Metrics/Average.antt =====
-- The bounds of the running average, of src/modules/pmcs/mc_experiments.c.
use pmctrack.Prelude.{
  ℕ, suc, ◌+◌, ◌-◌, ◌*◌, ◌/◌, ◌^◌, ◌≤◌, ◌<◌, ◌≡◌, refl, ap, ◌∙◌, Bool, true, false, not, ◌&&◌, ltb,
  ◌==◌, Bool-cases, some, ◌>>=◌, Ensures, arith, if◌then◌else◌, dec_le, inl, inr, ◌⊎◌,
}
use pmctrack.Prelude.Int.{
  ℤ, pos, ◌+ℤ◌, ◌*ℤ◌, ◌/ℤ◌, ◌≤ℤ◌, ltb_ℤ, eqb_ℤ, int_of, int_of_pos, int_of_negsuc, int_of_opposite,
}
use native.Mathlib.Nat.{mul-le-mul_right}
use pmctrack.Metrics.Running.{next_average, half, changed, pmon_update_running_average}
use pmctrack.Metrics.Signed.{
  shrink, minus_ge, minus_lt, times_pos, times_neg, over_neg, over_pos, plus_pos, plus_neg,
  factor_below,
}

-- Between two values, in either order
abbrev pub Between : ℤ → ℤ → ℤ → Type 0
Between a b x = ((a ≤ℤ x) × (x ≤ℤ b)) ⊎ ((b ≤ℤ x) × (x ≤ℤ a))

next_down :
    (a v f : ℕ)
    → v ≤ a
    → f ≤ 100
    → a ≤ 20000000
    → next_average (pos a) (pos v) (pos f) ≡ some (pos (f * (a - v) / 100 + v))
unfolding next_average
next_down a v f h k l =
    rw
      (
        minus_ge a v h,
        int_of_pos (a - v) (omega arith),
        times_pos f (a - v),
        int_of_pos (f * (a - v)) (factor_below f (a - v) k (omega arith)),
        over_pos (f * (a - v)),
        plus_pos (f * (a - v) / 100) v,
      )
      (int_of_pos (f * (a - v) / 100 + v) (omega (arith, shrink f (a - v) k)))

next_up :
    (a v f : ℕ)
    → a < v
    → f ≤ 100
    → v ≤ 20000000
    → next_average (pos a) (pos v) (pos f) ≡ some (pos (v - f * (v - a) / 100))
unfolding next_average
next_up a v f h k l =
    let n = v - a - 1 in
    let e : suc n ≡ v - a = omega arith in
    rw
      (
        minus_lt a v h,
        int_of_negsuc n (omega arith),
        times_neg f n,
        e,
        int_of_opposite (f * (v - a)) (omega (arith, factor_below f (v - a) k (omega arith))),
        over_neg (f * (v - a)),
        plus_neg (f * (v - a) / 100) v (omega (arith, shrink f (v - a) k)),
      )
      (int_of_pos (v - f * (v - a) / 100) (omega arith))

-- Between the old average and the new value, and so no larger than both
next_average-Between :
    (a v f : ℕ)
    → f ≤ 100
    → a ≤ 20000000
    → v ≤ 20000000
    → (c : ℕ) × (next_average (pos a) (pos v) (pos f) ≡ some (pos c))
      × (c ≤ 20000000)
      × Between (pos a) (pos v) (pos c)
next_average-Between a v f h p q = elim (dec_le v a) [
  | yes l ↦ (
    f * (a - v) / 100 + v,
    next_down a v f l h p,
    omega (arith, shrink f (a - v) h),
    inr (omega arith, omega (arith, shrink f (a - v) h)),
  )
  | no n ↦
      let l : a < v = omega arith in
      (
        v - f * (v - a) / 100,
        next_up a v f l h q,
        omega arith,
        inl (omega (arith, shrink f (v - a) h), omega arith),
      )
]

-- What the threshold is taken from, in percent
threshold_below : (th x : ℕ) → th ≤ 100 → x ≤ 20000010 → th * x < 2 ^ 31
threshold_below th x h k = omega (arith, mul-le-mul_right {m = th} {n = 100} x h)

limit_lem :
    (axis vmax e : ℕ)
    → axis + e < 2 ^ 31
    → (if eqb_ℤ (pos e) (pos 0)
        then some false
        else (do limit ← int_of (pos axis +ℤ pos e); some (ltb_ℤ limit (pos vmax))))
      ≡ some (not (e == 0) && ltb (axis + e) vmax)
limit_lem axis vmax e h = rw (plus_pos axis e, int_of_pos (axis + e) h) (ground arith)

-- The allowed distance, of which the computation does not leave the range of `int`
epsilon_lem :
    (th axis : ℕ) (p : Bool)
    → axis ≤ 20000010
    → th ≤ (if p then 100 else 2 ^ 30)
    → (e : ℕ) × (axis + e < 2 ^ 31)
      × ((if p
            then (int_of (pos th *ℤ pos axis) >>= λ product. some (product /ℤ pos 100))
            else some (pos th))
          ≡ some (pos e))
epsilon_lem th axis true h l = (
  th * axis / 100,
  omega (arith, shrink th axis l),
  rw (times_pos th axis, int_of_pos (th * axis) (threshold_below th axis l h))
      (ap some (over_pos (th * axis))),
)
epsilon_lem th axis false h l = (th, omega arith, refl)

-- The detection never leaves the range of `int`, and finds no change between equal values.
changed_lem :
    (x y th : ℕ) (p : Bool)
    → x ≤ 20000010
    → y ≤ 20000010
    → th ≤ (if p then 100 else 2 ^ 30)
    → (v : Bool) × (changed (pos x) (pos y) (pos th) p ≡ some v) × (x ≡ y → v ≡ false)
unfolding changed half
changed_lem x y th p h k l = elim (Bool-cases (ltb y x)) [
  | inl b ↦
      let (e, small, eps) = epsilon_lem th ((x + y) / 2) p (omega arith) l in
      let g : ltb_ℤ (pos y) (pos x) ≡ true = ground arith in
      (
        not (e == 0) && ltb ((x + y) / 2 + e) x,
        rw (g, plus_pos x y, int_of_pos (x + y) (omega arith), eps)
            (limit_lem ((x + y) / 2) x e small),
        λ q. absurd (ground (arith, b, q)),
      )
  | inr b ↦
      let (e, small, eps) = epsilon_lem th ((y + x) / 2) p (omega arith) l in
      let g : ltb_ℤ (pos y) (pos x) ≡ false = ground arith in
      (
        not (e == 0) && ltb ((y + x) / 2 + e) y,
        rw (g, plus_pos y x, int_of_pos (y + x) (omega arith), eps)
            (limit_lem ((y + x) / 2) y e small),
        λ q.
            let f : ltb ((y + x) / 2 + e) y ≡ false = ground arith in
            rw (f) (and_false (not (e == 0))),
      )
]
  where
    and_false : (b : Bool) → (b && false) ≡ false
    and_false true = refl
    and_false false = refl

next_average_same :
    (a f : ℕ) → f ≤ 100 → a ≤ 20000000 → next_average (pos a) (pos a) (pos f) ≡ some (pos a)
next_average_same a f h l =
    next_down a a f (omega arith) h l
    ∙ ap (λ k. some (pos (f * k / 100 + a))) {y = 0} (omega arith)
    ∙ ap (λ k. some (pos k)) (omega arith)

-- Of values up to 20000000, with a factor of at most 100 percent and a threshold of at most 100 if it
-- is a percentage, and of `2 ^ 30` if it is not: no computation leaves the range of `int`; the new
-- running average lies between the old one and the new value; and a value equal to the average leaves
-- it as it is and is no change.
pub pmon_update_running_average_lem :
    (average last_value ra_factor ra_threshold : ℕ) (percentage : Bool)
    → average ≤ 20000000
    → last_value ≤ 20000000
    → ra_factor ≤ 100
    → ra_threshold ≤ (if percentage then 100 else 2 ^ 30)
    → Ensures
        (pmon_update_running_average
          (pos average)
          (pos last_value)
          (pos ra_factor)
          (pos ra_threshold)
          percentage)
        (λ r. Between (pos average) (pos last_value) r.1)
      × (pmon_update_running_average
            (pos average)
            (pos average)
            (pos ra_factor)
            (pos ra_threshold)
            percentage
          ≡ some (false, pos average))
unfolding pmon_update_running_average
pmon_update_running_average_lem a v f th p ha hv hf ht =
    let (c, ce, cl, between) = next_average-Between a v f hf ha hv in
    let (w, we, u) = changed_lem (c + 10) (a + 10) th p (omega arith) (omega arith) ht in
    let (w', we', u') = changed_lem (a + 10) (a + 10) th p (omega arith) (omega arith) ht in
    (
      rw
          (
            ce,
            plus_pos c 10,
            plus_pos a 10,
            int_of_pos (c + 10) (omega arith),
            int_of_pos (a + 10) (omega arith),
            we,
          )
          between,
      rw
          (
            next_average_same a f hf ha,
            plus_pos a 10,
            int_of_pos (a + 10) (omega arith),
            we',
            u' refl,
          )
          refl,
    )

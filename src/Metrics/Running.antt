-- ===== src/Metrics/Running.antt =====
-- The running average of a metric and the detection of its changes, of
-- src/modules/pmcs/mc_experiments.c. An `int` is an integer, and a result outside of its range a fault
-- (`none`).
use pmctrack.Prelude.{◌/◌, Bool, false, Option, some, ◌>>=◌, if◌then◌else◌}
use pmctrack.Prelude.Int.{ℤ, pos, negsuc, ◌+ℤ◌, ◌-ℤ◌, ◌*ℤ◌, ◌/ℤ◌, ltb_ℤ, eqb_ℤ, int_of}

-- The average after a new value
unfoldable pub next_average : ℤ → ℤ → ℤ → Option ℤ
unfolding int_of
next_average average value ra_factor = do
  distance ← int_of (average -ℤ value)
  product ← int_of (ra_factor *ℤ distance)
  int_of (product /ℤ pos 100 +ℤ value)

-- `x >> 1`, which rounds down
unfoldable pub half : ℤ → ℤ
half (pos n) = pos (n / 2)
half (negsuc n) = negsuc (n / 2)

-- Whether the averages, with 10 added to each, are further apart than allowed
unfoldable pub changed : ℤ → ℤ → ℤ → Bool → Option Bool
unfolding half int_of
changed cur old ra_threshold percentage = do
  let vmax = if ltb_ℤ old cur then cur else old
  let vmin = if ltb_ℤ old cur then old else cur
  total ← int_of (vmax +ℤ vmin)
  let axis = half total
  epsilon ←
      if percentage
      then (int_of (ra_threshold *ℤ axis) >>= λ product. some (product /ℤ pos 100))
      else some ra_threshold
  if eqb_ℤ epsilon (pos 0)
      then some false
      else (do limit ← int_of (axis +ℤ epsilon); some (ltb_ℤ limit vmax))

-- Whether the running average has changed, and the new one. An `unsigned int` is taken as an `int`.
unfoldable pub pmon_update_running_average : ℤ → ℤ → ℤ → ℤ → Bool → Option (Bool × ℤ)
unfolding next_average changed int_of
pmon_update_running_average average last_value ra_factor ra_threshold percentage = do
  cur ← next_average average last_value ra_factor
  cur' ← int_of (cur +ℤ pos 10)
  old' ← int_of (average +ℤ pos 10)
  variation ← changed cur' old' ra_threshold percentage
  some (variation, cur)

-- ===== src/Metrics/Speedup.antt =====
-- Estimates of the speedup factor, of mc_experiments.c. An
-- `int` is an integer; what follows is about values for which the code stays in its range.
use pmctrack.Prelude.{
  ℕ, ◌-◌, ◌%◌, ◌^◌, ◌<◌, ◌≡◌, false, List, [], ◌∷◌, Option, none, some, arith, length, leb, ltb,
  if◌then◌else◌, ◌>>=◌, Ensures, Ensures-bind,
}
use pmctrack.Prelude.Int.{ℤ, pos, negsuc, ◌+ℤ◌, ◌*ℤ◌, ◌/ℤ◌, ◌≤ℤ◌, ltb_ℤ, eqb_ℤ, sub_ℕ}
use pmctrack.Memory.{load, load_in}

-- The end of the coefficients, -1
abbrev pub end_mark : ℤ
end_mark = negsuc 0

-- `metrics[metric_id]`
unfoldable pub metric_at : List ℕ → ℤ → Option ℕ
metric_at metrics (pos i) = load metrics i
metric_at metrics (negsuc n) = none

-- `(int) m`
unfoldable pub to_int : ℕ → ℤ
to_int m = if ltb (m % 2 ^ 32) (2 ^ 31) then pos (m % 2 ^ 32) else sub_ℕ (m % 2 ^ 32) (2 ^ 32)

-- An `int` that is compared with a `uint64_t`
unfoldable pub to_uint64 : ℤ → ℕ
to_uint64 (pos n) = n
to_uint64 (negsuc n) = 2 ^ 64 - 1 - n

unfoldable pub clamp : ℤ → ℤ → ℤ → ℤ
clamp sfmin sfmax sf = if ltb_ℤ sf sfmin then sfmin else if ltb_ℤ sfmax sf then sfmax else sf

abbrev pub quotient : ℤ → ℤ → Option ℤ
quotient a b = if eqb_ℤ b (pos 0) then none else some (a /ℤ b)

-- The terms of the regression, from the coefficients that are left
unfoldable pub regression_terms : List ℕ → List ℤ → ℤ → Option ℤ
unfolding metric_at to_int
regression_terms metrics [] sf = none
regression_terms metrics (id ∷ []) sf = if eqb_ℤ id end_mark then some sf else none
regression_terms metrics (id ∷ a ∷ []) sf = if eqb_ℤ id end_mark then some sf else none
regression_terms metrics (id ∷ a ∷ b ∷ rest) sf = if eqb_ℤ id end_mark then some sf else (do
  metric ← metric_at metrics id
  factor ← quotient (to_int metric *ℤ a) b
  regression_terms metrics rest (sf +ℤ factor))

unfoldable pub estimate_sf_regression : List ℕ → List ℤ → Option ℤ
unfolding regression_terms clamp
estimate_sf_regression metrics (sf ∷ sfmin ∷ sfmax ∷ rest) = do
  sum ← regression_terms metrics rest sf
  some (clamp sfmin sfmax sum)
estimate_sf_regression metrics spec = none

-- The steps of the additive model
unfoldable pub additive_terms : List ℕ → List ℤ → ℤ → Option ℤ
unfolding metric_at to_uint64
additive_terms metrics [] sf = none
additive_terms metrics (id ∷ []) sf = if eqb_ℤ id end_mark then some sf else none
additive_terms metrics (id ∷ a ∷ []) sf = if eqb_ℤ id end_mark then some sf else none
additive_terms metrics (id ∷ a ∷ b ∷ []) sf = if eqb_ℤ id end_mark then some sf else none
additive_terms metrics (id ∷ threshold ∷ low ∷ high ∷ rest) sf =
    if eqb_ℤ id end_mark then some sf else (do
      metric ← metric_at metrics id
      additive_terms metrics rest
          (if leb metric (to_uint64 threshold) then sf +ℤ low else sf +ℤ high))

-- The entry at index 3 is not read.
unfoldable pub estimate_sf_additive : List ℕ → List ℤ → ℤ → Option ℤ
unfolding additive_terms clamp
estimate_sf_additive metrics (sf ∷ sfmin ∷ sfmax ∷ skipped ∷ rest) correction_factor = do
  sum ← additive_terms metrics rest (sf +ℤ correction_factor)
  some (clamp sfmin sfmax sum)
estimate_sf_additive metrics spec correction_factor = none

-- A list of terms of the regression, up to the end mark.
pub data IsRegression (metrics : List ℕ) : List ℤ → Type 0 where
  last : {rest : List ℤ} → IsRegression metrics (end_mark ∷ rest)
  term :
      {id : ℕ} {a b : ℤ} {rest : List ℤ}
      → id < length metrics
      → eqb_ℤ b (pos 0) ≡ false
      → IsRegression metrics rest
      → IsRegression metrics (pos id ∷ a ∷ b ∷ rest)

pub data IsAdditive (metrics : List ℕ) : List ℤ → Type 0 where
  last : {rest : List ℤ} → IsAdditive metrics (end_mark ∷ rest)
  term :
      {id : ℕ} {threshold low high : ℤ} {rest : List ℤ}
      → id < length metrics
      → IsAdditive metrics rest
      → IsAdditive metrics (pos id ∷ threshold ∷ low ∷ high ∷ rest)

abbrev Summed : ℤ → Type 0
Summed sf = Unit

regression_terms_lem :
    (metrics : List ℕ) (spec : List ℤ) (sf : ℤ)
    → IsRegression metrics spec
    → Ensures (regression_terms metrics spec sf) Summed
unfolding regression_terms metric_at
regression_terms_lem metrics (_ ∷ []) sf last = tt
regression_terms_lem metrics (_ ∷ a ∷ []) sf last = tt
regression_terms_lem metrics (_ ∷ a ∷ b ∷ rest) sf last = tt
regression_terms_lem metrics _ sf (term {id} {a} {b} {rest} l n more) =
    let e : eqb_ℤ (pos id) end_mark ≡ false = ground arith in
    rw (e, load_in metrics id 0 l, n) (regression_terms_lem metrics rest _ more)

additive_terms_lem :
    (metrics : List ℕ) (spec : List ℤ) (sf : ℤ)
    → IsAdditive metrics spec
    → Ensures (additive_terms metrics spec sf) Summed
unfolding additive_terms metric_at
additive_terms_lem metrics (_ ∷ []) sf last = tt
additive_terms_lem metrics (_ ∷ a ∷ []) sf last = tt
additive_terms_lem metrics (_ ∷ a ∷ b ∷ []) sf last = tt
additive_terms_lem metrics (_ ∷ a ∷ b ∷ c ∷ rest) sf last = tt
additive_terms_lem metrics _ sf (term {id} {threshold} {low} {high} {rest} l more) =
    let e : eqb_ℤ (pos id) end_mark ≡ false = ground arith in
    rw (e, load_in metrics id 0 l) (additive_terms_lem metrics rest _ more)

-- From the least value to the greatest one
abbrev pub Within : ℤ → ℤ → ℤ → Type 0
Within sfmin sfmax sf = (sfmin ≤ℤ sf) × (sf ≤ℤ sfmax)

clamp-Within : (sfmin sfmax sf : ℤ) → sfmin ≤ℤ sfmax → Within sfmin sfmax (clamp sfmin sfmax sf)
unfolding clamp
clamp-Within sfmin sfmax sf h = ground arith

-- With coefficients that end with the mark, name metrics that there are and divide by no zero, both
-- estimates never fault, and lie between the least and the greatest value of their coefficients,
-- whatever the values of the metrics are.
pub estimate_sf_lem :
    (metrics : List ℕ) (sf sfmin sfmax skipped correction_factor : ℤ) (terms steps : List ℤ)
    → sfmin ≤ℤ sfmax
    → IsRegression metrics terms
    → IsAdditive metrics steps
    → Ensures (estimate_sf_regression metrics (sf ∷ sfmin ∷ sfmax ∷ terms)) (Within sfmin sfmax)
      × Ensures
          (estimate_sf_additive metrics (sf ∷ sfmin ∷ sfmax ∷ skipped ∷ steps) correction_factor)
          (Within sfmin sfmax)
unfolding estimate_sf_regression estimate_sf_additive
estimate_sf_lem metrics sf sfmin sfmax skipped correction_factor terms steps h r a = (
  Ensures-bind (regression_terms metrics terms sf) Summed _ (Within sfmin sfmax)
      (regression_terms_lem metrics terms sf r) (λ sum u. clamp-Within sfmin sfmax sum h),
  Ensures-bind (additive_terms metrics steps (sf +ℤ correction_factor)) Summed _
      (Within sfmin sfmax) (additive_terms_lem metrics steps _ a)
      (λ sum u. clamp-Within sfmin sfmax sum h),
)

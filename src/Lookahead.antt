-- ===== src/Lookahead.antt =====
-- The lookahead algorithm of utility-based cache partitioning, in
-- src/modules/pmcs/cache_partitioning.c. A curve is an array of `int`: entry 0 holds the number of
-- the entries behind it, and entry `w` what the application suffers with `w` ways. Numbers of ways
-- are not negative, but for the -1 that means that no number was chosen. `none` is a fault: a read
-- outside a curve, a negative index or a marginal utility that leaves the range of `int`; or the loop
-- was not given enough fuel.
pub mod Utility
pub mod Solution
pub mod Rounds
pub mod Total
use pmctrack.Prelude.{
  ℕ, zero, suc, ◌+◌, ◌-◌, ◌/◌, ◌%◌, ◌^◌, List, [], ◌∷◌, Option, none, some, Bool, true, false, ltb,
  ◌==◌, if◌then◌else◌, ◌>>=◌, length, set, replicate, min,
}
use pmctrack.Prelude.Int.{ℤ, pos, negsuc, ◌-ℤ◌, ◌/ℤ◌, ltb_ℤ, int_of}
use pmctrack.Memory.{load}

unfoldable pub marginal_utility : ℕ → ℕ → ℤ → ℤ → Option ℤ
unfolding int_of
marginal_utility from_way to_way mpki_from mpki_to = do
  difference ← int_of (mpki_to -ℤ mpki_from)
  int_of (difference /ℤ (pos from_way -ℤ pos to_way))

-- `ret_val` of `get_max_mu_gen`
pub record MaxMu : Type 0 where
  pub max_mu : ℤ
  pub mu_ways : ℕ
  pub best_metric_val : ℤ

abbrev pub to_index : ℤ → Option ℕ
to_index (pos n) = some n
to_index (negsuc n) = none

abbrev pub is_zero : ℤ → Bool
is_zero (pos n) = n == 0
is_zero (negsuc n) = false

-- What a curve says of `ways`: its last value from its last entry on.
unfoldable pub value_at : List ℤ → ℕ → ℤ → ℕ → Option ℤ
value_at curve entries top ways = if ltb entries ways then some top else load curve ways

-- A better number of ways replaces the best one so far.
unfoldable pub better : ℤ → ℕ → ℤ → MaxMu → MaxMu
better mu ways misses best =
    if ltb_ℤ best.max_mu mu
    then record { max_mu = mu; mu_ways = ways; best_metric_val = misses }
    else best

-- The loop of `get_max_mu_gen`, from `i` extra ways on, `n` times.
unfoldable pub explore : List ℤ → ℕ → ℕ → ℤ → ℤ → ℕ → ℕ → MaxMu → Option MaxMu
explore curve ways entries misses top i zero best = some best
explore curve ways entries misses top i (suc n) best = do
  new_misses ← value_at curve entries top (ways + i)
  mu ← marginal_utility ways (ways + i) misses new_misses
  explore curve ways entries misses top (suc i) n (better mu (ways + i) new_misses best)

-- nothing chosen
abbrev pub no_mu : MaxMu
no_mu = record { max_mu = pos 0; mu_ways = 2 ^ 32 - 1; best_metric_val = pos 0 }

unfoldable pub get_max_mu_gen : List ℤ → ℕ → ℕ → ℕ → Option MaxMu
get_max_mu_gen curve ways available_ways max_nr_ways = do
  misses ← load curve ways
  first ← load curve 0
  entries ← to_index first
  top ← load curve entries
  explore curve ways entries misses top 1 (min available_ways (max_nr_ways - ways)) no_mu

-- The choice of a round: the largest marginal utility, the application that has it and the ways it
-- then gets.
pub record Choice : Type 0 where
  pub global_max_mu : ℤ
  pub selected_idx : ℕ
  pub global_mu_ways : ℕ

unfoldable pub pick : MaxMu → ℕ → Choice → Choice
pick m i c =
    if ltb_ℤ c.global_max_mu m.max_mu
    then record { global_max_mu = m.max_mu; selected_idx = i; global_mu_ways = m.mu_ways }
    else c

-- The loop over the applications of a round, from number `i` on.
unfoldable pub find_choice : List (List ℤ) → List ℕ → ℕ → ℕ → ℕ → Choice → Option Choice
find_choice [] solution available_ways nr_ways i c = some c
find_choice (curve ∷ curves) solution available_ways nr_ways i c = do
  ways ← load solution i
  m ← get_max_mu_gen curve ways available_ways nr_ways
  find_choice curves solution available_ways nr_ways (suc i) (pick m i c)

-- no choice yet; `selected_idx` is not initialised, and not read before it is set
abbrev pub no_choice : Choice
no_choice = record { global_max_mu = pos 0; selected_idx = 0; global_mu_ways = 2 ^ 32 - 1 }

-- The body of the loop: the ways still available and the solution after the round, `none` within
-- when no application gains.
unfoldable pub round : List (List ℤ) → ℕ → ℕ → List ℕ → Option (Option (ℕ × List ℕ))
round curves nr_ways available_ways solution = do
  c ← find_choice curves solution available_ways nr_ways 0 no_choice
  if is_zero c.global_max_mu then some none else (do
    ways ← load solution c.selected_idx
    some (
        some (
          available_ways - (c.global_mu_ways - ways),
          set solution c.selected_idx c.global_mu_ways,
        )))

-- The loop while ways are available and some application gains from them. Each round takes at
-- least one way, so as many rounds as there are ways are enough.
unfoldable pub rounds : ℕ → List (List ℤ) → ℕ → ℕ → List ℕ → Option (ℕ × List ℕ)
rounds zero curves nr_ways available_ways solution =
    if available_ways == 0 then some (available_ways, solution) else none
rounds (suc fuel) curves nr_ways available_ways solution =
    if available_ways == 0 then some (available_ways, solution) else (do
      result ← round curves nr_ways available_ways solution
      elim result [
        | none ↦ some (available_ways, solution)
        | some (a, s) ↦ rounds fuel curves nr_ways a s
      ])

-- The ways that are left, shared out: `fair` for each application and one more for the first
-- `remaining_ways`, until none are available.
unfoldable pub share_out : ℕ → ℕ → ℕ → List ℕ → List ℕ
share_out fair remaining_ways available_ways [] = []
share_out fair remaining_ways available_ways (w ∷ ws) =
    let extra = if ltb 0 remaining_ways then fair + 1 else fair in
    if available_ways == 0
    then w ∷ ws
    else (w + extra) ∷ share_out fair (remaining_ways - 1) (available_ways - extra) ws

unfoldable pub lookahead_algorithm : List (List ℤ) → ℕ → Option (List ℕ)
unfolding rounds
lookahead_algorithm curves nr_ways = do
  (available_ways, solution) ← rounds nr_ways curves nr_ways (nr_ways - n) (replicate n 1)
  some (
      if ltb 0 available_ways
      then share_out (available_ways / n) (available_ways % n) available_ways solution
      else solution)
  where
    n : ℕ
    n = length curves

-- `candidate_cluster_t`: the number of its applications, the curve of the first one, and its own
pub record Cluster : Type 0 where
  pub nr_apps : ℕ
  pub first_curve : List ℤ
  pub sum_slowdown : List ℤ

-- What the list holds: applications, by their curves, or clusters. The walk casts by `clustering`,
-- and an element of the other kind is a fault.
pub data Element : Type 0 where
  app : List ℤ → Element
  cluster : Cluster → Element

unfoldable pub curve_of : Bool → Element → Option (List ℤ)
curve_of true (cluster cand) =
    some (if cand.nr_apps == 1 then cand.first_curve else cand.sum_slowdown)
curve_of false (app curve) = some curve
curve_of true (app curve) = none
curve_of false (cluster cand) = none

-- The curves of the first `nr_apps` elements; behind the end of the list is the null pointer.
unfoldable pub walk : Bool → ℕ → List Element → Option (List (List ℤ))
unfolding curve_of
walk clustering zero apps = some []
walk clustering (suc nr_apps) [] = none
walk clustering (suc nr_apps) (cur_app ∷ apps) = do
  curve ← curve_of clustering cur_app
  curves ← walk clustering nr_apps apps
  some (curve ∷ curves)

-- One application alone gets all ways. Each round walks the list anew; it does not change, so that
-- the curves of the rounds are those of one walk, after which all is as above. Without a round there
-- is no walk: the model then asks for the curves all the same.
unfoldable pub lookahead_algorithm_list : List Element → ℕ → ℕ → Bool → Option (List ℕ)
unfolding walk
lookahead_algorithm_list apps nr_apps nr_ways clustering =
    if nr_apps == 1
    then some (nr_ways ∷ [])
    else (do curves ← walk clustering nr_apps apps; lookahead_algorithm curves nr_ways)

-- ===== src/Tests/Curves.antt =====
-- Two applications that share five ways.
use pmctrack.Prelude.{
  ℕ, zero, suc, ◌+◌, ◌<◌, ◌≤◌, ◌≡◌, refl, List, [], ◌∷◌, Option, some, none, true, arith, length,
  get_or, Ensures,
}
use pmctrack.Prelude.Int.{ℤ, pos, negsuc}
use pmctrack.Lookahead.{
  Element, cluster, lookahead_algorithm, lookahead_algorithm_list, round, find_choice,
  get_max_mu_gen, explore, value_at, better, marginal_utility, pick,
}
use pmctrack.Lookahead.Utility.{IsCurve, Count}
use pmctrack.Lookahead.Total.{Solves, lookahead_algorithm_lem}

-- The first one gains from three ways, the second one hardly from any.
abbrev curves : List (List ℤ)
curves = (pos 3 ∷ pos 30 ∷ pos 20 ∷ pos 5 ∷ []) ∷ (pos 2 ∷ pos 10 ∷ pos 9 ∷ []) ∷ []

first_values : (w : ℕ) → w ≤ 3 → Count (get_or (get_or curves 0 []) w (pos 0))
first_values zero h = (refl, omega arith)
first_values (suc zero) h = (refl, omega arith)
first_values (suc (suc zero)) h = (refl, omega arith)
first_values (suc (suc (suc zero))) h = (refl, omega arith)
first_values (suc (suc (suc (suc w)))) h = absurd (omega arith)

second_values : (w : ℕ) → w ≤ 2 → Count (get_or (get_or curves 1 []) w (pos 0))
second_values zero h = (refl, omega arith)
second_values (suc zero) h = (refl, omega arith)
second_values (suc (suc zero)) h = (refl, omega arith)
second_values (suc (suc (suc w))) h = absurd (omega arith)

curves-IsCurve : (j : ℕ) → j < 2 → (entries : ℕ) × IsCurve (get_or curves j []) entries
curves-IsCurve zero h = (
  3,
  record { counted = refl; nonempty = omega arith; room = omega arith; values = first_values },
)
curves-IsCurve (suc zero) h = (
  2,
  record { counted = refl; nonempty = omega arith; room = omega arith; values = second_values },
)
curves-IsCurve (suc (suc j)) h = absurd (omega arith)

curves_result : lookahead_algorithm curves 5 ≡ some (3 ∷ 2 ∷ [])
unfolding lookahead_algorithm round find_choice get_max_mu_gen explore value_at pick better
    marginal_utility pmctrack.Prelude.Int.◌/ℤ◌ pmctrack.Prelude.Int.◌-ℤ◌
curves_result = refl

lookahead_algorithm_lem_example : Ensures (lookahead_algorithm curves 5) (Solves 2 5)
lookahead_algorithm_lem_example =
    lookahead_algorithm_lem curves 5 (omega arith) (omega arith) curves-IsCurve

-- The first cluster has one application, the second one two.
abbrev elements : List Element
elements =
    cluster (record { nr_apps = 1; first_curve = get_or curves 0 []; sum_slowdown = [] })
    ∷ cluster (record { nr_apps = 2; first_curve = []; sum_slowdown = get_or curves 1 [] })
    ∷ []

elements_result : lookahead_algorithm_list elements 2 5 true ≡ some (3 ∷ 2 ∷ [])
unfolding lookahead_algorithm_list lookahead_algorithm round find_choice get_max_mu_gen explore
    value_at pick better marginal_utility pmctrack.Prelude.Int.◌/ℤ◌ pmctrack.Prelude.Int.◌-ℤ◌
elements_result = refl

-- INT_MIN / -1
trap : marginal_utility 1 2 (pos 1) (negsuc 2147483646) ≡ none
unfolding marginal_utility pmctrack.Prelude.Int.◌/ℤ◌ pmctrack.Prelude.Int.◌-ℤ◌
trap = refl

-- ===== src/Tests/Counts.antt =====
-- Metrics over three event counts: cycles, instructions and misses.
use pmctrack.Prelude.{
  ℕ, zero, suc, ◌<◌, ◌≡◌, refl, List, [], ◌∷◌, true, false, some, none, arith, Ensures,
}
use pmctrack.Prelude.Int.{pos}
use pmctrack.Metrics.{
  Metric, op_rate, op_division, op_substract, hw_event_arg, metric_arg, compute_value,
  compute_performance_metrics,
}
use pmctrack.Metrics.Values.{IsDefined, at}
use pmctrack.Metrics.Evaluation.{Computed, compute_performance_metrics_lem}
use pmctrack.Metrics.Speedup.{
  estimate_sf_regression, estimate_sf_additive, last, term, Within, end_mark, estimate_sf_lem,
}
use pmctrack.Metrics.Average.{Between, pmon_update_running_average_lem}
use pmctrack.Metrics.Running.{pmon_update_running_average}

abbrev ipc : Metric
ipc = record {
  mode = op_rate;
  arg1 = hw_event_arg 1;
  arg2 = hw_event_arg 0;
  scale_factor = 1000;
  count = 0;
}

abbrev misses_by_ipc : Metric
misses_by_ipc = record {
  mode = op_division;
  arg1 = hw_event_arg 2;
  arg2 = metric_arg 0;
  scale_factor = 1;
  count = 0;
}

abbrev counts : List ℕ
counts = 200 ∷ 100 ∷ 7000 ∷ []

metrics_run :
    compute_performance_metrics (λ i. 0) counts 2 (ipc ∷ misses_by_ipc ∷ [])
    ≡ some (record ipc { count = 500 } ∷ record misses_by_ipc { count = 14 } ∷ [])
unfolding compute_performance_metrics compute_value
metrics_run = refl

-- 7000 less 100 is 0.
substract_run :
    compute_value 0 counts [] (record {
      mode = op_substract;
      arg1 = hw_event_arg 2;
      arg2 = hw_event_arg 1;
      scale_factor = 1;
      count = 5;
    })
    ≡ some (record {
      mode = op_substract;
      arg1 = hw_event_arg 2;
      arg2 = hw_event_arg 1;
      scale_factor = 1;
      count = 0;
    })
unfolding compute_value
substract_run = refl

defined : (i : ℕ) → i < 2 → IsDefined counts i (at (ipc ∷ misses_by_ipc ∷ []) i)
defined zero l = record { first = omega arith; second = omega arith; scaled = omega arith }
defined (suc zero) l = record { first = omega arith; second = omega arith; scaled = omega arith }
defined (suc (suc i)) l = absurd (omega arith)

compute_performance_metrics_lem_example :
    Ensures
      (compute_performance_metrics (λ i. 0) counts 2 (ipc ∷ misses_by_ipc ∷ []))
      (Computed (λ i. 0) counts (ipc ∷ misses_by_ipc ∷ []))
compute_performance_metrics_lem_example =
    compute_performance_metrics_lem (λ i. 0) counts (ipc ∷ misses_by_ipc ∷ []) defined

estimates :
    Ensures
      (estimate_sf_regression
        (40 ∷ [])
        (pos 1000 ∷ pos 900 ∷ pos 1100 ∷ pos 0 ∷ pos 10 ∷ pos 2 ∷ end_mark ∷ []))
      (Within (pos 900) (pos 1100))
    × Ensures
        (estimate_sf_additive
          (40 ∷ [])
          (pos 1000 ∷ pos 900 ∷ pos 1100 ∷ pos 0 ∷ pos 0 ∷ pos 30 ∷ pos 5 ∷ pos 7 ∷ end_mark ∷ [])
          (pos 0))
        (Within (pos 900) (pos 1100))
estimates =
    estimate_sf_lem (40 ∷ []) (pos 1000) (pos 900) (pos 1100) (pos 0) (pos 0)
      (pos 0 ∷ pos 10 ∷ pos 2 ∷ end_mark ∷ []) (pos 0 ∷ pos 30 ∷ pos 5 ∷ pos 7 ∷ end_mark ∷ [])
      (omega arith) (term (omega arith) refl last) (term (omega arith) last)

-- A value of 30000000 leaves the range of `int`.
overflow : pmon_update_running_average (pos 0) (pos 30000000) (pos 80) (pos 5) true ≡ none
unfolding pmon_update_running_average pmctrack.Prelude.Int.◌-ℤ◌ pmctrack.Prelude.Int.◌*ℤ◌
overflow = refl

pmon_update_running_average_lem_example :
    Ensures
      (pmon_update_running_average (pos 100) (pos 40) (pos 80) (pos 5) true)
      (λ r. Between (pos 100) (pos 40) r.1)
    × (pmon_update_running_average (pos 100) (pos 100) (pos 80) (pos 5) true
        ≡ some (false, pos 100))
pmon_update_running_average_lem_example =
    pmon_update_running_average_lem 100 40 80 5 true (omega arith) (omega arith) (omega arith)
      (omega arith)

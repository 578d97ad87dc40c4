-- ===== src/Metrics/Evaluation.antt =====
-- Computing the metrics of a set in their order.
use pmctrack.Prelude.{
  ℕ, zero, suc, ◌+◌, ◌≤◌, ◌<◌, ◌≡◌, refl, ap, sym, subst, ◌∙◌, List, some, arith, length, set,
  length-set, get_or-set_self, get_or-set_ne, ℕ_discrete, Ensures, Ensures-mono,
}
use pmctrack.Memory.{load_in, store_in}
use pmctrack.Metrics.{Metric, compute_value, compute_from, compute_performance_metrics}
use pmctrack.Metrics.Values.{
  no_metric, IsDefined, compute_value-same, Relates, value_of, compute_value_in, at,
}

-- The metrics before `i` have their values, and the others are as they were.
record Progress (garbage : ℕ → ℕ) (hw : List ℕ) (metrics : List Metric) (i : ℕ) (cur : List Metric)
    : Type 0 where
  kept : length cur ≡ length metrics
  before : (j : ℕ) → j < i → compute_value (garbage j) hw cur (at metrics j) ≡ some (at cur j)
  after : (j : ℕ) → i ≤ j → at cur j ≡ at metrics j

Progress-set :
    (garbage : ℕ → ℕ) (hw : List ℕ) (metrics : List Metric) (i : ℕ) (cur : List Metric)
    (metric' : Metric)
    → ((j : ℕ) → j < length metrics → IsDefined hw j (at metrics j))
    → i < length metrics
    → compute_value (garbage i) hw cur (at metrics i) ≡ some metric'
    → Progress garbage hw metrics i cur
    → Progress garbage hw metrics (suc i) (set cur i metric')
Progress-set garbage hw metrics i cur metric' d l e p = record {
  kept = length-set cur i metric' ∙ p.kept;
  before = before;
  after =
      λ j k. get_or-set_ne cur i j metric' no_metric (λ q. omega arith) ∙ p.after j (omega arith);
}
  where
    below : (k : ℕ) → k < i → at (set cur i metric') k ≡ at cur k
    below k q = get_or-set_ne cur i k metric' no_metric (λ r. omega arith)

    same :
        (j : ℕ)
        → j ≤ i
        → compute_value (garbage j) hw (set cur i metric') (at metrics j)
          ≡ compute_value (garbage j) hw cur (at metrics j)
    same j q =
        compute_value-same (garbage j) hw (set cur i metric') cur j (at metrics j)
          (d j (omega arith)) (omega (arith, length-set cur i metric', p.kept))
          (omega (arith, p.kept)) (λ k r. below k (omega arith))

    now :
        compute_value (garbage i) hw (set cur i metric') (at metrics i)
        ≡ some (at (set cur i metric') i)
    now =
        same i (omega arith)
        ∙ e
        ∙ ap some (sym (get_or-set_self cur i metric' no_metric (omega (arith, p.kept))))

    before :
        (j : ℕ)
        → j < suc i
        → compute_value (garbage j) hw (set cur i metric') (at metrics j)
          ≡ some (at (set cur i metric') j)
    before j q = elim (ℕ_discrete j i) [
      | yes r ↦
          subst
            (λ k.
              compute_value (garbage k) hw (set cur i metric') (at metrics k)
              ≡ some (at (set cur i metric') k))
            (sym r) now
      | no ne ↦
          same j (omega arith) ∙ p.before j (omega arith) ∙ ap some (sym (below j (omega arith)))
    ]

compute_from-Progress :
    (garbage : ℕ → ℕ) (hw : List ℕ) (metrics : List Metric) (n i : ℕ) (cur : List Metric)
    → ((j : ℕ) → j < length metrics → IsDefined hw j (at metrics j))
    → i + n ≡ length metrics
    → Progress garbage hw metrics i cur
    → Ensures (compute_from garbage hw n i cur) (Progress garbage hw metrics (length metrics))
unfolding compute_from
compute_from-Progress garbage hw metrics zero i cur d e p =
    subst (λ k. Progress garbage hw metrics k cur) (omega arith) p
compute_from-Progress garbage hw metrics (suc n) i cur d e p =
    let l : i < length cur = omega (arith, p.kept) in
    let (v, computed, _) =
      compute_value_in (garbage i) hw cur i (at metrics i) (d i (omega arith)) (omega arith) in
    let metric' = record (at metrics i) { count = v } in
    rw (load_in cur i no_metric l, p.after i (omega arith), computed, store_in cur i metric' l)
      (compute_from-Progress garbage hw metrics n (suc i) (set cur i metric') d (omega arith)
        (Progress-set garbage hw metrics i cur metric' d (omega arith) computed p))

-- The metrics of a set after they are computed: each is as it was but for its count, which is what
-- its mode makes of the values that its arguments have in the end.
abbrev pub Computed : (ℕ → ℕ) → List ℕ → List Metric → List Metric → Type 0
Computed garbage hw metrics computed =
    (length computed ≡ length metrics)
    × ((i : ℕ)
        → i < length metrics
        → let metric = at metrics i in
          (v : ℕ) × (at computed i ≡ record metric { count = v })
          × Relates metric.mode metric.scale_factor (value_of hw computed metric.arg1)
              (value_of hw computed metric.arg2) (garbage i) v)

-- If each metric of a set is defined by events that are counted and by metrics that come before it,
-- with a scale factor that is not 0, computing the set in one pass never faults, whatever the
-- memory holds before. Each metric then has the count that its mode makes of its arguments, as they
-- are in the end: a quotient, which is 0 for a divisor 0, of the arguments (op_division), of the
-- first one scaled (op_rate) or by the second one scaled down (op_rate2); a product or a sum on 64
-- bits; the first argument scaled, or 0 if the memory behind it holds 0 (op_none); and 0 for a
-- difference (op_substract) and for op_virtual.
pub compute_performance_metrics_lem :
    (garbage : ℕ → ℕ) (hw_events : List ℕ) (metrics : List Metric)
    → ((i : ℕ) → i < length metrics → IsDefined hw_events i (at metrics i))
    → Ensures
        (compute_performance_metrics garbage hw_events (length metrics) metrics)
        (Computed garbage hw_events metrics)
unfolding compute_performance_metrics
compute_performance_metrics_lem garbage hw metrics d =
    Ensures-mono (compute_from garbage hw (length metrics) 0 metrics)
      (Progress garbage hw metrics (length metrics)) (Computed garbage hw metrics)
      (compute_from-Progress garbage hw metrics (length metrics) 0 metrics d (omega arith)
        (record { kept = refl; before = λ j k. absurd (omega arith); after = λ j k. refl }))
      (λ computed p. (
        p.kept,
        λ i l.
            let (v, e, m) =
              compute_value_in (garbage i) hw computed i (at metrics i) (d i l)
                (omega (arith, p.kept)) in
            (v, cc (p.before i l, e), m),
      ))

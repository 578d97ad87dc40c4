-- ===== src/Metrics/Values.antt =====
-- The value that a metric is to have by its definition, and the one that compute_value of
-- src/modules/pmcs/mc_experiments.c gives it.
use pmctrack.Prelude.{
  ℕ, zero, suc, ◌+◌, ◌*◌, ◌/◌, ◌%◌, ◌^◌, ◌⊎◌, if◌then◌else◌, ◌≤◌, ◌<◌, ◌≡◌, refl, subst, List, some,
  false, arith, length, get_or, ◌==◌, Bool-cases, inl, inr,
}
use native.Mathlib.Nat.{mod-lt, div-mul-le_self, div-add-mod'}
use pmctrack.Memory.{load_in}
use pmctrack.Metrics.{
  Mode, op_virtual, op_division, op_multiplication, op_sum, op_substract, op_rate, op_rate2,
  op_none, Arg, hw_event_arg, metric_arg, Metric, operand, relate, compute_count, compute_value,
}

-- What is outside of a vector
abbrev pub no_metric : Metric
no_metric = record {
  mode = op_virtual;
  arg1 = hw_event_arg 0;
  arg2 = hw_event_arg 0;
  scale_factor = 0;
  count = 0;
}

-- An argument of the metric `i` is an event or an earlier metric.
abbrev pub Earlier : List ℕ → ℕ → Arg → Type 0
Earlier hw_events i (hw_event_arg ref) = ref < length hw_events
Earlier hw_events i (metric_arg ref) = ref < i

pub record IsDefined (hw_events : List ℕ) (i : ℕ) (metric : Metric) : Type 0 where
  pub first : Earlier hw_events i metric.arg1
  pub second : Earlier hw_events i metric.arg2
  pub scaled : 0 < metric.scale_factor

operand-same :
    (hw : List ℕ) (xs ys : List Metric) (i : ℕ) (arg : Arg)
    → Earlier hw i arg
    → i ≤ length xs
    → i ≤ length ys
    → ((j : ℕ) → j < i → get_or xs j no_metric ≡ get_or ys j no_metric)
    → operand hw xs arg ≡ operand hw ys arg
unfolding operand
operand-same hw xs ys i (hw_event_arg ref) e lx ly same = refl
operand-same hw xs ys i (metric_arg ref) e lx ly same =
    rw (load_in xs ref no_metric (omega arith), load_in ys ref no_metric (omega arith), same ref e)
      refl

pub compute_value-same :
    (garbage : ℕ) (hw : List ℕ) (xs ys : List Metric) (i : ℕ) (metric : Metric)
    → IsDefined hw i metric
    → i ≤ length xs
    → i ≤ length ys
    → ((j : ℕ) → j < i → get_or xs j no_metric ≡ get_or ys j no_metric)
    → compute_value garbage hw xs metric ≡ compute_value garbage hw ys metric
unfolding compute_value
compute_value-same garbage hw xs ys i metric d lx ly same =
    rw
      (
        operand-same hw xs ys i metric.arg1 d.first lx ly same,
        operand-same hw xs ys i metric.arg2 d.second lx ly same,
      )
      refl

-- `q` is the whole part of `x` over `d`, or 0 if `d` is.
abbrev pub IsQuotient : ℕ → ℕ → ℕ → Type 0
IsQuotient x d q = ((d ≡ 0) × (q ≡ 0)) ⊎ ((0 < d) × (q * d ≤ x) × (x < q * d + d))

no_part : (q d x : ℕ) → q * d ≤ x → x ≡ 0 → 0 < d → q ≡ 0
no_part zero d x h e p = refl
no_part (suc q) d x h e p = absurd (omega arith)

quotient_lem : (x d : ℕ) → IsQuotient x d (if d == 0 then 0 else x / d)
quotient_lem x d = elim (Bool-cases (d == 0)) [
  | inl e ↦ rw (e) (inl (ground arith, refl))
  | inr e ↦
      let p : 0 < d = ground arith in
      let r = mod-lt x {m = d} p in
      rw (e) (inr (p, div-mul-le_self x d, omega (arith, r, div-add-mod' x d)))
]

-- What a metric is to be, of two operands and the memory behind the second one. A difference is
-- always 0.
abbrev pub Relates : Mode → ℕ → ℕ → ℕ → ℕ → ℕ → Type 0
Relates op_division scale a b garbage v = IsQuotient a b v
Relates op_multiplication scale a b garbage v = v ≡ a * b % 2 ^ 64
Relates op_sum scale a b garbage v = v ≡ (a + b) % 2 ^ 64
Relates op_substract scale a b garbage v = v ≡ 0
Relates op_rate scale a b garbage v = IsQuotient (a * scale % 2 ^ 64) b v
Relates op_rate2 scale a b garbage v = (d : ℕ) × IsQuotient b scale d × IsQuotient a d v
Relates op_none scale a b garbage v =
    ((garbage ≡ 0) × (v ≡ 0)) ⊎ ((0 < garbage) × (v ≡ a * scale % 2 ^ 64))
Relates op_virtual scale a b garbage v = v ≡ 0

-- The value of an argument
abbrev pub value_of : List ℕ → List Metric → Arg → ℕ
value_of hw metrics (hw_event_arg ref) = get_or hw ref 0
value_of hw metrics (metric_arg ref) = (get_or metrics ref no_metric).count

operand_in :
    (hw : List ℕ) (xs : List Metric) (i : ℕ) (arg : Arg)
    → Earlier hw i arg
    → i ≤ length xs
    → operand hw xs arg ≡ some (value_of hw xs arg)
unfolding operand
operand_in hw xs i (hw_event_arg ref) e l = load_in hw ref 0 e
operand_in hw xs i (metric_arg ref) e l = rw (load_in xs ref no_metric (omega arith)) refl

compute_count_in :
    (mode : Mode) (scale a b garbage : ℕ)
    → 0 < scale
    → (v : ℕ) × (compute_count mode scale (some a) (some b) garbage ≡ some v)
      × Relates mode scale a b garbage v
unfolding compute_count relate
compute_count_in op_division scale a b garbage p = (_, refl, quotient_lem a b)
compute_count_in op_multiplication scale a b garbage p = (_, refl, refl)
compute_count_in op_sum scale a b garbage p = (_, refl, refl)
compute_count_in op_substract scale a b garbage p = (_, refl, refl)
compute_count_in op_rate scale a b garbage p = (_, refl, quotient_lem (a * scale % 2 ^ 64) b)
compute_count_in op_rate2 scale a b garbage p =
    let s : (scale == 0) ≡ false = ground arith in
    let q : IsQuotient b scale (b / scale) =
      subst (λ z. IsQuotient b scale (if z then 0 else b / scale)) s (quotient_lem b scale) in
    elim (Bool-cases (b == 0)) [
      | inl e ↦
          let z : b / scale ≡ 0 = elim q [
            | inl (n, k) ↦ k
            | inr (n, k, l) ↦ no_part (b / scale) scale b k (ground arith) n
          ] in
          rw (e) (0, refl, (b / scale, q, inl (z, refl)))
      | inr e ↦ rw (e, s) (_, refl, (b / scale, q, quotient_lem a (b / scale)))
    ]
compute_count_in op_none scale a b garbage p = elim (Bool-cases (garbage == 0)) [
  | inl e ↦ rw (e) (_, refl, inl (ground arith, refl))
  | inr e ↦ rw (e) (_, refl, inr (ground arith, refl))
]
compute_count_in op_virtual scale a b garbage p = (_, refl, refl)

pub compute_value_in :
    (garbage : ℕ) (hw : List ℕ) (xs : List Metric) (i : ℕ) (metric : Metric)
    → IsDefined hw i metric
    → i ≤ length xs
    → (v : ℕ) × (compute_value garbage hw xs metric ≡ some (record metric { count = v }))
      × Relates metric.mode metric.scale_factor
          (value_of hw xs metric.arg1)
          (value_of hw xs metric.arg2)
          garbage
          v
unfolding compute_value
compute_value_in garbage hw xs i metric d l =
    let a = operand_in hw xs i metric.arg1 d.first l in
    let b = operand_in hw xs i metric.arg2 d.second l in
    let (v, e, m) =
      compute_count_in metric.mode metric.scale_factor (value_of hw xs metric.arg1)
        (value_of hw xs metric.arg2) garbage d.scaled in
    (v, rw (a, b, e) refl, m)

abbrev pub at : List Metric → ℕ → Metric
at xs i = get_or xs i no_metric

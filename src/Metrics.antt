-- ===== src/Metrics.antt =====
-- Performance metrics over event counts, of src/modules/pmcs/mc_experiments.c and
-- include/pmc/hl_events.h. Counts are 64-bit words, and pmc_do_div is the division of 64-bit
-- machines. `none` is an access outside of an array or a division by zero.
pub mod Values
pub mod Evaluation
pub mod Speedup
pub mod Running
pub mod Signed
pub mod Average
use pmctrack.Prelude.{
  ℕ, zero, suc, ◌+◌, ◌-◌, ◌*◌, ◌/◌, ◌%◌, ◌^◌, Bool, true, false, List, [], ◌∷◌, Option, none, some,
  leb, ltb, ◌==◌, if◌then◌else◌, ◌>>=◌,
}
use pmctrack.Prelude.Int.{ℤ, pos, negsuc, ◌+ℤ◌, ◌*ℤ◌, ◌/ℤ◌, ltb_ℤ, eqb_ℤ, sub_ℕ}
use pmctrack.Memory.{load, store, rem}

-- `pmc_relation_mode_t`
pub data Mode : Type 0 where
  op_division op_multiplication op_sum op_substract op_rate op_rate2 op_none op_virtual : Mode

-- `pmc_arg_t`, with its type
pub data Arg : Type 0 where
  hw_event_arg metric_arg : ℕ → Arg

-- `pmc_metric_t`, less its name
pub record Metric : Type 0 where
  pub mode : Mode
  pub arg1 : Arg
  pub arg2 : Arg
  pub scale_factor : ℕ
  pub count : ℕ

-- The value that get_operands gives an argument
unfoldable pub operand : List ℕ → List Metric → Arg → Option ℕ
operand hw_events metric_vector (hw_event_arg ref) = load hw_events ref
operand hw_events metric_vector (metric_arg ref) = do
  metric ← load metric_vector ref
  some metric.count

-- The count of a metric by its mode, from its scale factor and its operands. The difference that
-- op_substract computes is always replaced by 0.
unfoldable pub relate : Mode → ℕ → ℕ → ℕ → Option ℕ
relate op_division scale a b = some (if b == 0 then 0 else a / b)
relate op_multiplication scale a b = some (a * b % 2 ^ 64)
relate op_sum scale a b = some ((a + b) % 2 ^ 64)
relate op_substract scale a b = some 0
relate op_rate scale a b = some (if b == 0 then 0 else a * scale % 2 ^ 64 / b)
relate op_rate2 scale a b =
    if b == 0
    then some 0
    else if scale == 0
    then none
    else some (if b / scale == 0 then 0 else a / (b / scale))
relate op_none scale a b = some (if b == 0 then 0 else a * scale % 2 ^ 64)
relate op_virtual scale a b = some 0

-- How many operands are read
abbrev pub second : Mode → Option ℕ → ℕ → Option ℕ
second op_none b garbage = some garbage
second mode b garbage = b

unfoldable pub compute_count : Mode → ℕ → Option ℕ → Option ℕ → ℕ → Option ℕ
unfolding relate
compute_count op_virtual scale a b garbage = some 0
compute_count mode scale a b garbage = do x ← a; y ← second mode b garbage; relate mode scale x y

-- `garbage` is what the second operand, which is on the stack, holds before: op_none reads it.
unfoldable pub compute_value : ℕ → List ℕ → List Metric → Metric → Option Metric
unfolding operand compute_count
compute_value garbage hw_events metric_vector metric = do
  count ←
      compute_count metric.mode metric.scale_factor (operand hw_events metric_vector metric.arg1)
        (operand hw_events metric_vector metric.arg2) garbage
  some (record metric { count = count })

-- The metrics from `i` on, of which `n` are left
unfoldable pub compute_from : (ℕ → ℕ) → List ℕ → ℕ → ℕ → List Metric → Option (List Metric)
compute_from garbage hw_events zero i metrics = some metrics
compute_from garbage hw_events (suc n) i metrics = do
  metric ← load metrics i
  metric' ← compute_value (garbage i) hw_events metrics metric
  metrics' ← store metrics i metric'
  compute_from garbage hw_events n (suc i) metrics'

-- A set of metrics is the list of those that are in use.
unfoldable pub compute_performance_metrics :
    (ℕ → ℕ) → List ℕ → ℕ → List Metric → Option (List Metric)
unfolding compute_from
compute_performance_metrics garbage hw_events size metrics =
    compute_from garbage hw_events size 0 metrics

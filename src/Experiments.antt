-- ===== src/Experiments.antt =====
-- Sets of counter configurations, of src/modules/pmcs/include/pmc/mc_experiments.h and
-- mc_experiments.c (without CONFIG_PMC_PERF): the experiments among which a thread or CPU
-- multiplexes. The array of a set has AMP_MAX_EXP_CORETYPE entries, `none` in it is NULL. `none`
-- as a result is an access outside of it.
pub mod Rotation
pub mod Clone
use pmctrack.Prelude.{
  ℕ, zero, suc, ◌+◌, ltb, ◌==◌, if◌then◌else◌, ◌>>=◌, Bool, true, false, List, [], ◌∷◌, Option,
  none, some, replicate, map,
}
use pmctrack.Prelude.Int.{ℤ, pos, negsuc, enomem}
use pmctrack.Memory.{load, store}

-- `core_experiment_t`, less the descriptors of the counters and the tables of overflow control
pub record Experiment : Type 0 where
  pub size : ℕ
  pub used_pmcs : ℕ
  pub ebs_idx : ℤ
  pub need_setup : Bool
  pub exp_idx : ℕ
  pub nr_overflows : List ℕ

-- `core_experiment_set_t`
pub record ExperimentSet : Type 0 where
  pub exps : List (Option Experiment)
  pub nr_exps : ℕ
  pub cur_exp : ℕ

-- AMP_MAX_EXP_CORETYPE
abbrev pub max_exp_coretype : ℕ
max_exp_coretype = 2

-- The first `n` entries become NULL.
unfoldable pub clear_entries : ℕ → List (Option Experiment) → Option (List (Option Experiment))
clear_entries zero xs = some xs
clear_entries (suc n) [] = none
clear_entries (suc n) (x ∷ xs) = do rest ← clear_entries n xs; some (none ∷ rest)

unfoldable pub free_experiment_set : ExperimentSet → Option ExperimentSet
free_experiment_set cset = do
  exps ← clear_entries cset.nr_exps cset.exps
  some (record cset { exps = exps; nr_exps = 0 })

unfoldable pub add_experiment_to_set : ExperimentSet → Experiment → Option ExperimentSet
add_experiment_to_set cset exp = do
  exps ← store cset.exps cset.nr_exps (some (record exp { exp_idx = cset.nr_exps }))
  some (record cset { exps = exps; nr_exps = cset.nr_exps + 1 })

pub rewind_experiments_in_set : ExperimentSet → Option (Option Experiment × ExperimentSet)
rewind_experiments_in_set cset = do exp ← load cset.exps 0; some (exp, record cset { cur_exp = 0 })

unfoldable pub next_exp : ExperimentSet → ℕ
next_exp cset =
    if ltb 1 cset.nr_exps
    then (if cset.cur_exp + 1 == cset.nr_exps then 0 else cset.cur_exp + 1)
    else cset.cur_exp

unfoldable pub get_next_experiment_in_set :
    ExperimentSet → Option (Option Experiment × ExperimentSet)
get_next_experiment_in_set cset = do
  exp ← load cset.exps (next_exp cset)
  some (exp, record cset { cur_exp = next_exp cset })

unfoldable pub get_cur_experiment_in_set : ExperimentSet → Option (Option Experiment)
get_cur_experiment_in_set cset = load cset.exps cset.cur_exp

unfoldable pub init_core_experiment_set_t : ExperimentSet
init_core_experiment_set_t = record {
  exps = replicate max_exp_coretype none;
  nr_exps = 0;
  cur_exp = 0;
}

-- The copy of an experiment: overflow counts are not inherited.
abbrev pub copy_of : Experiment → Experiment
copy_of exp = record exp { nr_overflows = map (λ count. 0) exp.nr_overflows }

-- Entry `i`; whether kmalloc succeeds for it is an argument. The Boolean is false on failure.
unfoldable pub clone_entry :
    Bool → ℕ → Option Experiment → ExperimentSet → Option (Bool × ExperimentSet)
clone_entry allocated i none dst = some (true, dst)
clone_entry false i (some exp) dst = some (false, dst)
clone_entry true i (some exp) dst = do
  exps ← store dst.exps i (some (copy_of exp))
  some (true, record dst { exps = exps; nr_exps = dst.nr_exps + 1 })

-- The entries of `src` from `i` on, of which `n` are left.
unfoldable pub clone_entries :
    (ℕ → Bool) → List (Option Experiment) → ℕ → ℕ → ExperimentSet → Option (Bool × ExperimentSet)
clone_entries alloc src zero i dst = some (true, dst)
clone_entries alloc src (suc n) i dst = do
  exp ← load src i
  (ok, dst') ← clone_entry (alloc i) i exp dst
  if ok then clone_entries alloc src n (suc i) dst' else some (false, dst')

unfoldable pub clone_result : Bool × ExperimentSet → Option (ℤ × ExperimentSet)
clone_result (true, dst) = some (pos 0, dst)
clone_result (false, dst) = do
  exps ← clear_entries dst.nr_exps dst.exps
  some (enomem, record dst { exps = exps })

-- What `dst` held before is forgotten.
unfoldable pub clone_core_experiment_set_t : (ℕ → Bool) → ExperimentSet → Option (ℤ × ExperimentSet)
unfolding init_core_experiment_set_t
clone_core_experiment_set_t alloc src = do
  r ← clone_entries alloc src.exps src.nr_exps 0 init_core_experiment_set_t
  clone_result r

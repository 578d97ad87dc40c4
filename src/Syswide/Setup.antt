-- ===== src/Syswide/Setup.antt =====
-- Setting up the data of the CPUs does not fault.
use pmctrack.Prelude.{
  ℕ, zero, suc, ◌≤◌, ◌<◌, ◌≡◌, refl, ap, Bool, false, List, [], ◌∷◌, map, Option, none, arith,
  length, inl, inr, Ensures, Ensures-bind, Bool-cases, All,
}
use pmctrack.Prelude.Int.{ℤ, pos, negsuc, eqb_ℤ}
use pmctrack.Memory.{load_in}
use pmctrack.Experiments.{
  Experiment, ExperimentSet, free_experiment_set, clear_entries, clone_core_experiment_set_t,
  get_cur_experiment_in_set, max_exp_coretype,
}
use pmctrack.Experiments.Rotation.{slots}
use pmctrack.Experiments.Clone.{Holds, Cloned, clone_core_experiment_set_t_lem}
use pmctrack.Syswide.{
  CpuSyswide, Prof, reset_cpu_syswide_data, take_config, setup_cpu_syswide_data, prepare_cpu,
  prepare_cpus, ebs_enabled,
}

-- The set of a CPU has as many experiments as it says, and that of a process is well formed.
abbrev pub Freeable : CpuSyswide → Type 0
Freeable c = c.pmc_config_set.nr_exps ≤ length c.pmc_config_set.exps

abbrev pub Usable : ExperimentSet → Type 0
Usable cset = (es : List Experiment) × Holds es cset × (cset.cur_exp < max_exp_coretype)

abbrev pub Done {ℓ} : {A : Type ℓ} → A → Type 0
Done a = Unit

clear_entries_lem :
    (n : ℕ) (xs : List (Option Experiment)) → n ≤ length xs → Ensures (clear_entries n xs) Done
unfolding clear_entries
clear_entries_lem zero xs l = tt
clear_entries_lem (suc n) [] l = absurd (omega arith)
clear_entries_lem (suc n) (x ∷ xs) l =
    Ensures-bind (clear_entries n xs) Done _ Done (clear_entries_lem n xs (omega arith))
      (λ rest u. tt)

pub length-slots :
    (es : List Experiment) → length es ≤ max_exp_coretype → length (slots es) ≡ max_exp_coretype
length-slots [] l = refl
length-slots (a ∷ []) l = refl
length-slots (a ∷ b ∷ []) l = refl
length-slots (a ∷ b ∷ c ∷ es) l = absurd (omega arith)

get_cur_lem :
    (es : List Experiment) (cset : ExperimentSet)
    → Holds es cset
    → cset.cur_exp < max_exp_coretype
    → Ensures (get_cur_experiment_in_set cset) Done
unfolding get_cur_experiment_in_set
get_cur_lem es cset h l =
    rw
      (load_in cset.exps cset.cur_exp none
        (omega (arith, ap length h.stored, length-slots es h.room)))
      tt

length-map_copy :
    (f : Experiment → Experiment) (es : List Experiment) → length (map f es) ≡ length es
length-map_copy f [] = refl
length-map_copy f (e ∷ es) = ap suc (length-map_copy f es)

take_config_lem :
    (es : List Experiment) (alloc : ℕ → Bool) (c : CpuSyswide) (virt_mask : ℕ)
    (r : ℤ × ExperimentSet)
    → Cloned es alloc r
    → Ensures (take_config c virt_mask r) Done
unfolding take_config
take_config_lem es alloc c virt_mask (negsuc n, cset) h = tt
take_config_lem es alloc c virt_mask (pos n, cset) (inr h) = absurd (ground (arith, h.0))
take_config_lem es alloc c virt_mask (pos n, cset) (inl h) =
    Ensures-bind (get_cur_experiment_in_set cset) Done _ Done
      (get_cur_lem _ cset h.2 (omega (arith, h.3))) (λ cur u. tt)

setup_cpu_lem :
    (alloc : ℕ → Bool) (cur : CpuSyswide) (cset : ExperimentSet) (virt_mask : ℕ)
    → Freeable cur
    → Usable cset
    → Ensures (setup_cpu_syswide_data alloc cur cset virt_mask) Done
unfolding setup_cpu_syswide_data reset_cpu_syswide_data free_experiment_set
setup_cpu_lem alloc cur cset virt_mask f u =
    Ensures-bind (reset_cpu_syswide_data cur false) Done _ Done
      (Ensures-bind (free_experiment_set cur.pmc_config_set) Done _ Done
        (Ensures-bind (clear_entries cur.pmc_config_set.nr_exps cur.pmc_config_set.exps) Done _ Done
          (clear_entries_lem cur.pmc_config_set.nr_exps cur.pmc_config_set.exps f) (λ exps t. tt))
        (λ emptied t. tt))
      (λ cur' t.
        Ensures-bind (clone_core_experiment_set_t alloc cset) (Cloned u.0 alloc) _ Done
          (clone_core_experiment_set_t_lem u.0 cset alloc u.1)
          (λ copy h. take_config_lem u.0 alloc cur' virt_mask copy h))

prepare_cpu_lem :
    (alloc : ℕ → Bool) (prof : Prof) (coretype : ℕ) (cur : CpuSyswide)
    → Freeable cur
    → Usable (prof.pmcs_multiplex_cfg coretype)
    → Ensures (prepare_cpu alloc prof coretype cur) Done
unfolding prepare_cpu
prepare_cpu_lem alloc prof coretype cur f u =
    Ensures-bind (get_cur_experiment_in_set (prof.pmcs_multiplex_cfg coretype)) Done _ Done
      (get_cur_lem u.0 (prof.pmcs_multiplex_cfg coretype) u.1 u.2)
      (λ experiment t. elim (Bool-cases (ebs_enabled experiment)) [
        | inl e ↦ rw (e) tt
        | inr e ↦
            rw (e)
              (setup_cpu_lem alloc cur (prof.pmcs_multiplex_cfg coretype) prof.prof_virt_mask f u)
      ])

-- Setting up the CPUs never faults.
pub prepare_cpus_lem :
    (alloc : ℕ → ℕ → Bool) (coretype : ℕ → ℕ) (prof : Prof) (cpu : ℕ) (cpus : List CpuSyswide)
    → All Freeable cpus
    → ((k : ℕ) → Usable (prof.pmcs_multiplex_cfg k))
    → Ensures (prepare_cpus alloc coretype prof cpu cpus) Done
unfolding prepare_cpus
prepare_cpus_lem alloc coretype prof cpu [] f u = tt
prepare_cpus_lem alloc coretype prof cpu (cur ∷ rest) f u =
    Ensures-bind (prepare_cpu (alloc cpu) prof (coretype cpu) cur) Done _ Done
      (prepare_cpu_lem (alloc cpu) prof (coretype cpu) cur f.0 (u (coretype cpu)))
      (λ r t. elim (Bool-cases (eqb_ℤ r.0 (pos 0))) [
        | inl e ↦ rw (e) (
            Ensures-bind (prepare_cpus alloc coretype prof (suc cpu) rest) Done _ Done
              (prepare_cpus_lem alloc coretype prof (suc cpu) rest f.1 u) (λ q w. tt))
        | inr e ↦ rw (e) tt
      ])

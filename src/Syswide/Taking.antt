-- ===== src/Syswide/Taking.antt =====
-- The sample that one CPU takes, syswide_monitoring_sample_cpu of src/modules/pmcs/syswide.c.
use pmctrack.Prelude.{
  ℕ, zero, suc, ◌+◌, ◌-◌, ◌%◌, ◌^◌, ◌≤◌, ◌<◌, ◌≡◌, refl, ap, sym, subst, List, [], ◌∷◌, map, Option,
  none, some, arith, length, get_or, ◌==◌, if◌then◌else◌, Ensures, Ensures-bind,
}
use pmctrack.Memory.{load_in}
use pmctrack.Experiments.{Experiment, ExperimentSet, next_exp, get_next_experiment_in_set}
use pmctrack.Syswide.{Sample, CpuSyswide}
use pmctrack.Syswide.Setup.{Usable, Done, length-slots}
use pmctrack.Syswide.Timer.{
  Surroundings, add_values, refresh_with, collect, describe, or_keep, syswide_monitoring_sample_cpu,
}

-- The counters of the current experiment have a value and a sum.
abbrev pub Counted : Option Experiment → List ℕ → List ℕ → Type 0
Counted none values last = Unit
Counted (some e) values last = (e.size ≤ length values) × (e.size ≤ length last)

pub record Ready (around : Surroundings) (cur : CpuSyswide) : Type 0 where
  pub set : Usable cur.pmc_config_set
  pub counted : Counted cur.cur_config cur.pmc_values around.last_values

-- The first `n` sums are those of a value and a last value on 64 bits, and the others the values.
pub record Summed (n : ℕ) (values last sums : List ℕ) : Type 0 where
  pub sized : length sums ≡ length values
  pub added : (j : ℕ) → j < n → get_or sums j 0 ≡ (get_or values j 0 + get_or last j 0) % 2 ^ 64
  pub kept : (j : ℕ) → n ≤ j → get_or sums j 0 ≡ get_or values j 0

-- What the monitoring module makes of a sample, if there are virtual counters
abbrev pub dumped : Surroundings → CpuSyswide → Sample → Sample
dumped around cur sample =
    if cur.virt_counter_mask == 0 then sample else around.dump_virtual_counters sample

-- A sample of the CPU `cpu`: of no experiment, with the counts of the last sample, or of an
-- experiment, with the sums up to now, from which counting goes on at 0.
abbrev pub Taken : Option Experiment → ℕ → Surroundings → CpuSyswide → CpuSyswide → Type 0
Taken none cpu around cur cur' =
    (cur'.ref_time ≡ around.ktime)
    × (cur'.pmc_values ≡ cur.pmc_values)
    × (cur'.last_sample
        ≡ dumped around cur (record {
          coretype = around.coretype_cpu;
          exp_idx = 0;
          pmc_mask = 0;
          nr_counts = 0;
          virt_mask = 0;
          nr_virt_counts = 0;
          pid = cpu;
          elapsed_time = around.ktime - cur.ref_time;
          pmc_counts = cur.last_sample.pmc_counts;
        }))
Taken (some e) cpu around cur cur' =
    (cur'.ref_time ≡ around.ktime)
    × ((j : ℕ) → get_or cur'.pmc_values j 0 ≡ 0)
    × ((sums : List ℕ) × Summed e.size cur.pmc_values around.last_values sums
        × (cur'.last_sample
            ≡ dumped around cur (record {
              coretype = around.coretype_cpu;
              exp_idx = e.exp_idx;
              pmc_mask = e.used_pmcs;
              nr_counts = e.size;
              virt_mask = 0;
              nr_virt_counts = 0;
              pid = cpu;
              elapsed_time = around.ktime - cur.ref_time;
              pmc_counts = sums;
            })))

add_values_lem :
    (n : ℕ) (values last : List ℕ)
    → n ≤ length values
    → n ≤ length last
    → Ensures (add_values n values last) (Summed n values last)
unfolding add_values
add_values_lem zero values last p q = record {
  sized = refl;
  added = λ j l. absurd (omega arith);
  kept = λ j l. refl;
}
add_values_lem (suc n) [] last p q = absurd (omega arith)
add_values_lem (suc n) (v ∷ values) [] p q = absurd (omega arith)
add_values_lem (suc n) (v ∷ values) (l ∷ last) p q =
    Ensures-bind (add_values n values last) (Summed n values last) _
      (Summed (suc n) (v ∷ values) (l ∷ last))
      (add_values_lem n values last (omega arith) (omega arith))
      (λ rest u. record {
        sized = ap suc u.sized;
        added = λ j k. first j k rest u;
        kept = λ j k. other j k rest u;
      })
  where
    first :
        (j : ℕ)
        → j < suc n
        → (rest : List ℕ) → Summed n values last rest
        → get_or ((v + l) % 2 ^ 64 ∷ rest) j 0
          ≡ (get_or (v ∷ values) j 0 + get_or (l ∷ last) j 0) % 2 ^ 64
    first zero k rest u = refl
    first (suc j) k rest u = u.added j (omega arith)

    other :
        (j : ℕ)
        → suc n ≤ j
        → (rest : List ℕ) → Summed n values last rest
        → get_or ((v + l) % 2 ^ 64 ∷ rest) j 0 ≡ get_or (v ∷ values) j 0
    other zero k rest u = absurd (omega arith)
    other (suc j) k rest u = u.kept j (omega arith)

-- The sums before the sample is taken
Refreshed : Option Experiment → List ℕ → CpuSyswide → CpuSyswide → Type 0
Refreshed none last cur refreshed = refreshed ≡ cur
Refreshed (some e) last cur refreshed =
    (sums : List ℕ) × Summed e.size cur.pmc_values last sums
    × (refreshed ≡ record cur { pmc_values = sums })

refresh_with-Refreshed :
    (e : Option Experiment) (last : List ℕ) (cur : CpuSyswide)
    → Counted e cur.pmc_values last
    → Ensures (refresh_with e last cur) (Refreshed e last cur)
unfolding refresh_with Refreshed
refresh_with-Refreshed none last cur c = refl
refresh_with-Refreshed (some e) last cur c =
    Ensures-bind (add_values e.size cur.pmc_values last) (Summed e.size cur.pmc_values last) _
      (Refreshed (some e) last cur) (add_values_lem e.size cur.pmc_values last c.0 c.1)
      (λ values u. (values, u, refl))

get_next_lem : (cset : ExperimentSet) → Usable cset → Ensures (get_next_experiment_in_set cset) Done
unfolding get_next_experiment_in_set next_exp
get_next_lem cset u =
    let h = u.1 in
    let l : next_exp cset < length cset.exps =
      ground (arith, h.counted, h.room, u.2, ap length h.stored, length-slots u.0 h.room) in
    rw (load_in cset.exps (next_exp cset) none l) tt

-- What the CPU is after a sample, from its sums and the next experiment
abbrev sampled :
    Option Experiment
    → ℕ
    → Surroundings
    → CpuSyswide
    → CpuSyswide
    → Option Experiment
    → ExperimentSet
    → CpuSyswide
sampled c cpu around cur refreshed next cset =
    let taken = collect c refreshed in
    record taken {
      last_sample =
          dumped around cur
            (describe c cpu around.coretype_cpu (around.ktime - cur.ref_time) taken.last_sample);
      ref_time = around.ktime;
      pmc_config_set = cset;
      cur_config = or_keep next c;
    }

all_zero : (xs : List ℕ) (j : ℕ) → let cleared : List ℕ = map (λ v. 0) xs in get_or cleared j 0 ≡ 0
all_zero [] j = refl
all_zero (x ∷ xs) zero = refl
all_zero (x ∷ xs) (suc j) = all_zero xs j

sampled-Taken :
    (c : Option Experiment) (cpu : ℕ) (around : Surroundings) (cur refreshed : CpuSyswide)
    (next : Option Experiment) (cset : ExperimentSet)
    → Refreshed c around.last_values cur refreshed
    → Taken c cpu around cur (sampled c cpu around cur refreshed next cset)
unfolding collect describe Refreshed
sampled-Taken none cpu around cur refreshed next cset u =
    subst (λ r. Taken none cpu around cur (sampled none cpu around cur r next cset)) (sym u)
      (refl, refl, refl)
sampled-Taken (some e) cpu around cur refreshed next cset (sums, s, u) =
    subst (λ r. Taken (some e) cpu around cur (sampled (some e) cpu around cur r next cset)) (sym u)
      (refl, all_zero sums, (sums, s, refl))

pub sample_cpu_lem :
    (cpu : ℕ) (around : Surroundings) (cur : CpuSyswide)
    → Ready around cur
    → Ensures (syswide_monitoring_sample_cpu cpu around cur) (Taken cur.cur_config cpu around cur)
unfolding syswide_monitoring_sample_cpu
sample_cpu_lem cpu around cur r =
    Ensures-bind (refresh_with cur.cur_config around.last_values cur)
      (Refreshed cur.cur_config around.last_values cur) _ _
      (refresh_with-Refreshed cur.cur_config around.last_values cur r.counted)
      (λ refreshed u.
        Ensures-bind (get_next_experiment_in_set cur.pmc_config_set) Done _ _
          (get_next_lem cur.pmc_config_set r.set)
          (λ q w. sampled-Taken cur.cur_config cpu around cur refreshed q.0 q.1 u))

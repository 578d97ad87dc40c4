-- ===== src/Syswide/Timer.antt =====
-- The timer of system-wide monitoring: each CPU takes a sample, and all are pushed to the buffer.
use pmctrack.Prelude.{
  ℕ, zero, suc, ◌+◌, ◌-◌, ◌%◌, ◌^◌, Bool, true, false, not, ◌&&◌, List, [], ◌∷◌, map, Option, none,
  some, ◌==◌, if◌then◌else◌, ◌>>=◌,
}
use pmctrack.Experiments.{Experiment, get_next_experiment_in_set}
use pmctrack.SampleBuffer.{SampleBuffer, push_sample_cbuffer_nowakeup, wake_up_monitor_program}
use pmctrack.Syswide.{
  Sample, CpuSyswide, Syswide, spin_lock, spin_unlock, syswide_monitoring_enabled, put_at,
}

-- What a CPU has at the time: its core type, the clock, the last values of its counters, and what
-- the monitoring module makes of a sample.
pub record Surroundings : Type 0 where
  pub coretype_cpu : ℕ
  pub ktime : ℕ
  pub last_values : List ℕ
  pub dump_virtual_counters : Sample → Sample

-- Sums of 64 bits, of the first `n` counters
unfoldable pub add_values : ℕ → List ℕ → List ℕ → Option (List ℕ)
add_values zero values last = some values
add_values (suc n) (v ∷ values) (l ∷ last) = do
  rest ← add_values n values last
  some ((v + l) % 2 ^ 64 ∷ rest)
add_values (suc n) [] last = none
add_values (suc n) (v ∷ values) [] = none

-- By the experiment of the CPU, if there is one
unfoldable pub refresh_with : Option Experiment → List ℕ → CpuSyswide → Option CpuSyswide
refresh_with none last cpudata = some cpudata
refresh_with (some core_experiment) last cpudata = do
  values ← add_values core_experiment.size cpudata.pmc_values last
  some (record cpudata { pmc_values = values })

-- The Boolean is whether no counters are configured.
unfoldable pub refresh_counts_cpu : List ℕ → CpuSyswide → Option (Bool × CpuSyswide)
unfolding refresh_with
refresh_counts_cpu last cpudata = do
  cpudata' ← refresh_with cpudata.cur_config last cpudata
  some (is_none cpudata.cur_config, cpudata')
  where
    is_none : Option Experiment → Bool
    is_none none = true
    is_none (some e) = false

-- On a context switch
unfoldable pub syswide_monitoring_switch_out :
    Syswide → List ℕ → CpuSyswide → Option (Bool × CpuSyswide)
unfolding refresh_counts_cpu
syswide_monitoring_switch_out s last cur =
    if not (syswide_monitoring_enabled s) then some (true, cur) else refresh_counts_cpu last cur

-- The counts of the sample, and those of the CPU at 0
unfoldable pub collect : Option Experiment → CpuSyswide → CpuSyswide
collect none cur = cur
collect (some core_exp) cur = record cur {
  last_sample = record cur.last_sample { pmc_counts = cur.pmc_values };
  pmc_values = map (λ v. 0) cur.pmc_values;
}

unfoldable pub describe : Option Experiment → ℕ → ℕ → ℕ → Sample → Sample
describe none cpu coretype elapsed sample = record {
  coretype = coretype;
  exp_idx = 0;
  pmc_mask = 0;
  nr_counts = 0;
  virt_mask = 0;
  nr_virt_counts = 0;
  pid = cpu;
  elapsed_time = elapsed;
  pmc_counts = sample.pmc_counts;
}
describe (some core_exp) cpu coretype elapsed sample = record {
  coretype = coretype;
  exp_idx = core_exp.exp_idx;
  pmc_mask = core_exp.used_pmcs;
  nr_counts = core_exp.size;
  virt_mask = 0;
  nr_virt_counts = 0;
  pid = cpu;
  elapsed_time = elapsed;
  pmc_counts = sample.pmc_counts;
}

-- The next experiment, if it is not NULL
abbrev pub or_keep : Option Experiment → Option Experiment → Option Experiment
or_keep none cur = cur
or_keep (some next) cur = some next

unfoldable pub syswide_monitoring_sample_cpu : ℕ → Surroundings → CpuSyswide → Option CpuSyswide
unfolding refresh_with collect describe
syswide_monitoring_sample_cpu cpu around cur = do
  refreshed ← refresh_with cur.cur_config around.last_values cur
  let taken = collect cur.cur_config refreshed
  let sample =
      describe cur.cur_config cpu around.coretype_cpu (around.ktime - cur.ref_time)
        taken.last_sample
  (next, cset) ← get_next_experiment_in_set cur.pmc_config_set
  some (record taken {
    last_sample =
        if cur.virt_counter_mask == 0 then sample else around.dump_virtual_counters sample;
    ref_time = around.ktime;
    pmc_config_set = cset;
    cur_config = or_keep next cur.cur_config;
  })

-- On each CPU from `cpu` on that is online
unfoldable pub sample_cpus :
    (ℕ → Bool) → (ℕ → Surroundings) → ℕ → List CpuSyswide → Option (List CpuSyswide)
sample_cpus online around cpu [] = some []
sample_cpus online around cpu (cur ∷ rest) = do
  cur' ← if online cpu then syswide_monitoring_sample_cpu cpu (around cpu) cur else some cur
  rest' ← sample_cpus online around (suc cpu) rest
  some (cur' ∷ rest')

-- The last samples of the CPUs that are online, as bytes; `encode` is the layout of the structure.
unfoldable pub online_samples : (ℕ → Bool) → (Sample → List ℕ) → ℕ → List CpuSyswide → List (List ℕ)
online_samples online encode cpu [] = []
online_samples online encode cpu (cur ∷ rest) =
    let samples = online_samples online encode (suc cpu) rest in
    if online cpu then encode cur.last_sample ∷ samples else samples

unfoldable pub push_samples : SampleBuffer → List (List ℕ) → Option SampleBuffer
push_samples sbuf [] = some sbuf
push_samples sbuf (x ∷ xs) = do sbuf' ← push_sample_cbuffer_nowakeup sbuf x; push_samples sbuf' xs

-- With the lock held: what is pushed to the buffer, if there is one
unfoldable pub push_to : Syswide → Option ℕ → List (List ℕ) → Option Syswide
unfolding put_at
push_to s none samples = some s
push_to s (some b) samples = do
  sbuf ← s.buffers b
  sbuf' ← push_samples sbuf samples
  some (record s { buffers = put_at s.buffers b (some (wake_up_monitor_program sbuf')) })

-- A timer that has fired is no longer pending.
unfoldable pub fire_syswide_timer :
    (ℕ → Bool) → (ℕ → Surroundings) → (Sample → List ℕ) → Syswide → Option Syswide
unfolding spin_lock spin_unlock syswide_monitoring_enabled push_to
fire_syswide_timer online around encode s =
    if not (syswide_monitoring_enabled s) then some (record s { timer_pending = false }) else (do
      cpus' ← sample_cpus online around 0 s.cpus
      s1 ← spin_lock (record s { cpus = cpus'; timer_pending = false })
      s2 ←
          if not s1.pause_syswide_monitor && syswide_monitoring_enabled s1
          then push_to s1 s1.pmc_samples_buffer (online_samples online encode 0 cpus')
          else some s1
      some (spin_unlock (record s2 { timer_pending = syswide_monitoring_enabled s2 })))

-- ===== src/Syswide.antt =====
-- System-wide monitoring, of src/modules/pmcs/syswide.c: one process monitors all CPUs, and a timer
-- pushes a sample of each CPU into the buffer of that process. `none` is a fault: a null or freed
-- buffer that is used, an access outside of an array, or a lock that is taken by its own holder,
-- which never returns. The calls that program the counters and those of the monitoring module are
-- left out or arguments.
pub mod Control
pub mod Setup
pub mod Timer
pub mod Taking
pub mod Sampling
pub mod Firing
pub mod Lifecycle
pub mod Stuck
pub mod Start
use pmctrack.Prelude.{
  ℕ, zero, suc, ◌+◌, ◌-◌, ◌%◌, ◌^◌, Bool, true, false, not, ◌&&◌, List, [], ◌∷◌, map, Option, none,
  some, ◌==◌, if◌then◌else◌, ◌>>=◌,
}
use pmctrack.Prelude.Int.{ℤ, pos, negsuc, ltb_ℤ, eqb_ℤ}
use pmctrack.Experiments.{
  Experiment, ExperimentSet, free_experiment_set, clone_core_experiment_set_t,
  get_cur_experiment_in_set, get_next_experiment_in_set, init_core_experiment_set_t,
}
use pmctrack.SampleBuffer.{
  SampleBuffer, get_pmc_samples_buffer, put_pmc_samples_buffer, push_sample_cbuffer_nowakeup,
  wake_up_monitor_program,
}

-- SYSWIDE_MONITORING_DISABLED, _STOPPING and _STARTING, and negative error numbers
abbrev pub disabled : ℤ
disabled = negsuc 2

abbrev pub stopping : ℤ
stopping = negsuc 1

abbrev pub starting : ℤ
starting = negsuc 0

abbrev pub eperm : ℤ
eperm = negsuc 0

abbrev pub ebusy : ℤ
ebusy = negsuc 15

abbrev pub einval : ℤ
einval = negsuc 21

-- `pmc_sample_t`, less the virtual counts, of which only the number is kept
pub record Sample : Type 0 where
  pub coretype : ℕ
  pub exp_idx : ℕ
  pub pmc_mask : ℕ
  pub nr_counts : ℕ
  pub virt_mask : ℕ
  pub nr_virt_counts : ℕ
  pub pid : ℕ
  pub elapsed_time : ℕ
  pub pmc_counts : List ℕ

abbrev pub zero_sample : List ℕ → Sample
zero_sample counts = record {
  coretype = 0;
  exp_idx = 0;
  pmc_mask = 0;
  nr_counts = 0;
  virt_mask = 0;
  nr_virt_counts = 0;
  pid = 0;
  elapsed_time = 0;
  pmc_counts = counts;
}

-- `cpu_syswide_t`, less its lock
pub record CpuSyswide : Type 0 where
  pub pmc_config_set : ExperimentSet
  pub cur_config : Option Experiment
  pub virt_counter_mask : ℕ
  pub pmc_values : List ℕ
  pub last_sample : Sample
  pub ref_time : ℕ

-- Of a process's `pmon_prof_t`, what starting reads; a buffer is its address.
pub record Prof : Type 0 where
  pub pmc_jiffies_interval : ℕ
  pub prof_virt_mask : ℕ
  pub pmcs_multiplex_cfg : ℕ → ExperimentSet
  pub prof_buffer : Option ℕ

-- `syswide_ctl_t` with the per-CPU data, whether the timer is pending and the lock is held, and the
-- buffers in memory: `none` is not allocated or freed.
pub record Syswide : Type 0 where
  pub syswide_monitor : ℤ
  pub pmc_samples_buffer : Option ℕ
  pub timer_pending : Bool
  pub syswide_timer_period : ℕ
  pub pause_syswide_monitor : Bool
  pub locked : Bool
  pub cpus : List CpuSyswide
  pub buffers : ℕ → Option SampleBuffer

unfoldable pub spin_lock : Syswide → Option Syswide
spin_lock s = if s.locked then none else some (record s { locked = true })

unfoldable pub spin_unlock : Syswide → Syswide
spin_unlock s = record s { locked = false }

unfoldable pub syswide_monitoring_enabled : Syswide → Bool
syswide_monitoring_enabled s = ltb_ℤ starting s.syswide_monitor

pub is_syswide_monitor : Syswide → ℤ → Bool
is_syswide_monitor s pid = eqb_ℤ s.syswide_monitor pid

-- With the set emptied
unfoldable pub cleared_cpu : CpuSyswide → ExperimentSet → CpuSyswide
cleared_cpu cpu_data cset = record {
  pmc_config_set = cset;
  cur_config = none;
  virt_counter_mask = 0;
  pmc_values = map (λ v. 0) cpu_data.pmc_values;
  last_sample = zero_sample (map (λ v. 0) cpu_data.last_sample.pmc_counts);
  ref_time = cpu_data.ref_time;
}

unfoldable pub reset_cpu_syswide_data : CpuSyswide → Bool → Option CpuSyswide
unfolding cleared_cpu init_core_experiment_set_t
reset_cpu_syswide_data cpu_data true = some (cleared_cpu cpu_data init_core_experiment_set_t)
reset_cpu_syswide_data cpu_data false = do
  cset ← free_experiment_set cpu_data.pmc_config_set
  some (cleared_cpu cpu_data cset)

-- The result of the copy, 0 or not
unfoldable pub take_config : CpuSyswide → ℕ → ℤ × ExperimentSet → Option (ℤ × CpuSyswide)
take_config cpu_data virt_mask (negsuc n, cset) =
    some (negsuc n, record cpu_data { pmc_config_set = cset })
take_config cpu_data virt_mask (pos n, cset) = do
  cur ← get_cur_experiment_in_set cset
  some (
    pos 0,
    record cpu_data { pmc_config_set = cset; cur_config = cur; virt_counter_mask = virt_mask },
  )

unfoldable pub setup_cpu_syswide_data :
    (ℕ → Bool) → CpuSyswide → ExperimentSet → ℕ → Option (ℤ × CpuSyswide)
unfolding reset_cpu_syswide_data take_config
setup_cpu_syswide_data alloc cpu_data cset virt_mask = do
  cpu_data' ← reset_cpu_syswide_data cpu_data false
  copy ← clone_core_experiment_set_t alloc cset
  take_config cpu_data' virt_mask copy

abbrev pub ebs_enabled : Option Experiment → Bool
ebs_enabled none = false
ebs_enabled (some experiment) = not (eqb_ℤ experiment.ebs_idx (negsuc 0))

-- One CPU of a core type. The check that there is a configuration never fails: it tests the address
-- of an array entry.
unfoldable pub prepare_cpu : (ℕ → Bool) → Prof → ℕ → CpuSyswide → Option (ℤ × CpuSyswide)
prepare_cpu alloc prof coretype cur = do
  experiment ← get_cur_experiment_in_set (prof.pmcs_multiplex_cfg coretype)
  if ebs_enabled experiment
      then some (einval, cur)
      else setup_cpu_syswide_data alloc cur (prof.pmcs_multiplex_cfg coretype) prof.prof_virt_mask

-- All CPUs from `cpu` on, up to the first that fails
unfoldable pub prepare_cpus :
    (ℕ → ℕ → Bool) → (ℕ → ℕ) → Prof → ℕ → List CpuSyswide → Option (ℤ × List CpuSyswide)
prepare_cpus alloc coretype prof cpu [] = some (pos 0, [])
prepare_cpus alloc coretype prof cpu (cur ∷ rest) = do
  (ret, cur') ← prepare_cpu (alloc cpu) prof (coretype cpu) cur
  if eqb_ℤ ret (pos 0)
      then (do
        (ret', rest') ← prepare_cpus alloc coretype prof (suc cpu) rest
        some (ret', cur' ∷ rest'))
      else some (ret, cur' ∷ rest)

unfoldable pub put_at :
    (ℕ → Option SampleBuffer) → ℕ → Option SampleBuffer → ℕ → Option SampleBuffer
put_at buffers b v i = if i == b then v else buffers i

-- get_pmc_samples_buffer and put_pmc_samples_buffer through the pointer of the structure
unfoldable pub get_buffer : Syswide → Option ℕ → Option Syswide
get_buffer s none = none
get_buffer s (some b) = do
  sbuf ← s.buffers b
  some (record s {
    pmc_samples_buffer = some b;
    buffers = put_at s.buffers b (some (get_pmc_samples_buffer sbuf));
  })

unfoldable pub put_buffer : Syswide → Option ℕ → Option Syswide
put_buffer s none = none
put_buffer s (some b) = do
  sbuf ← s.buffers b
  some (record s {
    pmc_samples_buffer = none;
    buffers = put_at s.buffers b (put_pmc_samples_buffer sbuf);
  })

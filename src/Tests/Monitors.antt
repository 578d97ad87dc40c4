-- ===== src/Tests/Monitors.antt =====
-- System-wide monitoring over one CPU, and a buffer with room for two samples of two bytes.
use pmctrack.Prelude.{
  ℕ, ◌≡◌, refl, List, [], ◌∷◌, ◌++◌, true, false, none, some, arith, get_or, Ensures, ◌==◌, ◌%◌,
}
use pmctrack.Prelude.Int.{pos, negsuc}
use pmctrack.CBuffer.{CBuffer, create_cbuffer_t}
use pmctrack.Experiments.{Experiment, ExperimentSet, clone_core_experiment_set_t}
use pmctrack.Experiments.Rotation.{IsGroup, rotation, Rounds, rotation_lem}
use pmctrack.Experiments.Clone.{Holds, Cloned, clone_core_experiment_set_t_lem}
use pmctrack.SampleBuffer.{SampleBuffer, allocate_pmc_samples_buffer, kernel_buffer_size}
use pmctrack.Prelude.Newest.{newest}
use pmctrack.SampleBuffer.Whole.{Stores, push_all, push_sample_cbuffer_whole}
use pmctrack.Syswide.{
  Sample, zero_sample, CpuSyswide, Prof, Syswide, disabled, starting, einval, ebusy,
  syswide_monitoring_enabled,
}
use pmctrack.Syswide.Setup.{Usable}
use pmctrack.Syswide.Control.{
  syswide_monitoring_start, syswide_monitoring_stop, syswide_monitoring_pause,
  syswide_monitoring_resume,
}
use pmctrack.Syswide.Timer.{Surroundings, fire_syswide_timer}
use pmctrack.Syswide.Start.{Idle, Halted}
use pmctrack.Syswide.Lifecycle.{Restored, session, syswide_monitoring_stop-syswide_monitoring_start}
use pmctrack.Syswide.Sampling.{AllTaken, Dumped}
use pmctrack.Syswide.Firing.{Fired, fire_syswide_timer_lem}
use pmctrack.Syswide.Stuck.{here, next, pause, syswide_monitoring_start-Halted}

abbrev cycles : Experiment
cycles = record {
  size = 1;
  used_pmcs = 1;
  ebs_idx = negsuc 0;
  need_setup = true;
  exp_idx = 0;
  nr_overflows = 3 ∷ [];
}

abbrev misses : Experiment
misses = record cycles { exp_idx = 1 }

abbrev both : ExperimentSet
both = record { exps = some cycles ∷ some misses ∷ []; nr_exps = 2; cur_exp = 0 }

both-IsGroup : IsGroup (cycles ∷ misses ∷ []) both
both-IsGroup = record { stored = refl; room = omega arith; counted = refl; current = omega arith }

both-Holds : Holds (cycles ∷ misses ∷ []) both
both-Holds = record { stored = refl; room = omega arith; counted = refl }

rotation_lem_example : Ensures (rotation 3 both) (Rounds (cycles ∷ misses ∷ []) 0 3)
rotation_lem_example = rotation_lem (cycles ∷ misses ∷ []) both 3 both-IsGroup

clone_partly :
    Ensures
      (clone_core_experiment_set_t (λ i. i == 0) both)
      (Cloned (cycles ∷ misses ∷ []) (λ i. i == 0))
clone_partly = clone_core_experiment_set_t_lem (cycles ∷ misses ∷ []) both (λ i. i == 0) both-Holds

abbrev ring : CBuffer
ring = record { bytes = 0 ∷ 0 ∷ 0 ∷ 0 ∷ []; head = 0; size = 0; max_size = 4 }

abbrev buffer : SampleBuffer
buffer = record { pmc_samples = ring; sem_queue = 0; monitor_waiting = false; ref_counter = 1 }

allocate_run : allocate_pmc_samples_buffer true true (some (0 ∷ 0 ∷ 0 ∷ 0 ∷ [])) 4 ≡ some buffer
unfolding allocate_pmc_samples_buffer create_cbuffer_t
allocate_run = refl

size_run : kernel_buffer_size 2 5 ≡ some 4
unfolding kernel_buffer_size
size_run = refl

abbrev three : List (List ℕ)
three = (1 ∷ 2 ∷ []) ∷ (3 ∷ 4 ∷ []) ∷ (5 ∷ 6 ∷ []) ∷ []

push_sample_cbuffer_whole_example : Ensures (push_all buffer three) (Stores 2 2 (newest 2 three))
push_sample_cbuffer_whole_example =
    push_sample_cbuffer_whole 2 5 4 (0 ∷ 0 ∷ 0 ∷ 0 ∷ []) buffer three size_run (omega arith) refl
      allocate_run (refl, (refl, (refl, tt)))

abbrev cpu : CpuSyswide
cpu = record {
  pmc_config_set = both;
  cur_config = some cycles;
  virt_counter_mask = 0;
  pmc_values = 7 ∷ [];
  last_sample = zero_sample (0 ∷ []);
  ref_time = 0;
}

abbrev idle : Syswide
idle = record {
  syswide_monitor = disabled;
  pmc_samples_buffer = none;
  timer_pending = false;
  syswide_timer_period = 100;
  pause_syswide_monitor = false;
  locked = false;
  cpus = cpu ∷ [];
  buffers = λ b. some buffer;
}

abbrev prof : Prof
prof = record {
  pmc_jiffies_interval = 50;
  prof_virt_mask = 0;
  pmcs_multiplex_cfg = λ k. both;
  prof_buffer = some 0;
}

both-Usable : Usable both
both-Usable = (cycles ∷ misses ∷ [], both-Holds, omega arith)

idle-Idle : Idle idle
idle-Idle = record { free = refl; off = refl; no_timer = refl; no_buffer = refl }

syswide_monitoring_stop-syswide_monitoring_start_example :
    Ensures
      (session (λ k i. true) (λ k. 0) (λ k. some 7) (pos 0) 100 (pos 42) prof idle)
      (Restored idle)
syswide_monitoring_stop-syswide_monitoring_start_example =
    syswide_monitoring_stop-syswide_monitoring_start (λ k i. true) (λ k. 0) (λ k. some 7) (pos 0)
      100 (pos 42) prof idle 0 buffer idle-Idle (omega arith, tt) (λ k. both-Usable) refl refl
      (omega arith) (omega arith)

abbrev halted : Syswide
halted = record idle { syswide_monitor = starting }

halted-Halted : Halted halted
halted-Halted = record { free = refl; half = refl; no_timer = refl; no_buffer = refl }

pause_run : syswide_monitoring_pause halted ≡ some (einval, halted)
unfolding syswide_monitoring_pause
pause_run = refl

syswide_monitoring_start-Halted_example :
    Ensures
      (syswide_monitoring_start
        (λ k i. true)
        (λ k. 0)
        (λ k. some 7)
        (pos 0)
        (pos 43)
        (some prof)
        halted)
      (λ r. (r.0 ≡ ebusy) × Halted r.1)
    × Ensures (syswide_monitoring_pause halted) (λ r. (r.0 ≡ einval) × Halted r.1)
    × Ensures (syswide_monitoring_resume halted) (λ r. (r.0 ≡ einval) × Halted r.1)
    × (syswide_monitoring_stop 100 (pos 42) halted ≡ none)
syswide_monitoring_start-Halted_example =
    syswide_monitoring_start-Halted halted halted (λ k i. true) (λ k. 0) (λ k. some 7) (pos 0)
      (pos 43) prof 100 42 halted-Halted (next here (pause pause_run))

abbrev running : Syswide
running = record idle {
  syswide_monitor = pos 42;
  pmc_samples_buffer = some 0;
  timer_pending = true;
}

-- A sample of two bytes
abbrev encode : Sample → List ℕ
encode sample = sample.pid ∷ get_or sample.pmc_counts 0 0 % 256 ∷ []

abbrev around : Surroundings
around = record {
  coretype_cpu = 0;
  ktime = 10;
  last_values = 5 ∷ [];
  dump_virtual_counters = λ sample. sample;
}

buffer-Stores : Stores 2 2 [] buffer
buffer-Stores = record {
  inv = record {
    storage = refl;
    some_room = omega arith;
    small = omega arith;
    head_le = omega arith;
    size_le = omega arith;
  };
  room = refl;
  sized = tt;
  fits = omega arith;
  held = refl;
}

running_on : syswide_monitoring_enabled running ≡ true
unfolding syswide_monitoring_enabled
running_on = refl

fire_syswide_timer_lem_example :
    Ensures (fire_syswide_timer (λ k. true) (λ k. around) encode running) (λ s'.
      AllTaken (λ k. true) (λ k. around) 0 running.cpus s'.cpus
      × ((samples : List (List ℕ)) × Dumped (λ k. true) encode 0 s'.cpus samples
          × Fired 2 2 0 (newest 2 ([] ++ samples)) running s'))
fire_syswide_timer_lem_example =
    fire_syswide_timer_lem (λ k. true) (λ k. around) encode running 2 2 0 [] buffer
      (record { free = refl; enabled = running_on; buffer = refl; live = refl }) refl
      (record { set = both-Usable; counted = (omega arith, omega arith) }, tt) (λ sample. refl)
      buffer-Stores

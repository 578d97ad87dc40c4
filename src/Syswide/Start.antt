-- ===== src/Syswide/Start.antt =====
-- Setting up and starting system-wide monitoring, of src/modules/pmcs/syswide.c.
use pmctrack.Prelude.{
  ℕ, ◌≡◌, ◌≢◌, refl, ap, Bool, true, false, not, ◌&&◌, List, [], ◌∷◌, Option, none, some, arith,
  ◌==◌, ◌⊎◌, inl, inr, Ensures, Ensures-bind, Bool-cases, All,
}
use pmctrack.Prelude.Int.{ℤ, pos, pos_part, neg_part, eqb_ℤ}
use pmctrack.SampleBuffer.{SampleBuffer, get_pmc_samples_buffer}
use pmctrack.Syswide.{
  reset_cpu_syswide_data, disabled, starting, CpuSyswide, Prof, Syswide, spin_lock, spin_unlock,
  prepare_cpus, put_at, get_buffer,
}
use pmctrack.Syswide.Setup.{Freeable, Usable, Done, prepare_cpus_lem}
use pmctrack.Syswide.Control.{
  reset_cpus, syswide_monitoring_init, fail_start, finish_start, begin_start,
  syswide_monitoring_start,
}

reset_cpus_lem : (cpus : List CpuSyswide) → Ensures (reset_cpus cpus) (All Freeable)
unfolding reset_cpus reset_cpu_syswide_data
reset_cpus_lem [] = tt
reset_cpus_lem (cur ∷ rest) =
    Ensures-bind (reset_cpus rest) (All Freeable) _ (All Freeable) (reset_cpus_lem rest)
      (λ rest' f. (omega arith, f))

-- Monitoring is off, and the timer and the buffer are let go of.
pub record Idle (s : Syswide) : Type 0 where
  pub free : s.locked ≡ false
  pub off : s.syswide_monitor ≡ disabled
  pub no_timer : s.timer_pending ≡ false
  pub no_buffer : s.pmc_samples_buffer ≡ none

-- The process `pid` monitors into the buffer `b`.
pub record Active (pid : ℤ) (b : ℕ) (s : Syswide) : Type 0 where
  pub free : s.locked ≡ false
  pub monitor : s.syswide_monitor ≡ pid
  pub timer : s.timer_pending ≡ true
  pub buffer : s.pmc_samples_buffer ≡ some b
  pub running : s.pause_syswide_monitor ≡ false

-- Starting failed half way.
pub record Halted (s : Syswide) : Type 0 where
  pub free : s.locked ≡ false
  pub half : s.syswide_monitor ≡ starting
  pub no_timer : s.timer_pending ≡ false
  pub no_buffer : s.pmc_samples_buffer ≡ none

-- Loading the module leaves monitoring off, with sets of experiments that can be freed.
pub syswide_monitoring_init-Idle :
    (hz : ℕ) (s : Syswide)
    → Ensures (syswide_monitoring_init hz s) (λ r. Idle r.1 × All Freeable r.1.cpus)
unfolding syswide_monitoring_init
syswide_monitoring_init-Idle hz s =
    Ensures-bind (reset_cpus s.cpus) (All Freeable) _ _ (reset_cpus_lem s.cpus)
      (λ cpus' f. (record { free = refl; off = refl; no_timer = refl; no_buffer = refl }, f))

-- What starting from `s` gives: the process has one more reference to its buffer, or nothing.
abbrev pub Started : ℤ → ℕ → SampleBuffer → Syswide → ℤ × Syswide → Type 0
Started pid b sbuf s (ret, s') =
    ((ret ≡ pos 0)
      × Active pid b s'
      × (s'.buffers ≡ put_at s.buffers b (some (get_pmc_samples_buffer sbuf))))
    ⊎ ((ret ≢ pos 0) × Halted s' × (s'.buffers ≡ s.buffers))

fail_start_lem :
    (pid : ℤ) (b : ℕ) (sbuf : SampleBuffer) (s s' : Syswide) (ret : ℤ)
    → s'.syswide_monitor ≡ starting
    → s'.timer_pending ≡ false
    → s'.pmc_samples_buffer ≡ none
    → s'.buffers ≡ s.buffers
    → eqb_ℤ ret (pos 0) ≡ false
    → Ensures (fail_start s' ret) (Started pid b sbuf s)
unfolding fail_start spin_unlock
fail_start_lem pid b sbuf s s' ret m t n same e = inr (
  (λ q. ground (arith, ap pos_part q, ap neg_part q)),
  record { free = refl; half = m; no_timer = t; no_buffer = n },
  same,
)

finish_start_lem :
    (ktimes : ℕ → Option ℕ) (pid : ℤ) (b : ℕ) (sbuf : SampleBuffer) (prof : Prof) (s : Syswide)
    (r : ℤ × List CpuSyswide)
    → s.syswide_monitor ≡ starting
    → s.timer_pending ≡ false
    → s.pmc_samples_buffer ≡ none
    → prof.prof_buffer ≡ some b
    → s.buffers b ≡ some sbuf
    → Ensures (finish_start ktimes s pid prof r) (Started pid b sbuf s)
unfolding finish_start spin_lock spin_unlock get_buffer
finish_start_lem ktimes pid b sbuf prof s r m t n pb live = elim (Bool-cases (eqb_ℤ r.0 (pos 0))) [
  | inr e ↦ rw (e) (fail_start_lem pid b sbuf s (record s { cpus = r.1 }) r.0 m t n refl e)
  | inl e ↦
      rw (e, pb, live)
        (inl (
          refl,
          record { free = refl; monitor = refl; timer = refl; buffer = refl; running = refl },
          refl,
        ))
]

begin_start_lem :
    (alloc : ℕ → ℕ → Bool) (coretype : ℕ → ℕ) (ktimes : ℕ → Option ℕ) (module_ret pid : ℤ)
    (prof : Prof) (s : Syswide) (b : ℕ) (sbuf : SampleBuffer)
    → s.timer_pending ≡ false
    → s.pmc_samples_buffer ≡ none
    → All Freeable s.cpus
    → ((k : ℕ) → Usable (prof.pmcs_multiplex_cfg k))
    → prof.prof_buffer ≡ some b
    → s.buffers b ≡ some sbuf
    → Ensures (begin_start alloc coretype ktimes module_ret s pid prof) (Started pid b sbuf s)
unfolding begin_start
begin_start_lem alloc coretype ktimes module_ret pid prof s b sbuf t n f u pb live =
    elim (Bool-cases (not (prof.prof_virt_mask == 0) && not (eqb_ℤ module_ret (pos 0)))) [
      | inl e ↦
          rw (e) (fail_start_lem pid b sbuf s s' module_ret refl t n refl (refused module_ret e))
      | inr e ↦ rw (e) (
          Ensures-bind (prepare_cpus alloc coretype prof 0 s.cpus) Done
            (finish_start ktimes s' pid prof) (Started pid b sbuf s)
            (prepare_cpus_lem alloc coretype prof 0 s.cpus f u)
            (λ r w. finish_start_lem ktimes pid b sbuf prof s' r refl t n pb live))
    ]
  where
    s' : Syswide
    s' = record s { syswide_timer_period = prof.pmc_jiffies_interval; syswide_monitor = starting }

    refused :
        (ret : ℤ)
        → not (prof.prof_virt_mask == 0) && not (eqb_ℤ ret (pos 0)) ≡ true
        → eqb_ℤ ret (pos 0) ≡ false
    refused ret e = ground arith

-- From the idle state, with a buffer of the process in memory and well-formed sets of experiments,
-- starting never faults, whatever the monitoring module, the allocations and the experiments are:
-- either it returns 0 and the process monitors, with one more reference to its buffer and the timer
-- running, or it returns an error and is left half way, with every buffer as before.
pub syswide_monitoring_start_lem :
    (alloc : ℕ → ℕ → Bool) (coretype : ℕ → ℕ) (ktimes : ℕ → Option ℕ) (module_ret pid : ℤ)
    (prof : Prof) (s : Syswide) (b : ℕ) (sbuf : SampleBuffer)
    → Idle s
    → All Freeable s.cpus
    → ((k : ℕ) → Usable (prof.pmcs_multiplex_cfg k))
    → prof.prof_buffer ≡ some b
    → s.buffers b ≡ some sbuf
    → Ensures
        (syswide_monitoring_start alloc coretype ktimes module_ret pid (some prof) s)
        (Started pid b sbuf s)
unfolding syswide_monitoring_start spin_lock
syswide_monitoring_start_lem alloc coretype ktimes module_ret pid prof s b sbuf i f u pb live =
    let e : eqb_ℤ s.syswide_monitor disabled ≡ true = rw (i.off) refl in
    rw (i.free, e)
      (begin_start_lem alloc coretype ktimes module_ret pid prof (record s { locked = true }) b sbuf
        i.no_timer i.no_buffer f u pb live)

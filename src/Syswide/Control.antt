-- ===== src/Syswide/Control.antt =====
-- Starting, stopping, pausing and resuming system-wide monitoring.
use pmctrack.Prelude.{
  ℕ, suc, Bool, true, false, not, ◌&&◌, List, [], ◌∷◌, Option, none, some, ◌==◌, if◌then◌else◌,
  ◌>>=◌,
}
use pmctrack.Prelude.Int.{ℤ, pos, eqb_ℤ}
use pmctrack.Syswide.{
  disabled, stopping, starting, eperm, ebusy, einval, CpuSyswide, Prof, Syswide, spin_lock,
  spin_unlock, syswide_monitoring_enabled, prepare_cpus, reset_cpu_syswide_data, get_buffer,
  put_buffer,
}

-- exit_unlock: the lock is released and the state kept.
unfoldable pub fail_start : Syswide → ℤ → Option (ℤ × Syswide)
unfolding spin_unlock
fail_start s ret = some (ret, spin_unlock s)

-- With the clock of the CPU, if it is online
unfoldable pub syswide_monitoring_start_cpu : Option ℕ → CpuSyswide → CpuSyswide
syswide_monitoring_start_cpu none cur = cur
syswide_monitoring_start_cpu (some ktime) cur = record cur { ref_time = ktime }

-- The start on each CPU from `cpu` on that is online, which then has the clock `ktimes cpu`; that the
-- counters are programmed, and the module told, is not modelled.
unfoldable pub start_cpus : (ℕ → Option ℕ) → ℕ → List CpuSyswide → List CpuSyswide
unfolding syswide_monitoring_start_cpu
start_cpus ktimes cpu [] = []
start_cpus ktimes cpu (cur ∷ rest) =
    syswide_monitoring_start_cpu (ktimes cpu) cur ∷ start_cpus ktimes (suc cpu) rest

-- The second part, after the CPUs are set up: the buffer is shared, and the timer started.
unfoldable pub finish_start :
    (ℕ → Option ℕ) → Syswide → ℤ → Prof → ℤ × List CpuSyswide → Option (ℤ × Syswide)
unfolding spin_lock spin_unlock get_buffer fail_start start_cpus
finish_start ktimes s pid prof (ret, cpus) =
    if not (eqb_ℤ ret (pos 0)) then fail_start (record s { cpus = cpus }) ret else (do
      s1 ← get_buffer (record s { cpus = cpus }) prof.prof_buffer
      s2 ← spin_lock (spin_unlock s1)
      some (
        pos 0,
        spin_unlock (record s2 {
          cpus = start_cpus ktimes 0 s2.cpus;
          syswide_monitor = pid;
          pause_syswide_monitor = false;
          timer_pending = true;
        }),
      ))

-- The result of mm_on_syswide_start_monitor is an argument, read if there is a virtual counter.
unfoldable pub begin_start :
    (ℕ → ℕ → Bool) → (ℕ → ℕ) → (ℕ → Option ℕ) → ℤ → Syswide → ℤ → Prof → Option (ℤ × Syswide)
unfolding fail_start finish_start
begin_start alloc coretype ktimes module_ret s pid prof =
    let s' = record s {
      syswide_timer_period = prof.pmc_jiffies_interval;
      syswide_monitor = starting;
    } in
    if not (prof.prof_virt_mask == 0) && not (eqb_ℤ module_ret (pos 0))
    then fail_start s' module_ret
    else (do
      set_up ← prepare_cpus alloc coretype prof 0 s'.cpus
      finish_start ktimes s' pid prof set_up)

-- `current` is given by its pid and its `pmon_prof_t`.
unfoldable pub syswide_monitoring_start :
    (ℕ → ℕ → Bool) → (ℕ → ℕ) → (ℕ → Option ℕ) → ℤ → ℤ → Option Prof → Syswide → Option (ℤ × Syswide)
unfolding spin_lock fail_start begin_start
syswide_monitoring_start alloc coretype ktimes module_ret pid none s = some (eperm, s)
syswide_monitoring_start alloc coretype ktimes module_ret pid (some prof) s = do
  s' ← spin_lock s
  if not (eqb_ℤ s'.syswide_monitor disabled)
      then fail_start s' ebusy
      else begin_start alloc coretype ktimes module_ret s' pid prof

-- After the timer is deleted
unfoldable pub finish_stop : Syswide → Option (ℤ × Syswide)
unfolding spin_lock spin_unlock put_buffer
finish_stop s = do
  s1 ← spin_lock s
  s2 ← put_buffer (record s1 { syswide_monitor = disabled }) s1.pmc_samples_buffer
  some (pos 0, spin_unlock s2)

-- `hz` is HZ. exit_unlock_stop takes the lock again.
unfoldable pub syswide_monitoring_stop : ℕ → ℤ → Syswide → Option (ℤ × Syswide)
unfolding spin_lock spin_unlock finish_stop
syswide_monitoring_stop hz pid s = do
  s1 ← spin_lock s
  if not (eqb_ℤ s1.syswide_monitor pid)
      then (do s2 ← spin_lock s1; some (eperm, s2))
      else finish_stop (record (spin_unlock s1) {
        syswide_timer_period = hz;
        syswide_monitor = stopping;
        timer_pending = false;
      })

unfoldable pub set_pause : Bool → Syswide → Option (ℤ × Syswide)
unfolding spin_lock spin_unlock syswide_monitoring_enabled
set_pause paused s = do
  s' ← spin_lock s
  if not (syswide_monitoring_enabled s')
      then some (einval, spin_unlock s')
      else some (pos 0, spin_unlock (record s' { pause_syswide_monitor = paused }))

unfoldable pub syswide_monitoring_pause : Syswide → Option (ℤ × Syswide)
unfolding set_pause
syswide_monitoring_pause s = set_pause true s

unfoldable pub syswide_monitoring_resume : Syswide → Option (ℤ × Syswide)
unfolding set_pause
syswide_monitoring_resume s = set_pause false s

-- Each CPU in turn
unfoldable pub reset_cpus : List CpuSyswide → Option (List CpuSyswide)
reset_cpus [] = some []
reset_cpus (cur ∷ rest) = do
  cur' ← reset_cpu_syswide_data cur true
  rest' ← reset_cpus rest
  some (cur' ∷ rest')

-- When the module is loaded; `hz` is HZ.
unfoldable pub syswide_monitoring_init : ℕ → Syswide → Option (ℤ × Syswide)
unfolding reset_cpus
syswide_monitoring_init hz s = do
  cpus' ← reset_cpus s.cpus
  some (
    pos 0,
    record s {
      syswide_monitor = disabled;
      pmc_samples_buffer = none;
      locked = false;
      timer_pending = false;
      syswide_timer_period = hz;
      pause_syswide_monitor = false;
      cpus = cpus';
    },
  )

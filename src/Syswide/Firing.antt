-- ===== src/Syswide/Firing.antt =====
-- What the timer does to the buffer.
use pmctrack.Prelude.{
  ℕ, suc, ◌≡◌, refl, ap, ap₂, sym, subst, ◌∙◌, Bool, true, false, not, ◌&&◌, List, [], ◌∷◌, ◌++◌,
  some, arith, length, append_assoc, if◌then◌else◌, Ensures, Ensures-bind, Bool-cases, inl, inr,
}
use pmctrack.SampleBuffer.{SampleBuffer, push_sample_cbuffer_nowakeup, wake_up_monitor_program}
use pmctrack.Prelude.Newest.{newest, newest-append}
use pmctrack.SampleBuffer.Newest.{Sized}
use pmctrack.SampleBuffer.Whole.{Stores, push_nowakeup-Stores, wake_up-Stores, nothing-Stores}
use pmctrack.Syswide.{
  Sample, CpuSyswide, Syswide, spin_lock, spin_unlock, syswide_monitoring_enabled, put_at,
}
use pmctrack.Syswide.Lifecycle.{put_at_self}
use pmctrack.Syswide.Sampling.{AllReady, AllTaken, sample_cpus_lem, Dumped, online-Dumped}
use pmctrack.Syswide.Timer.{
  Surroundings, sample_cpus, online_samples, push_samples, push_to, fire_syswide_timer,
}

Sized-online :
    (sz : ℕ) (online : ℕ → Bool) (encode : Sample → List ℕ) (cpu : ℕ) (cpus : List CpuSyswide)
    → ((sample : Sample) → length (encode sample) ≡ sz)
    → Sized sz (online_samples online encode cpu cpus)
unfolding online_samples
Sized-online sz online encode cpu [] e = tt
Sized-online sz online encode cpu (cur ∷ rest) e =
    let more = Sized-online sz online encode (suc cpu) rest e in
    elim (Bool-cases (online cpu)) [
      | inl t ↦ rw (t) (e cur.last_sample, more)
      | inr f ↦ rw (f) more
    ]

push_samples-Stores :
    (sz m : ℕ) (old : List (List ℕ)) (sbuf : SampleBuffer) (xs : List (List ℕ))
    → Stores sz m old sbuf
    → Sized sz xs
    → Ensures (push_samples sbuf xs) (Stores sz m (newest m (old ++ xs)))
unfolding push_samples
push_samples-Stores sz m old sbuf [] v h = nothing-Stores sz m old sbuf v
push_samples-Stores sz m old sbuf (x ∷ xs) v h =
    Ensures-bind (push_sample_cbuffer_nowakeup sbuf x) (Stores sz m (newest m (old ++ x ∷ []))) _ _
      (push_nowakeup-Stores sz m old sbuf x v h.0)
      (λ sbuf' w.
        subst (λ l. Ensures (push_samples sbuf' xs) (Stores sz m l))
          (newest-append m (old ++ x ∷ []) xs ∙ ap (newest m) (append_assoc old (x ∷ []) xs))
          (push_samples-Stores sz m (newest m (old ++ x ∷ [])) sbuf' xs w h.1))

awake : (sbuf : SampleBuffer) → (wake_up_monitor_program sbuf).monitor_waiting ≡ false
unfolding wake_up_monitor_program
awake sbuf = ground arith

-- Monitoring is on, with `sbuf` as the buffer `b`.
pub record Running (b : ℕ) (sbuf : SampleBuffer) (s : Syswide) : Type 0 where
  pub free : s.locked ≡ false
  pub enabled : syswide_monitoring_enabled s ≡ true
  pub buffer : s.pmc_samples_buffer ≡ some b
  pub live : s.buffers b ≡ some sbuf

-- The state after the timer has fired: the buffer holds the samples `samples`, and the monitoring
-- program does not wait.
pub record Fired (sz m b : ℕ) (samples : List (List ℕ)) (s s' : Syswide) : Type 0 where
  pub free : s'.locked ≡ false
  pub rearmed : s'.timer_pending ≡ true
  pub monitor : s'.syswide_monitor ≡ s.syswide_monitor
  pub sbuf : SampleBuffer
  pub live : s'.buffers b ≡ some sbuf
  pub awakened : sbuf.monitor_waiting ≡ false
  pub stores : Stores sz m samples sbuf

-- Pushing the samples with the lock held
pushed : ℕ → Syswide → SampleBuffer → Syswide
pushed b s sbuf = record s { buffers = put_at s.buffers b (some (wake_up_monitor_program sbuf)) }

pushing :
    (s : Syswide) (sz m b : ℕ) (old xs : List (List ℕ)) (sbuf : SampleBuffer)
    → s.pause_syswide_monitor ≡ false
    → syswide_monitoring_enabled s ≡ true
    → s.pmc_samples_buffer ≡ some b
    → s.buffers b ≡ some sbuf
    → Stores sz m old sbuf
    → Sized sz xs
    → Ensures
        (if not s.pause_syswide_monitor && syswide_monitoring_enabled s
          then push_to s s.pmc_samples_buffer xs
          else some s)
        (λ t.
          (sbuf' : SampleBuffer) × (t ≡ pushed b s sbuf')
          × Stores sz m (newest m (old ++ xs)) sbuf')
unfolding push_to pushed
pushing s sz m b old xs sbuf p on buffer live v h =
    let c : (not s.pause_syswide_monitor && syswide_monitoring_enabled s) ≡ true =
      ap₂ (λ x y. not x && y) p on in
    simp (c, buffer, live)
      (Ensures-bind (push_samples sbuf xs) _ _ _ (push_samples-Stores sz m old sbuf xs v h)
        (λ sbuf' w. (sbuf', refl, w)))

-- When the timer fires while monitoring is on and not paused, with sets of experiments that are
-- well formed and counters that are read, it never faults. Each CPU that is online takes a sample:
-- with its number, the time since its last one, and the sums of its counters, which go on at 0; the
-- other CPUs are as they were. The buffer, which holds whole samples, then holds the newest of these
-- and of the new ones, in the order of the CPUs; the monitoring program is woken up, the timer is
-- pending again, and the lock is free.
pub fire_syswide_timer_lem :
    (online : ℕ → Bool) (around : ℕ → Surroundings) (encode : Sample → List ℕ) (s : Syswide)
    (sz m b : ℕ) (old : List (List ℕ)) (sbuf : SampleBuffer)
    → Running b sbuf s
    → s.pause_syswide_monitor ≡ false
    → AllReady around 0 s.cpus
    → ((sample : Sample) → length (encode sample) ≡ sz)
    → Stores sz m old sbuf
    → Ensures (fire_syswide_timer online around encode s) (λ s'.
      AllTaken online around 0 s.cpus s'.cpus
      × ((samples : List (List ℕ)) × Dumped online encode 0 s'.cpus samples
          × Fired sz m b (newest m (old ++ samples)) s s'))
unfolding fire_syswide_timer spin_lock spin_unlock syswide_monitoring_enabled pushed
fire_syswide_timer_lem online around encode s sz m b old sbuf r p ready layout v = rw (r.enabled) (
    Ensures-bind (sample_cpus online around 0 s.cpus) (AllTaken online around 0 s.cpus) _ _
      (sample_cpus_lem online around 0 s.cpus ready)
      (λ cpus' u. simp (r.free) (
        Ensures-bind
          (if not s.pause_syswide_monitor && syswide_monitoring_enabled (held cpus')
            then push_to (held cpus') s.pmc_samples_buffer (online_samples online encode 0 cpus')
            else some (held cpus'))
          _ _ _
          (pushing (held cpus') sz m b old (online_samples online encode 0 cpus') sbuf p r.enabled
            r.buffer r.live v (Sized-online sz online encode 0 cpus' layout))
          (λ s2 k.
            subst
              (λ t.
                AllTaken online around 0 s.cpus t.cpus
                × ((samples : List (List ℕ)) × Dumped online encode 0 t.cpus samples
                    × Fired sz m b (newest m (old ++ samples)) s (record t {
                      timer_pending = syswide_monitoring_enabled t;
                      locked = false;
                    })))
              (sym k.1)
              (
                u,
                (
                  online_samples online encode 0 cpus',
                  online-Dumped online encode 0 cpus',
                  record {
                    free = refl;
                    rearmed = r.enabled;
                    monitor = refl;
                    sbuf = wake_up_monitor_program k.0;
                    live = put_at_self s.buffers b (some (wake_up_monitor_program k.0));
                    awakened = awake k.0;
                    stores = wake_up-Stores sz m _ k.0 k.2;
                  },
                ),
              )))))
  where
    held : List CpuSyswide → Syswide
    held cpus' = record s { cpus = cpus'; timer_pending = false; locked = true }

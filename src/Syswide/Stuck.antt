-- ===== src/Syswide/Stuck.antt =====
-- After a start that failed half way.
use pmctrack.Prelude.{
  ℕ, ◌≡◌, refl, ap, sym, ◌∙◌, Bool, true, false, List, Option, none, some, arith, Ensures,
  Ensures-at,
}
use pmctrack.Prelude.Int.{ℤ, pos, pos_part, neg_part, eqb_ℤ}
use pmctrack.Syswide.{
  disabled, Sample, ebusy, einval, Prof, Syswide, spin_lock, spin_unlock,
  syswide_monitoring_enabled,
}
use pmctrack.Syswide.Control.{
  fail_start, syswide_monitoring_start, syswide_monitoring_stop, set_pause,
  syswide_monitoring_pause, syswide_monitoring_resume,
}
use pmctrack.Syswide.Timer.{Surroundings, fire_syswide_timer}
use pmctrack.Syswide.Start.{Halted}

-- A call that returns, or the timer; a call is by a process whose pid is not negative.
pub data Step (s : Syswide) : Syswide → Type 0 where
  start :
      (alloc : ℕ → ℕ → Bool) (coretype : ℕ → ℕ) (ktimes : ℕ → Option ℕ) (module_ret : ℤ) (pid : ℕ)
      (prof : Option Prof) {ret : ℤ} {t : Syswide}
      → syswide_monitoring_start alloc coretype ktimes module_ret (pos pid) prof s ≡ some (ret, t)
      → Step s t
  stop :
      (hz pid : ℕ) {ret : ℤ} {t : Syswide}
      → syswide_monitoring_stop hz (pos pid) s ≡ some (ret, t)
      → Step s t
  pause : {ret : ℤ} {t : Syswide} → syswide_monitoring_pause s ≡ some (ret, t) → Step s t
  fire :
      (online : ℕ → Bool) (around : ℕ → Surroundings) (encode : Sample → List ℕ) {t : Syswide}
      → fire_syswide_timer online around encode s ≡ some t
      → Step s t
  resume : {ret : ℤ} {t : Syswide} → syswide_monitoring_resume s ≡ some (ret, t) → Step s t

pub data Reach (s : Syswide) : Syswide → Type 0 where
  here : Reach s s
  next : {t u : Syswide} → Reach s t → Step t u → Reach s u

start-refused :
    (alloc : ℕ → ℕ → Bool) (coretype : ℕ → ℕ) (ktimes : ℕ → Option ℕ) (module_ret pid : ℤ)
    (prof : Prof) (s : Syswide)
    → Halted s
    → Ensures
        (syswide_monitoring_start alloc coretype ktimes module_ret pid (some prof) s)
        (λ r. (r.0 ≡ ebusy) × Halted r.1)
unfolding syswide_monitoring_start spin_lock fail_start spin_unlock
start-refused alloc coretype ktimes module_ret pid prof s h =
    let e : eqb_ℤ s.syswide_monitor disabled ≡ false = rw (h.half) refl in
    rw (h.free, e)
      (refl, record { free = refl; half = h.half; no_timer = h.no_timer; no_buffer = h.no_buffer })

stop-deadlock :
    (hz pid : ℕ) (s : Syswide) → Halted s → syswide_monitoring_stop hz (pos pid) s ≡ none
unfolding syswide_monitoring_stop spin_lock
stop-deadlock hz pid s h =
    let e : eqb_ℤ s.syswide_monitor (pos pid) ≡ false =
      ground (arith, ap pos_part h.half, ap neg_part h.half) in
    rw (h.free, e) refl

set_pause-refused :
    (paused : Bool) (s : Syswide)
    → Halted s
    → Ensures (set_pause paused s) (λ r. (r.0 ≡ einval) × Halted r.1)
unfolding set_pause spin_lock spin_unlock syswide_monitoring_enabled
set_pause-refused paused s h =
    let e : syswide_monitoring_enabled s ≡ false = rw (h.half) refl in
    rw (h.free, e)
      (refl, record { free = refl; half = h.half; no_timer = h.no_timer; no_buffer = h.no_buffer })

fire-Halted :
    (online : ℕ → Bool) (around : ℕ → Surroundings) (encode : Sample → List ℕ) (s : Syswide)
    → Halted s
    → Ensures (fire_syswide_timer online around encode s) Halted
unfolding fire_syswide_timer syswide_monitoring_enabled
fire-Halted online around encode s h =
    let e : syswide_monitoring_enabled s ≡ false = rw (h.half) refl in
    rw (e) (record { free = h.free; half = h.half; no_timer = refl; no_buffer = h.no_buffer })

Step-Halted : (s t : Syswide) → Halted s → Step s t → Halted t
unfolding syswide_monitoring_start syswide_monitoring_pause syswide_monitoring_resume
Step-Halted s t h (start alloc coretype ktimes module_ret pid none e) =
    Ensures-at (syswide_monitoring_start alloc coretype ktimes module_ret (pos pid) none s)
      (λ r. Halted r.1) h e
Step-Halted s t h (start alloc coretype ktimes module_ret pid (some prof) e) =
    (Ensures-at (syswide_monitoring_start alloc coretype ktimes module_ret (pos pid) (some prof) s)
      _ (start-refused alloc coretype ktimes module_ret (pos pid) prof s h) e).1
Step-Halted s t h (stop hz pid e) = absurd (ground (arith, sym (stop-deadlock hz pid s h) ∙ e))
Step-Halted s t h (pause e) = (Ensures-at (set_pause true s) _ (set_pause-refused true s h) e).1
Step-Halted s t h (fire online around encode e) =
    Ensures-at (fire_syswide_timer online around encode s) Halted
      (fire-Halted online around encode s h) e
Step-Halted s t h (resume e) = (Ensures-at (set_pause false s) _ (set_pause-refused false s h) e).1

Reach-Halted : (s t : Syswide) → Halted s → Reach s t → Halted t
Reach-Halted s t h here = h
Reach-Halted s t h (next r e) = Step-Halted _ t (Reach-Halted s _ h r) e

-- Once a start has failed half way, monitoring cannot be started again: after any calls that
-- return, starting it returns `-EBUSY`, whichever process tries, and pausing and resuming it return
-- `-EINVAL`; stopping it, by a process whose pid is not negative, never returns.
pub syswide_monitoring_start-Halted :
    (s t : Syswide) (alloc : ℕ → ℕ → Bool) (coretype : ℕ → ℕ) (ktimes : ℕ → Option ℕ)
    (module_ret starter : ℤ) (prof : Prof) (hz stopper : ℕ)
    → Halted s
    → Reach s t
    → Ensures
        (syswide_monitoring_start alloc coretype ktimes module_ret starter (some prof) t)
        (λ r. (r.0 ≡ ebusy) × Halted r.1)
      × Ensures (syswide_monitoring_pause t) (λ r. (r.0 ≡ einval) × Halted r.1)
      × Ensures (syswide_monitoring_resume t) (λ r. (r.0 ≡ einval) × Halted r.1)
      × (syswide_monitoring_stop hz (pos stopper) t ≡ none)
unfolding syswide_monitoring_pause syswide_monitoring_resume
syswide_monitoring_start-Halted s t alloc coretype ktimes module_ret starter prof hz stopper h r =
    let v = Reach-Halted s t h r in
    (
      start-refused alloc coretype ktimes module_ret starter prof t v,
      set_pause-refused true t v,
      set_pause-refused false t v,
      stop-deadlock hz stopper t v,
    )

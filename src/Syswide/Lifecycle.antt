-- ===== src/Syswide/Lifecycle.antt =====
-- What starting and stopping do, and that they balance.
use pmctrack.Prelude.{
  ℕ, ◌+◌, ◌^◌, ◌<◌, ◌≡◌, ◌≢◌, refl, ap, sym, ◌∙◌, Bool, true, false, Option, some, arith, ◌==◌,
  if◌then◌else◌, ◌>>=◌, ◌⊎◌, inl, inr, Ensures, Ensures-bind, Ensures-mono, Bool-cases, All, add32,
  sub32,
}
use pmctrack.Prelude.Int.{ℤ, pos, eqb_ℤ, true_of_eq, false_of_ne}
use pmctrack.SampleBuffer.{SampleBuffer, get_pmc_samples_buffer, put_pmc_samples_buffer}
use pmctrack.Syswide.{Prof, Syswide, spin_lock, spin_unlock, put_at, put_buffer}
use pmctrack.Syswide.Setup.{Freeable, Usable}
use pmctrack.Syswide.Control.{syswide_monitoring_start, finish_stop, syswide_monitoring_stop}
use pmctrack.Syswide.Start.{Idle, Active, Halted, Started, syswide_monitoring_start_lem}

-- What stopping gives.
abbrev pub Stopped : ℕ → SampleBuffer → Syswide → ℤ × Syswide → Type 0
Stopped b sbuf s (ret, s') =
    (ret ≡ pos 0) × Idle s' × (s'.buffers ≡ put_at s.buffers b (put_pmc_samples_buffer sbuf))

pub syswide_monitoring_stop_lem :
    (hz : ℕ) (pid : ℤ) (s : Syswide) (b : ℕ) (sbuf : SampleBuffer)
    → Active pid b s
    → s.buffers b ≡ some sbuf
    → Ensures (syswide_monitoring_stop hz pid s) (Stopped b sbuf s)
unfolding syswide_monitoring_stop finish_stop spin_lock spin_unlock put_buffer
syswide_monitoring_stop_lem hz pid s b sbuf a live =
    let e : eqb_ℤ s.syswide_monitor pid ≡ true = true_of_eq s.syswide_monitor pid a.monitor in
    rw (a.free, e, a.buffer, live)
      (refl, record { free = refl; off = refl; no_timer = refl; no_buffer = refl }, refl)

-- A reference that is taken and given back.
put_pmc_samples_buffer-get_pmc_samples_buffer :
    (sbuf : SampleBuffer)
    → 0 < sbuf.ref_counter
    → sbuf.ref_counter + 1 < 2 ^ 32
    → put_pmc_samples_buffer (get_pmc_samples_buffer sbuf) ≡ some sbuf
unfolding put_pmc_samples_buffer get_pmc_samples_buffer
put_pmc_samples_buffer-get_pmc_samples_buffer sbuf p l =
    let e : sub32 (add32 sbuf.ref_counter 1) 1 ≡ sbuf.ref_counter = omega arith in
    let n : (sbuf.ref_counter == 0) ≡ false = ground arith in rw (e, n) refl

pub put_at_self :
    (buffers : ℕ → Option SampleBuffer) (b : ℕ) (v : Option SampleBuffer) → put_at buffers b v b ≡ v
unfolding put_at
put_at_self buffers b v = let e : (b == b) ≡ true = ground arith in rw (e) refl

put_at_back :
    (buffers : ℕ → Option SampleBuffer) (b : ℕ) (v : Option SampleBuffer) (sbuf : SampleBuffer)
    (a : ℕ)
    → buffers b ≡ some sbuf
    → put_at (put_at buffers b v) b (some sbuf) a ≡ buffers a
unfolding put_at
put_at_back buffers b v sbuf a live = elim (Bool-cases (a == b)) [
  | inl e ↦ let q : a ≡ b = ground arith in rw (e) (sym (ap buffers q ∙ live))
  | inr e ↦ rw (e) refl
]

-- Starting, and stopping if that returned 0.
abbrev pub session :
    (ℕ → ℕ → Bool) → (ℕ → ℕ) → (ℕ → Option ℕ) → ℤ → ℕ → ℤ → Prof → Syswide → Option (ℤ × Syswide)
session alloc coretype ktimes module_ret hz pid prof s =
    syswide_monitoring_start alloc coretype ktimes module_ret pid (some prof) s
    >>= (λ r. if eqb_ℤ r.0 (pos 0) then syswide_monitoring_stop hz pid r.1 else some r)

-- Stopping undoes starting, or nothing was started.
abbrev pub Restored : Syswide → ℤ × Syswide → Type 0
Restored s (ret, s') =
    ((b : ℕ) → s'.buffers b ≡ s.buffers b)
    × (((ret ≡ pos 0) × Idle s') ⊎ ((ret ≢ pos 0) × Halted s'))

-- From the idle state, with well-formed sets of experiments and a buffer of the process in memory
-- that someone refers to and whose count has room for one more, starting monitoring and, if that
-- returns 0, stopping it as the same process never faults and leaves every buffer as it was, its
-- reference count included: either the monitoring is idle again, or starting returned an error and
-- left it half way.
pub syswide_monitoring_stop-syswide_monitoring_start :
    (alloc : ℕ → ℕ → Bool) (coretype : ℕ → ℕ) (ktimes : ℕ → Option ℕ) (module_ret : ℤ) (hz : ℕ)
    (pid : ℤ) (prof : Prof) (s : Syswide) (b : ℕ) (sbuf : SampleBuffer)
    → Idle s
    → All Freeable s.cpus
    → ((k : ℕ) → Usable (prof.pmcs_multiplex_cfg k))
    → prof.prof_buffer ≡ some b
    → s.buffers b ≡ some sbuf
    → 0 < sbuf.ref_counter
    → sbuf.ref_counter + 1 < 2 ^ 32
    → Ensures (session alloc coretype ktimes module_ret hz pid prof s) (Restored s)
syswide_monitoring_stop-syswide_monitoring_start alloc coretype ktimes module_ret hz pid prof s b
      sbuf i f u pb live p l =
    Ensures-bind (syswide_monitoring_start alloc coretype ktimes module_ret pid (some prof) s)
      (Started pid b sbuf s) _ (Restored s)
      (syswide_monitoring_start_lem alloc coretype ktimes module_ret pid prof s b sbuf i f u pb
        live)
      (λ r h. ended r h)
  where
    back :
        (s1 s2 : Syswide)
        → s1.buffers ≡ put_at s.buffers b (some (get_pmc_samples_buffer sbuf))
        → s2.buffers ≡ put_at s1.buffers b (put_pmc_samples_buffer (get_pmc_samples_buffer sbuf))
        → (a : ℕ) → s2.buffers a ≡ s.buffers a
    back s1 s2 e1 e2 a =
        ap (λ m. m a) e2
        ∙ ap (λ v. put_at s1.buffers b v a) (put_pmc_samples_buffer-get_pmc_samples_buffer sbuf p l)
        ∙ ap (λ m. put_at m b (some sbuf) a) e1
        ∙ put_at_back s.buffers b (some (get_pmc_samples_buffer sbuf)) sbuf a live

    ended :
        (r : ℤ × Syswide)
        → Started pid b sbuf s r
        → Ensures
            (if eqb_ℤ r.0 (pos 0) then syswide_monitoring_stop hz pid r.1 else some r)
            (Restored s)
    ended (ret, s1) (inl h) =
        let e : eqb_ℤ ret (pos 0) ≡ true = true_of_eq ret (pos 0) h.0 in
        rw (e) (
          Ensures-mono (syswide_monitoring_stop hz pid s1)
            (Stopped b (get_pmc_samples_buffer sbuf) s1) (Restored s)
            (syswide_monitoring_stop_lem hz pid s1 b (get_pmc_samples_buffer sbuf) h.1
              (ap (λ m. m b) h.2 ∙ put_at_self s.buffers b (some (get_pmc_samples_buffer sbuf))))
            (λ q k. (back s1 q.1 h.2 k.2, inl (k.0, k.1))))
    ended (ret, s1) (inr h) =
        rw (false_of_ne ret (pos 0) h.0) ((λ a. ap (λ m. m a) h.2), inr (h.0, h.1))

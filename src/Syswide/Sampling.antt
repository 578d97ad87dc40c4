-- ===== src/Syswide/Sampling.antt =====
-- The samples that the CPUs take when the timer of src/modules/pmcs/syswide.c fires.
use pmctrack.Prelude.{
  ℕ, suc, ◌≡◌, refl, ap, sym, subst, ◌⊎◌, inl, inr, Bool, true, false, List, [], ◌∷◌, some,
  if◌then◌else◌, Ensures, Ensures-bind, Ensures-mono, Bool-cases,
}
use pmctrack.Syswide.{Sample, CpuSyswide}
use pmctrack.Syswide.Timer.{
  Surroundings, syswide_monitoring_sample_cpu, sample_cpus, online_samples,
}
use pmctrack.Syswide.Taking.{Ready, Taken, sample_cpu_lem}

-- The CPUs from `cpu` on
abbrev pub AllReady : (ℕ → Surroundings) → ℕ → List CpuSyswide → Type 0
AllReady around cpu [] = Unit
AllReady around cpu (cur ∷ rest) = Ready (around cpu) cur × AllReady around (suc cpu) rest

-- The CPUs from `cpu` on before and after: each one that is online has taken a sample, and each other
-- one is as it was.
abbrev pub AllTaken :
    (ℕ → Bool) → (ℕ → Surroundings) → ℕ → List CpuSyswide → List CpuSyswide → Type 0
AllTaken online around cpu [] cpus' = cpus' ≡ []
AllTaken online around cpu (cur ∷ rest) [] = ⊥
AllTaken online around cpu (cur ∷ rest) (cur' ∷ rest') =
    (((online cpu ≡ true) × Taken cur.cur_config cpu (around cpu) cur cur')
      ⊎ ((online cpu ≡ false) × (cur' ≡ cur)))
    × AllTaken online around (suc cpu) rest rest'

pub sample_cpus_lem :
    (online : ℕ → Bool) (around : ℕ → Surroundings) (cpu : ℕ) (cpus : List CpuSyswide)
    → AllReady around cpu cpus
    → Ensures (sample_cpus online around cpu cpus) (AllTaken online around cpu cpus)
unfolding sample_cpus
sample_cpus_lem online around cpu [] r = refl
sample_cpus_lem online around cpu (cur ∷ rest) r =
    Ensures-bind
      (if online cpu then syswide_monitoring_sample_cpu cpu (around cpu) cur else some cur) Now _ _
      now
      (λ cur' u.
        Ensures-bind (sample_cpus online around (suc cpu) rest)
          (AllTaken online around (suc cpu) rest) _ _
          (sample_cpus_lem online around (suc cpu) rest r.1) (λ rest' w. (u, w)))
  where
    Now : CpuSyswide → Type 0
    Now cur' =
        ((online cpu ≡ true) × Taken cur.cur_config cpu (around cpu) cur cur')
        ⊎ ((online cpu ≡ false) × (cur' ≡ cur))

    now :
        Ensures
          (if online cpu then syswide_monitoring_sample_cpu cpu (around cpu) cur else some cur)
          Now
    now = elim (Bool-cases (online cpu)) [
      | inl t ↦
          subst
            (λ b.
              Ensures (if b then syswide_monitoring_sample_cpu cpu (around cpu) cur else some cur)
                Now)
            (sym t)
            (Ensures-mono (syswide_monitoring_sample_cpu cpu (around cpu) cur) _ Now
              (sample_cpu_lem cpu (around cpu) cur r.0) (λ cur' u. inl (t, u)))
      | inr f ↦
          subst
            (λ b.
              Ensures (if b then syswide_monitoring_sample_cpu cpu (around cpu) cur else some cur)
                Now)
            (sym f) (inr (f, refl))
    ]

-- The samples are those of the CPUs from `cpu` on that are online, in their order.
abbrev pub Dumped : (ℕ → Bool) → (Sample → List ℕ) → ℕ → List CpuSyswide → List (List ℕ) → Type 0
Dumped online encode cpu [] samples = samples ≡ []
Dumped online encode cpu (cur ∷ rest) samples =
    ((online cpu ≡ true)
      × ((later : List (List ℕ)) × (samples ≡ encode cur.last_sample ∷ later)
          × Dumped online encode (suc cpu) rest later))
    ⊎ ((online cpu ≡ false) × Dumped online encode (suc cpu) rest samples)

pub online-Dumped :
    (online : ℕ → Bool) (encode : Sample → List ℕ) (cpu : ℕ) (cpus : List CpuSyswide)
    → Dumped online encode cpu cpus (online_samples online encode cpu cpus)
unfolding online_samples
online-Dumped online encode cpu [] = refl
online-Dumped online encode cpu (cur ∷ rest) =
    let more = online-Dumped online encode (suc cpu) rest in
    elim (Bool-cases (online cpu)) [
      | inl t ↦ inl (
        t,
        (
          _,
          (ap
              (λ b.
                if b
                then encode cur.last_sample ∷ online_samples online encode (suc cpu) rest
                else online_samples online encode (suc cpu) rest)
              t),
          more,
        ),
      )
      | inr f ↦ inr (
        f,
        subst (Dumped online encode (suc cpu) rest)
            (sym (
              ap
                (λ b.
                  if b
                  then encode cur.last_sample ∷ online_samples online encode (suc cpu) rest
                  else online_samples online encode (suc cpu) rest)
                f))
            more,
      )
    ]

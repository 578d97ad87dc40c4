-- ===== src/Experiments/Clone.antt =====
-- Copying a set of experiments.
use pmctrack.Prelude.{
  ℕ, ◌<◌, ◌≤◌, ◌≡◌, refl, List, [], ◌∷◌, Bool, true, false, none, arith, length, map, replicate,
  ◌⊎◌, inl, inr, Ensures, Bool-cases, zero, suc,
}
use pmctrack.Prelude.Int.{ℤ, pos, enomem}
use pmctrack.Experiments.{
  Experiment, ExperimentSet, max_exp_coretype, copy_of, clear_entries, clone_entry, clone_entries,
  clone_result, clone_core_experiment_set_t,
}
use pmctrack.Experiments.Rotation.{slots}

-- A set of the experiments `es`.
pub record Holds (es : List Experiment) (s : ExperimentSet) : Type 0 where
  pub stored : s.exps ≡ slots es
  pub room : length es ≤ max_exp_coretype
  pub counted : s.nr_exps ≡ length es

-- All were allocated, or not.
abbrev pub Cloned : List Experiment → (ℕ → Bool) → ℤ × ExperimentSet → Type 0
Cloned es alloc (ret, dst) =
    ((ret ≡ pos 0)
      × ((i : ℕ) → i < length es → alloc i ≡ true)
      × Holds (map copy_of es) dst
      × (dst.cur_exp ≡ 0))
    ⊎ ((ret ≡ enomem)
        × ((i : ℕ) × (i < length es) × (alloc i ≡ false))
        × (dst.exps ≡ replicate max_exp_coretype none))

-- Copying a set never faults. If all allocations succeed, 0 is returned and the copy holds the same
-- experiments in the same order with their overflow counts at 0, the first of them current;
-- otherwise `-ENOMEM` is returned, and no entry of the copy is left.
pub clone_core_experiment_set_t_lem :
    (es : List Experiment) (src : ExperimentSet) (alloc : ℕ → Bool)
    → Holds es src
    → Ensures (clone_core_experiment_set_t alloc src) (Cloned es alloc)
unfolding clone_core_experiment_set_t clone_entries clone_entry clone_result clear_entries
clone_core_experiment_set_t_lem [] src alloc h =
    rw (h.stored, h.counted)
      (inl (
        refl,
        λ i l. absurd (omega arith),
        record { stored = refl; room = omega arith; counted = refl },
        refl,
      ))
clone_core_experiment_set_t_lem (a ∷ []) src alloc h = elim (Bool-cases (alloc 0)) [
  | inl t ↦
      rw (h.stored, h.counted, t)
        (inl (refl, all t, record { stored = refl; room = omega arith; counted = refl }, refl))
  | inr f ↦ rw (h.stored, h.counted, f) (inr (refl, (0, omega arith, f), refl))
]
  where
    all : alloc 0 ≡ true → (i : ℕ) → i < 1 → alloc i ≡ true
    all t zero l = t
    all t (suc i) l = absurd (omega arith)
clone_core_experiment_set_t_lem (a ∷ b ∷ []) src alloc h = elim (Bool-cases (alloc 0)) [
  | inr f ↦ rw (h.stored, h.counted, f) (inr (refl, (0, omega arith, f), refl))
  | inl t ↦ elim (Bool-cases (alloc 1)) [
    | inr f ↦ rw (h.stored, h.counted, t, f) (inr (refl, (1, omega arith, f), refl))
    | inl u ↦
        rw (h.stored, h.counted, t, u)
          (inl (refl, all t u, record { stored = refl; room = omega arith; counted = refl }, refl))
  ]
]
  where
    all : alloc 0 ≡ true → alloc 1 ≡ true → (i : ℕ) → i < 2 → alloc i ≡ true
    all t u zero l = t
    all t u (suc zero) l = u
    all t u (suc (suc i)) l = absurd (omega arith)
clone_core_experiment_set_t_lem (a ∷ b ∷ c ∷ es) src alloc h = absurd (omega (arith, h.room))

-- ===== src/PhaseTable/Inv.antt =====
-- The well-formed phase tables, and what they hold: the phases in use, newest first.
use mathlib.Core.List.{Mem, Nodup, mem-cons_of_mem, mem-cons, Nodup-cons}
use mathlib.Core.Logic.Or
use native.Mathlib.Bridge.{le_prop}
use pmctrack.Prelude.{
  ℕ, ◌≤◌, ◌<◌, ◌≡◌, refl, ap₂, true, false, List, [], ◌∷◌, map, arith, length, get_or, set,
  get_or-set_ne,
}
use pmctrack.Prelude.Runs.{run, length-run, run-Nodup, mem-run, run-Mem, length-Subset}
use pmctrack.PhaseTable.{PhaseTable, bit}

module _ {A : Type 0} where
  -- An entry is in the list exactly when its bit is clear, and only once.
  pub record Inv (t : PhaseTable A) : Type 0 where
    pub narrow : t.max_phases < 31
    pub room : length t.pool ≡ t.max_phases
    pub counted : t.nr_phases ≡ length t.phases
    pub once : Nodup t.phases
    pub inside : (i : ℕ) → Mem i t.phases → i < t.max_phases
    pub used : (i : ℕ) → Mem i t.phases → bit t.bitmap i ≡ false
    pub listed : (i : ℕ) → i < t.max_phases → bit t.bitmap i ≡ false → Mem i t.phases

  abbrev pub at : A → List A → List ℕ → List A
  at blank pool is = map (λ i. get_or pool i blank) is

  -- `blank` is what an entry outside the pool would be.
  abbrev pub entries : A → PhaseTable A → List A
  entries blank t = at blank t.pool t.phases

  -- Writing an entry that is not in the list changes nothing of what the list holds.
  pub at-set_ne :
      (blank : A) (pool : List A) (is : List ℕ) (i : ℕ) (v : A)
      → ¬ Mem i is
      → at blank (set pool i v) is ≡ at blank pool is
  at-set_ne blank pool [] i v n = refl
  at-set_ne blank pool (j ∷ is) i v n =
      ap₂ ◌∷◌ (get_or-set_ne pool i j v blank (λ e. n (mem-cons.1 (Or.inl e))))
        (at-set_ne blank pool is i v (λ m. n (mem-cons_of_mem j m)))

  -- The list is full exactly when no bit is set.
  pub full_of_no_free :
      (t : PhaseTable A)
      → Inv t
      → ((i : ℕ) → i < t.max_phases → bit t.bitmap i ≡ false)
      → t.max_phases ≤ t.nr_phases
  full_of_no_free t h clear =
      let n = t.max_phases in
      let le =
        length-Subset (run-Nodup 0 n)
          (λ i m. let l : i < n = omega (arith, mem-run i 0 n m) in h.listed i l (clear i l)) in
      omega (arith, length-run 0 n, h.counted)

  pub room_of_free :
      (t : PhaseTable A) (i : ℕ)
      → Inv t
      → i < t.max_phases
      → bit t.bitmap i ≡ true
      → t.nr_phases < t.max_phases
  room_of_free t i h l b =
      let n = t.max_phases in
      let ne : ¬ Mem i t.phases = λ m. ground (arith, h.used i m) in
      let le = length-Subset {xs = i ∷ t.phases} {ys = run 0 n} (Nodup-cons.1 (ne, h.once)) (λ j m.
        let l' : j < n = Or.elim le_prop (mem-cons.0 m) (λ e. omega arith) (λ r. h.inside j r) in
        run-Mem j 0 n (omega arith) (omega arith)) in
      omega (arith, length-run 0 n, h.counted)

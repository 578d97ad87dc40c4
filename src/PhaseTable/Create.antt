-- ===== src/PhaseTable/Create.antt =====
-- A new phase table.
use mathlib.Core.List.{not-mem-nil, Nodup-nil}
use pmctrack.Prelude.{
  ℕ, ◌-◌, ◌^◌, ◌<◌, ◌≡◌, refl, List, [], Option, none, some, true, false, arith, length, ◌==◌,
  le→ltb, lt→ltb, Ensures,
}
use pmctrack.PhaseTable.{PhaseTable, initial_bitmap, allocate, create_phase_table}
use pmctrack.PhaseTable.Bitmap.{bit-ones}
use pmctrack.PhaseTable.Inv.{Inv}

module _ {A : Type 0} where
  -- A well-formed table without phases.
  abbrev pub Fresh : ℕ → Option (PhaseTable A) → Type 0
  Fresh max_phases none = ⊥
  Fresh max_phases (some t) = Inv t × (t.max_phases ≡ max_phases) × (t.phases ≡ [])

  empty-Inv :
      (pool : List A) (max_phases : ℕ)
      → max_phases < 31
      → length pool ≡ max_phases
      → Inv (record {
        phases = [];
        nr_phases = 0;
        max_phases = max_phases;
        pool = pool;
        bitmap = 2 ^ max_phases - 1;
      })
  empty-Inv pool max_phases l e = record {
    narrow = l;
    room = e;
    counted = refl;
    once = Nodup-nil;
    inside = λ i m. absurd (not-mem-nil m);
    used = λ i m. absurd (not-mem-nil m);
    listed = λ i k b. ground (arith, bit-ones max_phases i k);
  }

  -- With its allocations made, a table of less than 31 entries is well formed and empty.
  pub create_phase_table-Inv :
      (pool : List A) (max_phases : ℕ)
      → max_phases < 31
      → length pool ≡ max_phases
      → Ensures (create_phase_table (some pool) true true max_phases) (Fresh max_phases)
  unfolding create_phase_table allocate initial_bitmap
  create_phase_table-Inv pool max_phases l e =
      let b : (max_phases == 64) ≡ false = ground arith in
      rw (le→ltb 64 max_phases (omega arith), b, lt→ltb max_phases 31 l)
        (empty-Inv pool max_phases l e, refl, refl)

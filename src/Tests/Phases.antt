-- ===== src/Tests/Phases.antt =====
-- A phase table of two entries over numbers, of which the first is in use.
use pmctrack.Prelude.{
  ℕ, ◌≡◌, refl, [], ◌∷◌, some, true, arith, Ensures, Ensures-at, if◌then◌else◌, leb, ◌>>=◌,
}
use pmctrack.Prelude.Int.{ℤ, pos}
use pmctrack.PhaseTable.{
  PhaseTable, bit, initial_bitmap, get_free_phase_loc, free_from, test_bit, put_phase, reset_bit,
  clear_bit, last?, to_front, is_first, list_del, create_phase_table, insert_phase_in_table,
  promote_table_entry, get_phase_from_table,
}
use pmctrack.PhaseTable.Inv.{Inv}
use pmctrack.PhaseTable.Create.{Fresh, create_phase_table-Inv}
use pmctrack.PhaseTable.Insert.{Inserted, insert_phase_in_table_lem}
use pmctrack.PhaseTable.Promote.{Promoted, promote_table_entry_lem}
use pmctrack.PhaseTable.Lookup.{
  IsDistance, Nearest, Matched, get_phase_from_table_lem,
  get_phase_from_table-insert_phase_in_table,
}

abbrev fresh : PhaseTable ℕ
fresh = record { phases = []; nr_phases = 0; max_phases = 2; pool = 0 ∷ 0 ∷ []; bitmap = 3 }

abbrev one_phase : PhaseTable ℕ
one_phase = record { phases = 0 ∷ []; nr_phases = 1; max_phases = 2; pool = 7 ∷ 0 ∷ []; bitmap = 2 }

abbrev two_phases : PhaseTable ℕ
two_phases = record {
  phases = 1 ∷ 0 ∷ [];
  nr_phases = 2;
  max_phases = 2;
  pool = 7 ∷ 9 ∷ [];
  bitmap = 0;
}

-- 1 apart, or the same
abbrev compare : ℕ → ℕ → ℤ
compare a b = if leb a b then (if leb b a then pos 0 else pos 1) else pos 1

create_run : create_phase_table (some (0 ∷ 0 ∷ [])) true true 2 ≡ some (some fresh)
unfolding create_phase_table initial_bitmap
create_run = refl

insert_run : insert_phase_in_table fresh 7 ≡ some (0, one_phase)
unfolding insert_phase_in_table get_free_phase_loc free_from test_bit bit put_phase reset_bit
    clear_bit last?
insert_run = refl

insert_again : insert_phase_in_table one_phase 9 ≡ some (1, two_phases)
unfolding insert_phase_in_table get_free_phase_loc free_from test_bit bit put_phase reset_bit
    clear_bit last?
insert_again = refl

-- The table is full: the entry of the last phase is written again, and stays the last.
evict_run : insert_phase_in_table two_phases 5 ≡ some (0, record two_phases { pool = 5 ∷ 9 ∷ [] })
unfolding insert_phase_in_table get_free_phase_loc free_from test_bit bit put_phase reset_bit
    clear_bit last?
evict_run = refl

promote_run :
    promote_table_entry two_phases (pos 0) ≡ some (pos 0, record two_phases { phases = 0 ∷ 1 ∷ [] })
unfolding promote_table_entry test_bit bit to_front is_first list_del
promote_run = refl

fresh-Inv : Inv fresh
fresh-Inv =
    (Ensures-at (create_phase_table (some (0 ∷ 0 ∷ [])) true true 2) (Fresh 2)
      (create_phase_table-Inv (0 ∷ 0 ∷ []) 2 (omega arith) refl) create_run).0

one_phase-Inv : Inv one_phase
one_phase-Inv =
    (Ensures-at (insert_phase_in_table fresh 7) (Inserted 0 fresh 7)
      (insert_phase_in_table_lem 0 fresh 7 fresh-Inv (omega arith)) insert_run).0

two_phases-Inv : Inv two_phases
two_phases-Inv =
    (Ensures-at (insert_phase_in_table one_phase 9) (Inserted 0 one_phase 9)
      (insert_phase_in_table_lem 0 one_phase 9 one_phase-Inv (omega arith)) insert_again).0

compare-IsDistance : (a b : ℕ) → IsDistance (compare a b)
compare-IsDistance a b = ground arith

insert_phase_in_table_lem_example :
    Ensures (insert_phase_in_table two_phases 5) (Inserted 0 two_phases 5)
insert_phase_in_table_lem_example =
    insert_phase_in_table_lem 0 two_phases 5 two_phases-Inv (omega arith)

promote_table_entry_lem_example :
    Ensures (promote_table_entry two_phases (pos 0)) (λ r. Inv r.1 × Promoted two_phases (pos 0) r)
promote_table_entry_lem_example = promote_table_entry_lem two_phases (pos 0) two_phases-Inv

get_phase_from_table_lem_example :
    Ensures (get_phase_from_table compare two_phases 7) (Nearest 0 compare two_phases 7)
get_phase_from_table_lem_example =
    get_phase_from_table_lem 0 compare two_phases 7 two_phases-Inv (λ x. compare-IsDistance x 7)

get_phase_from_table-insert_phase_in_table_example :
    Ensures
      (insert_phase_in_table two_phases 5
        >>= (λ r. get_phase_from_table compare r.1 5 >>= (λ found. some (r.1, found))))
      (Matched 0 compare 5)
get_phase_from_table-insert_phase_in_table_example =
    get_phase_from_table-insert_phase_in_table 0 compare two_phases 5 two_phases-Inv (omega arith)
      (λ x. compare-IsDistance x 5) refl

-- ===== src/Tests/Partitions.antt =====
-- Partitions on a cache of eleven ways with a pool of four.
use pmctrack.Prelude.{
  ℕ, ◌/◌, ◌≡◌, ◌+◌, ◌-◌, ◌<◌, refl, List, [], ◌∷◌, none, Bool, true, false, arith, length, Ensures,
}
use pmctrack.CachePart.{Partition, PartSet}
use pmctrack.CachePart.Layout.{IsPlaced, Tiled}
use pmctrack.CachePart.Resize.{do_insert_partition, deallocate_partition, insert_at, remove_part}
use pmctrack.CachePart.Tiling.{ids}
use pmctrack.CachePart.Insert.{do_insert_partition_lem}
use pmctrack.CachePart.Remove.{deallocate_partition_lem}
use pmctrack.CachePart.Manage.{minus_one, suitable_place_for_insertion, allocate_new_partition_gen}
use pmctrack.CachePart.Choose.{
  Allocated, suitable_place_for_insertion_lem, allocate_new_partition_gen_lem,
}

abbrev part : ℕ → ℕ → ℕ → Bool → ℕ → Partition
part i low nr extra mask = record {
  low_way = low;
  high_way = low + nr - 1;
  nr_ways = nr;
  clos_id = i + 1;
  part_id = i;
  part_index = i;
  part_mask = mask;
  part_old_mask = mask;
  nr_apps = 1;
  has_extra_way = extra;
  bias = 0;
}

-- Six and five ways
abbrev two : List Partition
two = part 0 0 6 true 63 ∷ part 1 6 5 false 1984 ∷ []

abbrev spare : Partition
spare = part 2 0 11 false 2047

abbrev two_set : PartSet
two_set = record {
  assigned = two;
  free = spare ∷ [];
  default_partition = none;
  nr_bouncing_ways = 1;
  cat_cbm_length = 11;
  writes = [];
}

two-Tiled : Tiled (11 / length two_set.assigned) 0 0 two_set.assigned 11
two-Tiled = (placed, (placed2, refl))
  where
    placed : IsPlaced 5 0 0 (part 0 0 6 true 63)
    placed = record {
      starts = refl;
      ends = refl;
      ways = refl;
      numbered = refl;
      masked = refl;
      unbiased = refl;
    }

    placed2 : IsPlaced 5 1 6 (part 1 6 5 false 1984)
    placed2 = record {
      starts = refl;
      ends = refl;
      ways = refl;
      numbered = refl;
      masked = refl;
      unbiased = refl;
    }

do_insert_partition_lem_example :
    Tiled 3 0 0 (do_insert_partition two_set spare 11 1 true).assigned 11
    × (ids (do_insert_partition two_set spare 11 1 true).assigned
        ≡ ids (insert_at 1 spare two_set.assigned))
do_insert_partition_lem_example =
    do_insert_partition_lem two_set spare 11 1 true (omega arith) (omega arith) (omega arith)

suitable_place_for_insertion_lem_example :
    Ensures (suitable_place_for_insertion two_set 11 2 7) (λ gap. (0 < gap) × (gap < 2))
suitable_place_for_insertion_lem_example =
    suitable_place_for_insertion_lem two_set 11 7 (omega arith) (omega arith) two-Tiled

allocate_new_partition_gen_lem_example :
    Ensures (allocate_new_partition_gen two_set 11 minus_one true 7) (Allocated two_set spare [] 11)
allocate_new_partition_gen_lem_example =
    allocate_new_partition_gen_lem two_set spare [] 11 minus_one true 7 refl (omega arith)
      (omega arith) two-Tiled

deallocate_partition_lem_example :
    Tiled 11 0 0 (deallocate_partition two_set (part 0 0 6 true 63) 11 true).assigned 11
    × (ids (deallocate_partition two_set (part 0 0 6 true 63) 11 true).assigned
        ≡ ids (remove_part 0 two_set.assigned))
deallocate_partition_lem_example =
    deallocate_partition_lem two_set (part 0 0 6 true 63) 11 true refl (omega arith) (omega arith)
      (omega arith)

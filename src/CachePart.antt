-- ===== src/CachePart.antt =====
-- Cache partitions: the data of src/modules/pmcs/include/pmc/cache_part.h, and the operations of
-- cache_part_set.c that set up the pool and one partition. A partition is linked in one of the two
-- lists of its set, so a list holds the partitions themselves, and a pointer to one is its
-- `part_index`. An `int` is its 32-bit pattern.
pub mod Resize
pub mod Layout
pub mod Upwards
pub mod Downwards
pub mod Neighbours
pub mod Tiling
pub mod Insert
pub mod Remove
pub mod Manage
pub mod Choose
pub mod Apps
use pmctrack.Prelude.{
  ℕ, zero, suc, ◌+◌, ◌-◌, ◌*◌, ◌%◌, ◌^◌, List, [], ◌∷◌, Option, none, Bool, true, false,
  if◌then◌else◌, add32, sub32,
}
use pmctrack.Prelude.Int.{ℤ, pos, enomem}

-- `cat_cache_part_t`
pub record Partition : Type 0 where
  pub low_way : ℕ
  pub high_way : ℕ
  pub nr_ways : ℕ
  pub clos_id : ℕ
  pub part_id : ℕ
  pub part_index : ℕ
  pub part_mask : ℕ
  pub part_old_mask : ℕ
  pub nr_apps : ℕ
  pub has_extra_way : Bool
  pub bias : ℕ

-- `cache_part_set_t`, with the capacity bitmasks written to the hardware, latest first, as pairs of
-- a class of service and a mask. Of `cat_support` it has the length of the bitmasks.
pub record PartSet : Type 0 where
  pub assigned : List Partition
  pub free : List Partition
  pub default_partition : Option ℕ
  pub nr_bouncing_ways : ℕ
  pub cat_cbm_length : ℕ
  pub writes : List (ℕ × ℕ)

-- `nr_ways` ones from `low_way` on, as an `unsigned int`. The shifts of the source are on `int`, so
-- that they have a meaning up to `low_way` + `nr_ways` ≡ 31, more than the ways of any processor.
abbrev pub determine_part_mask : ℕ → ℕ → ℕ
determine_part_mask nr_ways low_way = (2 ^ nr_ways - 1) * 2 ^ low_way % 2 ^ 32

-- The partitions of the pool from index `i` on, `n` of them.
unfoldable pub init_pool : ℕ → ℕ → ℕ → List Partition
init_pool cbm_length i zero = []
init_pool cbm_length i (suc n) = part ∷ init_pool cbm_length (i + 1) n
  where
    part : Partition
    part = record {
      low_way = 0;
      high_way = sub32 cbm_length 1;
      nr_ways = cbm_length;
      clos_id = i + 1;
      part_id = 2 ^ 32 - 1;
      part_index = i;
      part_mask = determine_part_mask cbm_length 0;
      part_old_mask = determine_part_mask cbm_length 0;
      nr_apps = 0;
      has_extra_way = false;
      bias = 0;
    }

-- `allocated` says whether `kmalloc` gives the memory of the pool; if not, -ENOMEM.
unfoldable pub init_cache_part_set : Bool → ℕ → ℕ → PartSet → ℤ × PartSet
unfolding init_pool
init_cache_part_set allocated cbm_length nr_cos part_set =
    if allocated
    then (
      pos 0,
      record part_set {
        assigned = [];
        free = init_pool cbm_length 0 (nr_cos - 1);
        default_partition = none;
        nr_bouncing_ways = 0;
        cat_cbm_length = cbm_length;
      },
    )
    else (enomem, part_set)

-- A write to the hardware, where the caller asks for it.
abbrev pub update_hw : Bool → Partition → List (ℕ × ℕ) → List (ℕ × ℕ)
update_hw b p writes = if b then (p.clos_id, p.part_mask) ∷ writes else writes

-- The partition as it is made, and the writes after it.
unfoldable pub reconfigure_partition_gen :
    Partition → ℕ → ℕ → Bool → List (ℕ × ℕ) → Partition × List (ℕ × ℕ)
reconfigure_partition_gen p ways_assigned low_way hw writes = (made, update_hw hw made writes)
  where
    made : Partition
    made = record p {
      low_way = low_way;
      high_way = sub32 (add32 low_way ways_assigned) 1;
      nr_ways = ways_assigned;
      part_mask = determine_part_mask ways_assigned low_way;
      part_old_mask = determine_part_mask ways_assigned low_way;
    }

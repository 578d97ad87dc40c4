-- ===== src/CachePart/Manage.antt =====
-- Choosing, creating and removing partitions, and assigning applications to them (cache_part_set.c).
-- `none` is a fault: a null pointer that is followed, or a remainder by zero. A random number is an
-- argument of the function that draws it.
use pmctrack.Prelude.{
  ℕ, suc, ◌+◌, ◌-◌, ◌*◌, ◌/◌, ◌%◌, ◌^◌, List, [], ◌∷◌, ◌++◌, Option, none, some, Bool, true, false,
  ◌&&◌, ◌||◌, ltb, ◌==◌, if◌then◌else◌, ◌>>=◌, length, add32, sub32, map,
}
use pmctrack.Memory.{rem}
use pmctrack.CachePart.{Partition, PartSet}
use pmctrack.CachePart.Resize.{remove_part, do_insert_partition, deallocate_partition}

-- -1 as an `int`
abbrev pub minus_one : ℕ
minus_one = 2 ^ 32 - 1

-- `a > b` on `int`
abbrev pub gtb_int : ℕ → ℕ → Bool
gtb_int a b = ltb ((b + 2 ^ 31) % 2 ^ 32) ((a + 2 ^ 31) % 2 ^ 32)

-- The gap with the largest bias, from gap `i` on; `hint` and `max_val` are the best so far.
unfoldable pub widest_gap : ℕ → ℕ → ℕ → ℕ → List Partition → ℕ
widest_gap fair i hint max_val [] = hint
widest_gap fair i hint max_val (p ∷ []) = hint
widest_gap fair i hint max_val (p ∷ q ∷ ps) =
    let bias = sub32 (add32 p.nr_ways q.nr_ways) (2 * fair) in
    let wider = gtb_int bias max_val in
    widest_gap fair (suc i) (if wider then i else hint) (if wider then bias else max_val) (q ∷ ps)

unfoldable pub suitable_place_for_insertion : PartSet → ℕ → ℕ → ℕ → Option ℕ
suitable_place_for_insertion set nr_ways old random = do
  remaining ← rem nr_ways old
  if remaining == 0
      then (do hint ← rem random (old - 1); some (hint + 1))
      else some (widest_gap (nr_ways / old) 1 minus_one minus_one set.assigned)

-- The partition taken from the pool, and the set after it.
unfoldable pub take_free : PartSet → List Partition → Option (Partition × PartSet)
take_free set [] = none
take_free set (p ∷ ps) = some (p, record set { free = ps })

unfoldable pub allocate_new_partition_gen : PartSet → ℕ → ℕ → Bool → ℕ → Option PartSet
unfolding take_free
allocate_new_partition_gen set nr_ways hint hw random = do
  (p, set') ← take_free set set.free
  gap ← choose
  some (do_insert_partition set' p nr_ways gap hw)
  where
    old : ℕ
    old = length set.assigned

    choose : Option ℕ
    choose =
        if ltb old 2
        then some 0
        else if (hint == minus_one) || ltb old hint
        then suitable_place_for_insertion set nr_ways old random
        else some hint

unfoldable pub allocate_empty_partition : PartSet → Option PartSet
unfolding take_free
allocate_empty_partition set = do
  (p, set') ← take_free set set.free
  some (record set' {
    assigned =
        set.assigned
        ++ (record p {
          low_way = 0;
          high_way = 1;
          nr_ways = 1;
          part_mask = 1;
          part_old_mask = 1;
          part_id = length set.assigned;
        }
            ∷ []);
  })

unfoldable pub deallocate_partition_no_resize : PartSet → Partition → PartSet
deallocate_partition_no_resize set p = record set {
  assigned = remove_part p.part_index set.assigned;
  free = p ∷ set.free;
}

-- The partition that `cur` points to, as it is in the list now.
unfoldable pub find_part : ℕ → List Partition → Option Partition
find_part index [] = none
find_part index (p ∷ ps) = if p.part_index == index then some p else find_part index ps

-- One empty partition leaves the list.
unfoldable pub remove_one : Bool → PartSet → Partition → PartSet
remove_one auto_resize set p =
    if auto_resize
    then (let set' = deallocate_partition set p set.cat_cbm_length true in
        record set' { free = p ∷ set'.free })
    else deallocate_partition_no_resize set p

-- The loop over the partitions that the list had at the start, by their indices.
unfoldable pub remove_empty_from : Bool → List ℕ → PartSet → PartSet
remove_empty_from auto_resize [] set = set
remove_empty_from auto_resize (i ∷ is) set =
    remove_empty_from auto_resize is (elim (find_part i set.assigned) [
      | none ↦ set
      | some p ↦ if p.nr_apps == 0 then remove_one auto_resize set p else set
    ])

unfoldable pub remove_empty_partitions : PartSet → Bool → PartSet
unfolding remove_empty_from
remove_empty_partitions set auto_resize =
    remove_empty_from auto_resize (map (λ p. p.part_index) set.assigned) set

-- The loop of `get_least_loaded_partition`: the partition with index `hint` if it comes, otherwise
-- the first one with the smallest load below `load_min`.
unfoldable pub least_loaded_from : ℕ → ℕ → Option Partition → List Partition → Option Partition
least_loaded_from hint load_min candidate [] = candidate
least_loaded_from hint load_min candidate (p ∷ ps) =
    let lighter = gtb_int load_min p.nr_apps in
    let rest =
      least_loaded_from hint (if lighter then p.nr_apps else load_min)
        (if lighter then some p else candidate) ps in
    if p.part_index == hint then some p else rest

unfoldable pub get_least_loaded_partition : PartSet → ℕ → Option ℕ
unfolding least_loaded_from
get_least_loaded_partition set hint =
    if length set.assigned == 0
    then none
    else if (hint == minus_one) && has_default
    then set.default_partition
    else elim (least_loaded_from hint 9999 none set.assigned) [
      | none ↦ none
      | some p ↦ some p.part_index
    ]
  where
    has_default : Bool
    has_default = elim set.default_partition [ none ↦ false | some _ ↦ true ]

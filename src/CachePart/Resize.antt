-- ===== src/CachePart/Resize.antt =====
-- Inserting and removing a partition of cache_part_set.c: every partition of the set is laid out
-- anew over the ways.
use pmctrack.Prelude.{
  ℕ, suc, ◌+◌, ◌-◌, ◌/◌, ◌%◌, List, [], ◌∷◌, ◌++◌, Bool, true, false, not, ◌&&◌, ◌||◌, ltb, leb,
  ◌==◌, if◌then◌else◌, length, take, drop, add32, sub32,
}
use mathlib.Core.List.{reverse}
use pmctrack.CachePart.{Partition, PartSet, determine_part_mask, update_hw}

-- How the spare ways are shared: which positions are neighbours of the change, which get none of
-- the others, and the ways each partition gets in any case.
pub record Shares : Type 0 where
  pub near : ℕ → Bool
  pub skip : ℕ → Bool
  pub fair : ℕ

-- Whether position `i` gets an extra way, and what is left for neighbours and for others.
unfoldable pub extra_way : Shares → ℕ → ℕ → ℕ → Bool × ℕ × ℕ
extra_way s i nr_extra nr_remaining =
    if ltb 0 nr_extra && s.near i
    then (true, nr_extra - 1, nr_remaining)
    else if ltb 0 nr_remaining && not (s.skip i)
    then (true, nr_extra, nr_remaining - 1)
    else (false, nr_extra, nr_remaining)

unfoldable pub place : Partition → ℕ → ℕ → ℕ → Bool → Partition
place p low high i extra = record p {
  low_way = low;
  high_way = high;
  nr_ways = nr;
  part_id = i;
  has_extra_way = extra;
  bias = 0;
  part_mask = determine_part_mask nr low;
  part_old_mask = determine_part_mask nr low;
}
  where
    nr : ℕ
    nr = add32 (sub32 high low) 1

-- The ascending loop: from the first partition on, `next` being the lowest way that is not taken.
unfoldable pub resize_up : Shares → ℕ → ℕ → ℕ → ℕ → List Partition → List Partition
resize_up s i next nr_extra nr_remaining [] = []
resize_up s i next nr_extra nr_remaining (p ∷ ps) =
    let (extra, nr_extra', nr_remaining') = extra_way s i nr_extra nr_remaining in
    let top = sub32 (add32 next s.fair) 1 in
    let high = if extra then add32 top 1 else top in
    place p next high i extra ∷ resize_up s (suc i) (add32 high 1) nr_extra' nr_remaining' ps

-- The descending loop, over the partitions from the last one on; `next` is the highest way that is
-- not taken, and `done` the partitions that are laid out. The -1 in which `i` ends is never read.
unfoldable pub resize_down :
    Shares → ℕ → ℕ → ℕ → ℕ → List Partition → List Partition → List Partition
resize_down s i next nr_extra nr_remaining [] done = done
resize_down s i next nr_extra nr_remaining (p ∷ ps) done =
    let (extra, nr_extra', nr_remaining') = extra_way s i nr_extra nr_remaining in
    let bottom = add32 (sub32 next s.fair) 1 in
    let low = if extra then sub32 bottom 1 else bottom in
    resize_down s (i - 1) (sub32 low 1) nr_extra' nr_remaining' ps (place p low next i extra ∷ done)

-- The masks of the partitions, written in the order of the loop.
unfoldable pub write_all : Bool → List Partition → List (ℕ × ℕ) → List (ℕ × ℕ)
write_all b [] writes = writes
write_all b (p ∷ ps) writes = write_all b ps (update_hw b p writes)

-- Either loop over `ps`, and the writes that it makes.
unfoldable pub resize : Bool → Shares → ℕ → ℕ → ℕ → List Partition → List Partition
resize true s nr_ways nr_extra nr_remaining ps = resize_up s 0 0 nr_extra nr_remaining ps
resize false s nr_ways nr_extra nr_remaining ps =
    resize_down s (length ps - 1) (sub32 nr_ways 1) nr_extra nr_remaining (reverse ps) []

unfoldable pub resize_writes : Bool → Bool → List Partition → List (ℕ × ℕ) → List (ℕ × ℕ)
resize_writes true b ps writes = write_all b ps writes
resize_writes false b ps writes = write_all b (reverse ps) writes

-- How many of the spare ways go to the neighbours of position `at` among `n` gaps or positions.
unfoldable pub give_away : Bool → ℕ → ℕ
give_away at_end nr_remaining = if at_end then 0 else if ltb nr_remaining 2 then nr_remaining else 2

-- the neighbours of an inserted partition, which gets no spare way itself
abbrev pub insert_shares : ℕ → ℕ → Shares
insert_shares gap fair = record {
  near = λ i. (i == gap + 1) || (i + 1 == gap);
  skip = λ i. i == gap;
  fair = fair;
}

-- the neighbours of a removed partition
abbrev pub remove_shares : ℕ → ℕ → Shares
remove_shares idx fair = record {
  near = λ i. (i == idx) || (i + 1 == idx);
  skip = λ i. false;
  fair = fair;
}

unfoldable pub insert_at : ℕ → Partition → List Partition → List Partition
insert_at gap p ps = take gap ps ++ (p ∷ drop gap ps)

-- A partition alone gets all ways.
unfoldable pub first_partition : Partition → ℕ → Partition
first_partition p fair = record p {
  low_way = 0;
  high_way = sub32 fair 1;
  nr_ways = fair;
  part_id = 0;
  has_extra_way = false;
  bias = 0;
  part_mask = determine_part_mask fair 0;
  part_old_mask = determine_part_mask fair 0;
}

-- `nr_old_partitions` is the length of the list.
unfoldable pub do_insert_partition : PartSet → Partition → ℕ → ℕ → Bool → PartSet
do_insert_partition set p nr_ways gap hw =
    if old == 0
    then record set {
      assigned = first ∷ [];
      nr_bouncing_ways = nr_remaining;
      writes = update_hw hw first set.writes;
    }
    else record set {
      assigned = placed;
      nr_bouncing_ways = nr_remaining;
      writes = resize_writes ascending hw placed set.writes;
    }
  where
    old : ℕ
    old = length set.assigned

    fair : ℕ
    fair = nr_ways / (old + 1)

    nr_remaining : ℕ
    nr_remaining = nr_ways % (old + 1)

    first : Partition
    first = first_partition p fair

    ascending : Bool
    ascending = leb gap (if ltb 1 old then 1 else 0)

    give : ℕ
    give = give_away ((gap == 0) || (gap == old)) nr_remaining

    placed : List Partition
    placed =
        resize ascending (insert_shares gap fair) nr_ways give (nr_remaining - give)
          (insert_at gap p set.assigned)

-- `remove_sized_list`: the partition of that index leaves the list.
unfoldable pub remove_part : ℕ → List Partition → List Partition
remove_part index [] = []
remove_part index (p ∷ ps) = if p.part_index == index then ps else p ∷ remove_part index ps

-- The partition given is one of the list.
unfoldable pub deallocate_partition : PartSet → Partition → ℕ → Bool → PartSet
deallocate_partition set p nr_ways hw =
    if target == 0 then record set { assigned = left; nr_bouncing_ways = 0 } else record set {
      assigned = placed;
      nr_bouncing_ways = nr_remaining;
      writes = resize_writes ascending hw placed set.writes;
    }
  where
    target : ℕ
    target = length set.assigned - 1

    left : List Partition
    left = remove_part p.part_index set.assigned

    fair : ℕ
    fair = nr_ways / target

    nr_remaining : ℕ
    nr_remaining = nr_ways % target

    ascending : Bool
    ascending = leb (add32 (p.nr_ways / 2) p.low_way) (nr_ways / 2)

    give : ℕ
    give = give_away ((p.part_id == 0) || (p.part_id == target)) nr_remaining

    placed : List Partition
    placed = resize ascending (remove_shares p.part_id fair) nr_ways give (nr_remaining - give) left

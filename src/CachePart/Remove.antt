-- ===== src/CachePart/Remove.antt =====
-- Removing a partition.
use native.Mathlib.Nat.{mod-lt}
use pmctrack.Prelude.{
  get_elem?, some, add32, ℕ, zero, suc, ◌+◌, ◌-◌, ◌*◌, ◌/◌, ◌%◌, ◌^◌, ◌≤◌, ◌<◌, ◌≡◌, ap, sym, subst,
  ◌∙◌, List, [], ◌∷◌, Bool, ◌||◌, arith, length, ◌≢◌, ◌==◌, leb,
}
use pmctrack.CachePart.{Partition, PartSet}
use pmctrack.CachePart.Resize.{
  Shares, resize, give_away, remove_shares, remove_part, deallocate_partition,
}
use pmctrack.CachePart.Layout.{Tiled}
use pmctrack.CachePart.Upwards.{near_up, served_up}
use pmctrack.CachePart.Downwards.{near_down, served_down}
use pmctrack.CachePart.Tiling.{ids, resize-Tiled, ids-resize, share_lem, give_lem}
use pmctrack.CachePart.Neighbours.{
  remove-Apart, remove-served_up, remove-served_down, remove-near_up, remove-near_down,
}

length-remove_part :
    (k : ℕ) (p : Partition) (ps : List Partition)
    → get_elem? ps k ≡ some p
    → length (remove_part p.part_index ps) + 1 ≡ length ps
unfolding remove_part
length-remove_part k p [] e = cc
length-remove_part zero p (q ∷ ps) e = ground arith
length-remove_part (suc k) p (q ∷ ps) e = ground (arith, length-remove_part k p ps e)

-- `p` is the partition at the position that its `part_id` says.
abbrev pub At : PartSet → Partition → Type 0
At set p = get_elem? set.assigned p.part_id ≡ some p

At-lt : (ps : List Partition) (k : ℕ) {p : Partition} → get_elem? ps k ≡ some p → k < length ps
At-lt [] k e = cc
At-lt (q ∷ ps) zero e = omega arith
At-lt (q ∷ ps) (suc k) e = omega (arith, At-lt ps k e)

module _ (set : PartSet) (p : Partition) (nr_ways : ℕ) (hw : Bool) where
  abbrev target : ℕ
  target = length set.assigned - 1

  abbrev left : List Partition
  left = remove_part p.part_index set.assigned

  abbrev spare : ℕ
  spare = nr_ways % target

  abbrev give : ℕ
  give = give_away ((p.part_id == 0) || (p.part_id == target)) spare

  abbrev shares : Shares
  shares = remove_shares p.part_id (nr_ways / target)

  deallocate-last : target ≡ 0 → (deallocate_partition set p nr_ways hw).assigned ≡ left
  unfolding deallocate_partition
  deallocate-last e = ground arith

  deallocate-more :
      target ≢ 0
      → (deallocate_partition set p nr_ways hw).assigned
        ≡ resize
            (leb (add32 (p.nr_ways / 2) p.low_way) (nr_ways / 2))
            shares
            nr_ways
            give
            (spare - give)
            left
  unfolding deallocate_partition
  deallocate-more ne = ground arith

  -- Where spare ways go to neighbours, there are two, and all partitions may get one.
  left-shares :
      0 < target
      → p.part_id ≤ target
      → (n : ℕ) → n ≡ target
      → (give ≤ near_up shares 0 n)
        × (give ≤ near_down shares n)
        × (give + (spare - give) ≤ served_up shares 0 n)
        × (give + (spare - give) ≤ served_down shares n)
  left-shares h g n e = ground (
    arith,
    give_lem ((p.part_id == 0) || (p.part_id == target)) spare,
    mod-lt nr_ways {m = target} h,
    remove-near_up p.part_id (nr_ways / target) 0 n,
    remove-near_down p.part_id (nr_ways / target) n,
    remove-served_up p.part_id (nr_ways / target) 0 n,
    remove-served_down p.part_id (nr_ways / target) n,
  )

  left-Tiled :
      (b : Bool)
      → 0 < target
      → target ≤ nr_ways
      → nr_ways < 2 ^ 31
      → At set p
      → Tiled (nr_ways / target) 0 0 (resize b shares nr_ways give (spare - give) left) nr_ways
  left-Tiled b pos h small at =
      let n : ℕ = length left in
      let e : n ≡ target = omega (arith, length-remove_part p.part_id p set.assigned at) in
      let share = share_lem nr_ways target pos h in
      let s = left-shares pos (omega (arith, At-lt set.assigned p.part_id at)) n e in
      resize-Tiled b shares (remove-Apart p.part_id (nr_ways / target)) nr_ways give (spare - give)
        left share.0 small
        (total n (nr_ways / target) e (give_lem ((p.part_id == 0) || (p.part_id == target)) spare).0
          share.2)
        s.0 s.2 s.1 s.3
    where
      total :
          (n fair : ℕ)
          → n ≡ target
          → give ≤ spare
          → nr_ways ≡ fair * target + spare
          → nr_ways ≡ fair * n + give + (spare - give)
      total n fair e l t = rw e (omega arith)

-- Removing one of at least two partitions, which stands where its id says, lays out the others over
-- the ways of the cache: in their old order they cover the ways from 0 to the last one, one behind
-- the other, each with the same number of ways or one more. There must be a way for each.
pub deallocate_partition_lem :
    (set : PartSet) (p : Partition) (nr_ways : ℕ) (hw : Bool)
    → At set p
    → 1 < length set.assigned
    → length set.assigned ≤ nr_ways + 1
    → nr_ways < 2 ^ 31
    → Tiled
        (nr_ways / (length set.assigned - 1))
        0
        0
        (deallocate_partition set p nr_ways hw).assigned
        nr_ways
      × (ids (deallocate_partition set p nr_ways hw).assigned
          ≡ ids (remove_part p.part_index set.assigned))
deallocate_partition_lem set p nr_ways hw at two h small =
    let up = leb (add32 (p.nr_ways / 2) p.low_way) (nr_ways / 2) in
    let e = deallocate-more set p nr_ways hw (omega arith) in
    (
      subst (λ ps. Tiled (nr_ways / (length set.assigned - 1)) 0 0 ps nr_ways) (sym e)
          (left-Tiled set p nr_ways hw up (omega arith) (omega arith) small at),
      ap ids e ∙ ids-resize up _ nr_ways _ _ (remove_part p.part_index set.assigned),
    )

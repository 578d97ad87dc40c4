-- ===== src/CachePart/Insert.antt =====
-- Inserting a partition.
use native.Mathlib.Nat.{mod-lt, div-one}
use pmctrack.Prelude.{
  ℕ, zero, suc, ◌+◌, ◌-◌, ◌*◌, ◌/◌, ◌%◌, ◌^◌, ◌≤◌, ◌<◌, ◌≡◌, refl, ap, sym, subst, ◌∙◌, List, [],
  ◌∷◌, Bool, ◌||◌, arith, ℕ_discrete, length, if◌then◌else◌, ◌≢◌, ◌==◌, ltb, leb,
}
use pmctrack.CachePart.{Partition, PartSet}
use pmctrack.CachePart.Resize.{
  resize, first_partition, give_away, insert_shares, insert_at, do_insert_partition,
}
use pmctrack.CachePart.Layout.{Tiled}
use pmctrack.CachePart.Upwards.{near_up, served_up}
use pmctrack.CachePart.Downwards.{near_down, served_down}
use pmctrack.CachePart.Tiling.{ids, resize-Tiled, ids-resize, share_lem, give_lem}
use pmctrack.CachePart.Neighbours.{
  insert-Apart, insert-served_up, insert-served_down, insert-near_up, insert-near_down,
}

length-insert_at :
    (gap : ℕ) (p : Partition) (ps : List Partition) → length (insert_at gap p ps) ≡ suc (length ps)
unfolding insert_at
length-insert_at zero p ps = refl
length-insert_at (suc gap) p [] = refl
length-insert_at (suc gap) p (q ∷ ps) = omega (arith, length-insert_at gap p ps)

insert_at-empty :
    (gap : ℕ) (p : Partition) (ps : List Partition) → length ps ≡ 0 → insert_at gap p ps ≡ p ∷ []
unfolding insert_at
insert_at-empty zero p [] e = refl
insert_at-empty (suc gap) p [] e = refl
insert_at-empty gap p (q ∷ ps) e = absurd (omega arith)

insert-first :
    (set : PartSet) (p : Partition) (nr_ways gap : ℕ) (hw : Bool)
    → length set.assigned ≡ 0
    → (do_insert_partition set p nr_ways gap hw).assigned ≡ first_partition p nr_ways ∷ []
unfolding do_insert_partition
insert-first set p nr_ways gap hw e = rw e (ap (λ f. first_partition p f ∷ []) (div-one nr_ways))

module _ (set : PartSet) (p : Partition) (nr_ways gap : ℕ) (hw : Bool) where
  abbrev old : ℕ
  old = length set.assigned

  abbrev spare : ℕ
  spare = nr_ways % (old + 1)

  abbrev give : ℕ
  give = give_away ((gap == 0) || (gap == old)) spare

  insert-more :
      old ≢ 0
      → (do_insert_partition set p nr_ways gap hw).assigned
        ≡ resize
            (leb gap (if ltb 1 old then 1 else 0))
            (insert_shares gap (nr_ways / (old + 1)))
            nr_ways
            give
            (spare - give)
            (insert_at gap p set.assigned)
  unfolding do_insert_partition
  insert-more ne = ground arith

  -- Where spare ways go to neighbours, there are two.
  give-near :
      gap ≤ old
      → (n fair : ℕ) → n ≡ suc old
      → (give ≤ near_up (insert_shares gap fair) 0 n)
        × (give ≤ near_down (insert_shares gap fair) n)
  give-near g n fair e = ground (
    arith,
    give_lem ((gap == 0) || (gap == old)) spare,
    insert-near_up gap fair 0 n,
    insert-near_down gap fair n,
  )

  -- All partitions but the new one may get a spare way.
  spare-served :
      gap ≤ old
      → (n fair : ℕ) → n ≡ suc old
      → (give + (spare - give) ≤ served_up (insert_shares gap fair) 0 n)
        × (give + (spare - give) ≤ served_down (insert_shares gap fair) n)
  spare-served g n fair e = ground (
    arith,
    give_lem ((gap == 0) || (gap == old)) spare,
    mod-lt nr_ways {m = old + 1} (omega arith),
    insert-served_up gap fair 0 n,
    insert-served_down gap fair n,
  )

  more-Tiled :
      (b : Bool)
      → old < nr_ways
      → nr_ways < 2 ^ 31
      → gap ≤ old
      → Tiled
          (nr_ways / (old + 1))
          0
          0
          (resize b
            (insert_shares gap (nr_ways / (old + 1)))
            nr_ways
            give
            (spare - give)
            (insert_at gap p set.assigned))
          nr_ways
  more-Tiled b h small g =
      let n : ℕ = length (insert_at gap p set.assigned) in
      let fair : ℕ = nr_ways / (old + 1) in
      let e : n ≡ suc old = length-insert_at gap p set.assigned in
      let share = share_lem nr_ways (old + 1) (omega arith) (omega arith) in
      let near = give-near g n fair e in
      let served = spare-served g n fair e in
      resize-Tiled b (insert_shares gap fair) (insert-Apart gap fair) nr_ways give (spare - give)
        (insert_at gap p set.assigned) share.0 small
        (total n fair e (give_lem ((gap == 0) || (gap == old)) spare).0 share.2) near.0 served.0
        near.1 served.1
    where
      total :
          (n fair : ℕ)
          → n ≡ suc old
          → give ≤ spare
          → nr_ways ≡ fair * (old + 1) + spare
          → nr_ways ≡ fair * n + give + (spare - give)
      total n fair e l t = rw e (omega arith)

first-Tiled :
    (p : Partition) (nr_ways : ℕ)
    → 0 < nr_ways
    → nr_ways < 2 ^ 31
    → Tiled nr_ways 0 0 (first_partition p nr_ways ∷ []) nr_ways
unfolding first_partition
first-Tiled p nr_ways h small = ground arith

ids-first : (p : Partition) (nr_ways : ℕ) → ids (first_partition p nr_ways ∷ []) ≡ ids (p ∷ [])
unfolding first_partition
ids-first p nr_ways = refl

-- Inserting a partition into a set lays out the new partition and all old ones over the ways of the
-- cache: in the order of the list they cover the ways from 0 to the last one, one behind the other,
-- each with the same number of ways or one more, for every gap and in both directions. There must be
-- a way for each partition.
pub do_insert_partition_lem :
    (set : PartSet) (p : Partition) (nr_ways gap : ℕ) (hw : Bool)
    → length set.assigned < nr_ways
    → nr_ways < 2 ^ 31
    → gap ≤ length set.assigned
    → let n = length set.assigned + 1 in
      Tiled (nr_ways / n) 0 0 (do_insert_partition set p nr_ways gap hw).assigned nr_ways
      × (ids (do_insert_partition set p nr_ways gap hw).assigned
          ≡ ids (insert_at gap p set.assigned))
do_insert_partition_lem set p nr_ways gap hw h small g = elim (ℕ_discrete (length set.assigned) 0) [
  | yes z ↦
      let all : nr_ways / (length set.assigned + 1) ≡ nr_ways = rw z (div-one nr_ways) in
      let e = insert-first set p nr_ways gap hw z in
      (
        subst (λ ps. Tiled (nr_ways / (length set.assigned + 1)) 0 0 ps nr_ways) (sym e)
            (subst (λ f. Tiled f 0 0 (first_partition p nr_ways ∷ []) nr_ways) (sym all)
              (first-Tiled p nr_ways (omega arith) small)),
        ap ids e ∙ ids-first p nr_ways ∙ ap ids (sym (insert_at-empty gap p set.assigned z)),
      )
  | no nz ↦
      let e = insert-more set p nr_ways gap hw nz in
      (
        subst (λ ps. Tiled (nr_ways / (length set.assigned + 1)) 0 0 ps nr_ways) (sym e)
            (more-Tiled set p nr_ways gap hw
              (leb gap (if ltb 1 (length set.assigned) then 1 else 0)) h small g),
        ap ids e
            ∙ ids-resize (leb gap (if ltb 1 (length set.assigned) then 1 else 0)) _ nr_ways _ _
                (insert_at gap p set.assigned),
      )
]

-- ===== src/CachePart/Choose.antt =====
-- The gap that is chosen for a new partition (cache_part_set.c), and what becomes of the set.
use native.Mathlib.Nat.{mod-lt, div-le_of_le-mul}
use pmctrack.Prelude.{
  ℕ, suc, ◌+◌, ◌-◌, ◌*◌, ◌/◌, ◌%◌, ◌^◌, ◌≤◌, ◌<◌, ◌≡◌, refl, ◌∙◌, ◌⊎◌, inl, inr, List, [], ◌∷◌,
  Option, none, some, Bool, true, false, ◌||◌, arith, ℕ_discrete, length, if◌then◌else◌, ◌==◌, ltb,
  lt→ltb, add32, sub32, Ensures, Bool-cases, ◌>>=◌,
}
use pmctrack.Memory.{rem_pos}
use pmctrack.CachePart.{Partition, PartSet}
use pmctrack.CachePart.Resize.{do_insert_partition, insert_at}
use pmctrack.CachePart.Layout.{IsPlaced, Tiled}
use pmctrack.CachePart.Tiling.{ids}
use pmctrack.CachePart.Insert.{do_insert_partition_lem}
use pmctrack.CachePart.Manage.{
  minus_one, gtb_int, widest_gap, suitable_place_for_insertion, allocate_new_partition_gen,
  take_free,
}

widest_gap-step :
    (fair i hint m : ℕ) (p q : Partition) (ps : List Partition)
    → let bias = sub32 (add32 p.nr_ways q.nr_ways) (2 * fair) in
      let wider = gtb_int bias m in
      widest_gap fair i hint m (p ∷ q ∷ ps)
      ≡ widest_gap fair (suc i) (if wider then i else hint) (if wider then bias else m) (q ∷ ps)
unfolding widest_gap
widest_gap-step fair i hint m p q ps = refl

widest_gap-one : (fair i hint m : ℕ) (p : Partition) → widest_gap fair i hint m (p ∷ []) ≡ hint
unfolding widest_gap
widest_gap-one fair i hint m p = refl

if_either : (b : Bool) (x y : ℕ) → ((if b then x else y) ≡ x) ⊎ ((if b then x else y) ≡ y)
if_either true x y = inl refl
if_either false x y = inr refl

widest_gap-range :
    (fair i hint m : ℕ) (p : Partition) (ps : List Partition)
    → 0 < hint
    → hint < i
    → (0 < widest_gap fair i hint m (p ∷ ps)) × (widest_gap fair i hint m (p ∷ ps) < i + length ps)
widest_gap-range fair i hint m p [] h k = omega (arith, widest_gap-one fair i hint m p)
widest_gap-range fair i hint m p (q ∷ ps) h k =
    let bias = sub32 (add32 p.nr_ways q.nr_ways) (2 * fair) in
    let wider = gtb_int bias m in
    let next = if wider then i else hint in
    let either = if_either wider i hint in
    let rest =
      widest_gap-range fair (suc i) next (if wider then bias else m) q ps (omega (arith, either))
        (omega (arith, either)) in
    rw (widest_gap-step fair i hint m p q ps) (omega (arith, rest))

above-minus_one : (v : ℕ) → v ≤ 2 → gtb_int v minus_one ≡ true
above-minus_one v h = lt→ltb (2 ^ 31 - 1) ((v + 2 ^ 31) % 2 ^ 32) (omega arith)

bias-small :
    (fair a b : ℕ)
    → fair < 2 ^ 30 - 1
    → a ≤ 1
    → b ≤ 1
    → sub32 (add32 (fair + a) (fair + b)) (2 * fair) ≡ a + b
bias-small fair a b s h k = omega arith

share :
    (fair i low : ℕ) (p : Partition)
    → IsPlaced fair i low p
    → (a : ℕ) × (a ≤ 1) × (p.nr_ways ≡ fair + a)
share fair i low p at = elim (Bool-cases p.has_extra_way) [
  | inl e ↦ (1, omega arith, at.ways ∙ rw e refl)
  | inr e ↦ (0, omega arith, at.ways ∙ rw e refl)
]

-- Between partitions of a fair share each, the first gap is wider than none.
first-wider :
    (fair i j low high : ℕ) (p q : Partition)
    → fair < 2 ^ 30 - 1
    → IsPlaced fair i low p
    → IsPlaced fair j high q
    → gtb_int (sub32 (add32 p.nr_ways q.nr_ways) (2 * fair)) minus_one ≡ true
first-wider fair i j low high p q s pp qq =
    let (a, h, e) = share fair i low p pp in
    let (b, k, f) = share fair j high q qq in
    rw (e, f) (rw (bias-small fair a b s h k) (above-minus_one (a + b) (omega arith)))

widest_gap-Tiled :
    (fair end : ℕ) (ps : List Partition)
    → fair < 2 ^ 30 - 1
    → Tiled fair 0 0 ps end
    → 1 < length ps
    → let g = widest_gap fair 1 minus_one minus_one ps in (0 < g) × (g < length ps)
widest_gap-Tiled fair end [] s t h = absurd (omega arith)
widest_gap-Tiled fair end (p ∷ []) s t h = absurd (omega arith)
widest_gap-Tiled fair end (p ∷ q ∷ ps) s (pp, (qq, t)) h =
    rw (widest_gap-step fair 1 minus_one minus_one p q ps) (
      rw (first-wider fair 0 1 0 (0 + p.nr_ways) p q s pp qq) (
        let r =
          widest_gap-range fair 2 1 (sub32 (add32 p.nr_ways q.nr_ways) (2 * fair)) q ps
            (omega arith) (omega arith) in
        omega (arith, r)))

fair_small : (nr_ways n : ℕ) → 1 < n → nr_ways < 2 ^ 30 → nr_ways / n < 2 ^ 30 - 1
fair_small nr_ways n h s =
    (let q = div-le_of_le-mul n {m = nr_ways} {n = 2 ^ 29} (omega arith) in omega (arith, q))

-- For at least two partitions that are laid out over less than 2 ^ 30 ways, the gap that is chosen
-- is one between two of them, and no remainder by zero is taken.
pub suitable_place_for_insertion_lem :
    (set : PartSet) (nr_ways random : ℕ)
    → 1 < length set.assigned
    → nr_ways < 2 ^ 30
    → Tiled (nr_ways / length set.assigned) 0 0 set.assigned nr_ways
    → Ensures
        (suitable_place_for_insertion set nr_ways (length set.assigned) random)
        (λ gap. (0 < gap) × (gap < length set.assigned))
unfolding suitable_place_for_insertion
suitable_place_for_insertion_lem set nr_ways random two small t =
    let n = length set.assigned in
    rw (rem_pos nr_ways n (omega arith)) (elim (ℕ_discrete (nr_ways % n) 0) [
      | yes z ↦ rw z (
          rw (rem_pos random (n - 1) (omega arith))
            (let r = mod-lt random {m = n - 1} (omega arith) in (omega arith, omega (arith, r))))
      | no nz ↦
          let e : (nr_ways % n == 0) ≡ false = ground arith in
          rw e (
            widest_gap-Tiled (nr_ways / n) nr_ways set.assigned (fair_small nr_ways n two small) t
              two)
    ])

do_insert_partition-free :
    (set : PartSet) (p : Partition) (nr_ways gap : ℕ) (hw : Bool)
    → (do_insert_partition set p nr_ways gap hw).free ≡ set.free
unfolding do_insert_partition
do_insert_partition-free set p nr_ways gap hw = elim (Bool-cases (length set.assigned == 0)) [
  | inl e ↦ rw e refl
  | inr e ↦ rw e refl
]

within :
    (m : Option ℕ) (n : ℕ) → Ensures m (λ gap. (0 < gap) × (gap < n)) → Ensures m (λ gap. gap ≤ n)
within none n h = h
within (some gap) n h = omega (arith, h)

choose_lem :
    (b c : Bool) (m : Option ℕ) (n hint : ℕ)
    → (b ≡ false → Ensures m (λ gap. gap ≤ n))
    → (c ≡ false → hint ≤ n)
    → Ensures (if b then some 0 else if c then m else some hint) (λ gap. gap ≤ n)
choose_lem true c m n hint f g = omega arith
choose_lem false true m n hint f g = f refl
choose_lem false false m n hint f g = g refl

-- What the set is after an insertion.
abbrev pub Allocated : PartSet → Partition → List Partition → ℕ → PartSet → Type 0
Allocated set p rest nr_ways set' =
    Tiled (nr_ways / (length set.assigned + 1)) 0 0 set'.assigned nr_ways
    × ((gap : ℕ) × (gap ≤ length set.assigned)
        × (ids set'.assigned ≡ ids (insert_at gap p set.assigned)))
    × (set'.free ≡ rest)

then-insert :
    (set : PartSet) (p : Partition) (rest : List Partition) (nr_ways : ℕ) (hw : Bool)
    → length set.assigned < nr_ways
    → nr_ways < 2 ^ 30
    → (m : Option ℕ) → Ensures m (λ gap. gap ≤ length set.assigned)
    → Ensures
        (m >>= λ gap. some (do_insert_partition (record set { free = rest }) p nr_ways gap hw))
        (Allocated set p rest nr_ways)
then-insert set p rest nr_ways hw room small none h = absurd h
then-insert set p rest nr_ways hw room small (some gap) h =
    let set' : PartSet = record set { free = rest } in
    let (tiled, order) = do_insert_partition_lem set' p nr_ways gap hw room (omega arith) h in
    (tiled, (gap, h, order), do_insert_partition-free set' p nr_ways gap hw)

-- From a set that is laid out, with a way for one more partition and less than 2 ^ 30 ways,
-- allocating takes the head of a pool that is not empty and inserts it at some gap, whatever the
-- hint and the random number: the partitions of the set afterwards are laid out over all ways in
-- their old order, with the new one among them.
pub allocate_new_partition_gen_lem :
    (set : PartSet) (p : Partition) (rest : List Partition) (nr_ways hint : ℕ) (hw : Bool)
    (random : ℕ)
    → set.free ≡ p ∷ rest
    → length set.assigned < nr_ways
    → nr_ways < 2 ^ 30
    → Tiled (nr_ways / length set.assigned) 0 0 set.assigned nr_ways
    → Ensures (allocate_new_partition_gen set nr_ways hint hw random) (Allocated set p rest nr_ways)
unfolding allocate_new_partition_gen take_free
allocate_new_partition_gen_lem set p rest nr_ways hint hw random e room small t = rw e (
    then-insert set p rest nr_ways hw room small _ (
      choose_lem (ltb n 2) ((hint == minus_one) || ltb n hint) _ n hint (λ two. suitable two)
        (λ f. ground (arith, f))))
  where
    n : ℕ
    n = length set.assigned

    suitable :
        ltb n 2 ≡ false
        → Ensures
            (suitable_place_for_insertion (record set { free = p ∷ rest }) nr_ways n random)
            (λ gap. gap ≤ n)
    suitable two = within _ n (
        suitable_place_for_insertion_lem (record set { free = p ∷ rest }) nr_ways random
          (ground arith) small t)

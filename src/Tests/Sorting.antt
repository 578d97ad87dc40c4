-- ===== src/Tests/Sorting.antt =====
-- Lists sorted by the number that an element is.
use mathlib.Core.List.{Mem, mem-cons, not-mem-nil}
use mathlib.Core.Logic.Or
use pmctrack.Prelude.{ℕ, ◌+◌, ◌/◌, ◌++◌, All, ◌≡◌, refl, List, [], ◌∷◌, Bool, true, false, arith}
use pmctrack.Prelude.Int.{ℤ, pos, ◌-ℤ◌}
use pmctrack.SizedList.{
  SizedList, sorted_insert_sized_list, sorted_insert_front_sized_list, sort_sized_list,
}
use pmctrack.SizedList.Sorted.{IsOrder, InOrder, Sorted}
use pmctrack.SizedList.Insert.{
  Inserted, Before, sorted_insert_sized_list_lem, sorted_insert_front_sized_list_lem,
}

abbrev by_number : ℕ → ℕ → ℤ
by_number a b = pos a -ℤ pos b

by_number-IsOrder : IsOrder by_number
unfolding pmctrack.Prelude.Int.◌-ℤ◌
by_number-IsOrder = record { flip = λ a b. ground arith; trans = λ a b c h k. ground (arith, h, k) }

abbrev three : SizedList
three = record { items = 2 ∷ 5 ∷ 9 ∷ []; size = 3 }

three-Sorted : Sorted (InOrder true by_number) three.items
unfolding pmctrack.Prelude.Int.◌-ℤ◌
three-Sorted = ((refl, (refl, tt)), ((refl, tt), (tt, tt)))

sorts :
    (sort_sized_list (record { items = 5 ∷ 9 ∷ 2 ∷ 7 ∷ []; size = 4 }) false by_number).items
    ≡ 9 ∷ 7 ∷ 5 ∷ 2 ∷ []
unfolding sort_sized_list pmctrack.Prelude.Int.◌-ℤ◌
sorts = refl

sorted_insert_sized_list_lem_example :
    Inserted
      (InOrder true by_number)
      three.items
      6
      (sorted_insert_sized_list three 6 true by_number)
sorted_insert_sized_list_lem_example =
    sorted_insert_sized_list_lem three 6 true by_number by_number-IsOrder three-Sorted refl

-- Of the numbers 20 to 29 none comes before another.
abbrev by_tens : ℕ → ℕ → ℤ
by_tens a b = pos (a / 10) -ℤ pos (b / 10)

by_tens-IsOrder : IsOrder by_tens
unfolding pmctrack.Prelude.Int.◌-ℤ◌
by_tens-IsOrder = record { flip = λ a b. ground arith; trans = λ a b c h k. ground (arith, h, k) }

abbrev tens : SizedList
tens = record { items = 15 ∷ 23 ∷ 27 ∷ []; size = 3 }

tens-Sorted : Sorted (InOrder true by_tens) tens.items
unfolding pmctrack.Prelude.Int.◌-ℤ◌
tens-Sorted = ((refl, (refl, tt)), ((refl, tt), (tt, tt)))

tens-new : ¬ Mem 25 tens.items
tens-new m =
    Or.elim (λ u. absurd u) (mem-cons.0 m) (λ z. absurd (omega (arith, z)))
      (λ m1.
        Or.elim (λ u. absurd u) (mem-cons.0 m1) (λ z. absurd (omega (arith, z)))
          (λ m2.
            Or.elim (λ u. absurd u) (mem-cons.0 m2) (λ z. absurd (omega (arith, z))) not-mem-nil))

sorted_insert_front_sized_list_lem_example :
    let s = sorted_insert_front_sized_list tens 25 true by_tens in
    Inserted (InOrder true by_tens) tens.items 25 s
    × ((front back : List ℕ) × (tens.items ≡ front ++ back)
        × (s.items ≡ front ++ 25 ∷ back)
        × All (λ a. Before true (by_tens a 25)) front)
sorted_insert_front_sized_list_lem_example =
    sorted_insert_front_sized_list_lem tens 25 true by_tens by_tens-IsOrder tens-new tens-Sorted
      refl

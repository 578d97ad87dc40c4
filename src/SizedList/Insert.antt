-- ===== src/SizedList/Insert.antt =====
-- Inserting into a sorted list keeps it sorted.
use mathlib.Core.List.{Perm, Mem}
use pmctrack.Prelude.{
  ℕ, ◌<◌, ◌++◌, [], All, ◌≡◌, ap, sym, subst, ◌∙◌, List, ◌∷◌, Bool, true, false, length, arith,
}
use pmctrack.Prelude.Int.{ℤ, pos_part, neg_part}
use pmctrack.SizedList.{
  SizedList, search, insert_before_sized_list, sorted_insert_sized_list,
  sorted_insert_front_sized_list, not_behind, in_front,
}
use pmctrack.SizedList.Sorted.{
  Sorted, InOrder, IsOrder, InOrder-trans, not_behind-stopped, in_front-passed, in_front-stopped,
  place_lem, place_splits, Sorted-place, Perm-place, length-place, insert_before_sized_list-items,
  insert_before_sized_list-size,
}

-- What the comparison of an element that comes strictly before another one gives
abbrev pub Before : Bool → ℤ → Type 0
Before true c = pos_part c < neg_part c
Before false c = neg_part c < pos_part c

before : (ascending : Bool) (c : ℤ) → in_front ascending c ≡ true → Before ascending c
before true c h = ground arith
before false c h = ground arith

-- A list after an insertion: sorted, with one element more, and its size right.
pub record Inserted (R : ℕ → ℕ → Type 0) (before : List ℕ) (object : ℕ) (s : SizedList)
    : Type 0 where
  pub sorted : Sorted R s.items
  pub elements : Perm s.items (object ∷ before)
  pub counted : s.size ≡ length s.items

module _ (slist : SizedList) (object : ℕ) (ascending : Bool) (compare : ℕ → ℕ → ℤ) where
  walk-Inserted :
      (t : ℕ → Bool)
      → IsOrder compare
      → ((a : ℕ) → t a ≡ true → InOrder ascending compare a object)
      → ((a : ℕ) → t a ≡ false → InOrder ascending compare object a)
      → Sorted (InOrder ascending compare) slist.items
      → slist.size ≡ length slist.items
      → Inserted
          (InOrder ascending compare)
          slist.items
          object
          (insert_before_sized_list slist (search t slist.items) object)
  walk-Inserted t order passed stopped s n =
      let place = search t slist.items in
      let e = insert_before_sized_list-items slist place object ∙ place_lem t object slist.items in
      record {
        sorted = subst (Sorted (InOrder ascending compare)) (sym e) (
            Sorted-place (InOrder ascending compare) (InOrder-trans compare order ascending) t
              object passed stopped slist.items s);
        elements =
            subst (λ l. Perm l (object ∷ slist.items)) (sym e) (Perm-place t object slist.items);
        counted = omega (
          arith,
          insert_before_sized_list-size slist place object,
          n,
          ap length e,
          length-place t object slist.items,
        );
      }

  -- Inserting into a list that is sorted in either direction keeps it sorted, adds the new element
  -- and no other, and keeps its size right, if the comparison is transitive and changes its sign
  -- with its arguments.
  pub sorted_insert_sized_list_lem :
      IsOrder compare
      → Sorted (InOrder ascending compare) slist.items
      → slist.size ≡ length slist.items
      → Inserted
          (InOrder ascending compare)
          slist.items
          object
          (sorted_insert_sized_list slist object ascending compare)
  unfolding sorted_insert_sized_list
  sorted_insert_sized_list_lem order =
      walk-Inserted (λ cur. not_behind ascending (compare cur object)) order (λ a h. h)
        (λ a h. not_behind-stopped compare order ascending a object h)

  -- Inserting an element that is not in the list in front of its equals, into a list that is sorted
  -- in either direction, keeps it sorted, adds the new element and no other, and keeps its size
  -- right, if the comparison is transitive and changes its sign with its arguments. The new element
  -- stands behind elements that are strictly before it, and in front of all others.
  pub sorted_insert_front_sized_list_lem :
      IsOrder compare
      → ¬ Mem object slist.items
      → Sorted (InOrder ascending compare) slist.items
      → slist.size ≡ length slist.items
      → let s = sorted_insert_front_sized_list slist object ascending compare in
        Inserted (InOrder ascending compare) slist.items object s
        × ((front back : List ℕ) × (slist.items ≡ front ++ back)
            × (s.items ≡ front ++ object ∷ back)
            × All (λ a. Before ascending (compare a object)) front)
  unfolding sorted_insert_front_sized_list
  sorted_insert_front_sized_list_lem order new sorted counted =
      let t : ℕ → Bool = λ cur. in_front ascending (compare cur object) in
      let (front, back, e, f, all) = place_splits t object slist.items in
      (
        walk-Inserted t order (λ a h. in_front-passed compare order ascending a object h)
            (λ a h. in_front-stopped compare order ascending a object h) sorted counted,
        (
          front,
          back,
          e,
          insert_before_sized_list-items slist (search t slist.items) object
              ∙ place_lem t object slist.items
              ∙ f,
          all-map front all,
        ),
      )
    where
      all-map :
          (xs : List ℕ)
          → All (λ a. in_front ascending (compare a object) ≡ true) xs
          → All (λ a. Before ascending (compare a object)) xs
      all-map [] h = tt
      all-map (x ∷ xs) (h, k) = (before ascending (compare x object) h, all-map xs k)

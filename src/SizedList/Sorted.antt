-- ===== src/SizedList/Sorted.antt =====
-- Inserting into a sorted list.
use mathlib.Core.List.{Perm}
use mathlib.Core.List.Perm
use pmctrack.Prelude.{
  ℕ, suc, ◌+◌, ◌≡◌, ◌≢◌, refl, ap, sym, ◌∙◌, inl, inr, List, [], ◌∷◌, ◌++◌, Option, none, some,
  Bool, true, false, not, ◌==◌, if◌then◌else◌, All, length, arith, Bool-cases,
}
use pmctrack.Prelude.Int.{ℤ}
use pmctrack.SizedList.{
  SizedList, search, link_before, insert_before_sized_list, insert_sized_list_tail, not_behind,
  in_front, negative, positive,
}

-- The list with `o` before the first element that does not pass
unfoldable pub place_at : (ℕ → Bool) → ℕ → List ℕ → List ℕ
place_at t o [] = o ∷ []
place_at t o (x ∷ xs) = if t x then x ∷ place_at t o xs else o ∷ x ∷ xs

search-fails : (t : ℕ → Bool) (xs : List ℕ) (y : ℕ) → search t xs ≡ some y → t y ≡ false
unfolding search
search-fails t [] y e = cc
search-fails t (x ∷ xs) y e = elim (Bool-cases (t x)) [
  | inl b ↦ search-fails t xs y (sym (rw b refl) ∙ e)
  | inr b ↦ let q : some x ≡ some y = sym (rw b refl) ∙ e in cc (q, b)
]

-- What `insert_before_sized_list` does to the elements
pub inserted : Option ℕ → ℕ → List ℕ → List ℕ
inserted none o xs = xs ++ o ∷ []
inserted (some y) o xs = link_before y o xs

pub insert_before_sized_list-items :
    (s : SizedList) (place : Option ℕ) (o : ℕ)
    → (insert_before_sized_list s place o).items ≡ inserted place o s.items
unfolding insert_before_sized_list insert_sized_list_tail inserted
insert_before_sized_list-items s none o = refl
insert_before_sized_list-items s (some y) o = refl

pub insert_before_sized_list-size :
    (s : SizedList) (place : Option ℕ) (o : ℕ)
    → (insert_before_sized_list s place o).size ≡ s.size + 1
unfolding insert_before_sized_list insert_sized_list_tail
insert_before_sized_list-size s none o = refl
insert_before_sized_list-size s (some y) o = refl

inserted-cons :
    (place : Option ℕ) (o x : ℕ) (xs : List ℕ)
    → ((y : ℕ) → place ≡ some y → x ≢ y)
    → inserted place o (x ∷ xs) ≡ x ∷ inserted place o xs
unfolding inserted link_before
inserted-cons none o x xs h = refl
inserted-cons (some y) o x xs h = let ne : (x == y) ≡ false = ground (arith, h y refl) in rw ne refl

pub place_lem : (t : ℕ → Bool) (o : ℕ) (xs : List ℕ) → inserted (search t xs) o xs ≡ place_at t o xs
unfolding search place_at inserted link_before
place_lem t o [] = refl
place_lem t o (x ∷ xs) = elim (Bool-cases (t x)) [
  | inl b ↦ rw b (
      inserted-cons (search t xs) o x xs (λ y e q. let u = search-fails t xs y e in cc (u, q, b))
      ∙ ap (λ l. x ∷ l) (place_lem t o xs))
  | inr b ↦ rw b (let r : (x == x) ≡ true = ground arith in rw r refl)
]

-- The elements that pass, up to the first one that does not, and those from it on
pub place_splits :
    (t : ℕ → Bool) (o : ℕ) (xs : List ℕ)
    → (front back : List ℕ) × (xs ≡ front ++ back)
      × (place_at t o xs ≡ front ++ o ∷ back)
      × All (λ a. t a ≡ true) front
unfolding place_at
place_splits t o [] = ([], [], refl, refl, tt)
place_splits t o (x ∷ xs) = elim (Bool-cases (t x)) [
  | inl b ↦
      let (front, back, e, f, all) = place_splits t o xs in
      rw (b) (x ∷ front, back, ap (λ l. x ∷ l) e, ap (λ l. x ∷ l) f, (b, all))
  | inr b ↦ rw (b) ([], x ∷ xs, refl, refl, tt)
]

-- Each element is in relation to all later ones.
abbrev pub Sorted : (ℕ → ℕ → Type 0) → List ℕ → Type 0
Sorted R [] = Unit
Sorted R (x ∷ xs) = All (R x) xs × Sorted R xs

module _ (R : ℕ → ℕ → Type 0) (R-trans : (a b c : ℕ) → R a b → R b c → R a c) (t : ℕ → Bool) (o : ℕ)
    (passed : (a : ℕ) → t a ≡ true → R a o) (stopped : (a : ℕ) → t a ≡ false → R o a) where
  All-trans : (a : ℕ) (xs : List ℕ) → R o a → All (R a) xs → All (R o) xs
  All-trans a [] r h = tt
  All-trans a (x ∷ xs) r (h, k) = (R-trans o a x r h, All-trans a xs r k)

  All-place : (P : ℕ → Type 0) (xs : List ℕ) → P o → All P xs → All P (place_at t o xs)
  unfolding place_at
  All-place P [] h k = (h, tt)
  All-place P (x ∷ xs) h (p, k) = elim (Bool-cases (t x)) [
    | inl b ↦ rw b (p, All-place P xs h k)
    | inr b ↦ rw b (h, (p, k))
  ]

  pub Sorted-place : (xs : List ℕ) → Sorted R xs → Sorted R (place_at t o xs)
  unfolding place_at
  Sorted-place [] h = (tt, tt)
  Sorted-place (x ∷ xs) (a, h) = elim (Bool-cases (t x)) [
    | inl b ↦ rw b (All-place (R x) xs (passed x b) a, Sorted-place xs h)
    | inr b ↦ rw b ((stopped x b, All-trans x xs (stopped x b) a), (a, h))
  ]

pub Perm-place : (t : ℕ → Bool) (o : ℕ) (xs : List ℕ) → Perm (place_at t o xs) (o ∷ xs)
unfolding place_at
Perm-place t o [] = Perm.refl (o ∷ [])
Perm-place t o (x ∷ xs) = elim (Bool-cases (t x)) [
  | inl b ↦ rw b (Perm.trans (Perm.cons x (Perm-place t o xs)) (Perm.swap o x xs))
  | inr b ↦ rw b (Perm.refl (o ∷ x ∷ xs))
]

pub length-place : (t : ℕ → Bool) (o : ℕ) (xs : List ℕ) → length (place_at t o xs) ≡ suc (length xs)
unfolding place_at
length-place t o [] = refl
length-place t o (x ∷ xs) = elim (Bool-cases (t x)) [
  | inl b ↦ rw b (ap suc (length-place t o xs))
  | inr b ↦ rw b refl
]

-- What the comparison of a list promises: swapped arguments swap the sign, and it is transitive.
pub record IsOrder (compare : ℕ → ℕ → ℤ) : Type 0 where
  pub flip : (a b : ℕ) → positive (compare a b) ≡ negative (compare b a)
  pub trans :
      (a b c : ℕ)
      → positive (compare a b) ≡ false
      → positive (compare b c) ≡ false
      → positive (compare a c) ≡ false

-- In the order asked for
abbrev pub InOrder : Bool → (ℕ → ℕ → ℤ) → ℕ → ℕ → Type 0
InOrder ascending compare a b = not_behind ascending (compare a b) ≡ true

one_sign : (c : ℤ) → negative c ≡ true → positive c ≡ false
one_sign c h = ground arith

other_sign : (c : ℤ) → positive c ≡ true → negative c ≡ false
other_sign c h = ground arith

false_of_not : {b : Bool} → not b ≡ true → b ≡ false
false_of_not {b = true} h = cc
false_of_not {b = false} h = refl

true_of_not : {b : Bool} → not b ≡ false → b ≡ true
true_of_not {b = true} h = refl
true_of_not {b = false} h = cc

module _ (compare : ℕ → ℕ → ℤ) (order : IsOrder compare) where
  pub InOrder-trans :
      (ascending : Bool) (a b c : ℕ)
      → InOrder ascending compare a b
      → InOrder ascending compare b c
      → InOrder ascending compare a c
  InOrder-trans true a b c h k = ap not (order.trans a b c (false_of_not h) (false_of_not k))
  InOrder-trans false a b c h k = ap not (
      sym (order.flip c a)
      ∙ order.trans c b a (order.flip c b ∙ false_of_not k) (order.flip b a ∙ false_of_not h))

  pub not_behind-stopped :
      (ascending : Bool) (a b : ℕ)
      → not_behind ascending (compare a b) ≡ false
      → InOrder ascending compare b a
  not_behind-stopped true a b h =
      ap not (one_sign (compare b a) (sym (order.flip a b) ∙ true_of_not h))
  not_behind-stopped false a b h =
      ap not (other_sign (compare b a) (order.flip b a ∙ true_of_not h))

  pub in_front-passed :
      (ascending : Bool) (a b : ℕ)
      → in_front ascending (compare a b) ≡ true
      → InOrder ascending compare a b
  in_front-passed true a b h = ap not (one_sign (compare a b) h)
  in_front-passed false a b h = ap not (other_sign (compare a b) h)

  pub in_front-stopped :
      (ascending : Bool) (a b : ℕ)
      → in_front ascending (compare a b) ≡ false
      → InOrder ascending compare b a
  in_front-stopped true a b h = ap not (order.flip b a ∙ h)
  in_front-stopped false a b h = ap not (sym (order.flip a b) ∙ h)

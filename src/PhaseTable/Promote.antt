-- ===== src/PhaseTable/Promote.antt =====
-- Moving an entry of the phase table to the front.
use mathlib.Core.List.{Mem, Perm, mem-cons, not-mem-nil, Mem-prop, perm_middle}
use mathlib.Core.List.Perm
use mathlib.Core.Logic.Or
use pmctrack.Prelude.{
  ℕ, ◌<◌, ◌≡◌, ◌≢◌, refl, ap, ◌∙◌, true, List, [], ◌∷◌, ◌++◌, some, arith, leb, lt→ltb, Ensures,
  Ensures-bind, Bool-cases, ◌==◌, ◌⊎◌, inl, inr,
}
use pmctrack.Prelude.Int.{ℤ, pos, pos_part, negsuc}
use pmctrack.Prelude.Runs.{length-perm}
use pmctrack.PhaseTable.{
  PhaseTable, bit, test_bit, list_del, is_first, to_front, enoent, promote_table_entry,
}
use pmctrack.PhaseTable.Inv.{Inv}

-- `is` is `rest` with `i` somewhere in it.
abbrev pub Between : ℕ → List ℕ → List ℕ → Type 0
Between i is rest =
    (before : List ℕ) × (after : List ℕ) × (is ≡ before ++ i ∷ after) × (rest ≡ before ++ after)

list_del_lem : (i : ℕ) (is : List ℕ) → Mem i is → Ensures (list_del i is) (Between i is)
unfolding list_del
list_del_lem i [] m = absurd (not-mem-nil m)
list_del_lem i (x ∷ xs) m = elim (Bool-cases (x == i)) [
  | inl e ↦ let q : x ≡ i = ground arith in rw (e) ([], xs, ap (λ y. y ∷ xs) q, refl)
  | inr e ↦
      let ne : i ≢ x = λ q. ground arith in
      let m' : Mem i xs = Or.elim Mem-prop (mem-cons.0 m) (λ q. absurd (ne q)) (λ r. r) in
      rw (e) (
        Ensures-bind (list_del i xs) _ (λ xs'. some (x ∷ xs')) _ (list_del_lem i xs m')
          (λ rest r. (x ∷ r.0, r.1, ap (◌∷◌ x) r.2, ap (◌∷◌ x) r.3)))
]

Between-Perm : (i : ℕ) (is rest : List ℕ) → Between i is rest → Perm is (i ∷ rest)
Between-Perm i is rest r = rw (r.2, r.3) (perm_middle r.0 r.1)

is_first_lem : (i : ℕ) (is : List ℕ) → is_first i is ≡ true → (rest : List ℕ) × (is ≡ i ∷ rest)
unfolding is_first
is_first_lem i [] e = ground arith
is_first_lem i (x ∷ xs) e = let q : x ≡ i = ground arith in (xs, ap (λ y. y ∷ xs) q)

module _ {A : Type 0} where
  permuted-Inv :
      (t : PhaseTable A) (is : List ℕ) → Perm t.phases is → Inv t → Inv (record t { phases = is })
  permuted-Inv t is p h = record {
    narrow = h.narrow;
    room = h.room;
    counted = h.counted ∙ length-perm p;
    once = Perm.nodup p h.once;
    inside = λ i m. h.inside i (Perm.subset (Perm.symm p) i m);
    used = λ i m. h.used i (Perm.subset (Perm.symm p) i m);
    listed = λ i l b. Perm.subset p i (h.listed i l b);
  }

  -- Either the entry `i` comes to the front, or it is not in use and `-ENOENT` is returned.
  abbrev pub Promoted : PhaseTable A → ℤ → ℤ × PhaseTable A → Type 0
  Promoted t index (ret, t') =
      ((i : ℕ) × (rest : List ℕ) × (index ≡ pos i)
        × (ret ≡ pos 0)
        × Between i t.phases rest
        × (t' ≡ record t { phases = i ∷ rest }))
      ⊎ (((i : ℕ) → index ≡ pos i → ¬ Mem i t.phases) × (ret ≡ enoent) × (t' ≡ t))

  to_front_lem :
      (t : PhaseTable A) (i : ℕ)
      → Inv t
      → Mem i t.phases
      → Ensures (to_front t i) (λ r. Inv r.1 × Promoted t (pos i) r)
  unfolding to_front
  to_front_lem t i h m = elim (Bool-cases (is_first i t.phases)) [
    | inl e ↦
        let f = is_first_lem i t.phases e in
        rw (e) (
          h,
          inl (i, f.0, refl, refl, ([], f.0, f.1, refl), ap (λ is. record t { phases = is }) f.1),
        )
    | inr e ↦ rw (e) (
        Ensures-bind (list_del i t.phases) _ _ _ (list_del_lem i t.phases m) (λ rest r. (
          permuted-Inv t (i ∷ rest) (Between-Perm i t.phases rest r) h,
          inl (i, rest, refl, refl, r, refl),
        )))
  ]

  -- Promoting an entry of a well-formed table never faults, whatever the index. The table stays
  -- well formed. Either the index is that of an entry in use, which comes to the front while the
  -- others keep their order, and 0 is returned; or it is of none, and then `-ENOENT` is returned
  -- and nothing changes.
  pub promote_table_entry_lem :
      (t : PhaseTable A) (index : ℤ)
      → Inv t
      → Ensures (promote_table_entry t index) (λ r. Inv r.1 × Promoted t index r)
  unfolding promote_table_entry test_bit
  promote_table_entry_lem t (negsuc n) h = (h, inr (λ i e m. ground arith, refl, refl))
  promote_table_entry_lem t (pos i) h = elim (Bool-cases (leb t.max_phases i)) [
    | inl e ↦ rw (e) (h, inr (λ j q m. beyond j q m e, refl, refl))
    | inr e ↦
        let l : i < t.max_phases = ground arith in
        elim (Bool-cases (bit t.bitmap i)) [
          | inl b ↦
              rw (e, lt→ltb i 31 (omega (arith, h.narrow)), b)
                (h, inr (λ j q m. free j q m b, refl, refl))
          | inr b ↦
              rw (e, lt→ltb i 31 (omega (arith, h.narrow)), b) (to_front_lem t i h (h.listed i l b))
        ]
  ]
    where
      same : (j : ℕ) → pos i ≡ pos j → i ≡ j
      same j q = ap pos_part q

      beyond : (j : ℕ) → pos i ≡ pos j → Mem j t.phases → leb t.max_phases i ≡ true → ⊥
      beyond j q m e = ground (arith, same j q, h.inside j m)

      free : (j : ℕ) → pos i ≡ pos j → Mem j t.phases → bit t.bitmap i ≡ true → ⊥
      free j q m b = ground (arith, same j q, h.used j m)

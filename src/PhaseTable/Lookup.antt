-- ===== src/PhaseTable/Lookup.antt =====
-- The phase of the table that is most similar to a given one.
use mathlib.Core.List.{Mem, mem-cons_self, mem-cons_of_mem, mem-cons, not-mem-nil}
use mathlib.Core.Logic.Or
use native.Mathlib.Bridge.{le_prop}
use pmctrack.Prelude.{
  ℕ, ◌-◌, ◌^◌, ◌≤◌, ◌<◌, ◌≡◌, refl, ap, sym, subst, ◌∙◌, true, List, [], ◌∷◌, Option, none, some,
  arith, length, get_or, Ensures, Ensures-bind, Ensures-mono, Bool-cases, ◌>>=◌, ◌⊎◌, inl, inr,
}
use pmctrack.Prelude.Int.{ℤ, pos, pos_part, neg_part, ltb_ℤ, ◌≤ℤ◌, eq_of_parts}
use pmctrack.Memory.{load_in}
use pmctrack.PhaseTable.{
  PhaseTable, is_zero, nearest, found, get_phase_from_table, insert_phase_in_table,
}
use pmctrack.PhaseTable.Inv.{Inv}
use pmctrack.PhaseTable.Insert.{insert_phase_in_table_lem}

-- What the comparison operation is documented to return: a distance, here less than `INT_MAX`.
abbrev pub IsDistance : ℤ → Type 0
IsDistance d = (neg_part d ≡ 0) × (pos_part d < 2 ^ 31 - 1)

module _ {A : Type 0} (blank : A) (compare : A → ℤ)
    (distance : (x : A) → IsDistance (compare x)) where
  abbrev to : List A → ℕ → ℤ
  to pool i = compare (get_or pool i blank)

  -- What the loop over `is` makes of the best so far.
  record Nearer (pool : List A) (is : List ℕ) (best r : ℤ × Option ℕ) : Type 0 where
    nonneg : neg_part r.0 ≡ 0
    lower : pos_part r.0 ≤ pos_part best.0
    least : (j : ℕ) → Mem j is → pos_part r.0 ≤ pos_part (to pool j)
    origin : (r ≡ best) ⊎ ((k : ℕ) × Mem k is × (r ≡ (to pool k, some k)))

  least_cons :
      (pool : List A) (i : ℕ) (is : List ℕ) (d : ℕ)
      → d ≤ pos_part (to pool i)
      → ((j : ℕ) → Mem j is → d ≤ pos_part (to pool j))
      → (j : ℕ) → Mem j (i ∷ is)
      → d ≤ pos_part (to pool j)
  least_cons pool i is d h k j m =
      Or.elim le_prop (mem-cons.0 m) (λ e. subst (λ x. d ≤ pos_part (to pool x)) (sym e) h) (k j)

  -- The entry is an exact match, and the loop ends.
  exact :
      (pool : List A) (i : ℕ) (is : List ℕ) (best : ℤ × Option ℕ)
      → is_zero (to pool i) ≡ true
      → Nearer pool (i ∷ is) best (to pool i, some i)
  exact pool i is best z =
      let e : pos_part (to pool i) ≡ 0 = zero_of (to pool i) z in
      record {
        nonneg = (distance (get_or pool i blank)).0;
        lower = omega (arith, e);
        least = λ j m. omega (arith, e);
        origin = inr (i, mem-cons_self, refl);
      }
    where
      zero_of : (d : ℤ) → is_zero d ≡ true → pos_part d ≡ 0
      zero_of d z = ground arith

  Nearer-now :
      (pool : List A) (i : ℕ) (is : List ℕ) (best r : ℤ × Option ℕ)
      → pos_part (to pool i) ≤ pos_part best.0
      → Nearer pool is (to pool i, some i) r
      → Nearer pool (i ∷ is) best r
  Nearer-now pool i is best r l v = record {
    nonneg = v.nonneg;
    lower = omega (arith, v.lower);
    least = least_cons pool i is (pos_part r.0) v.lower v.least;
    origin = elim v.origin [
      | inl e ↦ inr (i, mem-cons_self, e)
      | inr o ↦ inr (o.0, mem-cons_of_mem i o.1, o.2)
    ];
  }

  Nearer-later :
      (pool : List A) (i : ℕ) (is : List ℕ) (best r : ℤ × Option ℕ)
      → pos_part best.0 ≤ pos_part (to pool i)
      → Nearer pool is best r
      → Nearer pool (i ∷ is) best r
  Nearer-later pool i is best r l v = record {
    nonneg = v.nonneg;
    lower = v.lower;
    least = least_cons pool i is (pos_part r.0) (omega (arith, v.lower)) v.least;
    origin = elim v.origin [ inl e ↦ inl e | inr o ↦ inr (o.0, mem-cons_of_mem i o.1, o.2) ];
  }

  nearest_lem :
      (pool : List A) (is : List ℕ) (best : ℤ × Option ℕ)
      → ((i : ℕ) → Mem i is → i < length pool)
      → neg_part best.0 ≡ 0
      → Ensures (nearest compare pool is best) (Nearer pool is best)
  unfolding nearest
  nearest_lem pool [] best h n = record {
    nonneg = n;
    lower = omega arith;
    least = λ j m. absurd (not-mem-nil m);
    origin = inl refl;
  }
  nearest_lem pool (i ∷ is) best h n =
      let d = distance (get_or pool i blank) in
      let inside : i < length pool = h i mem-cons_self in
      let rest : (b : ℤ × Option ℕ)
          → neg_part b.0 ≡ 0
          → Ensures (nearest compare pool is b) (Nearer pool is b) =
        λ b. nearest_lem pool is b (λ j m. h j (mem-cons_of_mem i m)) in
      elim (Bool-cases (ltb_ℤ (to pool i) best.0)) [
        | inl c ↦
            let l : pos_part (to pool i) ≤ pos_part best.0 = ground (arith, d.0) in
            elim (Bool-cases (is_zero (to pool i))) [
              | inl z ↦ rw (load_in pool i blank inside, c, z) (exact pool i is best z)
              | inr z ↦
                  rw (load_in pool i blank inside, c, z)
                    (Ensures-mono (nearest compare pool is (to pool i, some i)) _ _
                      (rest (to pool i, some i) d.0) (λ r. Nearer-now pool i is best r l))
            ]
        | inr c ↦
            let l : pos_part best.0 ≤ pos_part (to pool i) = ground (arith, d.0) in
            rw (load_in pool i blank inside, c)
              (Ensures-mono (nearest compare pool is best) _ _ (rest best n)
                (λ r. Nearer-later pool i is best r l))
      ]

-- What looking up a phase finds: nothing in an empty table, and otherwise an entry in use at the
-- least distance.
abbrev pub Nearest : {A : Type 0} → A → (A → A → ℤ) → PhaseTable A → A → Option (ℤ × ℕ) → Type 0
Nearest blank compare t key none = t.phases ≡ []
Nearest blank compare t key (some (sim, i)) =
    Mem i t.phases
    × (sim ≡ compare (get_or t.pool i blank) key)
    × ((j : ℕ) → Mem j t.phases → sim ≤ℤ compare (get_or t.pool j blank) key)

module _ {A : Type 0} (blank : A) (compare : A → A → ℤ) where
  found_lem :
      (t : PhaseTable A) (key : A) (distance : (x : A) → IsDistance (compare x key))
      (r : ℤ × Option ℕ)
      → Nearer blank (λ x. compare x key) distance t.pool t.phases (pos (2 ^ 31 - 1), none) r
      → Nearest blank compare t key (found r)
  found_lem t key distance r v = elim v.origin [
    | inl e ↦
        rw (e) (none_far t.phases (λ j m. omega (arith, v.least j m, ap (λ x. pos_part x.0) e)))
    | inr (i, m, e) ↦ rw (e) (
      m,
      refl,
      λ j k. omega (
        arith,
        v.least j k,
        v.nonneg,
        ap (λ x. pos_part x.0) e,
        ap (λ x. neg_part x.0) e,
        (distance (get_or t.pool j blank)).0,
      ),
    )
  ]
    where
      none_far :
          (is : List ℕ)
          → ((j : ℕ) → Mem j is → 2 ^ 31 - 1 ≤ pos_part (compare (get_or t.pool j blank) key))
          → is ≡ []
      none_far [] h = refl
      none_far (j ∷ is) h =
          absurd (omega (arith, h j mem-cons_self, (distance (get_or t.pool j blank)).1))

  -- Looking up a phase in a well-formed table never faults, if the comparison gives distances less
  -- than `INT_MAX`: in an empty table it finds nothing, and otherwise an entry in use whose phase
  -- is at the distance returned, and none in use is nearer.
  pub get_phase_from_table_lem :
      (t : PhaseTable A) (key : A)
      → Inv t
      → ((x : A) → IsDistance (compare x key))
      → Ensures (get_phase_from_table compare t key) (Nearest blank compare t key)
  unfolding get_phase_from_table
  get_phase_from_table_lem t key h distance =
      Ensures-bind (nearest (λ phase. compare phase key) t.pool t.phases (pos (2 ^ 31 - 1), none)) _
        (λ best. some (found best)) _
        (nearest_lem blank (λ x. compare x key) distance t.pool t.phases _
          (λ i m. omega (arith, h.inside i m, h.room)) refl)
        (λ r v. found_lem t key distance r v)

  -- What a lookup of `v` right after inserting it gives.
  abbrev pub Matched : A → PhaseTable A × Option (ℤ × ℕ) → Type 0
  Matched v (t, r) =
      (i : ℕ) × (r ≡ some (pos 0, i)) × Mem i t.phases × (compare (get_or t.pool i blank) v ≡ pos 0)

  zero_least :
      (t : PhaseTable A) (v : A) (i : ℕ) (r : Option (ℤ × ℕ))
      → Mem i t.phases
      → compare (get_or t.pool i blank) v ≡ pos 0
      → ((x : A) → IsDistance (compare x v))
      → Nearest blank compare t v r
      → Matched v (t, r)
  zero_least t v i none m e d n = absurd (not-mem-nil (subst (Mem i) n m))
  zero_least t v i (some (sim, k)) m e d (mk, same, least) =
      let z : sim ≡ pos 0 = eq_of_parts sim (pos 0) (
        omega (
          arith,
          least i m,
          ap pos_part e,
          ap neg_part e,
          ap pos_part same,
          ap neg_part same,
          (d (get_or t.pool k blank)).0,
        )) in
      (k, ap (λ x. some (x, k)) z, mk, sym same ∙ z)

  -- A phase that was inserted into a well-formed table with an entry or more is found again: if the
  -- comparison gives distances less than `INT_MAX`, and 0 for the phase and itself, looking it up
  -- returns the similarity 0 and an entry in use whose phase is at distance 0, whether the table was
  -- full before or not.
  pub get_phase_from_table-insert_phase_in_table :
      (t : PhaseTable A) (v : A)
      → Inv t
      → 0 < t.max_phases
      → ((x : A) → IsDistance (compare x v))
      → compare v v ≡ pos 0
      → Ensures
          (insert_phase_in_table t v
            >>= (λ r. get_phase_from_table compare r.1 v >>= (λ found. some (r.1, found))))
          (Matched v)
  get_phase_from_table-insert_phase_in_table t v h l d z =
      Ensures-bind (insert_phase_in_table t v) _ _ (Matched v)
        (insert_phase_in_table_lem blank t v h l)
        (λ r k.
          Ensures-bind (get_phase_from_table compare r.1 v) _ (λ found. some (r.1, found))
            (Matched v) (get_phase_from_table_lem r.1 v k.0 d)
            (λ found n. zero_least r.1 v r.0 found k.3 (ap (λ x. compare x v) k.4 ∙ z) d n))

-- ===== src/PhaseTable/Insert.antt =====
-- Inserting a phase into the table, and creating a table.
use mathlib.Core.List.{Mem, Mem-prop, Nodup, mem-cons_self, mem-cons_of_mem, mem-cons, Nodup-cons}
use mathlib.Core.Logic.Or
use native.Mathlib.Bridge.{le_prop}
use pmctrack.Prelude.{
  ℕ, zero, suc, ◌+◌, ◌≤◌, ◌<◌, ◌≡◌, ◌≢◌, refl, ap, ap₂, sym, ◌∙◌, subst, true, false, List, [], ◌∷◌,
  Option, none, some, arith, length, get_or, set, get_or-set_self, get_or-set_ne, ltb,
  if◌then◌else◌, Ensures, Bool-cases, lt→ltb, le→ltb, inl, inr, Ensures-mono, Ensures-bind,
  length-set, length-map, ℕ_discrete, ◌==◌,
}
use pmctrack.Memory.{store_in}
use pmctrack.PhaseTable.{
  PhaseTable, bit, clear_bit, reset_bit, test_bit, free_from, last?, get_free_phase_loc, put_phase,
  insert_phase_in_table,
}
use pmctrack.PhaseTable.Bitmap.{bit-clear_bit_self, bit-clear_bit_ne, bit-zero}
use pmctrack.PhaseTable.Inv.{Inv, at, entries, at-set_ne, full_of_no_free, room_of_free}

-- The search finds the first bit that is set.
abbrev Free : ℕ → ℕ → ℕ → Option ℕ → Type 0
Free b i n none = (j : ℕ) → i ≤ j → j < i + n → bit b j ≡ false
Free b i n (some k) = (k < i + n) × (bit b k ≡ true)

later : (b i n : ℕ) (o : Option ℕ) → bit b i ≡ false → Free b (suc i) n o → Free b i (suc n) o
later b i n none f h =
    λ j p q. elim (ℕ_discrete j i) [ yes e ↦ rw (e) f | no ne ↦ h j (omega arith) (omega arith) ]
later b i n (some k) f h = (omega (arith, h.0), h.1)

free_from_lem : (b n i : ℕ) → i + n < 32 → Ensures (free_from b n i) (Free b i n)
unfolding free_from test_bit
free_from_lem b zero i l = λ j p q. absurd (omega arith)
free_from_lem b (suc n) i l = elim (Bool-cases (bit b i)) [
  | inl t ↦ rw (lt→ltb i 31 (omega arith), t) (omega arith, t)
  | inr f ↦
      rw (lt→ltb i 31 (omega arith), f)
        (Ensures-mono (free_from b n (suc i)) (Free b (suc i) n) (Free b i (suc n))
          (free_from_lem b n (suc i) (omega arith)) (λ o h. later b i n o f h))
]

-- What a full table does with its oldest phase.
abbrev pub overwrite_last {ℓ} : {A : Type ℓ} → List A → A → List A
overwrite_last [] v = []
overwrite_last (x ∷ []) v = v ∷ []
overwrite_last (x ∷ y ∷ ys) v = x ∷ overwrite_last (y ∷ ys) v

-- The phases of a table of at most `max` after a new one.
abbrev pub with_phase {ℓ} : {A : Type ℓ} → ℕ → List A → A → List A
with_phase max phases v = if ltb (length phases) max then v ∷ phases else overwrite_last phases v

module _ {A : Type 0} where
  get_free_phase_loc_lem :
      (t : PhaseTable A) → Inv t → Ensures (get_free_phase_loc t) (Free t.bitmap 0 t.max_phases)
  unfolding get_free_phase_loc
  get_free_phase_loc_lem t h = elim (Bool-cases (t.bitmap == 0)) [
    | inl e ↦ let z : t.bitmap ≡ 0 = ground arith in rw (e) (λ j p q. rw (z) (bit-zero j))
    | inr ne ↦ rw (ne) (free_from_lem t.bitmap t.max_phases 0 (omega (arith, h.narrow)))
  ]

  last?_lem :
      (blank : A) (pool : List A) (v : A) (is : List ℕ)
      → 0 < length is
      → Nodup is
      → ((i : ℕ) → Mem i is → i < length pool)
      → Ensures
          (last? is)
          (λ i. Mem i is × (at blank (set pool i v) is ≡ overwrite_last (at blank pool is) v))
  unfolding last?
  last?_lem blank pool v [] l d h = absurd (omega arith)
  last?_lem blank pool v (i ∷ []) l d h =
      (mem-cons_self, ap (λ x. x ∷ []) (get_or-set_self pool i v blank (h i mem-cons_self)))
  last?_lem blank pool v (i ∷ j ∷ is) l d h =
      Ensures-mono (last? (j ∷ is)) _ _
        (last?_lem blank pool v (j ∷ is) (omega arith) (Nodup-cons.0 d).1
          (λ k m. h k (mem-cons_of_mem i m)))
        (λ k r.
          let ne : k ≢ i = λ e. (Nodup-cons.0 d).0 (subst (λ x. Mem x (j ∷ is)) e r.0) in
          (mem-cons_of_mem i r.0, ap₂ ◌∷◌ (get_or-set_ne pool k i v blank ne) r.1))

  -- What inserting `v` gives: the entry used, and the table.
  abbrev pub Inserted : A → PhaseTable A → A → ℕ × PhaseTable A → Type 0
  Inserted blank t v (i, t') =
      Inv t'
      × (t'.max_phases ≡ t.max_phases)
      × (entries blank t' ≡ with_phase t.max_phases (entries blank t) v)
      × Mem i t'.phases
      × (get_or t'.pool i blank ≡ v)

  not_in_use : (t : PhaseTable A) (i : ℕ) → Inv t → bit t.bitmap i ≡ true → ¬ Mem i t.phases
  not_in_use t i h b m = ground (arith, h.used i m)

  mem_of_ne : (t : PhaseTable A) {i j : ℕ} → i ≢ j → Mem j (i ∷ t.phases) → Mem j t.phases
  mem_of_ne t ne m = Or.elim Mem-prop (mem-cons.0 m) (λ e. absurd (ne (sym e))) (λ r. r)

  reuse-Inv : (t : PhaseTable A) (i : ℕ) (v : A) → Inv t → Inv (record t { pool = set t.pool i v })
  reuse-Inv t i v h = record {
    narrow = h.narrow;
    room = length-set t.pool i v ∙ h.room;
    counted = h.counted;
    once = h.once;
    inside = h.inside;
    used = h.used;
    listed = h.listed;
  }

  put_phase_full :
      (blank : A) (t : PhaseTable A) (v : A)
      → Inv t
      → 0 < t.max_phases
      → Free t.bitmap 0 t.max_phases none
      → Ensures (put_phase t v none) (Inserted blank t v)
  unfolding put_phase
  put_phase_full blank t v h l clear =
      let full = full_of_no_free t h (λ i l. clear i (omega arith) (omega arith)) in
      let here : (i : ℕ) → Mem i t.phases → i < length t.pool =
        λ i m. omega (arith, h.inside i m, h.room) in
      Ensures-bind (last? t.phases) _ _ (Inserted blank t v)
        (last?_lem blank t.pool v t.phases (omega (arith, h.counted)) h.once here)
        (λ i r. rw (store_in t.pool i v (here i r.0)) (
          reuse-Inv t i v h,
          refl,
          (rw
              (le→ltb (length (entries blank t)) t.max_phases
                (omega (arith, h.counted, length-map (λ j. get_or t.pool j blank) t.phases)))
              r.1),
          r.0,
          get_or-set_self t.pool i v blank (here i r.0),
        ))

  -- A free entry comes to the front.
  enter-Inv :
      (t : PhaseTable A) (i : ℕ) (v : A)
      → Inv t
      → i < t.max_phases
      → bit t.bitmap i ≡ true
      → Inv (record t {
        bitmap = clear_bit t.bitmap i;
        nr_phases = t.nr_phases + 1;
        phases = i ∷ t.phases;
        pool = set t.pool i v;
      })
  enter-Inv t i v h l b = record {
    narrow = h.narrow;
    room = length-set t.pool i v ∙ h.room;
    counted = omega (arith, h.counted);
    once = Nodup-cons.1 (not_in_use t i h b, h.once);
    inside = λ j m. Or.elim le_prop (mem-cons.0 m) (λ e. omega arith) (h.inside j);
    used = λ j m. elim (ℕ_discrete i j) [
      | yes e ↦ rw (sym e) (bit-clear_bit_self t.bitmap i)
      | no ne ↦ bit-clear_bit_ne t.bitmap i j ne ∙ h.used j (mem_of_ne t ne m)
    ];
    listed = λ j k c. elim (ℕ_discrete i j) [
      | yes e ↦ mem-cons.1 (Or.inl (sym e))
      | no ne ↦ mem-cons_of_mem i (h.listed j k (sym (bit-clear_bit_ne t.bitmap i j ne) ∙ c))
    ];
  }

  put_phase_free :
      (blank : A) (t : PhaseTable A) (v : A) (i : ℕ)
      → Inv t
      → i < t.max_phases
      → bit t.bitmap i ≡ true
      → Ensures (put_phase t v (some i)) (Inserted blank t v)
  unfolding put_phase reset_bit
  put_phase_free blank t v i h l b =
      let k : i < length t.pool = omega (arith, h.room) in
      let room = room_of_free t i h l b in
      rw (lt→ltb i 31 (omega (arith, h.narrow)), store_in t.pool i v k)
        (
          enter-Inv t i v h l b,
          refl,
          (rw
              (lt→ltb (length (entries blank t)) t.max_phases
                (omega (arith, h.counted, length-map (λ j. get_or t.pool j blank) t.phases)))
              (ap₂ ◌∷◌ (get_or-set_self t.pool i v blank k)
                (at-set_ne blank t.pool t.phases i v (not_in_use t i h b)))),
          mem-cons_self,
          get_or-set_self t.pool i v blank k,
        )

  put_phase_lem :
      (blank : A) (t : PhaseTable A) (v : A) (free : Option ℕ)
      → Inv t
      → 0 < t.max_phases
      → Free t.bitmap 0 t.max_phases free
      → Ensures (put_phase t v free) (Inserted blank t v)
  put_phase_lem blank t v none h l f = put_phase_full blank t v h l f
  put_phase_lem blank t v (some i) h l f = put_phase_free blank t v i h (omega (arith, f.0)) f.1

  -- Inserting a phase into a well-formed table with an entry or more never faults. The table stays
  -- well formed with its capacity, the entry returned is in use and holds the phase, and the table
  -- holds the phases that it held with the new one in front, or, if it was full, in the place of
  -- the last one.
  pub insert_phase_in_table_lem :
      (blank : A) (t : PhaseTable A) (v : A)
      → Inv t
      → 0 < t.max_phases
      → Ensures (insert_phase_in_table t v) (Inserted blank t v)
  unfolding insert_phase_in_table
  insert_phase_in_table_lem blank t v h l =
      Ensures-bind (get_free_phase_loc t) (Free t.bitmap 0 t.max_phases) (put_phase t v)
        (Inserted blank t v) (get_free_phase_loc_lem t h)
        (λ free f. put_phase_lem blank t v free h l f)

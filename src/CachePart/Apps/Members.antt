-- ===== src/CachePart/Apps/Members.antt =====
-- Each partition counts its applications.
use mathlib.Core.List.{
  Mem, mem-append, mem-append_left, mem-append_right, mem-cons_self, mem-cons, mem-cons_of_mem,
  not-mem-nil, Mem-prop,
}
use mathlib.Core.Logic.Or
use pmctrack.Prelude.{
  ℕ, ◌+◌, ◌^◌, ◌<◌, ◌≡◌, ◌≢◌, refl, ap, sym, subst, ◌∙◌, List, [], ◌∷◌, ◌++◌, none, some, true,
  false, ◌==◌, if◌then◌else◌, arith, length, length-append, ℕ_discrete, Bool-cases, inl, inr, add32,
  sub32,
}
use pmctrack.CachePart.{Partition}
use pmctrack.CachePart.Apps.{App, Store, put_at, enter_partition, leave_partition}
use pmctrack.SizedList.{unlink}

abbrev pub Distinct : List ℕ → Type 0
Distinct [] = Unit
Distinct (x ∷ xs) = (¬ Mem x xs) × Distinct xs

-- Every partition has as many applications as it counts, each of them once, and an application is in
-- the list of a partition just when it points to it.
pub record Inv (s : Store) : Type 0 where
  pub counted : (i : ℕ) → (s.partitions i).nr_apps ≡ length (s.assigned_applications i)
  pub listed : (a i : ℕ) → (s.apps a).cat_partition ≡ some i → Mem a (s.assigned_applications i)
  pub pointing : (a i : ℕ) → Mem a (s.assigned_applications i) → (s.apps a).cat_partition ≡ some i
  pub distinct : (i : ℕ) → Distinct (s.assigned_applications i)

pub put_at_same {ℓ} : {A : Type ℓ} (f : ℕ → A) (i : ℕ) (v : A) (j : ℕ) → j ≡ i → put_at f i v j ≡ v
unfolding put_at
put_at_same f i v j e = let b : (j == i) ≡ true = ground (arith, e) in rw b refl

pub put_at_other {ℓ} :
    {A : Type ℓ} (f : ℕ → A) (i : ℕ) (v : A) (j : ℕ) → j ≢ i → put_at f i v j ≡ f j
unfolding put_at
put_at_other f i v j e = let b : (j == i) ≡ false = ground (arith, e) in rw b refl

pub length-unlink : (a : ℕ) (xs : List ℕ) → Mem a xs → length (unlink a xs) + 1 ≡ length xs
unfolding unlink
length-unlink a [] m = absurd (not-mem-nil m)
length-unlink a (x ∷ xs) m = elim (ℕ_discrete x a) [
  | yes e ↦ let b : (x == a) ≡ true = ground (arith, e) in rw b (omega arith)
  | no ne ↦
      let b : (x == a) ≡ false = ground (arith, ne) in
      rw b (
        omega (
          arith,
          length-unlink a xs (Or.elim Mem-prop (mem-cons.0 m) (λ q. absurd (ne (sym q))) (λ r. r)),
        ))
]

mem-unlink : (a b : ℕ) (xs : List ℕ) → b ≢ a → Mem b xs → Mem b (unlink a xs)
unfolding unlink
mem-unlink a b [] ne m = m
mem-unlink a b (x ∷ xs) ne m = elim (ℕ_discrete x a) [
  | yes e ↦
      let q : (x == a) ≡ true = ground (arith, e) in
      rw q (Or.elim Mem-prop (mem-cons.0 m) (λ z. absurd (ne (z ∙ e))) (λ r. r))
  | no n ↦
      let q : (x == a) ≡ false = ground (arith, n) in
      rw q (
        Or.elim Mem-prop (mem-cons.0 m) (λ z. subst (λ y. Mem b (y ∷ unlink a xs)) z mem-cons_self)
          (λ r. mem-cons_of_mem x (mem-unlink a b xs ne r)))
]

-- An element of a list is the first one or a later one.
member :
    (P : Type 0) (b x : ℕ) (xs : List ℕ)
    → IsProp P
    → Mem b (x ∷ xs)
    → (b ≡ x → P)
    → (Mem b xs → P)
    → P
member P b x xs prop m h k = Or.elim prop (mem-cons.0 m) h k

unlink-Mem : (a b : ℕ) (xs : List ℕ) → Mem b (unlink a xs) → Mem b xs
unfolding unlink
unlink-Mem a b [] m = m
unlink-Mem a b (x ∷ xs) m = elim (Bool-cases (x == a)) [
  | inl e ↦ mem-cons_of_mem x (subst (λ q. Mem b (if q then xs else x ∷ unlink a xs)) e m)
  | inr e ↦
      member _ b x (unlink a xs) Mem-prop
        (subst (λ q. Mem b (if q then xs else x ∷ unlink a xs)) e m)
        (λ z. subst (λ y. Mem b (y ∷ xs)) z mem-cons_self)
        (λ r. mem-cons_of_mem x (unlink-Mem a b xs r))
]

unlink-absent : (a : ℕ) (xs : List ℕ) → Distinct xs → ¬ Mem a (unlink a xs)
unfolding unlink
unlink-absent a [] d m = not-mem-nil m
unlink-absent a (x ∷ xs) d m = elim (Bool-cases (x == a)) [
  | inl e ↦
      let q : x ≡ a = ground arith in
      d.0
        (subst (λ y. Mem y xs) (sym q) (subst (λ q. Mem a (if q then xs else x ∷ unlink a xs)) e m))
  | inr e ↦
      let ne : a ≢ x = λ q. absurd (ground (arith, q)) in
      member ⊥ a x (unlink a xs) (λ u. absurd u)
        (subst (λ q. Mem a (if q then xs else x ∷ unlink a xs)) e m) (λ z. ne z)
        (λ r. unlink-absent a xs d.1 r)
]

unlink-Distinct : (a : ℕ) (xs : List ℕ) → Distinct xs → Distinct (unlink a xs)
unfolding unlink
unlink-Distinct a [] d = tt
unlink-Distinct a (x ∷ xs) d = elim (Bool-cases (x == a)) [
  | inl e ↦ rw (e) d.1
  | inr e ↦ rw (e) ((λ m. d.0 (unlink-Mem a x xs m)), unlink-Distinct a xs d.1)
]

Mem-last : (b a : ℕ) (xs : List ℕ) → Mem b (xs ++ a ∷ []) → b ≢ a → Mem b xs
Mem-last b a xs m ne =
    Or.elim Mem-prop (mem-append.0 m) (λ r. r)
      (λ r. member _ b a [] Mem-prop r (λ z. absurd (ne z)) (λ n. absurd (not-mem-nil n)))

append-Distinct : (a : ℕ) (xs : List ℕ) → Distinct xs → ¬ Mem a xs → Distinct (xs ++ a ∷ [])
append-Distinct a [] d n = (not-mem-nil, tt)
append-Distinct a (x ∷ xs) d n = (
  (λ m. d.0 (Mem-last x a xs m (λ z. n (subst (λ y. Mem y (x ∷ xs)) z mem-cons_self)))),
  append-Distinct a xs d.1 (λ m. n (mem-cons_of_mem x m)),
)

some_injective : {i j : ℕ} → some i ≡ some j → i ≡ j
some_injective e = cc e

pub enter-Inv :
    (s : Store) (app i : ℕ)
    → length (s.assigned_applications i) + 1 < 2 ^ 32
    → (s.apps app).cat_partition ≡ none
    → Inv s
    → Inv (enter_partition s app i)
unfolding enter_partition
enter-Inv s app i small free inv = record {
  counted = λ j. elim (ℕ_discrete j i) [
    | yes e ↦
        rw (put_at_same s.partitions i entered j e, put_at_same s.assigned_applications i more j e)
          (omega (arith, inv.counted i, length-append (s.assigned_applications i) (app ∷ [])))
    | no ne ↦
        rw
          (
            put_at_other s.partitions i entered j ne,
            put_at_other s.assigned_applications i more j ne,
          )
          (inv.counted j)
  ];
  listed = λ b j q. elim (ℕ_discrete b app) [
    | yes e ↦ elim (ℕ_discrete j i) [
      | yes k ↦
          rw (put_at_same s.assigned_applications i more j k, e)
            (mem-append_right (s.assigned_applications i) mem-cons_self)
      | no k ↦
          let at : some i ≡ some j =
            sym (ap App.cat_partition (put_at_same s.apps app inside b e)) ∙ q in
          absurd (k (sym (some_injective at)))
    ]
    | no ne ↦
        let old =
          inv.listed b j (sym (ap App.cat_partition (put_at_other s.apps app inside b ne)) ∙ q) in
        elim (ℕ_discrete j i) [
          | yes k ↦
              rw (put_at_same s.assigned_applications i more j k)
                (mem-append_left (app ∷ []) (subst (λ z. Mem b (s.assigned_applications z)) k old))
          | no k ↦ rw (put_at_other s.assigned_applications i more j k) old
        ]
  ];
  pointing = λ b j m. elim (ℕ_discrete b app) [
    | yes e ↦ elim (ℕ_discrete j i) [
      | yes k ↦ ap App.cat_partition (put_at_same s.apps app inside b e) ∙ ap some (sym k)
      | no k ↦ absurd (
          absent j (
            subst (λ l. Mem app l) (put_at_other s.assigned_applications i more j k)
              (subst (λ y. Mem y (put_at s.assigned_applications i more j)) e m)))
    ]
    | no ne ↦
        ap App.cat_partition (put_at_other s.apps app inside b ne)
        ∙ inv.pointing b j (elim (ℕ_discrete j i) [
          | yes k ↦
              subst (λ z. Mem b (s.assigned_applications z)) (sym k)
                (Mem-last b app (s.assigned_applications i)
                  (subst (Mem b) (put_at_same s.assigned_applications i more j k) m) ne)
          | no k ↦ subst (Mem b) (put_at_other s.assigned_applications i more j k) m
        ])
  ];
  distinct = λ j. elim (ℕ_discrete j i) [
    | yes k ↦
        rw (put_at_same s.assigned_applications i more j k)
          (append-Distinct app (s.assigned_applications i) (inv.distinct i) (absent i))
    | no k ↦ rw (put_at_other s.assigned_applications i more j k) (inv.distinct j)
  ];
}
  where
    absent : (j : ℕ) → ¬ Mem app (s.assigned_applications j)
    absent j m = let q : none ≡ some j = sym free ∙ inv.pointing app j m in cc q

    entered : Partition
    entered = record (s.partitions i) { nr_apps = add32 (s.partitions i).nr_apps 1 }

    more : List ℕ
    more = s.assigned_applications i ++ app ∷ []

    inside : App
    inside = record (s.apps app) {
      cat_partition = some i;
      last_partition = (s.partitions i).part_index;
      cos_id =
          if (s.apps app).externally_managed_cos_id
          then (s.apps app).cos_id
          else (s.partitions i).clos_id;
    }

pub leave-Inv :
    (s : Store) (app i : ℕ)
    → length (s.assigned_applications i) < 2 ^ 32
    → (s.apps app).cat_partition ≡ some i
    → Inv s
    → Inv (leave_partition s app i)
unfolding leave_partition
leave-Inv s app i small e inv = record {
  counted = λ j. elim (ℕ_discrete j i) [
    | yes k ↦
        rw (put_at_same s.partitions i left j k, put_at_same s.assigned_applications i fewer j k)
          (omega (
            arith,
            inv.counted i,
            length-unlink app (s.assigned_applications i) (inv.listed app i e),
          ))
    | no ne ↦
        rw
          (put_at_other s.partitions i left j ne, put_at_other s.assigned_applications i fewer j ne)
          (inv.counted j)
  ];
  listed = λ b j q. elim (ℕ_discrete b app) [
    | yes k ↦
        let at : none ≡ some j =
          sym (ap App.cat_partition (put_at_same s.apps app outside b k)) ∙ q in
        cc at
    | no ne ↦
        let old =
          inv.listed b j (sym (ap App.cat_partition (put_at_other s.apps app outside b ne)) ∙ q) in
        elim (ℕ_discrete j i) [
          | yes k ↦ rw (put_at_same s.assigned_applications i fewer j k) (
              mem-unlink app b (s.assigned_applications i) ne
                (subst (λ z. Mem b (s.assigned_applications z)) k old))
          | no k ↦ rw (put_at_other s.assigned_applications i fewer j k) old
        ]
  ];
  pointing = λ b j m. elim (ℕ_discrete b app) [
    | yes e ↦ elim (ℕ_discrete j i) [
      | yes k ↦ absurd (
          unlink-absent app (s.assigned_applications i) (inv.distinct i) (
            subst (Mem app) (put_at_same s.assigned_applications i fewer j k)
              (subst (λ y. Mem y (put_at s.assigned_applications i fewer j)) e m)))
      | no k ↦
          let at : some i ≡ some j =
            sym e'
            ∙ inv.pointing app j (
                subst (Mem app) (put_at_other s.assigned_applications i fewer j k)
                  (subst (λ y. Mem y (put_at s.assigned_applications i fewer j)) e m)) in
          absurd (k (sym (some_injective at)))
    ]
    | no ne ↦
        ap App.cat_partition (put_at_other s.apps app outside b ne)
        ∙ inv.pointing b j (elim (ℕ_discrete j i) [
          | yes k ↦
              subst (λ z. Mem b (s.assigned_applications z)) (sym k)
                (unlink-Mem app b (s.assigned_applications i)
                  (subst (Mem b) (put_at_same s.assigned_applications i fewer j k) m))
          | no k ↦ subst (Mem b) (put_at_other s.assigned_applications i fewer j k) m
        ])
  ];
  distinct = λ j. elim (ℕ_discrete j i) [
    | yes k ↦
        rw (put_at_same s.assigned_applications i fewer j k)
          (unlink-Distinct app (s.assigned_applications i) (inv.distinct i))
    | no k ↦ rw (put_at_other s.assigned_applications i fewer j k) (inv.distinct j)
  ];
}
  where
    e' : (s.apps app).cat_partition ≡ some i
    e' = e

    left : Partition
    left = record (s.partitions i) { nr_apps = sub32 (s.partitions i).nr_apps 1 }

    fewer : List ℕ
    fewer = unlink app (s.assigned_applications i)

    outside : App
    outside = record (s.apps app) {
      last_partition = (s.partitions i).part_index;
      cat_partition = none;
    }

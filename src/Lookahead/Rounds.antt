-- ===== src/Lookahead/Rounds.antt =====
-- A round of the lookahead algorithm, the loop, and the whole.
use pmctrack.Prelude.{
  ℕ, zero, suc, ◌+◌, ◌-◌, ◌≤◌, ◌<◌, ◌≡◌, ◌≢◌, refl, ap, sym, subst, ◌∙◌, ◌⊎◌, inl, inr, List, [],
  ◌∷◌, Option, none, some, false, arith, ◌==◌, if◌then◌else◌, ◌>>=◌, length, get_or, set, Ensures,
  Ensures-bind, Bool-cases, ℕ_discrete, length-set, get_or-set_self, get_or-set_ne,
}
use pmctrack.Prelude.Int.{ℤ, pos_part, neg_part, ltb_ℤ}
use pmctrack.Memory.{load, load_in}
use pmctrack.Lookahead.{
  MaxMu, Choice, no_choice, is_zero, get_max_mu_gen, find_choice, pick, round, rounds,
}
use pmctrack.Lookahead.Solution.{Reaches, Gain, get_max_mu_gen-Gain, sum, sum-set}

-- No application gains, or the selected one does, within what is available and on its curve.
record Chosen (curves : List (List ℤ)) (solution : List ℕ) (available : ℕ) (c : Choice)
    : Type 0 where
  nonneg : neg_part c.global_max_mu ≡ 0
  gain :
      (pos_part c.global_max_mu ≡ 0)
      ⊎ ((c.selected_idx < length solution)
          × (get_or solution c.selected_idx 0 < c.global_mu_ways)
          × (c.global_mu_ways ≤ get_or solution c.selected_idx 0 + available)
          × Reaches (get_or curves c.selected_idx []) c.global_mu_ways)

pick-Chosen :
    (curves : List (List ℤ)) (solution : List ℕ) (available i : ℕ) (m : MaxMu) (c : Choice)
    → i < length solution
    → Gain (get_or curves i []) (get_or solution i 0) available m
    → Chosen curves solution available c
    → Chosen curves solution available (pick m i c)
unfolding pick
pick-Chosen curves solution available i m c h g k =
    elim (Bool-cases (ltb_ℤ c.global_max_mu m.max_mu)) [
      | inl b ↦ rw b (record {
        nonneg = g.nonneg;
        gain = elim g.chosen [ inl z ↦ inl z | inr (x, y, z) ↦ inr (h, x, y, z) ];
      })
      | inr b ↦ rw b k
    ]

module _ (all : List (List ℤ)) (solution : List ℕ) (available nr_ways : ℕ) where
  find_choice-Chosen :
      (curves : List (List ℤ)) (i : ℕ) (c : Choice)
      → i + length curves ≡ length solution
      → ((j : ℕ) → j < length curves → get_or curves j [] ≡ get_or all (i + j) [])
      → ((j : ℕ) → j < length solution → Reaches (get_or all j []) (get_or solution j 0))
      → Chosen all solution available c
      → Ensures (find_choice curves solution available nr_ways i c) (Chosen all solution available)
  unfolding find_choice
  find_choice-Chosen [] i c l s r k = k
  find_choice-Chosen (curve ∷ curves) i c l s r k = rw (load_in solution i 0 (omega arith)) (
      Ensures-bind (get_max_mu_gen curve (get_or solution i 0) available nr_ways)
        (Gain (get_or all i []) (get_or solution i 0) available)
        (λ m. find_choice curves solution available nr_ways (suc i) (pick m i c))
        (Chosen all solution available)
        (subst
          (λ x.
            Ensures (get_max_mu_gen x (get_or solution i 0) available nr_ways)
              (Gain (get_or all i []) (get_or solution i 0) available))
          (sym here)
          (get_max_mu_gen-Gain (get_or all i []) (get_or solution i 0) available nr_ways
            (r i (omega arith))))
        (λ m g.
          find_choice-Chosen curves (suc i) (pick m i c) (omega arith) later r
            (pick-Chosen all solution available i m c (omega arith) g k)))
    where
      here : curve ≡ get_or all i []
      here = s 0 (omega arith) ∙ ap (λ j. get_or all j []) (omega arith)

      later : (j : ℕ) → j < length curves → get_or curves j [] ≡ get_or all (suc i + j) []
      later j h = s (suc j) (omega arith) ∙ ap (λ j. get_or all j []) (omega arith)

-- What holds before each round: as many ways are given out as are not available, every application
-- has one, and none has more than its curve tells about.
pub record Partial (curves : List (List ℤ)) (nr_ways available : ℕ) (solution : List ℕ)
    : Type 0 where
  pub sized : length solution ≡ length curves
  pub total : sum solution + available ≡ nr_ways
  pub reaches :
      (j : ℕ)
      → j < length solution
      → (0 < get_or solution j 0) × Reaches (get_or curves j []) (get_or solution j 0)

-- After a round there is less available, if any application gained.
Rounded : List (List ℤ) → ℕ → ℕ → Option (ℕ × List ℕ) → Type 0
Rounded curves nr_ways available none = available ≡ available
Rounded curves nr_ways available (some (a, s)) = (a < available) × Partial curves nr_ways a s

not_zero : (x : ℤ) → pos_part x ≡ 0 → neg_part x ≡ 0 → is_zero x ≢ false
not_zero x e f b = ground arith

moved-Partial :
    (curves : List (List ℤ)) (nr_ways available : ℕ) (solution : List ℕ) (i w : ℕ)
    → Partial curves nr_ways available solution
    → i < length solution
    → get_or solution i 0 < w
    → w ≤ get_or solution i 0 + available
    → Reaches (get_or curves i []) w
    → Partial curves nr_ways (available - (w - get_or solution i 0)) (set solution i w)
moved-Partial curves nr_ways available solution i w p l x y z = record {
  sized = length-set solution i w ∙ p.sized;
  total = omega (arith, sum-set solution i w l, p.total);
  reaches = λ j h. elim (ℕ_discrete j i) [
    | yes e ↦ rw (e, get_or-set_self solution i w 0 l) (omega arith, z)
    | no n ↦
        rw (get_or-set_ne solution i j w 0 (λ q. n (sym q)))
          (p.reaches j (omega (arith, length-set solution i w)))
  ];
}

round-Partial :
    (curves : List (List ℤ)) (nr_ways available : ℕ) (solution : List ℕ)
    → Partial curves nr_ways available solution
    → Ensures (round curves nr_ways available solution) (Rounded curves nr_ways available)
unfolding round Rounded
round-Partial curves nr_ways available solution p =
    Ensures-bind (find_choice curves solution available nr_ways 0 no_choice)
      (Chosen curves solution available) _ _
      (find_choice-Chosen curves solution available nr_ways curves 0 no_choice
        (omega (arith, p.sized)) (λ j h. ap (λ k. get_or curves k []) (omega arith))
        (λ j h. (p.reaches j h).1) (record { nonneg = refl; gain = inl refl }))
      (λ c k. after c k)
  where
    after :
        (c : Choice)
        → Chosen curves solution available c
        → Ensures
            (if is_zero c.global_max_mu then some none else (do
              ways ← load solution c.selected_idx
              some (
                  some (
                    available - (c.global_mu_ways - ways),
                    set solution c.selected_idx c.global_mu_ways,
                  ))))
            (Rounded curves nr_ways available)
    after c k = elim (Bool-cases (is_zero c.global_max_mu)) [
      | inl b ↦ rw b refl
      | inr b ↦ rw b (elim k.gain [
        | inl z ↦ absurd (not_zero c.global_max_mu z k.nonneg b)
        | inr (l, x, y, z) ↦ rw (load_in solution c.selected_idx 0 l) (
          omega arith,
          moved-Partial curves nr_ways available solution c.selected_idx c.global_mu_ways p l x y z,
        )
      ])
    ]

next-Partial :
    (fuel : ℕ) (curves : List (List ℤ)) (nr_ways available : ℕ) (solution : List ℕ)
    (r : Option (ℕ × List ℕ))
    → Partial curves nr_ways available solution
    → Rounded curves nr_ways available r
    → ((a : ℕ) (s : List ℕ)
        → a < available
        → Partial curves nr_ways a s
        → Ensures (rounds fuel curves nr_ways a s) (λ t. Partial curves nr_ways t.0 t.1))
    → Ensures
        (elim r as (λ _. Option (ℕ × List ℕ)) [
          | none ↦ some (available, solution)
          | some t ↦ rounds fuel curves nr_ways t.0 t.1
        ])
        (λ t. Partial curves nr_ways t.0 t.1)
unfolding Rounded
next-Partial fuel curves nr_ways available solution none p q go = p
next-Partial fuel curves nr_ways available solution (some (a, s)) p q go = go a s q.0 q.1

-- As much fuel as ways are available is enough for the loop.
pub rounds-Partial :
    (fuel : ℕ) (curves : List (List ℤ)) (nr_ways available : ℕ) (solution : List ℕ)
    → available ≤ fuel
    → Partial curves nr_ways available solution
    → Ensures (rounds fuel curves nr_ways available solution) (λ r. Partial curves nr_ways r.0 r.1)
unfolding rounds
rounds-Partial zero curves nr_ways available solution h p =
    let z : available ≡ 0 = omega arith in rw z (subst (λ a. Partial curves nr_ways a solution) z p)
rounds-Partial (suc fuel) curves nr_ways available solution h p =
    elim (Bool-cases (available == 0)) [
      | inl b ↦ rw b p
      | inr b ↦ rw b (
          Ensures-bind (round curves nr_ways available solution) (Rounded curves nr_ways available)
            _ _ (round-Partial curves nr_ways available solution p)
            (λ r q.
              next-Partial fuel curves nr_ways available solution r p q
                (λ a s l t. rounds-Partial fuel curves nr_ways a s (omega arith) t)))
    ]

-- ===== src/Lookahead/Utility.antt =====
-- Marginal utility and the search for the largest one of a curve.
use native.Mathlib.Nat.{div-le_self, div-mul-le_self, mul-le-mul_left, le-div_iff_mul-le}
use pmctrack.Prelude.{
  ℕ, zero, suc, ◌+◌, ◌/◌, ◌^◌, ◌≤◌, ◌<◌, ◌≡◌, refl, ap, subst, ◌∙◌, ◌⊎◌, inl, inr, List, some,
  arith, ltb, ltb→lt, ltb→le, length, get_or, Ensures, Ensures-bind, Bool-cases, dec_lt,
}
use pmctrack.Prelude.Int.{
  ℤ, pos, negsuc, pos_part, neg_part, ◌-ℤ◌, ◌/ℤ◌, ltb_ℤ, int_of, int_of_pos, int_of_opposite,
}
use pmctrack.Memory.{load, load_in}
use pmctrack.Lookahead.{MaxMu, marginal_utility, value_at, better, explore}

minus_more : (ways k : ℕ) → pos ways -ℤ pos (ways + suc k) ≡ negsuc k
unfolding ◌-ℤ◌
minus_more ways k = ground arith

over_negative : (x : ℤ) (k : ℕ) → pos_part (x /ℤ negsuc k) ≡ neg_part x / suc k
unfolding ◌/ℤ◌
over_negative (pos a) k = ground arith
over_negative (negsuc a) k = refl

-- A number of ways or of misses, as an `int` that is not negative
abbrev pub Count : ℤ → Type 0
Count x = (neg_part x ≡ 0) × (pos_part x < 2 ^ 31)

minus_counts : (a b : ℤ) → Count a → Count b → int_of (b -ℤ a) ≡ some (b -ℤ a)
unfolding ◌-ℤ◌ int_of
minus_counts (pos a) (pos b) h k = ground arith
minus_counts (negsuc a) b h k = absurd (omega (arith, h.0))
minus_counts (pos a) (negsuc b) h k = absurd (omega (arith, k.0))

minus_small :
    (a b : ℤ) → Count a → Count b → (pos_part (b -ℤ a) < 2 ^ 31) × (neg_part (b -ℤ a) < 2 ^ 31)
unfolding ◌-ℤ◌
minus_small a b h k = (ground (arith, h.0, h.1, k.0, k.1), ground (arith, h.0, h.1, k.0, k.1))

quotient_in :
    (x : ℤ) (k : ℕ)
    → pos_part x < 2 ^ 31
    → neg_part x < 2 ^ 31
    → int_of (x /ℤ negsuc k) ≡ some (x /ℤ negsuc k)
unfolding ◌/ℤ◌
quotient_in (pos a) k h l = int_of_opposite (a / suc k) (omega (arith, div-le_self a (suc k)))
quotient_in (negsuc a) k h l =
    int_of_pos (suc a / suc k) (omega (arith, div-le_self (suc a) (suc k)))

-- From `ways` to `ways + i`, what is gained is the drop of the curve over `i`.
pub utility :
    (ways i : ℕ) (a b : ℤ)
    → 0 < i
    → Count a
    → Count b
    → Ensures (marginal_utility ways (ways + i) a b) (λ mu. pos_part mu ≡ neg_part (b -ℤ a) / i)
unfolding marginal_utility
utility ways zero a b h p q = absurd (omega arith)
utility ways (suc k) a b h p q =
    let small = minus_small a b p q in
    rw (minus_counts a b p q, minus_more ways k, quotient_in (b -ℤ a) k small.0 small.1)
      (over_negative (b -ℤ a) k)

-- What the search from `ways` has found before it looks at `i` extra ways, on a curve of `entries`
-- entries that has dropped by `drop` at the end.
pub record Found (entries ways drop i : ℕ) (best : MaxMu) : Type 0 where
  pub nonneg : neg_part best.max_mu ≡ 0
  pub chosen :
      (pos_part best.max_mu ≡ 0)
      ⊎ ((ways < best.mu_ways) × (best.mu_ways < ways + i) × (best.mu_ways ≤ entries))
  pub covered : entries < ways + i → (j : ℕ) → i ≤ j → drop / j ≤ pos_part best.max_mu

positive : (x : ℤ) → 0 < pos_part x → neg_part x ≡ 0
positive (pos n) h = refl
positive (negsuc n) h = absurd (omega arith)

parts : (x : ℤ) → (pos_part x ≡ 0) ⊎ (neg_part x ≡ 0)
parts (pos n) = inr refl
parts (negsuc n) = inl refl

div_mono : (n i j : ℕ) → 0 < i → i ≤ j → n / j ≤ n / i
div_mono n i j h k =
    (le-div_iff_mul-le h).1 (omega (arith, div-mul-le_self n j, mul-le-mul_left (n / j) k))

better-Found :
    (entries ways drop i : ℕ) (best : MaxMu) (mu misses : ℤ)
    → 0 < i
    → Found entries ways drop i best
    → (entries ≤ ways + i → pos_part mu ≡ drop / i)
    → Found entries ways drop (suc i) (better mu (ways + i) misses best)
unfolding better
better-Found entries ways drop i best mu misses h f e = elim (Bool-cases (ltb_ℤ best.max_mu mu)) [
  | inl b ↦ rw b (record {
    nonneg = positive mu (omega (arith, ltb→lt _ _ b, f.nonneg));
    chosen = inr (omega arith, omega arith, in_curve (ltb→lt _ _ b));
    covered = λ out j k. later (omega arith) j k;
  })
  | inr b ↦ rw b (record {
    nonneg = f.nonneg;
    chosen = elim f.chosen [ inl z ↦ inl z | inr (x, y, z) ↦ inr (x, omega arith, z) ];
    covered = λ out j k. before (ltb→le _ _ b) (omega arith) j k;
  })
]
  where
    in_curve :
        pos_part best.max_mu + neg_part mu < pos_part mu + neg_part best.max_mu → ways + i ≤ entries
    in_curve l = elim (dec_lt entries (ways + i)) [
      | no n ↦ omega arith
      | yes y ↦ absurd (omega (arith, e (omega arith), f.covered y i (omega arith), f.nonneg))
    ]

    later : entries ≤ ways + i → (j : ℕ) → suc i ≤ j → drop / j ≤ pos_part mu
    later l j k = omega (arith, e l, div_mono drop i j h (omega arith))

    before :
        pos_part mu + neg_part best.max_mu ≤ pos_part best.max_mu + neg_part mu
        → entries ≤ ways + i
        → (j : ℕ) → suc i ≤ j
        → drop / j ≤ pos_part best.max_mu
    before l o j k = omega (arith, e o, div_mono drop i j h (omega arith), f.nonneg, parts mu)

-- A curve says how many entries it has, and has at least one; no entry is negative.
pub record IsCurve (curve : List ℤ) (entries : ℕ) : Type 0 where
  pub counted : load curve 0 ≡ some (pos entries)
  pub nonempty : 0 < entries
  pub room : entries < length curve
  pub values : (w : ℕ) → w ≤ entries → Count (get_or curve w (pos 0))

module _ (curve : List ℤ) (entries : ℕ) (c : IsCurve curve entries) (top : ℤ)
    (end : load curve entries ≡ some top) where
  same_value : (w : ℕ) (v : ℤ) → w ≤ entries → load curve w ≡ some v → get_or curve w (pos 0) ≡ v
  same_value w v l e = cc (load_in curve w (pos 0) (omega (arith, c.room)), e)

  top-Count : Count top
  top-Count =
      subst Count (same_value entries top (omega arith) end) (c.values entries (omega arith))

  value_at-end :
      (w : ℕ) → Ensures (value_at curve entries top w) (λ v. Count v × (entries ≤ w → v ≡ top))
  unfolding value_at
  value_at-end w = elim (Bool-cases (ltb entries w)) [
    | inl b ↦ rw b (top-Count, λ _. refl)
    | inr b ↦
        let l = ltb→le entries w b in
        rw b (
          rw (load_in curve w (pos 0) (omega (arith, c.room)))
            (c.values w l, λ k. at_end w (omega arith)))
  ]
    where
      at_end : (w : ℕ) → w ≡ entries → get_or curve w (pos 0) ≡ top
      at_end w e = rw e (same_value entries top (omega arith) end)

  pub explore-Found :
      (ways : ℕ) (misses : ℤ) (i n : ℕ) (best : MaxMu)
      → 0 < i
      → Count misses
      → let drop = neg_part (top -ℤ misses) in
        Found entries ways drop i best
        → Ensures (explore curve ways entries misses top i n best) (Found entries ways drop (i + n))
  unfolding explore
  explore-Found ways misses i zero best h m f =
      subst (λ k. Found entries ways (neg_part (top -ℤ misses)) k best) (omega arith) f
  explore-Found ways misses i (suc n) best h m f =
      Ensures-bind (value_at curve entries top (ways + i))
        (λ v. Count v × (entries ≤ ways + i → v ≡ top)) _
        (Found entries ways (neg_part (top -ℤ misses)) (i + suc n)) (value_at-end (ways + i))
        (λ v at.
          Ensures-bind (marginal_utility ways (ways + i) misses v)
            (λ mu. pos_part mu ≡ neg_part (v -ℤ misses) / i) _ _ (utility ways i misses v h m at.0)
            (λ mu e.
              subst
                (λ k.
                  Ensures
                    (explore curve ways entries misses top (suc i) n (better mu (ways + i) v best))
                    (Found entries ways (neg_part (top -ℤ misses)) k))
                {y = i + suc n} (omega arith)
                (explore-Found ways misses (suc i) n (better mu (ways + i) v best) (omega arith) m (
                  better-Found entries ways (neg_part (top -ℤ misses)) i best mu v h f
                    (λ l. e ∙ ap (λ t. neg_part (t -ℤ misses) / i) (at.1 l))))))

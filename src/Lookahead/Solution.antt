-- ===== src/Lookahead/Solution.antt =====
-- The result of the lookahead algorithm.
use pmctrack.Prelude.{
  ℕ, zero, suc, ◌+◌, ◌-◌, ◌*◌, ◌≤◌, ◌<◌, ◌≡◌, refl, ap, sym, ◌∙◌, ◌⊎◌, inl, inr, List, [], ◌∷◌,
  none, some, arith, ltb, if◌then◌else◌, length, get_or, set, replicate, min, Ensures, Ensures-mono,
  ℕ_discrete,
}
use pmctrack.Prelude.Int.{ℤ, pos, pos_part, neg_part, ◌-ℤ◌}
use pmctrack.Memory.{load, load_in}
use pmctrack.Lookahead.{MaxMu, no_mu, get_max_mu_gen, share_out, explore}
use pmctrack.Lookahead.Utility.{IsCurve, Found, explore-Found}

-- A curve reaches as far as `ways`.
abbrev pub Reaches : List ℤ → ℕ → Type 0
Reaches curve ways = (entries : ℕ) × IsCurve curve entries × (ways ≤ entries)

-- No number of ways gains, or the one that does is above `ways`, available and on the curve.
pub record Gain (curve : List ℤ) (ways available : ℕ) (m : MaxMu) : Type 0 where
  pub nonneg : neg_part m.max_mu ≡ 0
  pub chosen :
      (pos_part m.max_mu ≡ 0)
      ⊎ ((ways < m.mu_ways) × (m.mu_ways ≤ ways + available) × Reaches curve m.mu_ways)

no_drop : (x : ℤ) → neg_part (x -ℤ x) ≡ 0
unfolding ◌-ℤ◌
no_drop x = ground arith

start :
    (curve : List ℤ) (entries ways : ℕ) (misses top : ℤ)
    → ways ≤ entries
    → load curve ways ≡ some misses
    → load curve entries ≡ some top
    → Found entries ways (neg_part (top -ℤ misses)) 1 no_mu
start curve entries ways misses top l e f = record {
  nonneg = refl;
  chosen = inl refl;
  covered = λ out j k. rw (flat out) (ground arith);
}
  where
    flat : entries < ways + 1 → neg_part (top -ℤ misses) ≡ 0
    flat out =
        let same : top ≡ misses =
          ap (λ o. elim o [ none ↦ top | some v ↦ v ])
            (sym f ∙ ap (load curve) (omega arith) ∙ e) in
        rw same (no_drop misses)

pub get_max_mu_gen-Gain :
    (curve : List ℤ) (ways available nr_ways : ℕ)
    → Reaches curve ways
    → Ensures (get_max_mu_gen curve ways available nr_ways) (Gain curve ways available)
unfolding get_max_mu_gen
get_max_mu_gen-Gain curve ways available nr_ways (entries, c, l) =
    let misses = get_or curve ways (pos 0) in
    let top = get_or curve entries (pos 0) in
    let m : load curve ways ≡ some misses = load_in curve ways (pos 0) (omega (arith, c.room)) in
    let t : load curve entries ≡ some top = load_in curve entries (pos 0) c.room in
    let extra = min available (nr_ways - ways) in
    rw m (
      rw c.counted (
        rw t (
          Ensures-mono (explore curve ways entries misses top 1 extra no_mu)
            (Found entries ways (neg_part (top -ℤ misses)) (1 + extra)) (Gain curve ways available)
            (explore-Found curve entries c top t ways misses 1 extra no_mu (omega arith)
              (c.values ways l) (start curve entries ways misses top l m t))
            (λ g f. record {
              nonneg = f.nonneg;
              chosen = elim f.chosen [
                | inl z ↦ inl z
                | inr (x, y, z) ↦ inr (x, omega arith, (entries, c, z))
              ];
            }))))

abbrev pub sum : List ℕ → ℕ
sum [] = 0
sum (x ∷ xs) = x + sum xs

pub sum-set :
    (xs : List ℕ) (i v : ℕ) → i < length xs → sum (set xs i v) + get_or xs i 0 ≡ sum xs + v
sum-set [] i v h = absurd (omega arith)
sum-set (x ∷ xs) zero v h = omega arith
sum-set (x ∷ xs) (suc i) v h = omega (arith, sum-set xs i v (omega arith))

pub sum-replicate : (n : ℕ) → sum (replicate n 1) ≡ n
sum-replicate zero = refl
sum-replicate (suc n) = omega (arith, sum-replicate n)

pub sum-share_out :
    (fair r available : ℕ) (ws : List ℕ)
    → available ≡ fair * length ws + r
    → r ≤ length ws
    → sum (share_out fair r available ws) ≡ sum ws + available
unfolding share_out
sum-share_out fair r available [] e h = omega arith
sum-share_out fair r available (w ∷ ws) e h = elim (ℕ_discrete available 0) [
  | yes z ↦ ground arith
  | no nz ↦
      let rest =
        sum-share_out fair (r - 1) (available - (if ltb 0 r then fair + 1 else fair)) ws
          (ground arith) (omega arith) in
      ground (arith, rest)
]

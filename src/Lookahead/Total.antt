-- ===== src/Lookahead/Total.antt =====
-- The lookahead algorithm gives out every way.
use native.Mathlib.Nat.{mod-lt, div-add-mod'}
use pmctrack.Prelude.{
  ℕ, zero, suc, ◌+◌, ◌-◌, ◌/◌, ◌%◌, ◌≤◌, ◌<◌, ◌≡◌, refl, inl, inr, ◌∙◌, List, [], ◌∷◌, arith, ltb,
  if◌then◌else◌, length, get_or, replicate, Ensures, Ensures-bind, Bool-cases, length-replicate,
}
use pmctrack.Prelude.Int.{ℤ}
use pmctrack.Lookahead.{rounds, share_out, lookahead_algorithm}
use pmctrack.Lookahead.Utility.{IsCurve}
use pmctrack.Lookahead.Solution.{sum, sum-replicate, sum-share_out}
use pmctrack.Lookahead.Rounds.{Partial, rounds-Partial}

length-share_out : (fair r a : ℕ) (ws : List ℕ) → length (share_out fair r a ws) ≡ length ws
unfolding share_out
length-share_out fair r a [] = refl
length-share_out fair r a (w ∷ ws) =
    ground (arith, length-share_out fair (r - 1) (a - (if ltb 0 r then fair + 1 else fair)) ws)

share_out-grows :
    (fair r a : ℕ) (ws : List ℕ) (j : ℕ) → get_or ws j 0 ≤ get_or (share_out fair r a ws) j 0
unfolding share_out
share_out-grows fair r a [] j = omega arith
share_out-grows fair r a (w ∷ ws) zero = ground arith
share_out-grows fair r a (w ∷ ws) (suc j) =
    ground (arith, share_out-grows fair (r - 1) (a - (if ltb 0 r then fair + 1 else fair)) ws j)

get_or-replicate : (n j : ℕ) → j < n → get_or (replicate n (suc zero)) j 0 ≡ suc zero
get_or-replicate zero j h = absurd (omega arith)
get_or-replicate (suc n) zero h = refl
get_or-replicate (suc n) (suc j) h = get_or-replicate n j (omega arith)

-- A solution for `n` applications gives out all ways, at least one to each.
pub record Solves (n nr_ways : ℕ) (solution : List ℕ) : Type 0 where
  pub sized : length solution ≡ n
  pub total : sum solution ≡ nr_ways
  pub each : (j : ℕ) → j < n → 0 < get_or solution j 0

module _ (curves : List (List ℤ)) (nr_ways : ℕ) where
  shared-Solves :
      (a : ℕ) (s : List ℕ)
      → 0 < length curves
      → Partial curves nr_ways a s
      → let n = length curves in
        Solves n nr_ways (if ltb 0 a then share_out (a / n) (a % n) a s else s)
  shared-Solves a s some_app p = elim (Bool-cases (ltb 0 a)) [
    | inl b ↦ rw b (record {
      sized = length-share_out (a / n) (a % n) a s ∙ p.sized;
      total = omega (
        arith,
        sum-share_out (a / n) (a % n) a s (rw (p.sized) (omega (arith, div-add-mod' a n)))
            (omega (arith, p.sized, mod-lt a {m = n} some_app)),
        p.total,
      );
      each = λ j h.
          omega (
            arith,
            share_out-grows (a / n) (a % n) a s j,
            (p.reaches j (omega (arith, p.sized))).0,
          );
    })
    | inr b ↦ rw b (record {
      sized = p.sized;
      total = ground (arith, p.total);
      each = λ j h. (p.reaches j (omega (arith, p.sized))).0;
    })
  ]
    where
      n : ℕ
      n = length curves

  start-Partial :
      length curves ≤ nr_ways
      → ((j : ℕ) → j < length curves → (entries : ℕ) × IsCurve (get_or curves j []) entries)
      → Partial curves nr_ways (nr_ways - length curves) (replicate (length curves) 1)
  start-Partial h c = record {
    sized = length-replicate (length curves) (suc zero);
    total = omega (arith, sum-replicate (length curves));
    reaches = λ j k.
        let l : j < length curves = omega (arith, length-replicate (length curves) (suc zero)) in
        let (e, cu) = c j l in
        rw (get_or-replicate (length curves) j l) (omega arith, (e, cu, cu.nonempty));
  }

  -- With at least one application, a way for each, and curves that have the entries that they say,
  -- of which there is at least one and none is negative, the algorithm ends within the rounds given,
  -- reads only entries that the curves have, computes no utility outside of the range of `int`, and
  -- its solution gives out all ways, at least one to each application.
  pub lookahead_algorithm_lem :
      0 < length curves
      → length curves ≤ nr_ways
      → ((j : ℕ) → j < length curves → (entries : ℕ) × IsCurve (get_or curves j []) entries)
      → Ensures (lookahead_algorithm curves nr_ways) (Solves (length curves) nr_ways)
  unfolding lookahead_algorithm
  lookahead_algorithm_lem some_app h c =
      Ensures-bind
        (rounds nr_ways curves nr_ways (nr_ways - length curves) (replicate (length curves) 1))
        (λ r. Partial curves nr_ways r.0 r.1) _ _
        (rounds-Partial nr_ways curves nr_ways (nr_ways - length curves)
          (replicate (length curves) 1) (omega arith) (start-Partial h c))
        (λ r p. shared-Solves r.0 r.1 some_app p)

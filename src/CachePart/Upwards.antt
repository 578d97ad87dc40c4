-- ===== src/CachePart/Upwards.antt =====
-- The ascending loop gives out all ways.
use pmctrack.Prelude.{
  ℕ, zero, suc, ◌+◌, ◌*◌, ◌^◌, ◌≤◌, ◌<◌, ◌≡◌, refl, subst, List, [], ◌∷◌, Bool, true, false, arith,
  length, if◌then◌else◌, add32, sub32,
}
use pmctrack.CachePart.{Partition}
use pmctrack.CachePart.Resize.{Shares, extra_way, place, resize_up}
use pmctrack.CachePart.Layout.{IsPlaced, Tiled}

pub mul_suc : (a n : ℕ) → a * suc n ≡ a + a * n
mul_suc a n = omega arith

module _ (s : Shares) where
  -- How many of the `n` positions from `i` on are neighbours,
  abbrev pub near_up : ℕ → ℕ → ℕ
  near_up i zero = 0
  near_up i (suc n) = (if s.near i then 1 else 0) + near_up (suc i) n

  -- and how many may get a spare way at all.
  abbrev pub served_up : ℕ → ℕ → ℕ
  served_up i zero = 0
  served_up i (suc n) = (if s.skip i then 0 else 1) + served_up (suc i) n

-- A neighbour may get a spare way.
abbrev pub Apart : Shares → Type 0
Apart s = (i : ℕ) → s.near i ≡ true → s.skip i ≡ false

module _ (s : Shares) (apart : Apart s) where
  near_up-le : (i n : ℕ) → near_up s i n ≤ served_up s i n
  near_up-le i zero = omega arith
  near_up-le i (suc n) = ground (arith, apart i, near_up-le (suc i) n)

  -- One position takes at most one spare way, and leaves no more than the rest can take.
  pub extra_way_lem :
      (i nr_extra nr_remaining n m : ℕ)
      → nr_extra ≤ (if s.near i then 1 else 0) + n
      → nr_extra + nr_remaining ≤ (if s.skip i then 0 else 1) + m
      → n ≤ m
      → let (extra, e, r) = extra_way s i nr_extra nr_remaining in
        ((if extra then 1 else 0) + e + r ≡ nr_extra + nr_remaining) × (e ≤ n) × (e + r ≤ m)
  unfolding extra_way
  extra_way_lem i nr_extra nr_remaining n m h k l = ground (arith, apart i)

  IsPlaced-up :
      (p : Partition) (i next top : ℕ) (x : Bool)
      → 0 < s.fair
      → next + s.fair + (if x then 1 else 0) < 2 ^ 31
      → top ≡ sub32 (add32 next s.fair) 1
      → let high = if x then add32 top 1 else top in
        IsPlaced s.fair i next (place p next high i x)
        × (add32 high 1 ≡ next + (place p next high i x).nr_ways)
        × ((place p next high i x).nr_ways ≡ s.fair + (if x then 1 else 0))
  unfolding place
  IsPlaced-up p i next top true f h e = ground arith
  IsPlaced-up p i next top false f h e = ground arith

  pub resize_up-Tiled :
      (ps : List Partition) (i next nr_extra nr_remaining end : ℕ)
      → 0 < s.fair
      → end < 2 ^ 31
      → next + s.fair * length ps + nr_extra + nr_remaining ≡ end
      → nr_extra ≤ near_up s i (length ps)
      → nr_extra + nr_remaining ≤ served_up s i (length ps)
      → Tiled s.fair i next (resize_up s i next nr_extra nr_remaining ps) end
  unfolding resize_up
  resize_up-Tiled [] i next nr_extra nr_remaining end f small e h k = omega arith
  resize_up-Tiled (p ∷ ps) i next nr_extra nr_remaining end f small e h k = (
    here.0,
    subst (λ low. Tiled s.fair (suc i) low (resize_up s (suc i) (add32 high 1) e' r' ps) end) here.1
        (resize_up-Tiled ps (suc i) (add32 high 1) e' r' end f small
          (omega (arith, here, shared, e, mul_suc s.fair (length ps))) shared.1 shared.2),
  )
    where
      x : Bool
      x = (extra_way s i nr_extra nr_remaining).0

      e' : ℕ
      e' = (extra_way s i nr_extra nr_remaining).1

      r' : ℕ
      r' = (extra_way s i nr_extra nr_remaining).2

      high : ℕ
      high = if x then add32 (sub32 (add32 next s.fair) 1) 1 else sub32 (add32 next s.fair) 1

      shared :
          ((if x then 1 else 0) + e' + r' ≡ nr_extra + nr_remaining)
          × (e' ≤ near_up s (suc i) (length ps))
          × (e' + r' ≤ served_up s (suc i) (length ps))
      shared =
          extra_way_lem i nr_extra nr_remaining (near_up s (suc i) (length ps))
            (served_up s (suc i) (length ps)) h k (near_up-le (suc i) (length ps))

      here :
          IsPlaced s.fair i next (place p next high i x)
          × (add32 high 1 ≡ next + (place p next high i x).nr_ways)
          × ((place p next high i x).nr_ways ≡ s.fair + (if x then 1 else 0))
      here =
          IsPlaced-up p i next (sub32 (add32 next s.fair) 1) x f
            (omega (arith, shared.0, e, small, mul_suc s.fair (length ps))) refl

-- ===== src/CachePart/Downwards.antt =====
-- The descending loop gives out all ways.
use pmctrack.Prelude.{
  ℕ, zero, suc, ◌+◌, ◌-◌, ◌*◌, ◌^◌, ◌≤◌, ◌<◌, ◌≡◌, refl, subst, sym, List, [], ◌∷◌, Bool, true,
  false, arith, length, if◌then◌else◌, add32, sub32,
}
use pmctrack.CachePart.{Partition}
use pmctrack.CachePart.Resize.{Shares, extra_way, place, resize_down}
use pmctrack.CachePart.Layout.{IsPlaced, Tiled}
use pmctrack.CachePart.Upwards.{Apart, extra_way_lem, mul_suc}

module _ (s : Shares) where
  -- How many of the first `n` positions are neighbours,
  abbrev pub near_down : ℕ → ℕ
  near_down zero = 0
  near_down (suc n) = (if s.near n then 1 else 0) + near_down n

  -- and how many may get a spare way at all.
  abbrev pub served_down : ℕ → ℕ
  served_down zero = 0
  served_down (suc n) = (if s.skip n then 0 else 1) + served_down n

module _ (s : Shares) (apart : Apart s) where
  near_down-le : (n : ℕ) → near_down s n ≤ served_down s n
  near_down-le zero = omega arith
  near_down-le (suc n) = ground (arith, apart n, near_down-le n)

  IsPlaced-down :
      (p : Partition) (i top bottom : ℕ) (x : Bool)
      → 0 < s.fair
      → s.fair + (if x then 1 else 0) ≤ top
      → top < 2 ^ 31
      → bottom ≡ add32 (sub32 (sub32 top 1) s.fair) 1
      → let low = if x then sub32 bottom 1 else bottom in
        IsPlaced s.fair i low (place p low (sub32 top 1) i x)
        × (low + (place p low (sub32 top 1) i x).nr_ways ≡ top)
        × ((place p low (sub32 top 1) i x).nr_ways ≡ s.fair + (if x then 1 else 0))
  unfolding place
  IsPlaced-down p i top bottom true f h k e = ground arith
  IsPlaced-down p i top bottom false f h k e = ground arith

  pub resize_down-Tiled :
      (ps : List Partition) (i next top nr_extra nr_remaining : ℕ) (done : List Partition) (end : ℕ)
      → 0 < s.fair
      → top < 2 ^ 31
      → next ≡ sub32 top 1
      → i ≡ length ps - 1
      → top ≡ s.fair * length ps + nr_extra + nr_remaining
      → nr_extra ≤ near_down s (length ps)
      → nr_extra + nr_remaining ≤ served_down s (length ps)
      → Tiled s.fair (length ps) top done end
      → Tiled s.fair 0 0 (resize_down s i next nr_extra nr_remaining ps done) end
  unfolding resize_down
  resize_down-Tiled [] i next top nr_extra nr_remaining done end f small nx ix e h k t =
      subst (λ low. Tiled s.fair 0 low done end) (omega arith) t
  resize_down-Tiled (p ∷ ps) i next top nr_extra nr_remaining done end f small nx ix e h k t =
      resize_down-Tiled ps (i - 1) (sub32 low 1) low e' r' (place p low next i x ∷ done) end f
        (omega (arith, here)) refl (omega arith)
        (omega (arith, here, shared, e, mul_suc s.fair (length ps))) shared.1 shared.2
        (
          subst (λ j. IsPlaced s.fair j low (place p low next i x)) at here.0,
          subst (λ w. Tiled s.fair (suc (length ps)) w done end) (sym here.1) t,
        )
    where
      at : i ≡ length ps
      at = omega arith

      x : Bool
      x = (extra_way s i nr_extra nr_remaining).0

      e' : ℕ
      e' = (extra_way s i nr_extra nr_remaining).1

      r' : ℕ
      r' = (extra_way s i nr_extra nr_remaining).2

      low : ℕ
      low = if x then sub32 (add32 (sub32 next s.fair) 1) 1 else add32 (sub32 next s.fair) 1

      shared :
          ((if x then 1 else 0) + e' + r' ≡ nr_extra + nr_remaining)
          × (e' ≤ near_down s (length ps))
          × (e' + r' ≤ served_down s (length ps))
      shared =
          extra_way_lem s apart i nr_extra nr_remaining (near_down s (length ps))
            (served_down s (length ps)) (rw at h) (rw at k) (near_down-le (length ps))

      here :
          IsPlaced s.fair i low (place p low next i x)
          × (low + (place p low next i x).nr_ways ≡ top)
          × ((place p low next i x).nr_ways ≡ s.fair + (if x then 1 else 0))
      here = rw nx (
          IsPlaced-down p i top (add32 (sub32 (sub32 top 1) s.fair) 1) x f
            (omega (arith, shared.0, e, mul_suc s.fair (length ps))) small refl)

-- ===== src/CachePart/Neighbours.antt =====
-- How many positions may get a spare way when a partition is inserted or removed.
use pmctrack.Prelude.{ℕ, zero, suc, ◌+◌, ◌≡◌, refl, arith, ltb, if◌then◌else◌}
use pmctrack.CachePart.Resize.{insert_shares, remove_shares}
use pmctrack.CachePart.Upwards.{Apart, near_up, served_up}
use pmctrack.CachePart.Downwards.{near_down, served_down}

-- 1 where `a` lies in the range from `i` on of length `n`
abbrev pub inside : ℕ → ℕ → ℕ → ℕ
inside a i n = if ltb a i then 0 else if ltb a (i + n) then 1 else 0

-- All positions but that of the inserted partition may get a spare way, and it has two neighbours.
module _ (gap fair : ℕ) where
  pub insert-Apart : Apart (insert_shares gap fair)
  insert-Apart i = ground arith

  pub insert-served_up : (i n : ℕ) → served_up (insert_shares gap fair) i n + inside gap i n ≡ n
  insert-served_up i zero = ground arith
  insert-served_up i (suc n) = ground (arith, insert-served_up (suc i) n)

  pub insert-served_down : (n : ℕ) → served_down (insert_shares gap fair) n + inside gap 0 n ≡ n
  insert-served_down zero = ground arith
  insert-served_down (suc n) = ground (arith, insert-served_down n)

  pub insert-near_up :
      (i n : ℕ) → near_up (insert_shares gap fair) i n ≡ inside (gap + 1) i n + inside gap (i + 1) n
  insert-near_up i zero = ground arith
  insert-near_up i (suc n) = ground (arith, insert-near_up (suc i) n)

  pub insert-near_down :
      (n : ℕ) → near_down (insert_shares gap fair) n ≡ inside (gap + 1) 0 n + inside gap 1 n
  insert-near_down zero = ground arith
  insert-near_down (suc n) = ground (arith, insert-near_down n)

-- All positions may get a spare way, and the removed partition had two neighbours.
module _ (idx fair : ℕ) where
  pub remove-Apart : Apart (remove_shares idx fair)
  remove-Apart i h = refl

  pub remove-served_up : (i n : ℕ) → served_up (remove_shares idx fair) i n ≡ n
  remove-served_up i zero = refl
  remove-served_up i (suc n) = omega (arith, remove-served_up (suc i) n)

  pub remove-served_down : (n : ℕ) → served_down (remove_shares idx fair) n ≡ n
  remove-served_down zero = refl
  remove-served_down (suc n) = omega (arith, remove-served_down n)

  pub remove-near_up :
      (i n : ℕ) → near_up (remove_shares idx fair) i n ≡ inside idx i n + inside idx (i + 1) n
  remove-near_up i zero = ground arith
  remove-near_up i (suc n) = ground (arith, remove-near_up (suc i) n)

  pub remove-near_down :
      (n : ℕ) → near_down (remove_shares idx fair) n ≡ inside idx 0 n + inside idx 1 n
  remove-near_down zero = ground arith
  remove-near_down (suc n) = ground (arith, remove-near_down n)

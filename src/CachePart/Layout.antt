-- ===== src/CachePart/Layout.antt =====
-- What it means that partitions cover a range of ways.
use pmctrack.Prelude.{ℕ, suc, ◌+◌, ◌≡◌, List, [], ◌∷◌, if◌then◌else◌}
use pmctrack.CachePart.{Partition, determine_part_mask}

-- Partition `p` is the `i`-th, starts at way `low`, and has `fair` ways or one more.
pub record IsPlaced (fair i low : ℕ) (p : Partition) : Type 0 where
  pub starts : p.low_way ≡ low
  pub ends : p.high_way + 1 ≡ low + p.nr_ways
  pub ways : p.nr_ways ≡ fair + (if p.has_extra_way then 1 else 0)
  pub numbered : p.part_id ≡ i
  pub masked : p.part_mask ≡ determine_part_mask p.nr_ways low
  pub unbiased : p.bias ≡ 0

-- The partitions, numbered from `i` on, cover the ways from `low` up to `end`, which is outside,
-- one behind the other.
abbrev pub Tiled : ℕ → ℕ → ℕ → List Partition → ℕ → Type 0
Tiled fair i low [] end = low ≡ end
Tiled fair i low (p ∷ ps) end = IsPlaced fair i low p × Tiled fair (suc i) (low + p.nr_ways) ps end

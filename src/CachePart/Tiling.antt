-- ===== src/CachePart/Tiling.antt =====
-- Either loop lays the partitions out over all ways, and keeps them in order.
use native.Mathlib.Nat.{mod-lt, div-add-mod', le-div_iff_mul-le}
use mathlib.Core.List.{reverse, reverse-cons, reverse-reverse, map-append}
use pmctrack.Prelude.{
  ℕ, suc, ◌+◌, ◌-◌, ◌*◌, ◌/◌, ◌%◌, ◌^◌, ◌≤◌, ◌<◌, ◌≡◌, refl, ap, sym, ◌∙◌, List, [], ◌∷◌, ◌++◌,
  Bool, true, false, arith, length, length-append, map, append-nil, append_assoc, sub32,
}
use pmctrack.CachePart.{Partition}
use pmctrack.CachePart.Resize.{Shares, resize, place, resize_up, resize_down, give_away}
use pmctrack.CachePart.Layout.{Tiled}
use pmctrack.CachePart.Upwards.{Apart, near_up, served_up, resize_up-Tiled}
use pmctrack.CachePart.Downwards.{near_down, served_down, resize_down-Tiled}

pub length-reverse : (ps : List Partition) → length (reverse ps) ≡ length ps
length-reverse [] = refl
length-reverse (p ∷ ps) =
    omega
      (arith, ap length (reverse-cons p ps), length-append (reverse ps) (p ∷ []), length-reverse ps)

pub resize-Tiled :
    (b : Bool) (s : Shares) (apart : Apart s) (nr_ways nr_extra nr_remaining : ℕ)
    (ps : List Partition)
    → 0 < s.fair
    → nr_ways < 2 ^ 31
    → nr_ways ≡ s.fair * length ps + nr_extra + nr_remaining
    → nr_extra ≤ near_up s 0 (length ps)
    → nr_extra + nr_remaining ≤ served_up s 0 (length ps)
    → nr_extra ≤ near_down s (length ps)
    → nr_extra + nr_remaining ≤ served_down s (length ps)
    → Tiled s.fair 0 0 (resize b s nr_ways nr_extra nr_remaining ps) nr_ways
unfolding resize
resize-Tiled true s apart nr_ways e r ps f small sum u v d w =
    resize_up-Tiled s apart ps 0 0 e r nr_ways f small (omega arith) u v
resize-Tiled false s apart nr_ways e r ps f small sum u v d w =
    let l = length-reverse ps in
    resize_down-Tiled s apart (reverse ps) (length ps - 1) (sub32 nr_ways 1) nr_ways e r [] nr_ways
      f small refl (omega arith) (rw l sum) (rw l d) (rw l w) refl

-- the partitions of a list, in order
abbrev pub ids : List Partition → List ℕ
ids = map (λ p. p.part_index)

ids-resize_up :
    (s : Shares) (i next e r : ℕ) (ps : List Partition) → ids (resize_up s i next e r ps) ≡ ids ps
unfolding resize_up place
ids-resize_up s i next e r [] = refl
ids-resize_up s i next e r (p ∷ ps) = ap (◌∷◌ p.part_index) (ids-resize_up s (suc i) _ _ _ ps)

ids-resize_down :
    (s : Shares) (i next e r : ℕ) (ps done : List Partition)
    → ids (resize_down s i next e r ps done) ≡ ids (reverse ps ++ done)
unfolding resize_down place
ids-resize_down s i next e r [] done = refl
ids-resize_down s i next e r (p ∷ ps) done =
    ids-resize_down s (i - 1) _ _ _ ps _
    ∙ map-append (λ (q : Partition). q.part_index) (reverse ps) _
    ∙ sym (map-append (λ (q : Partition). q.part_index) (reverse ps) (p ∷ done))
    ∙ ap ids (sym (rw (reverse-cons p ps) (append_assoc (reverse ps) (p ∷ []) done)))

-- Laying out anew keeps the partitions and their order.
pub ids-resize :
    (b : Bool) (s : Shares) (nr_ways e r : ℕ) (ps : List Partition)
    → ids (resize b s nr_ways e r ps) ≡ ids ps
unfolding resize
ids-resize true s nr_ways e r ps = ids-resize_up s 0 0 e r ps
ids-resize false s nr_ways e r ps =
    ids-resize_down s (length ps - 1) (sub32 nr_ways 1) e r (reverse ps) []
    ∙ ap ids (append-nil (reverse (reverse ps)) ∙ reverse-reverse ps)

-- The ways that are left over by an equal share are fewer than the partitions.
pub share_lem : (n m : ℕ) → 0 < m → m ≤ n → (0 < n / m) × (n % m < m) × (n ≡ n / m * m + n % m)
share_lem n m h k = (
  (le-div_iff_mul-le {k = m} {x = 1} {y = n} h).1 (omega arith),
  mod-lt n h,
  sym (div-add-mod' n m),
)

pub give_lem :
    (b : Bool) (r : ℕ) → (give_away b r ≤ r) × (give_away b r ≤ 2) × (b ≡ true → give_away b r ≡ 0)
unfolding give_away
give_lem b r = ground arith

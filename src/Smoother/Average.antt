-- ===== src/Smoother/Average.antt =====
-- The average that a smoother gives, over its whole life.
use pmctrack.Prelude.{
  ℕ, ◌-◌, ◌^◌, ◌<◌, ◌≡◌, refl, ap, sym, subst, ◌∙◌, List, [], ◌∷◌, ◌++◌, Option, some, arith, min,
  length, drop, append_assoc, append-nil, ◌>>=◌, Ensures, Ensures-bind, Ensures-mono,
}
use pmctrack.Prelude.Newest.{newest, newest-append}
use pmctrack.Smoother.{
  MetricSmoother, mc_max_cbuffer_size, init_mc_cbuffer, push_mc_cbuffer, init_metric_smoother,
  add_new_metric_sample_mst, get_cur_average_mst,
}
use pmctrack.Smoother.Window.{
  average_of, Averages, push_mc_cbuffer-newest, add_new_metric_sample_mst_lem,
}
use pmctrack.Smoother.Ring.{IsRing, Pushed, push_mc_cbuffer_lem}

-- A smoother that is fed with samples, one after the other
abbrev pub add_samples : MetricSmoother → List ℕ → Option MetricSmoother
add_samples mt [] = some mt
add_samples mt (x ∷ xs) = do (average, mt') ← add_new_metric_sample_mst mt x; add_samples mt' xs

pub add_samples_lem :
    (m : ℕ) (window : List ℕ) (mt : MetricSmoother) (xs : List ℕ)
    → Averages m (newest m window) mt
    → Ensures (add_samples mt xs) (Averages m (newest m (window ++ xs)))
add_samples_lem m window mt [] a =
    subst (λ w. Averages m (newest m w) mt) (sym (append-nil window)) a
add_samples_lem m window mt (x ∷ xs) a =
    Ensures-bind (add_new_metric_sample_mst mt x) _ _ _
      (add_new_metric_sample_mst_lem m (newest m window) mt x a)
      (λ r p.
        subst (λ w. Ensures (add_samples r.1 xs) (Averages m (newest m w)))
          (append_assoc window (x ∷ []) xs)
          (add_samples_lem m (window ++ x ∷ []) r.1 xs
            (subst (λ w. Averages m w r.1) (newest-append m window (x ∷ [])) p.1)))

-- The capacity of the ring
abbrev pub capacity : ℕ → ℕ
capacity sample_window_length = min sample_window_length mc_max_cbuffer_size

init-room : (items : List ℕ) (n : ℕ) → (init_mc_cbuffer items n).max_size ≡ capacity n
unfolding init_mc_cbuffer
init-room items n = ground arith

newest-single : (m x : ℕ) → 0 < m → newest m (x ∷ []) ≡ x ∷ []
newest-single m x p = ap (λ k. drop k (x ∷ [])) {x = 1 - m} {y = 0} (omega arith)

init-IsRing :
    (items : List ℕ) (n : ℕ)
    → length items ≡ mc_max_cbuffer_size
    → 0 < n
    → IsRing (init_mc_cbuffer items n)
unfolding init_mc_cbuffer
init-IsRing items n l p = record {
  stored = ground arith;
  some_room = ground arith;
  small = ground arith;
  head_in = ground arith;
  size_le = ground arith;
}

init_metric_smoother_lem :
    (items : List ℕ) (n initial : ℕ)
    → length items ≡ mc_max_cbuffer_size
    → 0 < n
    → initial < 2 ^ 64
    → Ensures
        (init_metric_smoother items n initial)
        (Averages (capacity n) (newest (capacity n) (initial ∷ [])))
unfolding init_metric_smoother init_mc_cbuffer
init_metric_smoother_lem items n initial l p b =
    let c = init_mc_cbuffer items n in
    let v = init-IsRing items n l p in
    Ensures-bind (push_mc_cbuffer c initial) (Pushed c initial) _ _
      (push_mc_cbuffer_lem c initial v)
      (λ cbuf q.
        let r = init-room items n in
        let held = push_mc_cbuffer-newest (capacity n) c cbuf [] initial r refl q in
        let one = newest-single (capacity n) initial (omega arith) in
        subst
          (λ w. Averages (capacity n) w (record { cbuf = cbuf; acum = initial; average = initial }))
          (sym one)
          (record {
            ring = q.0;
            room = q.1 ∙ r;
            held = held ∙ one;
            summed = omega arith;
            averaged = omega arith;
          }))

-- A smoother, set up with a positive window and a first value of 64 bits, and then fed with any
-- samples, never faults. What it gives is the average of the newest of these values, as many as the
-- window holds and twenty at most: their sum on 64 bits, divided by their number.
pub get_cur_average_mst-add_samples :
    (items : List ℕ) (n initial : ℕ) (xs : List ℕ)
    → length items ≡ mc_max_cbuffer_size
    → 0 < n
    → initial < 2 ^ 64
    → Ensures
        (init_metric_smoother items n initial >>= (λ mt. add_samples mt xs))
        (λ mt. get_cur_average_mst mt ≡ average_of (newest (min n 20) (initial ∷ xs)))
unfolding get_cur_average_mst
get_cur_average_mst-add_samples items n initial xs l p b =
    Ensures-bind (init_metric_smoother items n initial) _ _ _
      (init_metric_smoother_lem items n initial l p b)
      (λ mt a.
        Ensures-mono (add_samples mt xs) _ _ (add_samples_lem (capacity n) (initial ∷ []) mt xs a)
          (λ mt' a'. a'.averaged))

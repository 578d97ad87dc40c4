-- ===== src/Tests/Averages.antt =====
-- Averages of samples that pass 64 bits, and that outlive the window.
use pmctrack.Prelude.{
  ℕ, ◌≡◌, refl, List, [], ◌∷◌, some, none, arith, min, replicate, ◌>>=◌, Ensures,
}
use pmctrack.Prelude.Newest.{newest}
use pmctrack.Smoother.{
  init_metric_smoother, get_cur_average_mst, add_new_metric_sample_mst, init_mc_cbuffer,
  push_mc_cbuffer, pop_mc_cbuffer, head_mc_cbuffer,
}
use pmctrack.Smoother.Window.{average_of}
use pmctrack.Smoother.Average.{add_samples, get_cur_average_mst-add_samples}

abbrev items : List ℕ
items = replicate 20 7

averages :
    (init_metric_smoother items 3 10 >>= (λ mt. add_samples mt (20 ∷ 30 ∷ 40 ∷ [])))
      >>= (λ mt. some (get_cur_average_mst mt))
    ≡ some 30
unfolding init_metric_smoother add_new_metric_sample_mst get_cur_average_mst
averages = refl

-- Without a window the first sample reads the head of an empty ring.
no_window : (init_metric_smoother items 0 10 >>= (λ mt. add_samples mt (20 ∷ []))) ≡ none
unfolding init_metric_smoother add_new_metric_sample_mst
no_window = refl

popped : (push_mc_cbuffer (init_mc_cbuffer items 3) 4 >>= pop_mc_cbuffer) >>= head_mc_cbuffer ≡ none
unfolding push_mc_cbuffer init_mc_cbuffer pop_mc_cbuffer head_mc_cbuffer
popped = refl

get_cur_average_mst-add_samples_example :
    Ensures
      (init_metric_smoother items 3 10 >>= (λ mt. add_samples mt (20 ∷ 30 ∷ 40 ∷ [])))
      (λ mt. get_cur_average_mst mt ≡ average_of (newest (min 3 20) (10 ∷ 20 ∷ 30 ∷ 40 ∷ [])))
get_cur_average_mst-add_samples_example =
    get_cur_average_mst-add_samples items 3 10 (20 ∷ 30 ∷ 40 ∷ []) refl (omega arith) (omega arith)
